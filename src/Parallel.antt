-- ===== src/Parallel.antt =====
-- hatchery/core/parallel.py: the parallelism of a worker, and its reading from the environment, a
-- dictionary of texts. `lower` is Python's `str.lower` and `int` its `int`.
use hatchery_core.Common.{
  ℕ, ◌*◌, ◌≤◌, ◌<◌, ◌≡◌, ◌⊎◌, refl, String, Bool, true, false, not, ◌&&◌, ◌||◌, List, [], ◌∷◌,
  Option, none, some, ltb, leb, same, ◌==◌, if◌then◌else◌, arith, Bool-cases, Option-cases, inl,
  inr,
}
use hatchery_core.Common.Dict.{Dict, get, get_or}
use hatchery_core.Common.Errors.{Result, ok, raise, value_error, ◌>>=◌, Result-cases}
use hatchery_core.Common.Int.{ℤ, pos, negsuc, ltb_ℤ, mul_ℤ}
pub mod Checks
mod Examples

pub record OffloadConfig : Type 0 where
  pub cpu_offload_params : Bool
  pub cpu_offload_optimizer : Bool
  pub activation_checkpointing : Bool
  pub nvme_path : Option String

-- The fields of `QuantConfig` in hatchery/core/quantization.py.
pub record QuantConfig : Type 0 where
  pub scheme : String
  pub force : Bool
  pub require_full_param : Bool
  pub fp8_mode : String

pub record ParallelConfig : Type 0 where
  pub dp_degree : ℤ
  pub tp_degree : ℤ
  pub cp_degree : ℤ
  pub sequence_parallel : Bool
  pub offload : OffloadConfig
  pub batch_strategy : String
  pub sequence_packing : Bool
  pub max_packed_len : Option ℤ
  pub quant : QuantConfig

abbrev pub world_size : ParallelConfig → ℤ
world_size c = mul_ℤ (mul_ℤ c.dp_degree c.tp_degree) c.cp_degree

abbrev pub is_distributed : ParallelConfig → Bool
is_distributed c = ltb_ℤ (pos 1) (world_size c)

-- `== 1`
abbrev is_one : ℤ → Bool
is_one (pos n) = n == 1
is_one (negsuc n) = false

-- `__post_init__`: the configuration, or the error.
unfoldable pub post_init : ParallelConfig → Result ParallelConfig
post_init c =
    if ltb_ℤ c.dp_degree (pos 1) || (ltb_ℤ c.tp_degree (pos 1) || ltb_ℤ c.cp_degree (pos 1))
    then raise value_error
    else if c.sequence_parallel && is_one c.tp_degree
    then raise value_error
    else if c.sequence_packing && ltb_ℤ (pos 1) c.cp_degree
    then raise value_error
    else elim c.max_packed_len [
      | none ↦ ok c
      | some n ↦ if not (ltb_ℤ (pos 0) n) then raise value_error else ok c
    ]

module _ (lower : String → String) (int : String → Result ℤ) (env : Dict String) where
  -- `os.environ.get(k, default)`
  abbrev env_get : String → String → String
  env_get k default = get_or default (get k env)

  -- `os.environ.get(k, default) == "1"`
  abbrev flag : String → String → Bool
  flag k default = same (env_get k default) "1"

  -- A text that is not there or empty is `None`.
  abbrev non_empty : Option String → Option String
  non_empty none = none
  non_empty (some s) = if same s "" then none else some s

  abbrev optional_int : Option String → Result (Option ℤ)
  optional_int none = ok none
  optional_int (some s) = int s >>= λ n. ok (some n)

  abbrev known_scheme : String → String
  known_scheme s = if same s "none" || (same s "onebit" || same s "fp8_torchao") then s else "none"

  abbrev known_mode : String → String
  known_mode s = if same s "weight_only" || same s "dynamic" then s else "weight_only"

  unfoldable pub from_env : Result ParallelConfig
  unfolding post_init
  from_env = do
    max_packed ← optional_int (non_empty (get "HATCHERY_MAX_PACKED_LEN" env))
    dp ← int (env_get "HATCHERY_DP_DEGREE" "1")
    tp ← int (env_get "HATCHERY_TP_DEGREE" "1")
    cp ← int (env_get "HATCHERY_CP_DEGREE" "1")
    post_init (record {
      dp_degree = dp;
      tp_degree = tp;
      cp_degree = cp;
      sequence_parallel = flag "HATCHERY_SP" "0";
      offload = record {
        cpu_offload_params = flag "HATCHERY_CPU_OFFLOAD_PARAMS" "0";
        cpu_offload_optimizer = flag "HATCHERY_CPU_OFFLOAD_OPTIMIZER" "0";
        activation_checkpointing = flag "HATCHERY_ACTIVATION_CKPT" "0";
        nvme_path = non_empty (get "HATCHERY_NVME_OFFLOAD_PATH" env);
      };
      batch_strategy = env_get "HATCHERY_BATCH_STRATEGY" "auto";
      sequence_packing = flag "HATCHERY_SEQUENCE_PACKING" "0";
      max_packed_len = max_packed;
      quant = record {
        scheme = known_scheme (lower (env_get "HATCHERY_QUANT_SCHEME" "none"));
        force = flag "HATCHERY_QUANT_FORCE" "0";
        require_full_param = flag "HATCHERY_QUANT_REQUIRE_FULL_PARAM" "1";
        fp8_mode = known_mode (lower (env_get "HATCHERY_FP8_MODE" "weight_only"));
      };
    })
