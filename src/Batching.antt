-- ===== src/Batching.antt =====
-- hatchery/core/batching.py: the slice of a data-parallel batch that one rank runs.
pub mod Sums
mod Examples
pub mod Shards
use hatchery_core.Common.{
  ℕ, ◌+◌, ◌-◌, ◌*◌, ◌/◌, ◌%◌, Bool, true, false, not, ◌&&◌, ◌||◌, List, [], ◌∷◌, length, slice,
  ◌==◌, if◌then◌else◌,
}
use hatchery_core.Common.Errors.{Result, ok, raise, value_error}
use hatchery_core.Common.Int.{ℤ, pos, pos_part, ltb_ℤ}

-- The values of `BatchStrategy`, and any other value that the argument may hold at run time.
pub data BatchStrategy : Type 0 where
  auto replicate split unknown : BatchStrategy

-- `wasted_compute_pct`, a quotient of two integers.
pub record Fraction : Type 0 where
  pub num : ℕ
  pub den : ℕ

pub record BatchAllocation {ℓ} (A : Type ℓ) : Type ℓ where
  pub items : List A
  pub total_items : ℕ
  pub local_items : ℕ
  pub strategy : BatchStrategy
  pub replicated : Bool
  pub wasted_compute_pct : Fraction

-- `resolved`
resolve : BatchStrategy → ℕ → ℕ → BatchStrategy
resolve auto total dp = if total % dp == 0 then split else replicate
resolve replicate total dp = replicate
resolve split total dp = split
resolve unknown total dp = unknown

module _ {ℓ} {A : Type ℓ} where
  unfoldable pub whole : List A → ℕ → ℕ → BatchAllocation A
  whole batch num den = record {
    items = batch;
    total_items = length batch;
    local_items = length batch;
    strategy = replicate;
    replicated = true;
    wasted_compute_pct = record { num = num; den = den };
  }

  unfoldable pub shard : List A → ℕ → ℕ → BatchAllocation A
  shard batch dp rank =
      let per_rank = length batch / dp in
      let start = rank * per_rank in
      record {
        items = slice start (start + per_rank) batch;
        total_items = length batch;
        local_items = per_rank;
        strategy = split;
        replicated = false;
        wasted_compute_pct = record { num = 0; den = 1 };
      }

  -- The branches on the resolved strategy.
  allocate : BatchStrategy → List A → ℕ → ℕ → Result (BatchAllocation A)
  unfolding whole shard
  allocate auto batch dp rank = raise value_error
  allocate replicate batch dp rank = ok (whole batch (dp - 1) dp)
  allocate split batch dp rank =
      if not (length batch % dp == 0) then raise value_error else ok (shard batch dp rank)
  allocate unknown batch dp rank = raise value_error

  is_empty : List A → Bool
  is_empty [] = true
  is_empty (x ∷ xs) = false

  unfoldable pub prepare_batch_for_dp : List A → ℤ → ℤ → BatchStrategy → Result (BatchAllocation A)
  unfolding resolve allocate whole is_empty
  prepare_batch_for_dp batch dp_degree rank strategy =
      let dp = pos_part dp_degree in
      if ltb_ℤ dp_degree (pos 1)
      then raise value_error
      else if ltb_ℤ rank (pos 0) || not (ltb_ℤ rank dp_degree)
      then raise value_error
      else if is_empty batch
      then raise value_error
      else if dp == 1
      then ok (whole batch 0 1)
      else allocate (resolve strategy (length batch) dp) batch dp (pos_part rank)

  unfoldable pub replicate_batch_across_dp : List A → ℤ → ℤ → Result (BatchAllocation A)
  unfolding prepare_batch_for_dp
  replicate_batch_across_dp batch dp_degree rank =
      prepare_batch_for_dp batch dp_degree rank replicate

  unfoldable pub split_batch_across_dp : List A → ℤ → ℤ → Result (BatchAllocation A)
  unfolding prepare_batch_for_dp
  split_batch_across_dp batch dp_degree rank = prepare_batch_for_dp batch dp_degree rank split
