-- ===== src/Pool/Examples.antt =====
-- The pools' theorems at pools of two slots: a model is the number of bytes that it takes.
use hatchery_core.Common.{
  ℕ, ◌≡◌, refl, String, [], ◌∷◌, none, some, false, arith, name_eq, inl, inr, ◌≢◌, subst,
}
use hatchery_core.Common.Dict.{get, insert, remove}
use hatchery_core.Common.Errors.{Result, ok, raise, value_error}
use hatchery_core.Pool.Slot.{PoolSlot, Loader, Times, load_slot, make_room}
use hatchery_core.Pool.Rewrap
use hatchery_core.Pool.Rewrap.{RewrapModelPool, loaded_models, get_slot}
use hatchery_core.Pool.Tiered
use hatchery_core.Pool.Tiered.{TieredModelPool}
use hatchery_core.Pool.Recency.{IsPool, Served, get_or_load-Served}
use hatchery_core.Pool.Residency.{IsTiered, Resident, get_or_load-Resident}

-- Every base is found but the one named "missing".
abbrev loader : Loader ℕ ℕ
loader = record {
  load_base = λ name. elim (name_eq name "missing") [ yes _ ↦ raise value_error | no _ ↦ ok 8 ];
  detect_scheme = λ raw name. ok "none";
  load_tokenizer = λ name raw.
      ok (record { tokenizer = none; processor = none; is_vlm = false; vision_token_ids = [] });
}

abbrev times : Times
times = record { touched = 10; started = 10; finished = 12; made = 13 }

abbrev slot : String → PoolSlot ℕ ℕ
slot name = record {
  base_model_name = name;
  raw_base = some 8;
  peft_model = none;
  adapters = [];
  last_touched = 0;
  load_time = some 2;
  parallel_applied = false;
  precision_applied = false;
  tokenizer = none;
  processor = none;
  is_vlm = false;
  vision_token_ids = [];
  host_state_dict = none;
  quant_scheme = "none";
  pristine_sd = none;
  active_session_id = none;
}

abbrev full : RewrapModelPool ℕ ℕ
full = record { max_slots = 2; slots = ("a", slot "a") ∷ ("b", slot "b") ∷ []; released = [] }

full-IsPool : IsPool full
unfolding get name_eq
full-IsPool = record { positive = omega arith; fits = omega arith; distinct = (refl, (refl, tt)) }

-- "a" was used last, so "b" makes room for "c".
recency-run :
    loaded_models
      (Rewrap.get_or_load loader times "c" (Rewrap.get_or_load loader times "a" full).0).0
    ≡ "a" ∷ "c" ∷ []
unfolding Rewrap.get_or_load get_slot make_room load_slot get insert remove name_eq
recency-run = refl

get_or_load-Served_example : Served loader times "c" full (Rewrap.get_or_load loader times "c" full)
get_or_load-Served_example = get_or_load-Served loader times "c" full full-IsPool

abbrev tiers : TieredModelPool ℕ ℕ
tiers = record {
  max_vram_slots = 1;
  max_host_slots = 1;
  vram = ("a", slot "a") ∷ [];
  host = ("b", slot "b") ∷ [];
  released = [];
}

only_b : (q : String) → "b" ≢ q → get q tiers.host ≡ none
unfolding get
only_b q other = ground arith

tiers-IsTiered : IsTiered tiers
unfolding get name_eq
tiers-IsTiered = record {
  positive = omega arith;
  fits = omega arith;
  tiers = record {
    vram_distinct = (refl, tt);
    host_distinct = (refl, tt);
    bounded = omega arith;
    disjoint = λ q. elim (name_eq "b" q) [
      | yes e ↦ inl (subst (λ x. get x tiers.vram ≡ none) e refl)
      | no other ↦ inr (only_b q other)
    ];
  };
}

-- A copy to VRAM for which there is no memory: "b" is lost.
abbrev no_memory : PoolSlot ℕ ℕ → Result (PoolSlot ℕ ℕ)
no_memory s = raise value_error

get_or_load-Resident_example :
    Resident
      (λ s. ok s)
      no_memory
      loader
      times
      "b"
      tiers
      (Tiered.get_or_load (λ s. ok s) no_memory loader times "b" tiers)
get_or_load-Resident_example =
    get_or_load-Resident (λ s. ok s) no_memory loader times "b" tiers tiers-IsTiered
