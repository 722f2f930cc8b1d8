-- ===== src/Pool/Rewrap.antt =====
-- `RewrapModelPool` of hatchery/core/model_pool.py. `released` are the slots that were torn down,
-- the last one first.
use hatchery_core.Common.{ℕ, String, List, [], ◌∷◌, Option, none, some, ltb, length, if◌then◌else◌}
use hatchery_core.Common.Dict.{Dict, get, insert, remove, keys}
use hatchery_core.Common.Errors.{Result, ok, raise, value_error}
use hatchery_core.Common.Ordered.{move_to_end}
use hatchery_core.Pool.Slot.{PoolSlot, Loader, Times, load_slot, make_room, touch}

pub record RewrapModelPool (Model Tok : Type 0) : Type 0 where
  pub max_slots : ℕ
  pub slots : Dict (PoolSlot Model Tok)
  pub released : List (PoolSlot Model Tok)

module _ {Model Tok : Type 0} where
  abbrev pub teardown_slot : PoolSlot Model Tok → PoolSlot Model Tok
  teardown_slot slot = record slot { raw_base = none; peft_model = none }

  unfoldable pub new_rewrap : ℕ → Result (RewrapModelPool Model Tok)
  new_rewrap max =
      if ltb max 1
      then raise value_error
      else ok (record { max_slots = max; slots = []; released = [] })

  abbrev pub loaded_models : RewrapModelPool Model Tok → List String
  loaded_models p = keys p.slots

  abbrev pub size : RewrapModelPool Model Tok → ℕ
  size p = length p.slots

  unfoldable pub get_slot :
      ℕ
      → String
      → RewrapModelPool Model Tok
      → RewrapModelPool Model Tok × Option (PoolSlot Model Tok)
  get_slot now name p = elim (get name p.slots) [
    | none ↦ (p, none)
    | some slot ↦
        (record p { slots = move_to_end name (touch now slot) p.slots }, some (touch now slot))
  ]

  unfoldable pub evict_lru : RewrapModelPool Model Tok → RewrapModelPool Model Tok × Option String
  evict_lru p = elim p.slots [
    | [] ↦ (p, none)
    | (name, slot) ∷ rest ↦
        (record p { slots = rest; released = teardown_slot slot ∷ p.released }, some name)
  ]

  unfoldable pub get_or_load :
      Loader Model Tok
      → Times
      → String
      → RewrapModelPool Model Tok
      → RewrapModelPool Model Tok × Result (PoolSlot Model Tok)
  unfolding get_slot make_room load_slot
  get_or_load loader t name p =
      let (hit, found) = get_slot t.touched name p in
      elim found [
        | some slot ↦ (hit, ok slot)
        | none ↦
            let (room, out) = make_room teardown_slot p.max_slots p.slots p.released in
            elim (load_slot loader t name) [
              | raise e ↦ (record p { slots = room; released = out }, raise e)
              | ok slot ↦ (record p { slots = insert name slot room; released = out }, ok slot)
            ]
      ]

  unfoldable pub evict : String → RewrapModelPool Model Tok → RewrapModelPool Model Tok
  evict name p = elim (get name p.slots) [
    | none ↦ p
    | some slot ↦ record p {
      slots = remove name p.slots;
      released = teardown_slot slot ∷ p.released;
    }
  ]
