-- ===== src/Pool/Tiered.antt =====
-- `TieredModelPool` of hatchery/core/model_pool.py: slots in VRAM and slots in host memory.
-- `demote` and `promote` copy the weights between the two.
use hatchery_core.Common.{
  ℕ, ◌+◌, String, List, [], ◌∷◌, Option, none, some, leb, ltb, length, if◌then◌else◌,
}
use hatchery_core.Common.Dict.{Dict, get, insert, remove, keys}
use hatchery_core.Common.Errors.{Result, ok, raise, value_error, ◌>>=◌}
use hatchery_core.Common.Ordered.{move_to_end}
use hatchery_core.Pool.Slot.{PoolSlot, Loader, Times, load_slot, make_room, touch}

pub record TieredModelPool (Model Tok : Type 0) : Type 0 where
  pub max_vram_slots : ℕ
  pub max_host_slots : ℕ
  pub vram : Dict (PoolSlot Model Tok)
  pub host : Dict (PoolSlot Model Tok)
  pub released : List (PoolSlot Model Tok)

-- The host tier and what was torn down.
abbrev pub HostTier : Type 0 → Type 0 → Type 0
HostTier Model Tok = Dict (PoolSlot Model Tok) × List (PoolSlot Model Tok)

-- What is left of VRAM when room was made, the host tier, and whether a demotion raised.
abbrev pub Room : Type 0 → Type 0 → Type 0
Room Model Tok = Dict (PoolSlot Model Tok) × HostTier Model Tok × Result (Unit {0})

module _ {Model Tok : Type 0} where
  abbrev pub teardown_slot : PoolSlot Model Tok → PoolSlot Model Tok
  teardown_slot slot = record slot { raw_base = none; peft_model = none; host_state_dict = none }

  -- A negative `max_host_slots`, which the constructor refuses, is not a number here.
  unfoldable pub new_tiered : ℕ → ℕ → Result (TieredModelPool Model Tok)
  new_tiered max_vram max_host =
      if ltb max_vram 1
      then raise value_error
      else ok (record {
        max_vram_slots = max_vram;
        max_host_slots = max_host;
        vram = [];
        host = [];
        released = [];
      })

  abbrev pub loaded_models : TieredModelPool Model Tok → List String
  loaded_models p = keys p.vram

  abbrev pub host_resident_models : TieredModelPool Model Tok → List String
  host_resident_models p = keys p.host

  unfoldable pub get_vram :
      ℕ
      → String
      → TieredModelPool Model Tok
      → TieredModelPool Model Tok × Option (PoolSlot Model Tok)
  get_vram now name p = elim (get name p.vram) [
    | none ↦ (p, none)
    | some slot ↦
        (record p { vram = move_to_end name (touch now slot) p.vram }, some (touch now slot))
  ]

  -- Demoting a slot in a host tier with room: it is stored if its copy did not raise, and lost else.
  unfoldable pub store :
      String
      → Result (PoolSlot Model Tok)
      → HostTier Model Tok
      → HostTier Model Tok × Result (Unit {0})
  store name (ok slot) (host, out) = ((insert name slot host, out), ok tt)
  store name (raise e) tier = (tier, raise e)

  -- `demote` is `_demote`, which may raise.
  module _ (demote : PoolSlot Model Tok → Result (PoolSlot Model Tok)) where
    unfoldable pub demote_or_destroy :
        ℕ
        → String
        → PoolSlot Model Tok
        → HostTier Model Tok
        → HostTier Model Tok × Result (Unit {0})
    unfolding make_room store
    demote_or_destroy max_host name slot (host, out) =
        if leb max_host 0
        then ((host, teardown_slot slot ∷ out), ok tt)
        else store name (demote slot) (make_room teardown_slot max_host host out)

    -- The loop goes on if the demotion did not raise.
    abbrev pub after_demotion :
        Dict (PoolSlot Model Tok)
        → HostTier Model Tok
        → Room Model Tok
        → Result (Unit {0})
        → Room Model Tok
    after_demotion rest tier more (ok _) = more
    after_demotion rest tier more (raise e) = (rest, tier, raise e)

    -- `_make_vram_room`; it walks down the slots, and stops at an error.
    unfoldable pub make_vram_room :
        ℕ → ℕ → ℕ → Dict (PoolSlot Model Tok) → HostTier Model Tok → Room Model Tok
    unfolding demote_or_destroy
    make_vram_room reserve max_vram max_host [] tier = ([], tier, ok tt)
    make_vram_room reserve max_vram max_host ((name, slot) ∷ rest) tier =
        let (tier', done) = demote_or_destroy max_host name slot tier in
        let gone =
          after_demotion rest tier' (make_vram_room reserve max_vram max_host rest tier') done in
        if ltb max_vram (length ((name, slot) ∷ rest) + reserve)
        then gone
        else ((name, slot) ∷ rest, tier, ok tt)

    -- The end of `get_or_load`: room was made for a slot, which was promoted or loaded.
    abbrev pub enter :
        TieredModelPool Model Tok
        → String
        → Room Model Tok
        → Result (PoolSlot Model Tok)
        → TieredModelPool Model Tok × Result (PoolSlot Model Tok)
    enter p name (vram, tier, raise e) made =
        (record p { vram = vram; host = tier.0; released = tier.1 }, raise e)
    enter p name (vram, tier, ok _) (raise e) =
        (record p { vram = vram; host = tier.0; released = tier.1 }, raise e)
    enter p name (vram, tier, ok _) (ok slot) =
        (record p { vram = insert name slot vram; host = tier.0; released = tier.1 }, ok slot)

    -- `promote` is `_promote`, which may raise too, when the slot is out of the host tier.
    unfoldable pub get_or_load :
        (PoolSlot Model Tok → Result (PoolSlot Model Tok))
        → Loader Model Tok
        → Times
        → String
        → TieredModelPool Model Tok
        → TieredModelPool Model Tok × Result (PoolSlot Model Tok)
    unfolding get_vram make_vram_room load_slot
    get_or_load promote loader t name p =
        let (hit, found) = get_vram t.touched name p in
        elim found [
          | some slot ↦ (hit, ok slot)
          | none ↦ elim (get name p.host) [
            | some slot ↦
                enter p name
                  (make_vram_room 1 p.max_vram_slots p.max_host_slots p.vram
                    (remove name p.host, p.released))
                  (promote slot >>= λ back. ok (touch t.made back))
            | none ↦
                enter p name
                  (make_vram_room 1 p.max_vram_slots p.max_host_slots p.vram (p.host, p.released))
                  (load_slot loader t name)
          ]
        ]

    unfoldable pub evict_lru :
        TieredModelPool Model Tok → TieredModelPool Model Tok × Result (Option String)
    unfolding demote_or_destroy
    evict_lru p = elim p.vram [
      | [] ↦ (p, ok none)
      | (name, slot) ∷ rest ↦
          let (tier, done) = demote_or_destroy p.max_host_slots name slot (p.host, p.released) in
          (record p { vram = rest; host = tier.0; released = tier.1 }, done >>= λ _. ok (some name))
    ]

  -- A slot that was popped from a tier is torn down.
  abbrev pub tear_down_found :
      Option (PoolSlot Model Tok) → List (PoolSlot Model Tok) → List (PoolSlot Model Tok)
  tear_down_found none out = out
  tear_down_found (some slot) out = teardown_slot slot ∷ out

  unfoldable pub evict : String → TieredModelPool Model Tok → TieredModelPool Model Tok
  evict name p = record p {
    vram = remove name p.vram;
    host = remove name p.host;
    released = tear_down_found (get name p.host) (tear_down_found (get name p.vram) p.released);
  }
