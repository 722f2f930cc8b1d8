-- ===== src/Pool/Tiers.antt =====
-- The tiered pool keeps its two tiers bounded and disjoint.
use hatchery_core.Common.{
  ℕ, suc, ◌+◌, ◌≤◌, ◌<◌, ◌≡◌, ◌≢◌, ◌⊎◌, refl, subst, String, List, [], ◌∷◌, none, length, leb, ltb,
  arith, Bool-cases, inl, inr, name_eq,
}
use hatchery_core.Common.Dict.{Dict, get, Distinct, get-insert, insert-Distinct}
use hatchery_core.Common.Errors.{Error, Result, ok, raise}
use hatchery_core.Common.Ordered.{length-insert-le}
use hatchery_core.Pool.Slot.{PoolSlot, make_room}
use hatchery_core.Pool.Tiered.{
  HostTier, Room, after_demotion, teardown_slot, store, demote_or_destroy, make_vram_room,
}
use hatchery_core.Pool.Rooms.{make_room-length, make_room-Distinct, make_room-absent}

-- The tiers while room is made.
pub record Apart {Model Tok : Type 0} (max_host : ℕ) (vram host : Dict (PoolSlot Model Tok))
    : Type 0 where
  pub vram_distinct : Distinct vram
  pub host_distinct : Distinct host
  pub bounded : length host ≤ max_host
  pub disjoint : (q : String) → (get q vram ≡ none) ⊎ (get q host ≡ none)

module _ {Model Tok : Type 0} where
  store-absent :
      (q name : String) (made : Result (PoolSlot Model Tok)) (tier : HostTier Model Tok)
      → name ≢ q
      → get q tier.0 ≡ none
      → get q (store name made tier).0.0 ≡ none
  unfolding store
  store-absent q name (ok slot) (host, out) other h = ground (arith, get-insert name q slot host)
  store-absent q name (raise e) tier other h = h

  store-Apart :
      (max_host : ℕ) (name : String) (made : Result (PoolSlot Model Tok))
      (rest : Dict (PoolSlot Model Tok)) (tier : HostTier Model Tok)
      → length tier.0 < max_host
      → get name rest ≡ none
      → Apart max_host rest tier.0
      → Apart max_host rest (store name made tier).0.0
  unfolding store
  store-Apart max_host name (raise e) rest tier short absent v = v
  store-Apart max_host name (ok slot) rest (host, out) short absent v = record {
    vram_distinct = v.vram_distinct;
    host_distinct = insert-Distinct name slot host v.host_distinct;
    bounded = omega (arith, length-insert-le name slot host, short);
    disjoint = λ q. elim (v.disjoint q) [
      | inl a ↦ inl a
      | inr b ↦ elim (name_eq name q) [
        | yes e ↦ inl (subst (λ x. get x rest ≡ none) e absent)
        | no d ↦ inr (ground (arith, get-insert name q slot host))
      ]
    ];
  }

  store-raise :
      (name : String) (made : Result (PoolSlot Model Tok)) (tier : HostTier Model Tok) (e : Error)
      → (store name made tier).1 ≡ raise e
      → made ≡ raise e
  unfolding store
  store-raise name (ok slot) (host, out) e h = absurd (ground arith)
  store-raise name (raise e') tier e h = ground arith

module _ {Model Tok : Type 0} (demote : PoolSlot Model Tok → Result (PoolSlot Model Tok)) where
  demote-absent :
      (max_host : ℕ) (q name : String) (slot : PoolSlot Model Tok)
      (rest host : Dict (PoolSlot Model Tok)) (out : List (PoolSlot Model Tok))
      → get q ((name, slot) ∷ rest) ≡ none
      → get q host ≡ none
      → get q (demote_or_destroy demote max_host name slot (host, out)).0.0 ≡ none
  unfolding demote_or_destroy get
  demote-absent max_host q name slot rest host out v h = elim (Bool-cases (leb max_host 0)) [
    | inl off ↦ rw off h
    | inr on ↦ rw on (
        store-absent q name (demote slot) (make_room teardown_slot max_host host out) (ground arith)
          (make_room-absent teardown_slot max_host q host out (ground arith) h))
  ]

  demote-Apart :
      (max_host : ℕ) (name : String) (slot : PoolSlot Model Tok)
      (rest host : Dict (PoolSlot Model Tok)) (out : List (PoolSlot Model Tok))
      → Apart max_host ((name, slot) ∷ rest) host
      → Apart max_host rest (demote_or_destroy demote max_host name slot (host, out)).0.0
  unfolding demote_or_destroy get
  demote-Apart max_host name slot rest host out v = elim (Bool-cases (leb max_host 0)) [
    | inl off ↦ rw off (record {
      vram_distinct = v.vram_distinct.1;
      host_distinct = v.host_distinct;
      bounded = v.bounded;
      disjoint = λ q. elim (v.disjoint q) [ inl a ↦ inl (ground arith) | inr b ↦ inr b ];
    })
    | inr on ↦
        let some_room : 1 ≤ max_host = ground arith in
        let short = make_room-length teardown_slot max_host host out some_room in
        rw on (
          store-Apart max_host name (demote slot) rest (make_room teardown_slot max_host host out)
            short v.vram_distinct.0
            (record {
              vram_distinct = v.vram_distinct.1;
              host_distinct =
                  make_room-Distinct teardown_slot max_host host out some_room v.host_distinct;
              bounded = omega (arith, short);
              disjoint = λ q. elim (v.disjoint q) [
                | inl a ↦ inl (ground arith)
                | inr b ↦ inr (make_room-absent teardown_slot max_host q host out some_room b)
              ];
            }))
  ]

  demote-raise :
      (max_host : ℕ) (name : String) (slot : PoolSlot Model Tok) (tier : HostTier Model Tok)
      (e : Error)
      → (demote_or_destroy demote max_host name slot tier).1 ≡ raise e
      → demote slot ≡ raise e
  unfolding demote_or_destroy
  demote-raise max_host name slot (host, out) e h = elim (Bool-cases (leb max_host 0)) [
    | inl off ↦ absurd (ground arith)
    | inr on ↦
        store-raise name (demote slot) (make_room teardown_slot max_host host out) e (ground arith)
  ]

  module _ (max_vram max_host : ℕ) where
    abbrev pub room : Dict (PoolSlot Model Tok) → HostTier Model Tok → Room Model Tok
    room vram tier = make_vram_room demote 1 max_vram max_host vram tier

    -- What holds of the room that is made: the tiers are apart; without an error there is room for one
    -- more, and an error is one of a demotion; a name that was in neither tier is in neither.
    pub record IsRoom (vram : Dict (PoolSlot Model Tok)) (tier : HostTier Model Tok)
        (r : Room Model Tok) : Type 0 where
      pub apart : Apart max_host r.0 r.1.0
      pub short : r.2 ≡ ok tt → length r.0 < max_vram
      pub cause :
          (e : Error) → r.2 ≡ raise e → (slot : PoolSlot Model Tok) × (demote slot ≡ raise e)
      pub absent :
          (q : String)
          → get q vram ≡ none
          → get q tier.0 ≡ none
          → (get q r.0 ≡ none) × (get q r.1.0 ≡ none)

    after-IsRoom :
        (name : String) (slot : PoolSlot Model Tok) (rest : Dict (PoolSlot Model Tok))
        (tier tier' : HostTier Model Tok) (more : Room Model Tok) (done : Result (Unit {0}))
        → Apart max_host rest tier'.0
        → ((q : String)
            → get q ((name, slot) ∷ rest) ≡ none
            → get q tier.0 ≡ none
            → get q tier'.0 ≡ none)
        → ((e : Error) → done ≡ raise e → demote slot ≡ raise e)
        → IsRoom rest tier' more
        → IsRoom ((name, slot) ∷ rest) tier (after_demotion demote rest tier' more done)
    unfolding get
    after-IsRoom name slot rest tier tier' more (ok _) v gone why m = record {
      apart = m.apart;
      short = m.short;
      cause = m.cause;
      absent = λ q a b. m.absent q (ground arith) (gone q a b);
    }
    after-IsRoom name slot rest tier tier' more (raise e) v gone why m = record {
      apart = v;
      short = λ p. absurd (ground arith);
      cause = λ e' p. (slot, why e' p);
      absent = λ q a b. (ground arith, gone q a b);
    }

    pub room-IsRoom :
        (vram : Dict (PoolSlot Model Tok)) (tier : HostTier Model Tok)
        → 1 ≤ max_vram
        → Apart max_host vram tier.0
        → IsRoom vram tier (room vram tier)
    unfolding make_vram_room get
    room-IsRoom [] tier h v = record {
      apart = v;
      short = λ e. omega arith;
      cause = λ e p. absurd (ground arith);
      absent = λ q a b. (refl, b);
    }
    room-IsRoom ((name, slot) ∷ rest) tier h v =
        elim (Bool-cases (ltb max_vram (suc (length rest) + 1))) [
          | inr fits ↦ rw fits (record {
            apart = v;
            short = λ e. ground arith;
            cause = λ e p. absurd (ground arith);
            absent = λ q a b. (a, b);
          })
          | inl full ↦
              let after = demote_or_destroy demote max_host name slot tier in
              let apart_after = demote-Apart max_host name slot rest tier.0 tier.1 v in
              rw full (
                after-IsRoom name slot rest tier after.0 _ after.1 apart_after
                  (λ q a b. demote-absent max_host q name slot rest tier.0 tier.1 a b)
                  (demote-raise max_host name slot tier) (room-IsRoom rest after.0 h apart_after))
        ]

    after-length :
        (rest : Dict (PoolSlot Model Tok)) (tier : HostTier Model Tok) (more : Room Model Tok)
        (done : Result (Unit {0}))
        → length more.0 ≤ length rest
        → length (after_demotion demote rest tier more done).0 ≤ suc (length rest)
    after-length rest tier more (ok u) h = omega (arith, h)
    after-length rest tier more (raise e) h = omega arith

    pub room-length-le :
        (vram : Dict (PoolSlot Model Tok)) (tier : HostTier Model Tok)
        → length (room vram tier).0 ≤ length vram
    unfolding make_vram_room
    room-length-le [] tier = omega arith
    room-length-le ((name, slot) ∷ rest) tier =
        elim (Bool-cases (ltb max_vram (suc (length rest) + 1))) [
          | inr fits ↦ rw fits (omega arith)
          | inl full ↦
              let after = demote_or_destroy demote max_host name slot tier in
              rw full (
                after-length rest after.0 (room rest after.0) after.1 (room-length-le rest after.0))
        ]
