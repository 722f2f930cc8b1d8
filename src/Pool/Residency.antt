-- ===== src/Pool/Residency.antt =====
-- `get_or_load` of the tiered pool: what is resident afterwards.
use hatchery_core.Common.{
  ℕ, ◌≤◌, ◌<◌, ◌≡◌, ◌⊎◌, refl, sym, subst, String, List, none, some, length, arith, Option-cases,
  inl, inr, name_eq,
}
use hatchery_core.Common.Dict.{
  Dict, get, insert, remove, get-insert, get-remove, get-insert_self, get-remove_self,
  remove-Distinct, insert-Distinct,
}
use hatchery_core.Common.Errors.{Error, Result, ok, raise, ◌>>=◌}
use hatchery_core.Common.Ordered.{
  move_to_end, move_to_end-Distinct, length-move_to_end, length-insert-le, length-remove-le,
  get-move_to_end,
}
use hatchery_core.Pool.Slot.{PoolSlot, Loader, Times, load_slot, touch}
use hatchery_core.Pool.Tiered.{TieredModelPool, HostTier, Room, enter, get_vram, get_or_load}
use hatchery_core.Pool.Tiers.{Apart, IsRoom, room, room-IsRoom, room-length-le}

-- Both tiers are within their limits, and no base is in both.
pub record IsTiered {Model Tok : Type 0} (p : TieredModelPool Model Tok) : Type 0 where
  pub positive : 1 ≤ p.max_vram_slots
  pub fits : length p.vram ≤ p.max_vram_slots
  pub tiers : Apart p.max_host_slots p.vram p.host

module _ {Model Tok : Type 0} where
  -- A slot enters VRAM in which there is room, and its name is in neither tier.
  enter-IsTiered :
      (name : String) (slot : PoolSlot Model Tok) (max_vram max_host : ℕ)
      (vram host : Dict (PoolSlot Model Tok)) (out : List (PoolSlot Model Tok))
      → length vram < max_vram
      → get name host ≡ none
      → Apart max_host vram host
      → IsTiered {Model = Model} {Tok = Tok} (record {
        max_vram_slots = max_vram;
        max_host_slots = max_host;
        vram = insert name slot vram;
        host = host;
        released = out;
      })
  enter-IsTiered name slot max_vram max_host vram host out short absent v = record {
    positive = omega arith;
    fits = omega (arith, length-insert-le name slot vram);
    tiers = record {
      vram_distinct = insert-Distinct name slot vram v.vram_distinct;
      host_distinct = v.host_distinct;
      bounded = v.bounded;
      disjoint = λ q. elim (name_eq name q) [
        | yes e ↦ inr (subst (λ x. get x host ≡ none) e absent)
        | no d ↦ elim (v.disjoint q) [
          | inl a ↦ inl (ground (arith, get-insert name q slot vram))
          | inr b ↦ inr b
        ]
      ];
    };
  }

  -- Taking a name out of the host tier.
  remove-Apart :
      (name : String) (max_host : ℕ) (vram host : Dict (PoolSlot Model Tok))
      → Apart max_host vram host
      → Apart max_host vram (remove name host)
  remove-Apart name max_host vram host v = record {
    vram_distinct = v.vram_distinct;
    host_distinct = remove-Distinct name host v.host_distinct;
    bounded = omega (arith, length-remove-le name host, v.bounded);
    disjoint = λ q. elim (v.disjoint q) [
      | inl a ↦ inl a
      | inr b ↦ inr (ground (arith, get-remove name q host))
    ];
  }

  touch-Apart :
      (name : String) (slot new : PoolSlot Model Tok) (max_host : ℕ)
      (vram host : Dict (PoolSlot Model Tok))
      → get name vram ≡ some slot
      → Apart max_host vram host
      → Apart max_host (move_to_end name new vram) host
  touch-Apart name slot new max_host vram host e v = record {
    vram_distinct = move_to_end-Distinct name new vram v.vram_distinct;
    host_distinct = v.host_distinct;
    bounded = v.bounded;
    disjoint = λ q. elim (v.disjoint q) [
      | inl a ↦ inl (ground (arith, get-move_to_end name q new vram))
      | inr b ↦ inr b
    ];
  }

module _ {Model Tok : Type 0} (demote promote : PoolSlot Model Tok → Result (PoolSlot Model Tok))
    (loader : Loader Model Tok) (t : Times) (name : String) where
  -- Where an error comes from: the load of a base that was not in the host tier, the promotion of the
  -- slot that was there, or the demotion of some slot.
  abbrev pub Cause : TieredModelPool Model Tok → Error → Type 0
  Cause p e =
      ((get name p.host ≡ none) × (load_slot loader t name ≡ raise e))
      ⊎ (((slot : PoolSlot Model Tok) × (get name p.host ≡ some slot) × (promote slot ≡ raise e))
          ⊎ ((slot : PoolSlot Model Tok) × (demote slot ≡ raise e)))

  -- What a call of `get_or_load` does: both tiers stay within their limits and disjoint. A slot that is
  -- returned is in VRAM. After an error the base, which was not in VRAM, is in neither tier.
  abbrev pub Resident :
      TieredModelPool Model Tok → TieredModelPool Model Tok × Result (PoolSlot Model Tok) → Type 0
  Resident p (p', ok slot) = IsTiered p' × (get name p'.vram ≡ some slot)
  Resident p (p', raise e) =
      IsTiered p'
      × (get name p.vram ≡ none)
      × (get name p'.vram ≡ none)
      × (get name p'.host ≡ none)
      × Cause p e

  hit-Resident :
      (p : TieredModelPool Model Tok) (slot : PoolSlot Model Tok)
      → IsTiered p
      → get name p.vram ≡ some slot
      → Resident p (
        record p { vram = move_to_end name (touch t.touched slot) p.vram },
        ok (touch t.touched slot),
      )
  hit-Resident p slot v e = (
    record {
      positive = v.positive;
      fits = omega (
        arith,
        length-move_to_end name (touch t.touched slot) slot p.vram v.tiers.vram_distinct e,
        v.fits,
      );
      tiers = touch-Apart name slot (touch t.touched slot) p.max_host_slots p.vram p.host e v.tiers;
    },
    ground (arith, get-move_to_end name name (touch t.touched slot) p.vram),
  )

  -- The pool after the room was made, when nothing enters it.
  left-IsTiered :
      (p : TieredModelPool Model Tok) (vram : Dict (PoolSlot Model Tok)) (tier : HostTier Model Tok)
      → IsTiered p
      → length vram ≤ p.max_vram_slots
      → Apart p.max_host_slots vram tier.0
      → IsTiered (record p { vram = vram; host = tier.0; released = tier.1 })
  left-IsTiered p vram tier v fits apart = record {
    positive = v.positive;
    fits = fits;
    tiers = apart;
  }

  enter-Resident :
      (p : TieredModelPool Model Tok) (tier : HostTier Model Tok) (r : Room Model Tok)
      (made : Result (PoolSlot Model Tok))
      → IsTiered p
      → IsRoom demote p.max_vram_slots p.max_host_slots p.vram tier r
      → length r.0 ≤ p.max_vram_slots
      → get name p.vram ≡ none
      → get name tier.0 ≡ none
      → ((e : Error) → made ≡ raise e → Cause p e)
      → Resident p (enter demote p name r made)
  enter-Resident p tier (vram, tier', raise e) made v m fits free free_host why =
      let gone = m.absent name free free_host in
      (left-IsTiered p vram tier' v fits m.apart, free, gone.0, gone.1, inr (inr (m.cause e refl)))
  enter-Resident p tier (vram, tier', ok u) (raise e) v m fits free free_host why =
      let gone = m.absent name free free_host in
      (left-IsTiered p vram tier' v fits m.apart, free, gone.0, gone.1, why e refl)
  enter-Resident p tier (vram, tier', ok u) (ok slot) v m fits free free_host why =
      let gone = m.absent name free free_host in
      (
        enter-IsTiered name slot p.max_vram_slots p.max_host_slots vram tier'.0 tier'.1
            (m.short refl) gone.1 m.apart,
        get-insert_self name slot vram,
      )

  abbrev after : TieredModelPool Model Tok → Dict (PoolSlot Model Tok) → Room Model Tok
  after p host = room demote p.max_vram_slots p.max_host_slots p.vram (host, p.released)

  entered-Resident :
      (p : TieredModelPool Model Tok) (host : Dict (PoolSlot Model Tok))
      (made : Result (PoolSlot Model Tok))
      → IsTiered p
      → Apart p.max_host_slots p.vram host
      → get name p.vram ≡ none
      → get name host ≡ none
      → ((e : Error) → made ≡ raise e → Cause p e)
      → Resident p (enter demote p name (after p host) made)
  entered-Resident p host made v apart free free_host why =
      enter-Resident p (host, p.released) (after p host) made v
        (room-IsRoom demote p.max_vram_slots p.max_host_slots p.vram (host, p.released) v.positive
          apart)
        (omega (
          arith,
          room-length-le demote p.max_vram_slots p.max_host_slots p.vram (host, p.released),
          v.fits,
        ))
        free free_host why

  touched-raise :
      (made : Result (PoolSlot Model Tok)) (e : Error)
      → (made >>= λ back. ok (touch t.made back)) ≡ raise e
      → made ≡ raise e
  touched-raise (ok slot) e p = absurd (ground arith)
  touched-raise (raise e') e p = ground arith

  -- A demotion, a promotion and a load may each raise. Every call of `get_or_load` keeps the two tiers
  -- within their limits and disjoint. A slot that it returns is in VRAM afterwards. An error is that of
  -- the load of a base that was in neither tier, of the promotion of the base's slot, or of a demotion,
  -- and then the base is in neither tier, also if its slot was in the host tier before.
  pub get_or_load-Resident :
      (p : TieredModelPool Model Tok)
      → IsTiered p
      → Resident p (get_or_load demote promote loader t name p)
  unfolding get_or_load get_vram
  get_or_load-Resident p v = elim (Option-cases (get name p.vram)) [
    | inr (slot, e) ↦
        let run : get_or_load demote promote loader t name p ≡ (
          record p { vram = move_to_end name (touch t.touched slot) p.vram },
          ok (touch t.touched slot),
        ) =
          ground arith in
        subst (Resident p) (sym run) (hit-Resident p slot v e)
    | inl free ↦ elim (Option-cases (get name p.host)) [
      | inr (slot, e) ↦
          let back = promote slot >>= λ s. ok (touch t.made s) in
          let run : get_or_load demote promote loader t name p
              ≡ enter demote p name (after p (remove name p.host)) back =
            rw (free, e, get_or_load) refl in
          subst (Resident p) (sym run) (
            entered-Resident p (remove name p.host) back v
              (remove-Apart name p.max_host_slots p.vram p.host v.tiers) free
              (get-remove_self name p.host)
              (λ x raised. inr (inl (slot, e, touched-raise (promote slot) x raised))))
      | inl free_host ↦
          let made = load_slot loader t name in
          let run : get_or_load demote promote loader t name p
              ≡ enter demote p name (after p p.host) made =
            rw (free, free_host, get_or_load) refl in
          subst (Resident p) (sym run) (
            entered-Resident p p.host made v v.tiers free free_host
              (λ x raised. inl (free_host, raised)))
    ]
  ]
