-- ===== src/Pool/Recency.antt =====
-- The rewrap pool against a list of names, the least recently used one first.
use hatchery_core.Common.{
  ℕ, zero, suc, ◌-◌, ◌≤◌, ◌≡◌, refl, sym, ap, subst, ◌∙◌, String, List, [], ◌∷◌, ◌++◌, none, some,
  length, drop, arith, Option-cases, inl, inr, name_eq, ite, length-append,
}
use hatchery_core.Common.Dict.{
  Dict, get, insert, remove, keys, Distinct, remove_absent, get-insert_self, insert-Distinct,
}
use hatchery_core.Common.Errors.{Error, Result, ok, raise, Result-cases}
use hatchery_core.Common.Ordered.{
  move_to_end, insert_absent, move_to_end-Distinct, length-move_to_end, length-insert-le,
  get-move_to_end,
}
use hatchery_core.Pool.Slot.{PoolSlot, Loader, Times, load_slot, make_room, touch}
use hatchery_core.Pool.Rewrap.{teardown_slot, RewrapModelPool, get_slot, get_or_load, loaded_models}
use hatchery_core.Pool.Rooms.{
  keys-append, keys-drop, make_room-drop, make_room-length, make_room-Distinct, make_room-absent,
}

-- The last `n` elements.
abbrev pub last_n : ℕ → List String → List String
last_n n l = drop (length l - n) l

unfoldable pub without : String → List String → List String
without q [] = []
without q (x ∷ xs) = ite (name_eq x q) (without q xs) (x ∷ without q xs)

-- What a use of `name` makes of the names: the others, then it, and the last `max` of these.
abbrev pub used : ℕ → String → List String → List String
used max name names = last_n max (without name names ++ name ∷ [])

pub record IsPool {Model Tok : Type 0} (p : RewrapModelPool Model Tok) : Type 0 where
  pub positive : 1 ≤ p.max_slots
  pub fits : length p.slots ≤ p.max_slots
  pub distinct : Distinct p.slots

module _ {ℓ} {V : Type ℓ} where
  keys-remove : (q : String) (d : Dict V) → keys (remove q d) ≡ without q (keys d)
  unfolding remove without
  keys-remove q [] = refl
  keys-remove q ((k, v) ∷ d) = ground (arith, keys-remove q d)

  length-keys : (d : Dict V) → length (keys d) ≡ length d
  length-keys [] = refl
  length-keys (e ∷ d) = ap suc (length-keys d)

drop-append_short : (n : ℕ) (l r : List String) → n ≤ length l → drop n (l ++ r) ≡ drop n l ++ r
drop-append_short zero l r h = refl
drop-append_short (suc n) [] r h = absurd (omega arith)
drop-append_short (suc n) (x ∷ l) r h = drop-append_short n l r (omega arith)

last_n-short : (n : ℕ) (l : List String) → length l ≤ n → last_n n l ≡ l
last_n-short n l h = let e : length l - n ≡ 0 = omega arith in rw e refl

module _ {Model Tok : Type 0} (loader : Loader Model Tok) (t : Times) (name : String) where
  -- What a call of `get_or_load` does: the pool stays valid; on success `name` is the name used last and its
  -- slot is returned, and on an error the base was not resident, the loader raised it, and there is
  -- room for one slot.
  abbrev pub Served :
      RewrapModelPool Model Tok → RewrapModelPool Model Tok × Result (PoolSlot Model Tok) → Type 0
  Served p (p', ok slot) =
      IsPool p'
      × (loaded_models p' ≡ used p.max_slots name (loaded_models p))
      × (get name p'.slots ≡ some slot)
  Served p (p', raise e) =
      IsPool p'
      × (get name p.slots ≡ none)
      × (loaded_models p' ≡ last_n (p.max_slots - 1) (loaded_models p))
      × (load_slot loader t name ≡ raise e)

  hit-Served :
      (p : RewrapModelPool Model Tok) (slot : PoolSlot Model Tok)
      → IsPool p
      → get name p.slots ≡ some slot
      → Served p (
        record p { slots = move_to_end name (touch t.touched slot) p.slots },
        ok (touch t.touched slot),
      )
  hit-Served p slot v e =
      let same_length = length-move_to_end name (touch t.touched slot) slot p.slots v.distinct e in
      let names : keys (move_to_end name (touch t.touched slot) p.slots)
          ≡ without name (keys p.slots) ++ name ∷ [] =
        keys-append (remove name p.slots) ((name, touch t.touched slot) ∷ [])
        ∙ ap (λ l. l ++ name ∷ []) (keys-remove name p.slots) in
      (
        record {
          positive = v.positive;
          fits = omega (arith, same_length, v.fits);
          distinct = move_to_end-Distinct name (touch t.touched slot) p.slots v.distinct;
        },
        names
            ∙ sym (
                last_n-short p.max_slots _ (
                  subst (λ l. length l ≤ p.max_slots) names
                    (omega (
                      arith,
                      same_length,
                      v.fits,
                      length-keys (move_to_end name (touch t.touched slot) p.slots),
                    )))),
        ground (arith, get-move_to_end name name (touch t.touched slot) p.slots),
      )

  room_names :
      (p : RewrapModelPool Model Tok) (out : List (PoolSlot Model Tok))
      → 1 ≤ p.max_slots
      → keys (make_room teardown_slot p.max_slots p.slots out).0
        ≡ last_n (p.max_slots - 1) (keys p.slots)
  room_names p out h =
      let e : length (keys p.slots) - (p.max_slots - 1) ≡ suc (length p.slots) - p.max_slots =
        omega (arith, length-keys p.slots) in
      rw (make_room-drop teardown_slot p.max_slots p.slots out h, e)
        (keys-drop (suc (length p.slots) - p.max_slots) p.slots)

  abbrev room : RewrapModelPool Model Tok → Dict (PoolSlot Model Tok) × List (PoolSlot Model Tok)
  room p = make_room teardown_slot p.max_slots p.slots p.released

  loaded-Served :
      (p : RewrapModelPool Model Tok) (slot : PoolSlot Model Tok)
      → IsPool p
      → get name p.slots ≡ none
      → Served p (record p { slots = insert name slot (room p).0; released = (room p).1 }, ok slot)
  loaded-Served p slot v absent =
      let free =
        make_room-absent teardown_slot p.max_slots name p.slots p.released v.positive absent in
      let at_end : insert name slot (room p).0 ≡ (room p).0 ++ (name, slot) ∷ [] =
        insert_absent name slot (room p).0 free in
      let others : without name (keys p.slots) ≡ keys p.slots =
        sym (keys-remove name p.slots) ∙ ap keys (remove_absent name p.slots absent) in
      let cut : length (keys p.slots ++ name ∷ []) - p.max_slots
          ≡ length (keys p.slots) - (p.max_slots - 1) =
        omega (arith, length-append (keys p.slots) (name ∷ []), v.positive) in
      let short : length (keys p.slots) - (p.max_slots - 1) ≤ length (keys p.slots) = omega arith in
      (
        record {
          positive = v.positive;
          fits = omega (
            arith,
            length-insert-le name slot (room p).0,
            make_room-length teardown_slot p.max_slots p.slots p.released v.positive,
          );
          distinct = insert-Distinct name slot (room p).0 (
              make_room-Distinct teardown_slot p.max_slots p.slots p.released v.positive
                v.distinct);
        },
        ap keys at_end
            ∙ keys-append (room p).0 ((name, slot) ∷ [])
            ∙ ap (λ l. l ++ name ∷ []) (room_names p p.released v.positive)
            ∙ sym (
                drop-append_short (length (keys p.slots) - (p.max_slots - 1)) (keys p.slots)
                  (name ∷ []) short)
            ∙ ap (λ n. drop n (keys p.slots ++ name ∷ [])) (sym cut)
            ∙ ap (last_n p.max_slots) (ap (λ l. l ++ name ∷ []) (sym others)),
        get-insert_self name slot (room p).0,
      )

  failed-Served :
      (p : RewrapModelPool Model Tok) (e : Error)
      → IsPool p
      → get name p.slots ≡ none
      → load_slot loader t name ≡ raise e
      → Served p (record p { slots = (room p).0; released = (room p).1 }, raise e)
  failed-Served p e v absent raised = (
    record {
      positive = v.positive;
      fits =
          omega (arith, make_room-length teardown_slot p.max_slots p.slots p.released v.positive);
      distinct =
          make_room-Distinct teardown_slot p.max_slots p.slots p.released v.positive v.distinct;
    },
    absent,
    room_names p p.released v.positive,
    raised,
  )

  -- Every call of `get_or_load` on a valid pool leaves it valid, and its names are those of a list in
  -- which a use moves the name to the end and the oldest names beyond `max_slots` are dropped; after an error the
  -- pool holds the newest `max_slots - 1` names that it held.
  pub get_or_load-Served :
      (p : RewrapModelPool Model Tok) → IsPool p → Served p (get_or_load loader t name p)
  unfolding get_or_load get_slot
  get_or_load-Served p v = elim (Option-cases (get name p.slots)) [
    | inr (slot, e) ↦
        let run : get_or_load loader t name p ≡ (
          record p { slots = move_to_end name (touch t.touched slot) p.slots },
          ok (touch t.touched slot),
        ) =
          ground arith in
        subst (Served p) (sym run) (hit-Served p slot v e)
    | inl absent ↦ elim (Result-cases (load_slot loader t name)) [
      | inl (slot, l) ↦
          let run : get_or_load loader t name p
              ≡ (record p { slots = insert name slot (room p).0; released = (room p).1 }, ok slot) =
            ground arith in
          subst (Served p) (sym run) (loaded-Served p slot v absent)
      | inr (e, l) ↦
          let run : get_or_load loader t name p
              ≡ (record p { slots = (room p).0; released = (room p).1 }, raise e) =
            ground arith in
          subst (Served p) (sym run) (failed-Served p e v absent l)
    ]
  ]
