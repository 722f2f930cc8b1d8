-- ===== src/Pool/Rooms.antt =====
-- What is left of a dictionary of slots when room was made in it.
use hatchery_core.Common.{
  ℕ, zero, suc, ◌-◌, ◌≤◌, ◌<◌, ◌≡◌, refl, String, List, [], ◌∷◌, ◌++◌, none, leb, length, drop,
  length-drop, arith, Bool-cases, inl, inr, ap,
}
use hatchery_core.Common.Dict.{Dict, get, Distinct, keys}
use hatchery_core.Pool.Slot.{PoolSlot, make_room}

module _ {ℓ} {V : Type ℓ} where
  pub drop-Distinct : (n : ℕ) (d : Dict V) → Distinct d → Distinct (drop n d)
  drop-Distinct zero d u = u
  drop-Distinct (suc n) [] u = tt
  drop-Distinct (suc n) ((k, v) ∷ d) u = drop-Distinct n d u.1

  pub get-drop_absent : (n : ℕ) (q : String) (d : Dict V) → get q d ≡ none → get q (drop n d) ≡ none
  unfolding get
  get-drop_absent zero q d h = h
  get-drop_absent (suc n) q [] h = refl
  get-drop_absent (suc n) q ((k, v) ∷ d) h = get-drop_absent n q d (ground arith)

  pub keys-drop : (n : ℕ) (d : Dict V) → keys (drop n d) ≡ drop n (keys d)
  keys-drop zero d = refl
  keys-drop (suc n) [] = refl
  keys-drop (suc n) (e ∷ d) = keys-drop n d

  pub keys-append : (d e : Dict V) → keys (d ++ e) ≡ keys d ++ keys e
  keys-append [] e = refl
  keys-append ((k, v) ∷ d) e = ap (λ l. k ∷ l) (keys-append d e)

module _ {Model Tok : Type 0} (teardown : PoolSlot Model Tok → PoolSlot Model Tok) where
  pub make_room-drop :
      (max : ℕ) (d : Dict (PoolSlot Model Tok)) (out : List (PoolSlot Model Tok))
      → 1 ≤ max
      → (make_room teardown max d out).0 ≡ drop (suc (length d) - max) d
  unfolding make_room
  make_room-drop max [] out h = let e : 1 - max ≡ 0 = omega arith in rw e refl
  make_room-drop max ((name, slot) ∷ d) out h = elim (Bool-cases (leb max (suc (length d)))) [
    | inl full ↦
        let e : suc (suc (length d)) - max ≡ suc (suc (length d) - max) = ground arith in
        rw (full, e) (make_room-drop max d (teardown slot ∷ out) h)
    | inr fits ↦ let e : suc (suc (length d)) - max ≡ 0 = ground arith in rw (fits, e) refl
  ]

  -- There is room for one more.
  pub make_room-length :
      (max : ℕ) (d : Dict (PoolSlot Model Tok)) (out : List (PoolSlot Model Tok))
      → 1 ≤ max
      → length (make_room teardown max d out).0 < max
  make_room-length max d out h =
      rw (make_room-drop max d out h) (omega (arith, length-drop (suc (length d) - max) d))

  pub make_room-Distinct :
      (max : ℕ) (d : Dict (PoolSlot Model Tok)) (out : List (PoolSlot Model Tok))
      → 1 ≤ max
      → Distinct d
      → Distinct (make_room teardown max d out).0
  make_room-Distinct max d out h u = rw (make_room-drop max d out h) (drop-Distinct _ d u)

  pub make_room-absent :
      (max : ℕ) (q : String) (d : Dict (PoolSlot Model Tok)) (out : List (PoolSlot Model Tok))
      → 1 ≤ max
      → get q d ≡ none
      → get q (make_room teardown max d out).0 ≡ none
  make_room-absent max q d out h e = rw (make_room-drop max d out h) (get-drop_absent _ q d e)
