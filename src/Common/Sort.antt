-- ===== src/Common/Sort.antt =====
-- `list.sort(key=...)`: stable, ascending. `lt a b` says that the key of `a` is the smaller one.
use mathlib.Core.Bool.{Bool, true, false}
use mathlib.Core.List.{List, [], ◌∷◌, Perm}
use mathlib.Core.List.Perm
use mathlib.Core.Path.{◌≡◌, refl}
use hatchery_core.Common.Tests.{if◌then◌else◌, Bool-cases}
use mathlib.Core.Logic.{inl, inr}
use hatchery_core.Common.Lists.{All, In}

module _ {ℓ} {A : Type ℓ} (lt : A → A → Bool) where
  unfoldable pub place : A → List A → List A
  place x [] = x ∷ []
  place x (y ∷ ys) = if lt y x then y ∷ place x ys else x ∷ y ∷ ys

  unfoldable pub sort_by : List A → List A
  unfolding place
  sort_by [] = []
  sort_by (x ∷ xs) = place x (sort_by xs)

  place-perm : (x : A) (l : List A) → Perm (place x l) (x ∷ l)
  unfolding place
  place-perm x [] = Perm.refl (x ∷ [])
  place-perm x (y ∷ ys) = elim (Bool-cases (lt y x)) [
    | inl e ↦ rw e (Perm.trans (Perm.cons y (place-perm x ys)) (Perm.swap x y ys))
    | inr e ↦ rw e (Perm.refl (x ∷ y ∷ ys))
  ]

  pub sort_by-perm : (l : List A) → Perm (sort_by l) l
  unfolding sort_by
  sort_by-perm [] = Perm.refl []
  sort_by-perm (x ∷ xs) = Perm.trans (place-perm x (sort_by xs)) (Perm.cons x (sort_by-perm xs))

  -- No later element has a smaller key.
  abbrev pub IsSorted : List A → Type ℓ
  IsSorted [] = Unit
  IsSorted (x ∷ xs) = All (λ y. lt y x ≡ false) xs × IsSorted xs

  All-place {κ} : (P : A → Type κ) (x : A) (l : List A) → P x → All P l → All P (place x l)
  unfolding place
  All-place P x [] p h = (p, tt)
  All-place P x (y ∷ ys) p h = elim (Bool-cases (lt y x)) [
    | inl e ↦ rw e (h.0, All-place P x ys p h.1)
    | inr e ↦ rw e (p, h)
  ]

  pub All-sort_by {κ} : (P : A → Type κ) (l : List A) → All P l → All P (sort_by l)
  unfolding sort_by
  All-sort_by P [] h = tt
  All-sort_by P (x ∷ xs) h = All-place P x (sort_by xs) h.0 (All-sort_by P xs h.1)

  module _ (asym : (a b : A) → lt a b ≡ true → lt b a ≡ false)
      (total : (a b c : A) → lt b a ≡ false → lt c b ≡ false → lt c a ≡ false) where
    All-weaken :
        (x y : A) (l : List A)
        → lt y x ≡ false
        → All (λ z. lt z y ≡ false) l
        → All (λ z. lt z x ≡ false) l
    All-weaken x y [] e h = tt
    All-weaken x y (z ∷ l) e h = (total x y z e h.0, All-weaken x y l e h.1)

    place-IsSorted : (x : A) (l : List A) → IsSorted l → IsSorted (place x l)
    unfolding place
    place-IsSorted x [] h = (tt, tt)
    place-IsSorted x (y ∷ ys) h = elim (Bool-cases (lt y x)) [
      | inl e ↦
          rw e (All-place (λ z. lt z y ≡ false) x ys (asym y x e) h.0, place-IsSorted x ys h.1)
      | inr e ↦ rw e ((e, All-weaken x y ys e h.0), h)
    ]

    pub sort_by-IsSorted : (l : List A) → IsSorted (sort_by l)
    unfolding sort_by
    sort_by-IsSorted [] = tt
    sort_by-IsSorted (x ∷ xs) = place-IsSorted x (sort_by xs) (sort_by-IsSorted xs)

module _ {A : Type 0} (lt : A → A → Bool) where
  In-place_self : (x : A) (l : List A) → In x (place lt x l)
  unfolding place
  In-place_self x [] = inl refl
  In-place_self x (y ∷ ys) = elim (Bool-cases (lt y x)) [
    | inl e ↦ rw e (inr (In-place_self x ys))
    | inr e ↦ rw e (inl refl)
  ]

  In-place : (a x : A) (l : List A) → In a l → In a (place lt x l)
  unfolding place
  In-place a x [] h = absurd h
  In-place a x (y ∷ ys) h = elim (Bool-cases (lt y x)) [
    | inl e ↦ rw e (elim h [ inl p ↦ inl p | inr i ↦ inr (In-place a x ys i) ])
    | inr e ↦ rw e (inr h)
  ]

  pub In-sort_by : (a : A) (l : List A) → In a l → In a (sort_by lt l)
  unfolding sort_by
  In-sort_by a [] h = absurd h
  In-sort_by a (x ∷ xs) (inl e) = rw (← e) (In-place_self x (sort_by lt xs))
  In-sort_by a (x ∷ xs) (inr h) = In-place a x (sort_by lt xs) (In-sort_by a xs h)
