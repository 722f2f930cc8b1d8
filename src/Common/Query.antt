-- ===== src/Common/Query.antt =====
-- What a list method answers: the rows that pass a filter, in an order, and pages of them.
use Prim.Native.Nat.{ℕ, zero, suc, ◌+◌, ◌-◌, ◌≤◌}
use mathlib.Core.Bool.{Bool, true}
use mathlib.Core.List.{List, [], ◌∷◌, ◌++◌}
use mathlib.Core.Logic.{inl, inr}
use mathlib.Core.Path.{◌≡◌, refl, ap, ◌∙◌, sym}
use native.Mathlib.Omega.{arith}
use hatchery_core.Common.Tests.{Bool-cases, ltb}
use hatchery_core.Common.Lists.{
  All, All-impl, All-filter, In, In-filter, filter, take, drop, length, slice, take-add,
}
use hatchery_core.Common.Sort.{sort_by, place, IsSorted, sort_by-IsSorted, All-sort_by, In-sort_by}

module _ {A : Type 0} where
  pub All-self : (l : List A) → All (λ a. In a l) l
  All-self [] = tt
  All-self (a ∷ l) = (inl refl, All-impl _ (λ b. In b (a ∷ l)) l (λ b i. inr i) (All-self l))

  pub All-take {κ} : (P : A → Type κ) (n : ℕ) (l : List A) → All P l → All P (take n l)
  All-take P zero l h = tt
  All-take P (suc n) [] h = tt
  All-take P (suc n) (a ∷ l) (p, h) = (p, All-take P n l h)

  pub All-drop {κ} : (P : A → Type κ) (n : ℕ) (l : List A) → All P l → All P (drop n l)
  All-drop P zero l h = h
  All-drop P (suc n) [] h = tt
  All-drop P (suc n) (a ∷ l) (p, h) = All-drop P n l h

  drop-nil : (n : ℕ) → drop {A = A} n [] ≡ []
  drop-nil zero = refl
  drop-nil (suc n) = refl

  drop-add : (o a : ℕ) (l : List A) → drop a (drop o l) ≡ drop (o + a) l
  drop-add zero a l = ap (λ n. drop n l) (omega arith)
  drop-add (suc o) a [] = drop-nil a ∙ sym (drop-nil (suc o + a))
  drop-add (suc o) a (x ∷ l) =
      let e : suc (o + a) ≡ suc o + a = omega arith in drop-add o a l ∙ ap (λ n. drop n (x ∷ l)) e

  pub slice-append_next :
      (o a b : ℕ) (l : List A)
      → slice o (o + a) l ++ slice (o + a) (o + a + b) l ≡ slice o (o + (a + b)) l
  slice-append_next o a b l =
      let first : o + a - o ≡ a = omega arith in
      let second : o + a + b - (o + a) ≡ b = omega arith in
      let both : o + (a + b) - o ≡ a + b = omega arith in
      rw (first, second, both, ← drop-add o a l) (take-add a b (drop o l))

  module _ (lt : A → A → Bool) where
    pub IsSorted-take : (n : ℕ) (l : List A) → IsSorted lt l → IsSorted lt (take n l)
    IsSorted-take zero l h = tt
    IsSorted-take (suc n) [] h = tt
    IsSorted-take (suc n) (a ∷ l) (p, h) = (All-take _ n l p, IsSorted-take n l h)

    pub IsSorted-drop : (n : ℕ) (l : List A) → IsSorted lt l → IsSorted lt (drop n l)
    IsSorted-drop zero l h = h
    IsSorted-drop (suc n) [] h = tt
    IsSorted-drop (suc n) (a ∷ l) (p, h) = IsSorted-drop n l h

    length-place : (x : A) (l : List A) → length (place lt x l) ≡ suc (length l)
    unfolding place
    length-place x [] = refl
    length-place x (y ∷ l) = elim (Bool-cases (lt y x)) [
      | inl e ↦ rw e (ap suc (length-place x l))
      | inr e ↦ rw e refl
    ]

    pub length-sort_by : (l : List A) → length (sort_by lt l) ≡ length l
    unfolding sort_by
    length-sort_by [] = refl
    length-sort_by (x ∷ l) = length-place x (sort_by lt l) ∙ ap suc (length-sort_by l)

  pub length-filter-le : (p : A → Bool) (l : List A) → length (filter p l) ≤ length l
  length-filter-le p [] = omega arith
  length-filter-le p (x ∷ l) = elim (Bool-cases (p x)) [
    | inl e ↦ rw e (omega (arith, length-filter-le p l))
    | inr e ↦ rw e (omega (arith, length-filter-le p l))
  ]

  -- `l` holds rows of `source` that pass `p`, all of them, in the order `lt`.
  pub record IsQuery (p : A → Bool) (lt : A → A → Bool) (source l : List A) : Type 0 where
    pub sound : All (λ a. In a source × (p a ≡ true)) l
    pub sorted : IsSorted lt l
    pub complete : (a : A) → In a source → p a ≡ true → In a l

  module _ (key : A → ℕ) (p : A → Bool) (source : List A) where
    abbrev ascending : A → A → Bool
    ascending a b = ltb (key a) (key b)

    abbrev descending : A → A → Bool
    descending a b = ltb (key b) (key a)

    sorted-IsQuery :
        (lt : A → A → Bool)
        → IsSorted lt (sort_by lt (filter p source))
        → IsQuery p lt source (sort_by lt (filter p source))
    sorted-IsQuery lt h = record {
      sound = All-sort_by lt _ (filter p source) (All-filter _ p source (All-self source));
      sorted = h;
      complete = λ a i e. In-sort_by lt a _ (In-filter p a source e i);
    }

    pub ascending-IsQuery : IsQuery p ascending source (sort_by ascending (filter p source))
    ascending-IsQuery = sorted-IsQuery ascending (
        sort_by-IsSorted ascending (λ a b h. ground arith) (λ a b c h k. ground arith)
          (filter p source))

    pub descending-IsQuery : IsQuery p descending source (sort_by descending (filter p source))
    descending-IsQuery = sorted-IsQuery descending (
        sort_by-IsSorted descending (λ a b h. ground arith) (λ a b c h k. ground arith)
          (filter p source))
