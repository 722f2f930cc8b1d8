-- ===== src/Common/Count.antt =====
-- How many elements of a list pass a test.
use Prim.Native.Nat.{ℕ, ◌+◌, ◌≤◌}
use mathlib.Core.Bool.{Bool, true}
use mathlib.Core.List.{List, [], ◌∷◌, ◌++◌, map}
use mathlib.Core.Logic.{inl, inr}
use mathlib.Core.Path.{◌≡◌, refl}
use native.Mathlib.Omega.{arith}
use hatchery_core.Common.Tests.{if◌then◌else◌, Bool-cases}
use hatchery_core.Common.Lists.{In}

abbrev pub one_if : Bool → ℕ
one_if b = if b then 1 else 0

module _ {ℓ} {A : Type ℓ} where
  abbrev pub count : (A → Bool) → List A → ℕ
  count p [] = 0
  count p (x ∷ xs) = one_if (p x) + count p xs

  pub count-append : (p : A → Bool) (l r : List A) → count p (l ++ r) ≡ count p l + count p r
  count-append p [] r = omega arith
  count-append p (x ∷ l) r = omega (arith, count-append p l r)

  -- A test that implies another one passes less often.
  pub count_mono :
      (p q : A → Bool) (l : List A)
      → ((x : A) → one_if (p x) ≤ one_if (q x))
      → count p l ≤ count q l
  count_mono p q [] h = omega arith
  count_mono p q (x ∷ l) h = omega (arith, h x, count_mono p q l h)

  -- Two tests that exclude each other and imply a third.
  pub count_disjoint :
      (p q r : A → Bool) (l : List A)
      → ((x : A) → one_if (p x) + one_if (q x) ≤ one_if (r x))
      → count p l + count q l ≤ count r l
  count_disjoint p q r [] h = omega arith
  count_disjoint p q r (x ∷ l) h = omega (arith, h x, count_disjoint p q r l h)

  pub count_split :
      (p q r : A → Bool) (l : List A)
      → ((x : A) → one_if (p x) ≤ one_if (q x) + one_if (r x))
      → count p l ≤ count q l + count r l
  count_split p q r [] h = omega arith
  count_split p q r (x ∷ l) h = omega (arith, h x, count_split p q r l h)

  -- An element-wise change.
  pub count-map :
      (p q : A → Bool) (f : A → A) (l : List A)
      → ((x : A) → one_if (q (f x)) ≤ one_if (p x))
      → count q (map f l) ≤ count p l
  count-map p q f [] h = omega arith
  count-map p q f (x ∷ l) h = omega (arith, h x, count-map p q f l h)

  pub count-map_same :
      (p q : A → Bool) (f : A → A) (l : List A)
      → ((x : A) → one_if (q (f x)) ≡ one_if (p x))
      → count q (map f l) ≡ count p l
  count-map_same p q f [] h = refl
  count-map_same p q f (x ∷ l) h = omega (arith, h x, count-map_same p q f l h)

  pub count-map_split :
      (p q r : A → Bool) (f : A → A) (l : List A)
      → ((x : A) → one_if (q (f x)) ≤ one_if (p x) + one_if (r x))
      → count q (map f l) ≤ count p l + count r l
  count-map_split p q r f [] h = omega arith
  count-map_split p q r f (x ∷ l) h = omega (arith, h x, count-map_split p q r f l h)

module _ {A : Type 0} where
  pub count_of_In : (p : A → Bool) (a : A) (l : List A) → In a l → p a ≡ true → 1 ≤ count p l
  count_of_In p a [] i e = absurd i
  count_of_In p a (x ∷ l) (inl same) e = ground arith
  count_of_In p a (x ∷ l) (inr i) e = omega (arith, count_of_In p a l i e)

  pub In-of_count : (p : A → Bool) (l : List A) → 1 ≤ count p l → (a : A) × In a l × (p a ≡ true)
  In-of_count p [] h = absurd (omega arith)
  In-of_count p (x ∷ l) h = elim (Bool-cases (p x)) [
    | inl e ↦ (x, inl refl, e)
    | inr e ↦ let (a, i, q) = In-of_count p l (ground arith) in (a, inr i, q)
  ]
