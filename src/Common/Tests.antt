-- ===== src/Common/Tests.antt =====
-- Boolean tests on the native numbers, the conditional, and equality of texts as a decision.
use Prim.Native.Nat.{ℕ, compare, Ordering}
use Prim.Native.String.{String}
use mathlib.Core.Bool.{Bool, true, false}
use mathlib.Core.Logic.{◌⊎◌, inl, inr, ◌≢◌}
use mathlib.Core.Option.{Option, none, some}
use mathlib.Core.Path.{◌≡◌, refl, sym, ◌∙◌}
use native.Mathlib.Omega.{arith}
use text.Mathlib.Text.{◌==◌ as str_eq}
use text.Mathlib.TextEquality.{eq_iff}

abbrev pub ltb : ℕ → ℕ → Bool
ltb a b = elim (compare a b) [ Ordering.lt ↦ true | _ ↦ false ]

abbrev pub leb : ℕ → ℕ → Bool
leb a b = elim (compare a b) [ Ordering.gt ↦ false | _ ↦ true ]

infix 50 ◌==◌
abbrev pub ◌==◌ : ℕ → ℕ → Bool
a == b = elim (compare a b) [ Ordering.eq ↦ true | _ ↦ false ]

infix 1 if◌then◌else◌
abbrev pub if◌then◌else◌ {ℓ} : {A : Type ℓ} → Bool → A → A → A
if true then x else y = x
if false then x else y = y

pub Bool-cases : (b : Bool) → (b ≡ true) ⊎ (b ≡ false)
Bool-cases true = inl refl
Bool-cases false = inr refl

pub Option-cases {ℓ} : {A : Type ℓ} (o : Option A) → (o ≡ none) ⊎ ((a : A) × (o ≡ some a))
Option-cases none = inl refl
Option-cases (some a) = inr (a, refl)

decide_eq : (a b : String) (t : Bool) → str_eq a b ≡ t → Dec (a ≡ b)
decide_eq a b true e = yes ((eq_iff a b).0 e)
decide_eq a b false e = no (λ p. distinct (sym e ∙ (eq_iff a b).1 p))
  where
    distinct : ¬ (false ≡ true)
    distinct h = cc

-- Equality of names: sessions, workers, jobs and models are texts.
unfoldable pub name_eq : Discrete String
unfolding decide_eq
name_eq a b = decide_eq a b (str_eq a b) refl

abbrev pub same : String → String → Bool
same a b = elim (name_eq a b) [ yes _ ↦ true | no _ ↦ false ]

-- Two texts that the test tells apart: on literals the hypothesis is `refl`.
pub apart : (a b : String) → same a b ≡ false → a ≢ b
apart a b h = λ p. ground arith
