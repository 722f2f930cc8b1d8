-- ===== src/Common/Perms.antt =====
-- A predicate of every element does not depend on the order.
use mathlib.Core.HLevel.{×_prop, Unit-prop}
use mathlib.Core.List.{List, [], ◌∷◌, Perm, Permᴰ}
use mathlib.Core.Logic.{∥∥₁_elim}
use mathlib.Core.Path.{subst}
use hatchery_core.Common.Lists.{All}

module _ {ℓ κ} {A : Type ℓ} (P : A → Type κ) where
  All-prop : ((a : A) → IsProp (P a)) → (l : List A) → IsProp (All P l)
  All-prop p [] = Unit-prop
  All-prop p (x ∷ xs) = ×_prop (p x) (All-prop p xs)

  All-Permᴰ : {xs ys : List A} → Permᴰ xs ys → All P xs → All P ys
  All-Permᴰ Permᴰ.nil h = h
  All-Permᴰ (Permᴰ.cons e d) h = (subst P e h.0, All-Permᴰ d h.1)
  All-Permᴰ (Permᴰ.swap e f) h = (subst P f (h.1).0, (subst P e h.0, (h.1).1))
  All-Permᴰ (Permᴰ.trans d e) h = All-Permᴰ e (All-Permᴰ d h)

  pub All-perm : ((a : A) → IsProp (P a)) → {xs ys : List A} → Perm xs ys → All P xs → All P ys
  All-perm p {ys = ys} d h = ∥∥₁_elim d (All-prop p ys) (λ e. All-Permᴰ e h)
