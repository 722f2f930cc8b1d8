-- ===== src/Batching/Sums.antt =====
-- Sums over a list and over the ranks of a data-parallel group.
use hatchery_core.Common.{
  ℕ, zero, suc, ◌+◌, ◌*◌, ◌<◌, ◌≡◌, refl, ap, ◌∙◌, List, [], ◌∷◌, ◌++◌, arith,
}

module _ {ℓ} {A : Type ℓ} where
  -- `f 0 ++ f 1 ++ … ++ f (n - 1)`
  abbrev pub gather : (ℕ → List A) → ℕ → List A
  gather f zero = []
  gather f (suc n) = gather f n ++ f n

  abbrev pub sum_of : (A → ℕ) → List A → ℕ
  sum_of f [] = 0
  sum_of f (x ∷ xs) = f x + sum_of f xs

  pub sum_of-append : (f : A → ℕ) (xs ys : List A) → sum_of f (xs ++ ys) ≡ sum_of f xs + sum_of f ys
  sum_of-append f [] ys = omega arith
  sum_of-append f (x ∷ xs) ys = omega (arith, sum_of-append f xs ys)

-- `f 0 + f 1 + … + f (n - 1)`
abbrev pub sum_ranks : (ℕ → ℕ) → ℕ → ℕ
sum_ranks f zero = 0
sum_ranks f (suc n) = sum_ranks f n + f n

pub sum_ranks-const :
    (c : ℕ) (f : ℕ → ℕ) (n : ℕ) → ((r : ℕ) → r < n → f r ≡ c) → sum_ranks f n ≡ n * c
sum_ranks-const c f zero h = omega arith
sum_ranks-const c f (suc n) h =
    omega (arith, sum_ranks-const c f n (λ r lt. h r (omega arith)), h n (omega arith))

pub sum_of-gather {ℓ} :
    {A : Type ℓ} (f : A → ℕ) (g : ℕ → List A) (n : ℕ)
    → sum_of f (gather g n) ≡ sum_ranks (λ r. sum_of f (g r)) n
sum_of-gather f g zero = refl
sum_of-gather f g (suc n) =
    sum_of-append f (gather g n) (g n) ∙ ap (λ t. t + sum_of f (g n)) (sum_of-gather f g n)
