-- ===== src/Parallel/Checks.antt =====
-- What the checks of `ParallelConfig` give its other methods.
use native.Mathlib.Nat.{mul-pos}
use hatchery_core.Common.{ℕ, ◌*◌, ◌≤◌, ◌<◌, ◌≡◌, ◌⊎◌, ◌↔◌, true, false, arith, inl, suc, zero}
use hatchery_core.Common.Errors.{ok}
use hatchery_core.Common.Int.{ℤ, pos, negsuc, ltb_ℤ, mul_ℤ}
use hatchery_core.Parallel.{ParallelConfig, post_init, is_distributed}

-- A degree of at least two.
abbrev pub HasMany : ℤ → Type 0
HasMany (pos n) = 1 < n
HasMany (negsuc n) = ⊥

abbrev IsPositive : ℤ → Type 0
IsPositive (pos n) = 1 ≤ n
IsPositive (negsuc n) = ⊥

not_below_1 : (z : ℤ) → ltb_ℤ z (pos 1) ≡ false → IsPositive z
not_below_1 (pos n) h = ground arith
not_below_1 (negsuc n) h = absurd (ground arith)

post_init-IsPositive :
    (c : ParallelConfig)
    → post_init c ≡ ok c
    → IsPositive c.dp_degree × IsPositive c.tp_degree × IsPositive c.cp_degree
unfolding post_init
post_init-IsPositive c h = (
  not_below_1 c.dp_degree (ground arith),
  not_below_1 c.tp_degree (ground arith),
  not_below_1 c.cp_degree (ground arith),
)

-- A product of positive numbers is positive, and more than one if and only if a factor is.
product-pos : (a b : ℕ) → 1 ≤ a → 1 ≤ b → 1 ≤ a * b
product-pos a b h k = mul-pos h k

product-many : (a b : ℕ) → 1 ≤ a → 1 ≤ b → (1 < a * b) ↔ ((1 < a) ⊎ (1 < b))
product-many zero b h k = absurd (omega (arith, h))
product-many (suc zero) b h k = ground arith
product-many (suc (suc a)) zero h k = absurd (omega (arith, k))
product-many (suc (suc a)) (suc b) h k = (λ m. inl (omega arith), λ m. omega arith)

abbrev IsDistributed : (x y z : ℤ) → Type 0
IsDistributed x y z = ltb_ℤ (pos 1) (mul_ℤ (mul_ℤ x y) z) ≡ true

degrees-IsDistributed :
    (x y z : ℤ)
    → IsPositive x
    → IsPositive y
    → IsPositive z
    → IsDistributed x y z ↔ (HasMany x ⊎ (HasMany y ⊎ HasMany z))
degrees-IsDistributed (pos a) (pos b) (pos d) h k l =
    let two = product-many a b h k in
    let all = product-many (a * b) d (product-pos a b h k) l in ground (arith, two, all)
degrees-IsDistributed (negsuc a) y z h k l = absurd h
degrees-IsDistributed (pos a) (negsuc b) z h k l = absurd k
degrees-IsDistributed (pos a) (pos b) (negsuc d) h k l = absurd l

-- A configuration that passes the checks is distributed if and only if one of its degrees is at least
-- two; the product of degrees that do not pass, such as two negative ones, could be above one with none.
pub post_init-is_distributed :
    (c : ParallelConfig)
    → post_init c ≡ ok c
    → (is_distributed c ≡ true)
      ↔ (HasMany c.dp_degree ⊎ (HasMany c.tp_degree ⊎ HasMany c.cp_degree))
post_init-is_distributed c h =
    let p = post_init-IsPositive c h in
    degrees-IsDistributed c.dp_degree c.tp_degree c.cp_degree p.0 p.1 p.2
