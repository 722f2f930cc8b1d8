-- ===== src/Optim.antt =====
-- The choice of the optimizer in hatchery/core/optim_dispatch.py. `budget` is the whole part of the free
-- bytes times `vram_budget_frac`, a float.
use hatchery_core.Common.{
  ℕ, ◌*◌, ◌<◌, ◌≡◌, ◌↔◌, String, not, ◌||◌, leb, ltb, same, if◌then◌else◌, arith,
}

pub data OptimizerKind : Type 0 where
  adamw adamw_8bit : OptimizerKind

abbrev pub fp32_adamw_bytes_per_param : ℕ
fp32_adamw_bytes_per_param = 8

unfoldable pub select_optimizer_kind : (ℕ → ℕ) → String → ℕ → ℕ → OptimizerKind
select_optimizer_kind budget training_mode params vram_free =
    if not (same training_mode "full_param")
    then OptimizerKind.adamw
    else if leb params 0 || leb vram_free 0
    then OptimizerKind.adamw
    else if ltb (budget vram_free) (params * fp32_adamw_bytes_per_param)
    then OptimizerKind.adamw_8bit
    else OptimizerKind.adamw

-- The 8-bit optimizer is chosen if and only if all parameters train, there are some, some memory is free, and the
-- state of eight bytes for each exceeds the budget.
pub select_optimizer_kind_lem :
    (budget : ℕ → ℕ) (training_mode : String) (params vram_free : ℕ)
    → (select_optimizer_kind budget training_mode params vram_free ≡ OptimizerKind.adamw_8bit) ↔ (
        (training_mode ≡ "full_param")
        × (0 < params)
        × (0 < vram_free)
        × (budget vram_free < params * 8))
unfolding select_optimizer_kind
select_optimizer_kind_lem budget training_mode params vram_free =
    (λ h. ground arith, λ h. ground arith)
