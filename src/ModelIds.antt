-- ===== src/ModelIds.antt =====
-- hatchery/core/model_registry.py: the context length of a model and the context parallel degree that
-- it needs. The child Ids splits an id at its colons.
use text.Mathlib.Text.{starts_with}
use hatchery_core.Common.{
  ℕ, ◌+◌, ◌*◌, ◌/◌, ◌%◌, ◌≤◌, ◌<◌, ◌≡◌, ◌↔◌, ◌⊎◌, refl, String, Bool, true, List, [], ◌∷◌, leb,
  if◌then◌else◌, arith, Bool-cases, inl, inr,
}
use hatchery_core.Common.Dict.{Dict}
use Prim.Native.Nat.{max}
pub mod Ids
pub mod Parts
mod Examples

abbrev pub default_context : Dict ℕ
default_context =
    ("Qwen/Qwen3.5", 65536) ∷ ("Qwen/Qwen3.6", 262144) ∷ ("nvidia/NVIDIA-Nemotron-3", 65536) ∷ []

-- The loop over the table, and 32K at its end.
unfoldable pub lookup_in : String → Dict ℕ → ℕ
lookup_in base_model [] = 32768
lookup_in base_model ((prefix, ctx) ∷ rest) =
    if starts_with base_model prefix then ctx else lookup_in base_model rest

unfoldable pub lookup_default_context : String → ℕ
unfolding lookup_in
lookup_default_context base_model = lookup_in base_model default_context

abbrev pub single_gpu_context_limit : ℕ
single_gpu_context_limit = 65536

abbrev pub cp_tiers : List (ℕ × ℕ)
cp_tiers = (65536, 1) ∷ (131072, 2) ∷ (262144, 4) ∷ (524288, 8) ∷ []

-- The loop over the tiers, and the extrapolation at its end.
unfoldable pub degree_in : ℕ → List (ℕ × ℕ) → ℕ
degree_in max_ctx [] = max 8 (max_ctx / single_gpu_context_limit)
degree_in max_ctx ((threshold, degree) ∷ rest) =
    if leb max_ctx threshold then degree else degree_in max_ctx rest

unfoldable pub compute_cp_degree : ℕ → ℕ
unfolding degree_in
compute_cp_degree max_ctx = degree_in max_ctx cp_tiers

-- The degree's GPUs hold the context, at 64K each, if and only if the context is at most 512K or a
-- multiple of 64K; and within the tiers half the degree would not hold it.
pub compute_cp_degree_lem :
    (ctx : ℕ)
    → ((ctx ≤ compute_cp_degree ctx * 65536) ↔ ((ctx ≤ 524288) ⊎ (ctx % 65536 ≡ 0)))
      × (65536 < ctx → ctx ≤ 524288 → compute_cp_degree ctx * 65536 < 2 * ctx)
unfolding compute_cp_degree degree_in
compute_cp_degree_lem ctx = ((λ h. ground arith, λ h. ground arith), λ a b. ground arith)
