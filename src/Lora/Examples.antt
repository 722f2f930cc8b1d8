-- ===== src/Lora/Examples.antt =====
-- The targets of a Qwen model with all flags, with texts that are already in lower case.
use hatchery_core.Common.{◌≡◌, ◌↔◌, ◌⊎◌, refl, String, true, [], ◌∷◌, none, In, name_eq}
use hatchery_core.Lora.{
  Names, resolve, target_modules_for, is_seen, add_unseen, resolve_by_name, first_match, any_in,
}
use hatchery_core.Lora.Targets.{IsUnique, asked, target_modules_for-ok}

abbrev qwen : Names
qwen = target_modules_for (λ s. s) (λ s. s) (λ s. none) "qwen_qwen3-4b" true true true

qwen-run :
    qwen
    ≡ "q_proj" ∷ "k_proj" ∷ "v_proj" ∷ "o_proj" ∷ "gate_proj" ∷ "up_proj" ∷ "down_proj" ∷ "lm_head"
      ∷ []
unfolding target_modules_for resolve resolve_by_name first_match any_in add_unseen is_seen name_eq
qwen-run = refl

target_modules_for-ok_example :
    IsUnique qwen
    × ((x : String)
        → In x qwen ↔ (
            In x (asked true (resolve (λ s. s) (λ s. s) (λ s. none) "qwen_qwen3-4b").0)
            ⊎ (In x (asked true (resolve (λ s. s) (λ s. s) (λ s. none) "qwen_qwen3-4b").1)
                ⊎ In x (asked true ("lm_head" ∷ [])))))
target_modules_for-ok_example =
    target_modules_for-ok (λ s. s) (λ s. s) (λ s. none) "qwen_qwen3-4b" true true true
