-- ===== src/ModelIds/Examples.antt =====
-- The degree for a context of 600000 tokens, which nine times 64K do not hold, and a model id.
use Prim.Native.String.{◌++◌ as append}
use hatchery_core.Common.{true, some, ◌*◌, ◌%◌, ◌≤◌, ◌<◌, ◌≡◌, ◌↔◌, ◌⊎◌, refl}
use hatchery_core.Common.Int.{pos}
use hatchery_core.ModelIds.Ids.{split_colon, parse_model_id}
use hatchery_core.ModelIds.Parts.{parse_model_id-append}
use hatchery_core.ModelIds.{compute_cp_degree, degree_in, compute_cp_degree_lem}

nine-run : compute_cp_degree 600000 ≡ 9
unfolding compute_cp_degree degree_in
nine-run = refl

compute_cp_degree_lem_example :
    ((600000 ≤ compute_cp_degree 600000 * 65536) ↔ ((600000 ≤ 524288) ⊎ (600000 % 65536 ≡ 0)))
    × (65536 < 600000 → 600000 ≤ 524288 → compute_cp_degree 600000 * 65536 < 2 * 600000)
compute_cp_degree_lem_example = compute_cp_degree_lem 600000

-- A name that has a colon itself.
parse_model_id-append_example :
    parse_model_id
      (λ s. some (pos 131072))
      (append "lab:m" (append ":" (append "peft" (append ":" "131072"))))
    ≡ ("lab:m", pos 131072, true)
unfolding split_colon
parse_model_id-append_example =
    parse_model_id-append (λ s. some (pos 131072)) "lab:m" "131072" (pos 131072) refl refl
