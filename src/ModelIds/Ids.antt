-- ===== src/ModelIds/Ids.antt =====
-- `_parse_model_id` and `resolve_model_id` of hatchery/core/model_registry.py. Python's `int` of a text
-- is a parameter: none where it raises ValueError.
use Prim.Native.Char.{code}
use Prim.Native.String.{[] as end, ◌∷◌ as char, ◌++◌ as append}
use hatchery_core.Common.{
  ℕ, String, Bool, true, false, List, [], ◌∷◌, ◌==◌, Option, none, some, same, if◌then◌else◌,
}
use hatchery_core.Common.Int.{ℤ, pos, pos_part}
use hatchery_core.ModelIds.{lookup_default_context, compute_cp_degree}

pub record ResolvedModel : Type 0 where
  pub base_model : String
  pub max_context_length : ℤ
  pub is_long_context : Bool
  pub required_cp_degree : ℕ
  pub raw_model_id : String

-- A character in front of the first part.
abbrev pub onto_first : String → List String → List String
onto_first c [] = c ∷ []
onto_first c (p ∷ ps) = append c p ∷ ps

-- `model_id.split(":")`
unfoldable pub split_colon : String → List String
split_colon end = "" ∷ []
split_colon (char c s) =
    if code c == 58 then "" ∷ split_colon s else onto_first (char c end) (split_colon s)

-- `":".join(parts)`
unfoldable pub join_colon : List String → String
join_colon [] = ""
join_colon (p ∷ []) = p
join_colon (p ∷ q ∷ ps) = append p (append ":" (join_colon (q ∷ ps)))

abbrev pub with_part : String → Option (List String × String) → Option (List String × String)
with_part p none = none
with_part p (some (ps, last)) = some (p ∷ ps, last)

-- `parts[:-2]` and `parts[-1]`, where there are three parts or more and `parts[-2] == "peft"`
unfoldable pub peft_suffix : List String → Option (List String × String)
peft_suffix [] = none
peft_suffix (p ∷ q ∷ r ∷ []) = if same q "peft" then some (p ∷ [], r) else none
peft_suffix (p ∷ ps) = with_part p (peft_suffix ps)

module _ (int : String → Option ℤ) where
  abbrev pub plain_model_id : String → String × ℤ × Bool
  plain_model_id model_id = (model_id, pos (lookup_default_context model_id), false)

  unfoldable pub parse_model_id : String → String × ℤ × Bool
  unfolding split_colon join_colon peft_suffix
  parse_model_id model_id = elim (peft_suffix (split_colon model_id)) [
    | none ↦ plain_model_id model_id
    | some (parts, last) ↦ elim (int last) [
      | some ctx ↦ (join_colon parts, ctx, true)
      | none ↦ plain_model_id model_id
    ]
  ]

  -- A negative length is in the first tier, as 0 is.
  unfoldable pub resolve_model_id : String → ResolvedModel
  unfolding parse_model_id
  resolve_model_id model_id =
      let (base, max_ctx, is_long) = parse_model_id model_id in
      record {
        base_model = base;
        max_context_length = max_ctx;
        is_long_context = is_long;
        required_cp_degree = compute_cp_degree (pos_part max_ctx);
        raw_model_id = model_id;
      }
