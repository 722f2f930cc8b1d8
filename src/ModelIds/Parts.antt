-- ===== src/ModelIds/Parts.antt =====
-- The id that names a model and a context length is read back as these (`_parse_model_id` of
-- hatchery/core/model_registry.py).
use Prim.Native.Char.{Char, code}
use Prim.Native.String.append as Append
use Prim.Native.String.{[] as end, ◌∷◌ as char, ◌++◌ as append}
use Prim.Native.Nat.{compare}
use text.Mathlib.TextEquality.{codes_equal}
use text.Mathlib.TextLemmas.{append_assoc}
use hatchery_core.Common.{
  ℕ, ◌≡◌, ◌≢◌, refl, String, Bool, true, false, List, [], ◌∷◌, ◌++◌, ◌==◌, Option, none, some, same,
  arith, sym, ap, ◌∙◌, Bool-cases, inl, inr, subst,
}
use hatchery_core.Common.Int.{ℤ}
use hatchery_core.ModelIds.Ids.{
  onto_first, split_colon, join_colon, peft_suffix, with_part, parse_model_id,
}

-- Every text has a first part.
split-cases : (s : String) → (p : String) × (ps : List String) × (split_colon s ≡ p ∷ ps)
unfolding split_colon
split-cases end = ("", [], refl)
split-cases (char c s) = elim (Bool-cases (code c == 58)) [
  | inl e ↦ ("", split_colon s, rw e refl)
  | inr e ↦ let (p, ps, at) = split-cases s in (append (char c end) p, ps, rw (e, at) refl)
]

onto_first-append :
    (c p : String) (ps qs : List String)
    → onto_first c (p ∷ ps) ++ qs ≡ onto_first c ((p ∷ ps) ++ qs)
onto_first-append c p ps qs = refl

-- A text with a colon in front splits at it.
split-colon_first : (b : String) → split_colon (append ":" b) ≡ "" ∷ split_colon b
unfolding split_colon
split-colon_first b =
    ap split_colon (Append.cons ":" end b) ∙ ap (λ t. "" ∷ split_colon t) (Append.nil b)

split-append :
    (a b : String) → split_colon (append a (append ":" b)) ≡ split_colon a ++ split_colon b
unfolding split_colon
split-append end b = ap split_colon (Append.nil (append ":" b)) ∙ split-colon_first b
split-append (char c s) b =
    ap split_colon (Append.cons c s (append ":" b)) ∙ elim (Bool-cases (code c == 58)) [
      | inl e ↦ rw e (ap (λ l. "" ∷ l) (split-append s b))
      | inr e ↦ let (p, ps, at) = split-cases s in rw (e, split-append s b, at) refl
    ]

peft_suffix-append :
    (p last : String) (ps : List String)
    → peft_suffix ((p ∷ ps) ++ "peft" ∷ last ∷ []) ≡ some (p ∷ ps, last)
unfolding peft_suffix hatchery_core.Common.name_eq
peft_suffix-append p last [] = refl
peft_suffix-append p last (q ∷ []) = ap (with_part p) (peft_suffix-append q last [])
peft_suffix-append p last (q ∷ r ∷ []) = ap (with_part p) (peft_suffix-append q last (r ∷ []))
peft_suffix-append p last (q ∷ r ∷ x ∷ ps) =
    ap (with_part p) (peft_suffix-append q last (r ∷ x ∷ ps))

join_colon-onto_first :
    (c p : String) (ps : List String)
    → join_colon (onto_first c (p ∷ ps)) ≡ append c (join_colon (p ∷ ps))
unfolding join_colon
join_colon-onto_first c p [] = refl
join_colon-onto_first c p (q ∷ ps) = append_assoc c p (append ":" (join_colon (q ∷ ps)))

is_colon : (c : Char) → code c == 58 ≡ true → c ≡ ":"
is_colon c e = let at : code c ≡ 58 = ground arith in codes_equal c ":" (ap (λ n. compare n 58) at)

join_colon-split_colon : (s : String) → join_colon (split_colon s) ≡ s
unfolding join_colon split_colon
join_colon-split_colon end = refl
join_colon-split_colon (char c s) =
    let (p, ps, at) = split-cases s in
    let rest : join_colon (p ∷ ps) ≡ s = ap join_colon (sym at) ∙ join_colon-split_colon s in
    elim (Bool-cases (code c == 58)) [
      | inl e ↦
          rw (e, at)
            (Append.nil (append ":" (join_colon (p ∷ ps)))
              ∙ Append.cons ":" end (join_colon (p ∷ ps))
              ∙ ap (λ t. char ":" t) (Append.nil (join_colon (p ∷ ps)) ∙ rest)
              ∙ ap (λ z. char z s) (sym (is_colon c e)))
      | inr e ↦
          rw (e, at)
            (join_colon-onto_first (char c end) p ps
              ∙ Append.cons c end (join_colon (p ∷ ps))
              ∙ ap (λ t. char c t) (Append.nil (join_colon (p ∷ ps)) ∙ rest))
    ]

-- A model id with ":peft:" and the text of a number behind it names the model in front and this context
-- length, whatever colons the model's own name has.
pub parse_model_id-append :
    (int : String → Option ℤ) (base n : String) (ctx : ℤ)
    → split_colon n ≡ n ∷ []
    → int n ≡ some ctx
    → parse_model_id int (append base (append ":" (append "peft" (append ":" n))))
      ≡ (base, ctx, true)
unfolding parse_model_id
parse_model_id-append int base n ctx one_part number =
    let (p, ps, at) = split-cases base in
    let last : split_colon (append "peft" (append ":" n)) ≡ "peft" ∷ n ∷ [] =
      split-append "peft" n ∙ ap (λ l. split_colon "peft" ++ l) one_part in
    let parts : split_colon (append base (append ":" (append "peft" (append ":" n))))
        ≡ (p ∷ ps) ++ "peft" ∷ n ∷ [] =
      split-append base _ ∙ (λ i. at i ++ last i) in
    let whole : join_colon (p ∷ ps) ≡ base = ap join_colon (sym at) ∙ join_colon-split_colon base in
    let found = ap peft_suffix parts ∙ peft_suffix-append p n ps in
    ground (arith, found, number, whole)
