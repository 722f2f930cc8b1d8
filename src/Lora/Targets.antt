-- ===== src/Lora/Targets.antt =====
-- The targets are what was asked for, each once.
use hatchery_core.Common.{
  ◌≡◌, ◌↔◌, ◌⊎◌, refl, sym, subst, String, Bool, true, false, not, ◌&&◌, [], ◌∷◌, ◌++◌, Option, In,
  if◌then◌else◌, arith, Bool-cases, inl, inr,
}
use hatchery_core.Lora.{Names, is_seen, add_unseen, resolve, target_modules_for}

is_seen-In : (x : String) (l : Names) → (is_seen x l ≡ true) ↔ In x l
unfolding is_seen
is_seen-In x [] = (λ e. ground arith, λ i. absurd i)
is_seen-In x (y ∷ l) = (λ e. ground (arith, is_seen-In x l), λ i. ground (arith, is_seen-In x l))

In-append : (x : String) (l r : Names) → In x (l ++ r) ↔ (In x l ⊎ In x r)
In-append x [] r = (λ i. inr i, λ i. elim i [ inl a ↦ absurd a | inr b ↦ b ])
In-append x (y ∷ l) r = (λ i. ground (arith, In-append x l r), λ i. ground (arith, In-append x l r))

-- No name stands twice.
abbrev pub IsUnique : Names → Type 0
IsUnique [] = Unit
IsUnique (x ∷ l) = ¬ In x l × IsUnique l

append-IsUnique : (x : String) (l : Names) → ¬ In x l → IsUnique l → IsUnique (l ++ x ∷ [])
append-IsUnique x [] n u = ((λ i. i), tt)
append-IsUnique x (y ∷ l) n u =
    (ground (arith, In-append y l (x ∷ [])), append-IsUnique x l (λ i. n (inr i)) u.1)

-- The loop keeps `out` and `seen` the same list.
abbrev Grown : Names → Names → Names × Names → Type 0
Grown mods before r =
    (r.0 ≡ r.1) × IsUnique r.0 × ((x : String) → In x r.0 ↔ (In x before ⊎ In x mods))

add_unseen-Grown : (mods out : Names) → IsUnique out → Grown mods out (add_unseen mods (out, out))
unfolding add_unseen
add_unseen-Grown [] out u =
    (refl, u, λ x. ((λ i. inl i), λ i. elim i [ inl a ↦ a | inr b ↦ absurd b ]))
add_unseen-Grown (m ∷ mods) out u = elim (Bool-cases (is_seen m out)) [
  | inl old ↦
      let (same_list, unique, members) = add_unseen-Grown mods out u in
      let run : add_unseen (m ∷ mods) (out, out) ≡ add_unseen mods (out, out) = ground arith in
      let stands : In m out = (is_seen-In m out).0 old in
      subst (Grown (m ∷ mods) out) (sym run) (
        same_list,
        unique,
        λ x. (
          λ i. elim ((members x).0 i) [ inl a ↦ inl a | inr b ↦ inr (inr b) ],
          λ i. elim i [
            | inl a ↦ (members x).1 (inl a)
            | inr b ↦ elim b [
              | inl e ↦ (members x).1 (inl (subst (λ y. In y out) e stands))
              | inr c ↦ (members x).1 (inr c)
            ]
          ],
        ),
      )
  | inr new ↦
      let fresh : ¬ In m out = λ i. ground (arith, is_seen-In m out) in
      let (same_list, unique, members) =
        add_unseen-Grown mods (out ++ m ∷ []) (append-IsUnique m out fresh u) in
      let run : add_unseen (m ∷ mods) (out, out) ≡ add_unseen mods (out ++ m ∷ [], out ++ m ∷ []) =
        ground arith in
      subst (Grown (m ∷ mods) out) (sym run) (
        same_list,
        unique,
        λ x. (
          λ i. elim ((members x).0 i) [
            | inl a ↦ ground (arith, In-append x out (m ∷ []))
            | inr b ↦ inr (inr b)
          ],
          λ i. (members x).1 (ground (arith, In-append x out (m ∷ []))),
        ),
      )
]

-- What a flag asks for.
abbrev pub asked : Bool → Names → Names
asked flag l = if flag then l else []

flag-Grown :
    (flag : Bool) (mods out : Names)
    → IsUnique out
    → Grown (asked flag mods) out (if flag then add_unseen mods (out, out) else (out, out))
flag-Grown true mods out u = add_unseen-Grown mods out u
flag-Grown false mods out u =
    (refl, u, λ x. ((λ i. inl i), λ i. elim i [ inl a ↦ a | inr b ↦ absurd b ]))

flag-Grown_pair :
    (flag : Bool) (mods : Names) (r : Names × Names)
    → r.0 ≡ r.1
    → IsUnique r.0
    → Grown (asked flag mods) r.0 (if flag then add_unseen mods r else r)
flag-Grown_pair flag mods r e u =
    subst
      (λ seen.
        Grown (asked flag mods) r.0 (if flag then add_unseen mods (r.0, seen) else (r.0, seen)))
      e (flag-Grown flag mods r.0 u)

abbrev with_unembed : Bool → Names → Names → Names
with_unembed flag out seen =
    if flag && not (is_seen "lm_head" seen) then out ++ "lm_head" ∷ [] else out

with_unembed-Grown :
    (flag : Bool) (out : Names)
    → IsUnique out
    → IsUnique (with_unembed flag out out)
      × ((x : String)
          → In x (with_unembed flag out out) ↔ (In x out ⊎ In x (asked flag ("lm_head" ∷ []))))
with_unembed-Grown false out u =
    (u, λ x. ((λ i. inl i), λ i. elim i [ inl a ↦ a | inr b ↦ absurd b ]))
with_unembed-Grown true out u = elim (Bool-cases (is_seen "lm_head" out)) [
  | inl old ↦
      let stands : In "lm_head" out = (is_seen-In "lm_head" out).0 old in
      rw old (
        u,
        λ x. (
          λ i. inl i,
          λ i. elim i [
            | inl a ↦ a
            | inr b ↦ elim b [ inl e ↦ subst (λ y. In y out) e stands | inr c ↦ absurd c ]
          ],
        ),
      )
  | inr new ↦
      let fresh : ¬ In "lm_head" out = λ i. ground (arith, is_seen-In "lm_head" out) in
      rw new (append-IsUnique "lm_head" out fresh u, λ x. In-append x out ("lm_head" ∷ []))
]

-- The targets are, each once, exactly the attention modules and the MLP modules of the architecture and "lm_head",
-- as far as the three flags ask for them.
pub target_modules_for-ok :
    (normalize lower : String → String) (model_type : String → Option String) (base_model : String)
    (train_attn train_mlp train_unembed : Bool)
    → let mods = resolve normalize lower model_type base_model in
      let targets =
        target_modules_for normalize lower model_type base_model train_attn train_mlp
          train_unembed in
      IsUnique targets
      × ((x : String)
          → In x targets ↔ (
              In x (asked train_attn mods.0)
              ⊎ (In x (asked train_mlp mods.1) ⊎ In x (asked train_unembed ("lm_head" ∷ [])))))
unfolding target_modules_for
target_modules_for-ok normalize lower model_type base_model train_attn train_mlp train_unembed =
    let mods = resolve normalize lower model_type base_model in
    let first = if train_attn then add_unseen mods.0 ([], []) else ([], []) in
    let second = if train_mlp then add_unseen mods.1 first else first in
    let (same_first, unique_first, in_first) = flag-Grown train_attn mods.0 [] tt in
    let (same_second, unique_second, in_second) =
      flag-Grown_pair train_mlp mods.1 first same_first unique_first in
    let (unique, members) = with_unembed-Grown train_unembed second.0 unique_second in
    subst
      (λ seen.
        IsUnique (with_unembed train_unembed second.0 seen)
        × ((x : String)
            → In x (with_unembed train_unembed second.0 seen) ↔ (
                In x (asked train_attn mods.0)
                ⊎ (In x (asked train_mlp mods.1) ⊎ In x (asked train_unembed ("lm_head" ∷ []))))))
      same_second
      (
        unique,
        λ x. (
          λ i. elim ((members x).0 i) [
            | inl a ↦ elim ((in_second x).0 a) [
              | inl b ↦ elim ((in_first x).0 b) [ inl c ↦ absurd c | inr d ↦ inl d ]
              | inr b ↦ inr (inl b)
            ]
            | inr c ↦ inr (inr c)
          ],
          λ i. elim i [
            | inl a ↦ (members x).1 (inl ((in_second x).1 (inl ((in_first x).1 (inr a)))))
            | inr b ↦ elim b [
              | inl c ↦ (members x).1 (inl ((in_second x).1 (inr c)))
              | inr d ↦ (members x).1 (inr d)
            ]
          ],
        ),
      )
