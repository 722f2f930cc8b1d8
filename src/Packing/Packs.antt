-- ===== src/Packing/Packs.antt =====
-- `pack_sequences` as a whole: what it returns, and when it raises.
use mathlib.Core.List.{Perm, append-nil}
use mathlib.Core.List.Perm
use hatchery_core.Common.{
  ℕ, ◌+◌, ◌<◌, ◌≡◌, ◌⊎◌, refl, subst, Bool, true, false, List, [], ◌∷◌, map, length, All,
  All-append, arith, Bool-cases, inl, inr,
}
use hatchery_core.Common.Errors.{ok, raise, value_error}
use hatchery_core.Common.Int.{ℤ, pos}
use hatchery_core.Common.Sort.{sort_by, sort_by-perm}
use hatchery_core.Packing.{
  Item, Member, PackedBatch, Bin, vec, labels_of, enumerate_from, sorted_members, earlier,
  fill_bins, build_packs, pack_sequences,
}
use hatchery_core.Packing.Bins.{contents, fill_bins-ok}
use hatchery_core.Packing.Layout.{IsLabelled, build_pack-packed}
use hatchery_core.Packing.RoundTrip.{
  documents, laid_out, AllLabelled, build_packs-laid_out, documents-contents, ItemsLabelled,
  enumerate_from-IsLabelled, enumerate_from-ItemsLabelled, enumerate_from-ids, contents-AllLabelled,
  IsLabelled-perm,
}
use hatchery_core.Packing.Limits.{IsWithin, Apart, laid_out-IsWithin, laid_out-Apart}
use hatchery_core.Common.{ltb}
use hatchery_core.Packing.Layout.{build_pack-raise}
use hatchery_core.Packing.{longer}
use hatchery_core.Common.Int.{pos_part, ltb_ℤ}
use native.Mathlib.Decide.{ℕ_discrete}

-- The bins of the items.
abbrev bins_of : List Item → ℕ → List Bin
bins_of items max = fill_bins max (sorted_members items) []

bins_of-perm :
    (items : List Item) (max : ℕ) → Perm (contents (bins_of items max)) (enumerate_from 0 items)
bins_of-perm items max =
    Perm.trans (fill_bins-ok max (sorted_members items) [] tt tt).0
      (rw (append-nil (sorted_members items)) (sort_by-perm longer (enumerate_from 0 items)))

bins_of-AllLabelled :
    (items : List Item) (max : ℕ) → ItemsLabelled items → AllLabelled (bins_of items max)
bins_of-AllLabelled items max h =
    contents-AllLabelled (bins_of items max)
      (IsLabelled-perm (Perm.symm (bins_of-perm items max)) (enumerate_from-IsLabelled 0 items h))

-- With a positive limit and as many labels as tokens in every item, packing returns; the documents
-- of the packs are the given ones, once each; a pack is within the limit or is one document; and no
-- two packs would fit into one.
pub pack_sequences-ok :
    (items : List Item) (max : ℕ) (mask : Bool)
    → 0 < max
    → ItemsLabelled items
    → (packs : List PackedBatch) × (pack_sequences items (pos max) mask ≡ ok packs)
      × Perm (documents packs) (map (λ item. vec item.input_ids) items)
      × All (IsWithin max) packs
      × Apart max packs
unfolding pack_sequences
pack_sequences-ok items max mask positive labelled =
    let bins = bins_of items max in
    let test : ltb 0 (max + 0) ≡ true = ground arith in
    let filled = fill_bins-ok max (sorted_members items) [] tt tt in
    (
      laid_out mask bins,
      rw test (build_packs-laid_out mask bins (bins_of-AllLabelled items max labelled)),
      Perm.trans (documents-contents mask bins) (
          subst (Perm (map (λ m. vec (m.1).input_ids) (contents bins))) (enumerate_from-ids 0 items)
            (Perm.map _ (bins_of-perm items max))),
      laid_out-IsWithin max mask bins filled.1,
      laid_out-Apart max mask bins filled.1 filled.2,
    )

IsLabelled-dec : (ms : List Member) → Dec (IsLabelled ms)
IsLabelled-dec [] = yes tt
IsLabelled-dec (m ∷ ms) = elim (ℕ_discrete (length (labels_of m.1)) (length (m.1).input_ids)) [
  | yes p ↦ elim (IsLabelled-dec ms) [ yes q ↦ yes (p, q) | no q ↦ no (λ h. q h.1) ]
  | no p ↦ no (λ h. p h.0)
]

build_packs-raise :
    (mask : Bool) (bins : List Bin) → ¬ AllLabelled bins → build_packs mask bins ≡ raise value_error
unfolding build_packs
build_packs-raise mask [] h = absurd (h tt)
build_packs-raise mask (b ∷ bins) h = elim (IsLabelled-dec b.members) [
  | yes p ↦
      rw
        (
          build_pack-packed mask (sort_by earlier b.members)
              (IsLabelled-perm (Perm.symm (sort_by-perm earlier b.members)) p),
          build_packs-raise mask bins (λ rest. h (p, rest)),
        )
        refl
  | no n ↦
      rw
        (build_pack-raise mask (sort_by earlier b.members)
          (λ l. n (IsLabelled-perm (sort_by-perm earlier b.members) l)))
        refl
]

joined-IsLabelled : (bins : List Bin) → AllLabelled bins → IsLabelled (contents bins)
joined-IsLabelled [] h = tt
joined-IsLabelled (b ∷ bins) h =
    All-append (λ m. length (labels_of m.1) ≡ length (m.1).input_ids) b.members (contents bins) h.0
      (joined-IsLabelled bins h.1)

-- Packing raises a ValueError for a limit that is not positive, and for a batch in which an item's
-- labels are not as many as its tokens.
pub pack_sequences-raise :
    (items : List Item) (max : ℤ) (mask : Bool)
    → (ltb_ℤ (pos 0) max ≡ false) ⊎ (¬ ItemsLabelled items)
    → pack_sequences items max mask ≡ raise value_error
unfolding pack_sequences
pack_sequences-raise items max mask (inl small) = rw small refl
pack_sequences-raise items max mask (inr unlabelled) = elim (Bool-cases (ltb_ℤ (pos 0) max)) [
  | inr small ↦ rw small refl
  | inl positive ↦ rw positive (
      build_packs-raise mask (bins_of items (pos_part max)) (λ h. unlabelled (
        enumerate_from-ItemsLabelled 0 items
          (IsLabelled-perm (bins_of-perm items (pos_part max)) (joined-IsLabelled _ h)))))
]
