-- ===== src/Packing/RoundTrip.antt =====
-- `pack_sequences` as a whole, and `unpack_outputs` after it.
use mathlib.Core.List.{Perm, map-append, map-map}
use mathlib.Core.List.Perm
use hatchery_core.Common.{
  ℕ, suc, ◌≡◌, refl, sym, ap, ◌∙◌, Bool, List, [], ◌∷◌, ◌++◌, map, length, slice, All,
}
use native.Mathlib.Nat.{ℕ_set}
use hatchery_core.Common.Perms.{All-perm}
use hatchery_core.Common.Errors.{ok}
use hatchery_core.Common.Sort.{sort_by, sort_by-perm, All-sort_by}
use hatchery_core.Packing.{
  Item, Member, PackedBatch, Bin, Tensor, vec, mat, labels_of, enumerate_from, earlier, build_pack,
  build_packs, unpack_outputs,
}
use hatchery_core.Packing.Bins.{contents}
use hatchery_core.Packing.Layout.{
  IsLabelled, packed, build_pack-packed, slices-documents, all_ids, spans,
}

unpack-packed :
    (mask : Bool) (ms : List Member)
    → unpack_outputs (mat ((packed mask ms).input_ids ∷ [])) (packed mask ms).slices
      ≡ map (λ m. vec (m.1).input_ids) ms
unfolding unpack_outputs
unpack-packed mask ms =
    sym (map-map vec (λ s. slice s.0 s.1 (all_ids ms)) (spans 0 ms))
    ∙ ap (map vec) (slices-documents [] ms)
    ∙ map-map vec (λ m. (m.1).input_ids) ms

-- For members that have as many labels as tokens `build_pack` returns a pack, and cutting its row of
-- tokens, with the batch dimension in front, at its slices gives the members' documents back, in order.
pub unpack-build_pack :
    (mask : Bool) (ms : List Member)
    → IsLabelled ms
    → (p : PackedBatch) × (build_pack mask ms ≡ ok p)
      × (unpack_outputs (mat (p.input_ids ∷ [])) p.slices ≡ map (λ m. vec (m.1).input_ids) ms)
unpack-build_pack mask ms h = (packed mask ms, build_pack-packed mask ms h, unpack-packed mask ms)

-- The documents of all packs, as `unpack_outputs` returns them.
abbrev pub documents : List PackedBatch → List (Tensor ℕ)
documents [] = []
documents (p ∷ ps) = unpack_outputs (mat (p.input_ids ∷ [])) p.slices ++ documents ps

abbrev pub laid_out : Bool → List Bin → List PackedBatch
laid_out mask [] = []
laid_out mask (b ∷ bins) = packed mask (sort_by earlier b.members) ∷ laid_out mask bins

abbrev pub AllLabelled : List Bin → Type 0
AllLabelled = All (λ b. IsLabelled b.members)

pub build_packs-laid_out :
    (mask : Bool) (bins : List Bin)
    → AllLabelled bins
    → build_packs mask bins ≡ ok (laid_out mask bins)
unfolding build_packs
build_packs-laid_out mask [] h = refl
build_packs-laid_out mask (b ∷ bins) h =
    rw
      (
        build_pack-packed mask (sort_by earlier b.members) (
            All-sort_by earlier (λ m. length (labels_of m.1) ≡ length (m.1).input_ids) b.members
              h.0),
        build_packs-laid_out mask bins h.1,
      )
      refl

pub documents-contents :
    (mask : Bool) (bins : List Bin)
    → Perm (documents (laid_out mask bins)) (map (λ m. vec (m.1).input_ids) (contents bins))
documents-contents mask [] = Perm.refl []
documents-contents mask (b ∷ bins) =
    rw
      (
        unpack-packed mask (sort_by earlier b.members),
        map-append (λ m. vec (m.1).input_ids) b.members (contents bins),
      )
      (Perm.append (Perm.map _ (sort_by-perm earlier b.members)) (documents-contents mask bins))

-- The labels of a list of items, and of the same items numbered.
abbrev pub ItemsLabelled : List Item → Type 0
ItemsLabelled = All (λ item. length (labels_of item) ≡ length item.input_ids)

pub enumerate_from-IsLabelled :
    (i : ℕ) (items : List Item) → ItemsLabelled items → IsLabelled (enumerate_from i items)
unfolding enumerate_from
enumerate_from-IsLabelled i [] h = tt
enumerate_from-IsLabelled i (item ∷ items) h = (h.0, enumerate_from-IsLabelled (suc i) items h.1)

pub enumerate_from-ids :
    (i : ℕ) (items : List Item)
    → map (λ m. vec (m.1).input_ids) (enumerate_from i items)
      ≡ map (λ item. vec item.input_ids) items
unfolding enumerate_from
enumerate_from-ids i [] = refl
enumerate_from-ids i (item ∷ items) =
    ap (◌∷◌ (vec item.input_ids)) (enumerate_from-ids (suc i) items)

-- Of the numbered items all are labelled only if the items are.
pub enumerate_from-ItemsLabelled :
    (i : ℕ) (items : List Item) → IsLabelled (enumerate_from i items) → ItemsLabelled items
unfolding enumerate_from
enumerate_from-ItemsLabelled i [] h = tt
enumerate_from-ItemsLabelled i (item ∷ items) h =
    (h.0, enumerate_from-ItemsLabelled (suc i) items h.1)

All-split_left : (xs ys : List Member) → IsLabelled (xs ++ ys) → IsLabelled xs
All-split_left [] ys h = tt
All-split_left (x ∷ xs) ys h = (h.0, All-split_left xs ys h.1)

All-split_right : (xs ys : List Member) → IsLabelled (xs ++ ys) → IsLabelled ys
All-split_right [] ys h = h
All-split_right (x ∷ xs) ys h = All-split_right xs ys h.1

pub contents-AllLabelled : (bins : List Bin) → IsLabelled (contents bins) → AllLabelled bins
contents-AllLabelled [] h = tt
contents-AllLabelled (b ∷ bins) h = (
  All-split_left b.members (contents bins) h,
  contents-AllLabelled bins (All-split_right b.members (contents bins) h),
)

pub IsLabelled-perm : {xs ys : List Member} → Perm xs ys → IsLabelled xs → IsLabelled ys
IsLabelled-perm = All-perm (λ m. length (labels_of m.1) ≡ length (m.1).input_ids) (λ m. ℕ_set _ _)
