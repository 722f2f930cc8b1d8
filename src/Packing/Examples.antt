-- ===== src/Packing/Examples.antt =====
-- Packs of three documents.
use mathlib.Core.List.{Perm}
use hatchery_core.Common.{ℕ, ◌≡◌, refl, inr, true, List, [], ◌∷◌, none, some, map, All, arith}
use hatchery_core.Common.Errors.{ok, raise, value_error}
use hatchery_core.Common.Int.{pos}
use hatchery_core.Common.Sort.{sort_by}
use hatchery_core.Packing.{
  Item, Member, PackedBatch, build_pack, vec, mat, ignored, enumerate_from, pack_sequences,
  unpack_outputs, should_pack,
}
use hatchery_core.Packing.RoundTrip.{documents, unpack-build_pack}
use hatchery_core.Packing.Limits.{IsWithin, Apart}
use hatchery_core.Packing.Packs.{pack_sequences-ok, pack_sequences-raise}

abbrev doc : List ℕ → Item
doc ids = record { input_ids = ids; labels = none }

abbrev docs : List Item
docs = doc (7 ∷ []) ∷ doc (1 ∷ 2 ∷ 3 ∷ []) ∷ doc (4 ∷ 5 ∷ []) ∷ []

abbrev unlabelled : List Item
unlabelled = record { input_ids = 1 ∷ 2 ∷ []; labels = some (pos 1 ∷ []) } ∷ []

pack-run :
    pack_sequences docs (pos 4) true
    ≡ ok (
        record {
          input_ids = 7 ∷ 1 ∷ 2 ∷ 3 ∷ [];
          labels = ignored ∷ ignored ∷ pos 2 ∷ pos 3 ∷ [];
          position_ids = 0 ∷ 0 ∷ 1 ∷ 2 ∷ [];
          cu_seqlens = 0 ∷ 1 ∷ 4 ∷ [];
          slices = (0, 1) ∷ (1, 4) ∷ [];
        }
        ∷ record {
          input_ids = 4 ∷ 5 ∷ [];
          labels = ignored ∷ pos 5 ∷ [];
          position_ids = 0 ∷ 1 ∷ [];
          cu_seqlens = 0 ∷ 2 ∷ [];
          slices = (0, 2) ∷ [];
        }
        ∷ [])
unfolding pack_sequences sort_by enumerate_from
pack-run = refl

pack_sequences-ok_example :
    (packs : List PackedBatch) × (pack_sequences docs (pos 4) true ≡ ok packs)
    × Perm (documents packs) (map (λ item. vec item.input_ids) docs)
    × All (IsWithin 4) packs
    × Apart 4 packs
pack_sequences-ok_example = pack_sequences-ok docs 4 true (omega arith) (refl, (refl, (refl, tt)))

pack_sequences-raise_example : pack_sequences unlabelled (pos 4) true ≡ raise value_error
pack_sequences-raise_example =
    pack_sequences-raise unlabelled (pos 4) true (inr (λ h. absurd (omega arith)))

abbrev two_members : List Member
two_members = (1, doc (1 ∷ 2 ∷ 3 ∷ [])) ∷ (0, doc (7 ∷ [])) ∷ []

unpack-build_pack_example :
    (p : PackedBatch) × (build_pack true two_members ≡ ok p)
    × (unpack_outputs (mat (p.input_ids ∷ [])) p.slices
        ≡ map (λ m. vec (m.1).input_ids) two_members)
unpack-build_pack_example = unpack-build_pack true two_members (refl, (refl, tt))

should_pack-run : should_pack docs (some (pos 4)) 2 ≡ ok true
unfolding should_pack
should_pack-run = refl
