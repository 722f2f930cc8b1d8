-- ===== src/Packing/Layout.antt =====
-- The layout of one pack: documents side by side, and what the slices cut out again.
use mathlib.Core.List.{append_assoc, append-nil}
use mathlib.Core.Path.{ap₂, subst₂}
use hatchery_core.Common.{
  ℕ, ◌+◌, ◌-◌, ◌≡◌, refl, sym, ap, ◌∙◌, Bool, List, [], ◌∷◌, ◌++◌, map, length, slice,
  length-append, take-append_left, drop-append_left, All, arith, Bool-cases, inl, inr, ◌==◌,
}
use hatchery_core.Common.Errors.{ok, raise, value_error}
use hatchery_core.Common.Int.{ℤ}
use hatchery_core.Packing.{
  Item, Member, PackedBatch, Build, labels_of, mask_first, range_from, start_build, append_member,
  build_loop, build_pack, size_of,
}
use hatchery_core.Packing.Bins.{sum_sizes}

-- What the fields are, written down directly.
abbrev pub all_ids : List Member → List ℕ
all_ids [] = []
all_ids ((_, item) ∷ ms) = item.input_ids ++ all_ids ms

abbrev pub all_labels : Bool → List Member → List ℤ
all_labels mask [] = []
all_labels mask ((_, item) ∷ ms) = mask_first mask (labels_of item) ++ all_labels mask ms

abbrev pub all_positions : List Member → List ℕ
all_positions [] = []
all_positions (m ∷ ms) = range_from 0 (size_of m) ++ all_positions ms

abbrev pub spans : ℕ → List Member → List (ℕ × ℕ)
spans start [] = []
spans start (m ∷ ms) = (start, start + size_of m) ∷ spans (start + size_of m) ms

abbrev pub ends : List (ℕ × ℕ) → List ℕ
ends = map (λ s. s.1)

-- Every item has as many labels as tokens.
abbrev pub IsLabelled : List Member → Type 0
IsLabelled = All (λ m. length (labels_of m.1) ≡ length (m.1).input_ids)

-- The variables after the loop.
abbrev after : Bool → List Member → Build → Build
after mask ms b = record {
  flat_ids = b.flat_ids ++ all_ids ms;
  flat_labels = b.flat_labels ++ all_labels mask ms;
  flat_pos = b.flat_pos ++ all_positions ms;
  cu = b.cu ++ ends (spans b.offset ms);
  slices = b.slices ++ spans b.offset ms;
  offset = b.offset + sum_sizes ms;
}

after-nil : (mask : Bool) (b : Build) → b ≡ after mask [] b
after-nil mask b = λ i. record {
  flat_ids = sym (append-nil b.flat_ids) i;
  flat_labels = sym (append-nil b.flat_labels) i;
  flat_pos = sym (append-nil b.flat_pos) i;
  cu = sym (append-nil b.cu) i;
  slices = sym (append-nil b.slices) i;
  offset = plus_zero i;
}
  where
    plus_zero : b.offset ≡ b.offset + 0
    plus_zero = omega arith

after-cons :
    (mask : Bool) (i : ℕ) (item : Item) (ms : List Member) (b : Build)
    → after mask ms (append_member mask item b) ≡ after mask ((i, item) ∷ ms) b
unfolding append_member
after-cons mask i item ms b = λ d. record {
  flat_ids = append_assoc b.flat_ids item.input_ids (all_ids ms) d;
  flat_labels =
      append_assoc b.flat_labels (mask_first mask (labels_of item)) (all_labels mask ms) d;
  flat_pos = append_assoc b.flat_pos (range_from 0 (length item.input_ids)) (all_positions ms) d;
  cu = append_assoc b.cu ((b.offset + n) ∷ []) (ends (spans (b.offset + n) ms)) d;
  slices = append_assoc b.slices ((b.offset, b.offset + n) ∷ []) (spans (b.offset + n) ms) d;
  offset = plus_assoc d;
}
  where
    n : ℕ
    n = length item.input_ids

    plus_assoc : b.offset + n + sum_sizes ms ≡ b.offset + (n + sum_sizes ms)
    plus_assoc = omega arith

build_loop-after :
    (mask : Bool) (ms : List Member) (b : Build)
    → IsLabelled ms
    → build_loop mask ms b ≡ ok (after mask ms b)
unfolding build_loop
build_loop-after mask [] b h = ap ok (after-nil mask b)
build_loop-after mask ((i, item) ∷ ms) b h =
    elim (Bool-cases (length (labels_of item) == length item.input_ids)) [
      | inl same_length ↦ rw same_length (
          build_loop-after mask ms (append_member mask item b) h.1
          ∙ ap ok (after-cons mask i item ms b))
      | inr differ ↦ absurd (ground (arith, h.0))
    ]

-- The pack of labelled members, field by field.
abbrev pub packed : Bool → List Member → PackedBatch
packed mask ms = record {
  input_ids = all_ids ms;
  labels = all_labels mask ms;
  position_ids = all_positions ms;
  cu_seqlens = 0 ∷ ends (spans 0 ms);
  slices = spans 0 ms;
}

pub build_pack-packed :
    (mask : Bool) (ms : List Member) → IsLabelled ms → build_pack mask ms ≡ ok (packed mask ms)
unfolding build_pack
build_pack-packed mask ms h = rw (build_loop-after mask ms start_build h) refl

-- One item with a wrong number of labels makes the loop raise.
build_loop-raise :
    (mask : Bool) (ms : List Member) (b : Build)
    → ¬ IsLabelled ms
    → build_loop mask ms b ≡ raise value_error
unfolding build_loop
build_loop-raise mask [] b h = absurd (h tt)
build_loop-raise mask ((i, item) ∷ ms) b h =
    elim (Bool-cases (length (labels_of item) == length item.input_ids)) [
      | inl same_length ↦
          rw same_length
            (build_loop-raise mask ms (append_member mask item b) (λ rest. h (ground arith, rest)))
      | inr differ ↦ rw differ refl
    ]

pub build_pack-raise :
    (mask : Bool) (ms : List Member) → ¬ IsLabelled ms → build_pack mask ms ≡ raise value_error
unfolding build_pack
build_pack-raise mask ms h = rw (build_loop-raise mask ms start_build h) refl

pub length-all_ids : (ms : List Member) → length (all_ids ms) ≡ sum_sizes ms
length-all_ids [] = refl
length-all_ids (m ∷ ms) =
    omega (arith, length-append (m.1).input_ids (all_ids ms), length-all_ids ms)

-- A slice of the row gives the document back.
slice-document :
    (before doc later : List ℕ)
    → slice (length before) (length before + length doc) (before ++ (doc ++ later)) ≡ doc
slice-document before doc later =
    let width : length before + length doc - length before ≡ length doc = omega arith in
    rw (width, drop-append_left before (doc ++ later)) (take-append_left doc later)

-- The slices cut the documents out of the row, in order.
pub slices-documents :
    (before : List ℕ) (ms : List Member)
    → map (λ s. slice s.0 s.1 (before ++ all_ids ms)) (spans (length before) ms)
      ≡ map (λ m. (m.1).input_ids) ms
slices-documents before [] = refl
slices-documents before (m ∷ ms) = ap₂ ◌∷◌ (slice-document before doc (all_ids ms)) (
    subst₂
      (λ row start. map (λ s. slice s.0 s.1 row) (spans start ms) ≡ map (λ d. (d.1).input_ids) ms)
      (append_assoc before doc (all_ids ms)) (length-append before doc)
      (slices-documents (before ++ doc) ms))
  where
    doc : List ℕ
    doc = (m.1).input_ids
