-- ===== src/Packing.antt =====
-- hatchery/core/packing.py: several short examples in one row. `torch` is installed; a tensor is
-- the list of its rows.
pub mod Bins
mod Examples
pub mod Layout
pub mod Limits
pub mod Packs
pub mod RoundTrip
use hatchery_core.Common.{
  ℕ, zero, suc, ◌+◌, ◌*◌, ◌≡◌, Bool, true, false, not, ◌&&◌, List, [], ◌∷◌, ◌++◌, map, Option, none,
  some, length, slice, ltb, leb, ◌==◌, if◌then◌else◌,
}
use hatchery_core.Common.Errors.{Result, ok, raise, value_error, ◌>>=◌}
use hatchery_core.Common.Int.{ℤ, pos, negsuc, pos_part, ltb_ℤ}
use hatchery_core.Common.Sort.{sort_by}

-- A training example: `item["input_ids"]`, and `item.get("labels")`.
pub record Item : Type 0 where
  pub input_ids : List ℕ
  pub labels : Option (List ℤ)

abbrev pub Member : Type 0
Member = ℕ × Item

pub record PackedBatch : Type 0 where
  pub input_ids : List ℕ
  pub labels : List ℤ
  pub position_ids : List ℕ
  pub cu_seqlens : List ℕ
  pub slices : List (ℕ × ℕ)

unfoldable pub total_tokens : PackedBatch → ℕ
total_tokens p = length p.input_ids

unfoldable pub num_docs : PackedBatch → ℕ
num_docs p = length p.slices

-- The label that the loss ignores, -100.
abbrev pub ignored : ℤ
ignored = negsuc 99

-- `item.get("labels", ids)`
abbrev pub labels_of : Item → List ℤ
labels_of item = elim item.labels [ none ↦ map pos item.input_ids | some ls ↦ ls ]

-- `[-100, *lbls[1:]]` if the labels are not empty and the mask is on
abbrev pub mask_first : Bool → List ℤ → List ℤ
mask_first b [] = []
mask_first b (l ∷ ls) = if b then ignored ∷ ls else l ∷ ls

-- `range(start, start + n)`
abbrev pub range_from : ℕ → ℕ → List ℕ
range_from start zero = []
range_from start (suc n) = start ∷ range_from (suc start) n

-- The variables of the loop in `_build_pack`.
pub record Build : Type 0 where
  pub flat_ids : List ℕ
  pub flat_labels : List ℤ
  pub flat_pos : List ℕ
  pub cu : List ℕ
  pub slices : List (ℕ × ℕ)
  pub offset : ℕ

abbrev pub start_build : Build
start_build = record {
  flat_ids = [];
  flat_labels = [];
  flat_pos = [];
  cu = 0 ∷ [];
  slices = [];
  offset = 0;
}

unfoldable pub append_member : Bool → Item → Build → Build
append_member mask item b =
    let n = length item.input_ids in
    record {
      flat_ids = b.flat_ids ++ item.input_ids;
      flat_labels = b.flat_labels ++ mask_first mask (labels_of item);
      flat_pos = b.flat_pos ++ range_from 0 n;
      cu = b.cu ++ (b.offset + n) ∷ [];
      slices = b.slices ++ (b.offset, b.offset + n) ∷ [];
      offset = b.offset + n;
    }

-- The loop raises if the labels of an item are not as many as its tokens.
unfoldable pub build_loop : Bool → List Member → Build → Result Build
unfolding append_member
build_loop mask [] b = ok b
build_loop mask ((_, item) ∷ members) b =
    let rest = build_loop mask members (append_member mask item b) in
    if length (labels_of item) == length item.input_ids then rest else raise value_error

unfoldable pub build_pack : Bool → List Member → Result PackedBatch
unfolding build_loop
build_pack mask members = do
  b ← build_loop mask members start_build
  ok (record {
    input_ids = b.flat_ids;
    labels = b.flat_labels;
    position_ids = b.flat_pos;
    cu_seqlens = b.cu;
    slices = b.slices;
  })

-- `bins[b]` with `bin_lens[b]`.
pub record Bin : Type 0 where
  pub members : List Member
  pub len : ℕ

abbrev pub size_of : Member → ℕ
size_of (_, item) = length item.input_ids

-- The first bin with room takes the item; if none has, a new bin is opened at the end.
unfoldable pub first_fit : ℕ → Member → List Bin → List Bin
first_fit max m [] = record { members = m ∷ []; len = size_of m } ∷ []
first_fit max m (b ∷ bins) =
    if leb (b.len + size_of m) max
    then record { members = b.members ++ m ∷ []; len = b.len + size_of m } ∷ bins
    else b ∷ first_fit max m bins

-- One round of the loop over the sorted items: an item that is too long has a bin of its own.
unfoldable pub add_member : ℕ → List Bin → Member → List Bin
unfolding first_fit
add_member max bins m =
    if ltb max (size_of m)
    then bins ++ record { members = m ∷ []; len = size_of m } ∷ []
    else first_fit max m bins

unfoldable pub fill_bins : ℕ → List Member → List Bin → List Bin
unfolding add_member
fill_bins max [] bins = bins
fill_bins max (m ∷ ms) bins = fill_bins max ms (add_member max bins m)

unfoldable pub enumerate_from : ℕ → List Item → List Member
enumerate_from i [] = []
enumerate_from i (item ∷ items) = (i, item) ∷ enumerate_from (suc i) items

abbrev pub longer : Member → Member → Bool
longer a b = ltb (size_of b) (size_of a)

abbrev pub earlier : Member → Member → Bool
earlier a b = ltb a.0 b.0

-- `indexed`, sorted by length in descending order.
abbrev pub sorted_members : List Item → List Member
sorted_members items = sort_by longer (enumerate_from 0 items)

-- The loop over the bins: the members back in their order, and the pack.
unfoldable pub build_packs : Bool → List Bin → Result (List PackedBatch)
unfolding build_pack
build_packs mask [] = ok []
build_packs mask (b ∷ bins) = do
  p ← build_pack mask (sort_by earlier b.members)
  ps ← build_packs mask bins
  ok (p ∷ ps)

unfoldable pub pack_sequences : List Item → ℤ → Bool → Result (List PackedBatch)
unfolding build_packs fill_bins
pack_sequences items max_packed_len mask =
    if not (ltb_ℤ (pos 0) max_packed_len)
    then raise value_error
    else build_packs mask (fill_bins (pos_part max_packed_len) (sorted_members items) [])

-- A tensor of one, two or three dimensions.
pub data Tensor {ℓ} (A : Type ℓ) : Type ℓ where
  vec : List A → Tensor A
  mat : List (List A) → Tensor A
  cube : List (List (List A)) → Tensor A

-- `packed.squeeze(0)` where the first of two or more dimensions is 1.
abbrev pub squeeze {ℓ} : {A : Type ℓ} → Tensor A → Tensor A
squeeze (mat (row ∷ [])) = vec row
squeeze (cube (rows ∷ [])) = mat rows
squeeze t = t

-- `packed[start:end]`
abbrev pub cut {ℓ} : {A : Type ℓ} → ℕ × ℕ → Tensor A → Tensor A
cut (start, end) (vec l) = vec (slice start end l)
cut (start, end) (mat l) = mat (slice start end l)
cut (start, end) (cube l) = cube (slice start end l)

unfoldable pub unpack_outputs {ℓ} : {A : Type ℓ} → Tensor A → List (ℕ × ℕ) → List (Tensor A)
unpack_outputs packed slices = map (λ s. cut s (squeeze packed)) slices

abbrev sum_lens : List Item → ℕ
sum_lens [] = 0
sum_lens (item ∷ items) = length item.input_ids + sum_lens items

max_lens : ℕ → List Item → ℕ
max_lens m [] = m
max_lens m (item ∷ items) =
    max_lens (if ltb m (length item.input_ids) then length item.input_ids else m) items

-- `max(lens) < max_packed_len and sum(lens) >= max(lens) * 2`; `max([])` raises.
worth_packing : List Item → ℕ → Result Bool
unfolding max_lens
worth_packing [] max_packed_len = raise value_error
worth_packing (first ∷ rest) max_packed_len =
    let longest = max_lens (length first.input_ids) rest in
    ok (ltb longest max_packed_len && leb (longest * 2) (sum_lens (first ∷ rest)))

unfoldable pub should_pack : List Item → Option ℤ → ℕ → Result Bool
unfolding worth_packing
should_pack items none min_items = ok false
should_pack items (some max_packed_len) min_items =
    if not (ltb_ℤ (pos 0) max_packed_len)
    then ok false
    else if ltb (length items) min_items
    then ok false
    else worth_packing items (pos_part max_packed_len)
