-- ===== src/Packing/Limits.antt =====
-- The sizes of the packs of the bins.
use hatchery_core.Common.{
  ℕ, suc, ◌+◌, ◌≤◌, ◌<◌, ◌≡◌, ◌⊎◌, refl, sym, ap, ◌∙◌, Bool, List, [], ◌∷◌, length, All, arith,
}
use mathlib.Core.List.{Permᴰ}
use mathlib.Core.Logic.{∥∥₁_elim}
use native.Mathlib.Nat.{ℕ_set}
use hatchery_core.Common.Sort.{sort_by, sort_by-perm}
use hatchery_core.Packing.{Member, PackedBatch, Bin, total_tokens, num_docs, size_of, earlier}
use hatchery_core.Packing.Bins.{sum_sizes, IsFilled, NoMerge}
use hatchery_core.Packing.Layout.{packed, length-all_ids, spans}
use hatchery_core.Packing.RoundTrip.{laid_out}

-- What a pack may be: within the limit, or a single document.
abbrev pub IsWithin : ℕ → PackedBatch → Type 0
IsWithin max p = (total_tokens p ≤ max) ⊎ (num_docs p ≡ 1)

-- No two packs would fit into one.
abbrev pub Apart : ℕ → List PackedBatch → Type 0
Apart max [] = Unit {0}
Apart max (p ∷ ps) = All (λ r. max < total_tokens p + total_tokens r) ps × Apart max ps

length-spans : (start : ℕ) (ms : List Member) → length (spans start ms) ≡ length ms
length-spans start [] = refl
length-spans start (m ∷ ms) = ap suc (length-spans (start + size_of m) ms)

sum_sizes-Permᴰ : {xs ys : List Member} → Permᴰ xs ys → sum_sizes xs ≡ sum_sizes ys
sum_sizes-Permᴰ Permᴰ.nil = refl
sum_sizes-Permᴰ (Permᴰ.cons e d) = omega (arith, ap size_of e, sum_sizes-Permᴰ d)
sum_sizes-Permᴰ (Permᴰ.swap e f) = omega (arith, ap size_of e, ap size_of f)
sum_sizes-Permᴰ (Permᴰ.trans d e) = sum_sizes-Permᴰ d ∙ sum_sizes-Permᴰ e

length-Permᴰ : {xs ys : List Member} → Permᴰ xs ys → length xs ≡ length ys
length-Permᴰ Permᴰ.nil = refl
length-Permᴰ (Permᴰ.cons e d) = ap suc (length-Permᴰ d)
length-Permᴰ (Permᴰ.swap e f) = refl
length-Permᴰ (Permᴰ.trans d e) = length-Permᴰ d ∙ length-Permᴰ e

module _ (max : ℕ) (mask : Bool) where
  -- The tokens and the documents of a bin's pack.
  pack_tokens :
      (b : Bin) → IsFilled max b → total_tokens (packed mask (sort_by earlier b.members)) ≡ b.len
  unfolding total_tokens
  pack_tokens b f =
      length-all_ids (sort_by earlier b.members)
      ∙ ∥∥₁_elim (sort_by-perm earlier b.members) (ℕ_set _ _) sum_sizes-Permᴰ
      ∙ sym f.measured

  pack_docs : (b : Bin) → num_docs (packed mask (sort_by earlier b.members)) ≡ length b.members
  unfolding num_docs
  pack_docs b =
      length-spans 0 (sort_by earlier b.members)
      ∙ ∥∥₁_elim (sort_by-perm earlier b.members) (ℕ_set _ _) length-Permᴰ

  pub laid_out-IsWithin :
      (bins : List Bin) → All (IsFilled max) bins → All (IsWithin max) (laid_out mask bins)
  laid_out-IsWithin [] f = tt
  laid_out-IsWithin (b ∷ bins) f =
      (omega (arith, pack_tokens b f.0, pack_docs b, (f.0).within), laid_out-IsWithin bins f.1)

  laid_out-far :
      (b : Bin) (bins : List Bin)
      → IsFilled max b
      → All (IsFilled max) bins
      → All (λ c. max < b.len + c.len) bins
      → All
          (λ r. max < total_tokens (packed mask (sort_by earlier b.members)) + total_tokens r)
          (laid_out mask bins)
  laid_out-far b [] fb f h = tt
  laid_out-far b (c ∷ bins) fb f h =
      (omega (arith, pack_tokens b fb, pack_tokens c f.0, h.0), laid_out-far b bins fb f.1 h.1)

  pub laid_out-Apart :
      (bins : List Bin)
      → All (IsFilled max) bins
      → NoMerge max bins
      → Apart max (laid_out mask bins)
  laid_out-Apart [] f n = tt
  laid_out-Apart (b ∷ bins) f n = (laid_out-far b bins f.0 f.1 n.0, laid_out-Apart bins f.1 n.1)
