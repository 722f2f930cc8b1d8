-- ===== src/Packing/Bins.antt =====
-- First-fit: what the bins hold, how full they are, and that no two of them could be one.
use mathlib.Core.List.{Perm, append_assoc, append-nil, perm_middle}
use mathlib.Core.List.Perm
use hatchery_core.Common.{
  ℕ, ◌+◌, ◌≤◌, ◌<◌, ◌≡◌, ◌⊎◌, refl, sym, ap, ◌∙◌, List, [], ◌∷◌, ◌++◌, length, ltb, leb, All,
  All-append, All-impl, arith, inl, inr, Bool-cases,
}
use hatchery_core.Packing.{Member, Bin, size_of, first_fit, add_member, fill_bins}

-- All members of all bins, in order.
abbrev pub contents : List Bin → List Member
contents [] = []
contents (b ∷ bins) = b.members ++ contents bins

abbrev pub sum_sizes : List Member → ℕ
sum_sizes [] = 0
sum_sizes (m ∷ ms) = size_of m + sum_sizes ms

pub sum_sizes-append : (xs ys : List Member) → sum_sizes (xs ++ ys) ≡ sum_sizes xs + sum_sizes ys
sum_sizes-append [] ys = omega arith
sum_sizes-append (x ∷ xs) ys = omega (arith, sum_sizes-append xs ys)

-- `bin_lens[b]` is the sum of the lengths, and only a single item may exceed the limit.
pub record IsFilled (max : ℕ) (b : Bin) : Type 0 where
  pub measured : b.len ≡ sum_sizes b.members
  pub within : (b.len ≤ max) ⊎ (length b.members ≡ 1)

-- No two bins fit together.
abbrev pub NoMerge : ℕ → List Bin → Type 0
NoMerge max [] = Unit {0}
NoMerge max (b ∷ bins) = All (λ c. max < b.len + c.len) bins × NoMerge max bins

contents-append : (xs ys : List Bin) → contents (xs ++ ys) ≡ contents xs ++ contents ys
contents-append [] ys = refl
contents-append (b ∷ xs) ys =
    ap (◌++◌ b.members) (contents-append xs ys)
    ∙ sym (append_assoc b.members (contents xs) (contents ys))

-- A bin over the limit fits with none.
apart-last :
    {max : ℕ} (b c : Bin) (bins : List Bin)
    → max < c.len
    → All (λ d. max < b.len + d.len) bins
    → All (λ d. max < b.len + d.len) (bins ++ c ∷ [])
apart-last b c bins long h = All-append _ bins (c ∷ []) h (omega arith, tt)

last-NoMerge :
    {max : ℕ} (c : Bin) (bins : List Bin)
    → max < c.len
    → NoMerge max bins
    → NoMerge max (bins ++ c ∷ [])
last-NoMerge c [] long h = (tt, tt)
last-NoMerge c (b ∷ bins) long h = (apart-last b c bins long h.0, last-NoMerge c bins long h.1)

module _ (max : ℕ) (m : Member) where
  first_fit-perm : (bins : List Bin) → Perm (contents (first_fit max m bins)) (m ∷ contents bins)
  unfolding first_fit
  first_fit-perm [] = Perm.refl (m ∷ [])
  first_fit-perm (b ∷ bins) = elim (Bool-cases (leb (b.len + size_of m) max)) [
    | inl fits ↦
        rw (fits, append_assoc b.members (m ∷ []) (contents bins))
          (perm_middle b.members (contents bins))
    | inr full ↦ rw full (
        Perm.trans (Perm.append_left b.members (first_fit-perm bins))
          (perm_middle b.members (contents bins)))
  ]

  single : Bin
  single = record { members = m ∷ []; len = size_of m }

  single-IsFilled : IsFilled max single
  unfolding single
  single-IsFilled = record { measured = omega arith; within = inr refl }

  first_fit-IsFilled :
      (bins : List Bin) → All (IsFilled max) bins → All (IsFilled max) (first_fit max m bins)
  unfolding first_fit single
  first_fit-IsFilled [] h = (single-IsFilled, tt)
  first_fit-IsFilled (b ∷ bins) h = elim (Bool-cases (leb (b.len + size_of m) max)) [
    | inl fits ↦ rw fits (
      record {
        measured = omega (arith, sum_sizes-append b.members (m ∷ []), (h.0).measured);
        within = inl (ground arith);
      },
      h.1,
    )
    | inr full ↦ rw full (h.0, first_fit-IsFilled bins h.1)
  ]

  -- A bin keeps its distance from the others when one of them takes one more item.
  first_fit-apart :
      (k : ℕ) (bins : List Bin)
      → All (λ c. max < k + c.len) bins
      → max < k + size_of m
      → All (λ c. max < k + c.len) (first_fit max m bins)
  unfolding first_fit
  first_fit-apart k [] h far = (far, tt)
  first_fit-apart k (b ∷ bins) h far = elim (Bool-cases (leb (b.len + size_of m) max)) [
    | inl fits ↦ rw fits (omega (arith, h.0), h.1)
    | inr full ↦ rw full (h.0, first_fit-apart k bins h.1 far)
  ]

  first_fit-NoMerge : (bins : List Bin) → NoMerge max bins → NoMerge max (first_fit max m bins)
  unfolding first_fit
  first_fit-NoMerge [] h = (tt, tt)
  first_fit-NoMerge (b ∷ bins) h = elim (Bool-cases (leb (b.len + size_of m) max)) [
    | inl fits ↦ rw fits (All-impl _ _ bins (λ c far. omega (arith, far)) h.0, h.1)
    | inr full ↦ rw full (first_fit-apart b.len bins h.0 (ground arith), first_fit-NoMerge bins h.1)
  ]

  -- The three facts for a whole round, an item that is too long included.
  pub add_member-perm :
      (bins : List Bin) → Perm (contents (add_member max bins m)) (m ∷ contents bins)
  unfolding add_member
  add_member-perm bins = elim (Bool-cases (ltb max (size_of m))) [
    | inl long ↦
        rw (long, contents-append bins)
          (Perm.trans (perm_middle (contents bins) [])
            (Perm.cons m (rw (append-nil (contents bins)) (Perm.refl (contents bins)))))
    | inr short ↦ rw short (first_fit-perm bins)
  ]

  pub add_member-IsFilled :
      (bins : List Bin) → All (IsFilled max) bins → All (IsFilled max) (add_member max bins m)
  unfolding add_member single
  add_member-IsFilled bins h = elim (Bool-cases (ltb max (size_of m))) [
    | inl long ↦ rw long (All-append (IsFilled max) bins _ h (single-IsFilled, tt))
    | inr short ↦ rw short (first_fit-IsFilled bins h)
  ]

  pub add_member-NoMerge :
      (bins : List Bin) → NoMerge max bins → NoMerge max (add_member max bins m)
  unfolding add_member
  add_member-NoMerge bins h = elim (Bool-cases (ltb max (size_of m))) [
    | inl long ↦ rw long (last-NoMerge _ bins (ground arith) h)
    | inr short ↦ rw short (first_fit-NoMerge bins h)
  ]

-- The bins after the whole loop: the items given are all there, once each; a bin is within the
-- limit or holds a single item; and no two bins fit together.
pub fill_bins-ok :
    (max : ℕ) (ms : List Member) (bins : List Bin)
    → All (IsFilled max) bins
    → NoMerge max bins
    → Perm (contents (fill_bins max ms bins)) (ms ++ contents bins)
      × All (IsFilled max) (fill_bins max ms bins)
      × NoMerge max (fill_bins max ms bins)
unfolding fill_bins
fill_bins-ok max [] bins f n = (Perm.refl (contents bins), f, n)
fill_bins-ok max (m ∷ ms) bins f n =
    let (p, f', n') =
      fill_bins-ok max ms (add_member max bins m) (add_member-IsFilled max m bins f)
        (add_member-NoMerge max m bins n) in
    (
      Perm.trans p (
          Perm.trans (Perm.append_left ms (add_member-perm max m bins))
            (perm_middle ms (contents bins))),
      f',
      n',
    )
