-- ===== src/Batching/Shards.antt =====
-- The shards of a split batch are the batch, and both modes give the mean of the whole batch.
use native.Mathlib.Nat.{zero-mul}
use hatchery_core.Batching.Sums.{sum_of, sum_ranks, gather, sum_of-gather, sum_ranks-const}
use hatchery_core.Common.{
  ℕ, zero, suc, ◌+◌, ◌-◌, ◌*◌, ◌/◌, ◌%◌, ◌<◌, ◌≡◌, ◌⊎◌, refl, ap, ◌∙◌, Bool, true, false, not, ◌&&◌,
  List, [], ◌∷◌, length, take, slice, arith, ◌==◌, inl, inr, Bool-cases, ◌↔◌, take_of_length-le,
  take-add,
}
use hatchery_core.Common.Errors.{Result, ok, raise}
use hatchery_core.Common.Int.{pos}
use hatchery_core.Batching.{
  BatchStrategy, auto, replicate, split, unknown, BatchAllocation, prepare_batch_for_dp, whole,
  shard,
}

module _ {ℓ} {A : Type ℓ} where
  -- The local items of a rank; none if the call raises.
  abbrev items_of : Result (BatchAllocation A) → List A
  items_of (ok a) = a.items
  items_of (raise e) = []

  abbrev pub local_of : Result (BatchAllocation A) → ℕ
  local_of (ok a) = a.local_items
  local_of (raise e) = 0

  gather-slices :
      (k : ℕ) (l : List A) (f : ℕ → List A) (n : ℕ)
      → ((r : ℕ) → r < n → f r ≡ slice (r * k) (r * k + k) l)
      → gather f n ≡ take (n * k) l
  gather-slices k l f zero h = rw zero-mul
  gather-slices k l f (suc n) h =
      let width : n * k + k - n * k ≡ k = omega arith in
      let earlier = gather-slices k l f n (λ r lt. h r (omega arith)) in
      rw (earlier, h n (omega arith), width)
        (take-add (n * k) k l ∙ ap (λ m. take m l) (omega arith))

  -- Whether the ranks get different items.
  abbrev is_split : List A → ℕ → BatchStrategy → Bool
  is_split batch n auto = not (n == 1) && (length batch % n == 0)
  is_split batch n replicate = false
  is_split batch n split = not (n == 1)
  is_split batch n unknown = false

  prepared-split :
      (batch : List A) (n r : ℕ) (s : BatchStrategy) (a : BatchAllocation A)
      → is_split batch n s ≡ true
      → prepare_batch_for_dp batch (pos n) (pos r) s ≡ ok a
      → (a.items ≡ slice (r * (length batch / n)) (r * (length batch / n) + length batch / n) batch)
        × (a.local_items ≡ length batch / n)
        × (length batch % n ≡ 0)
        × (a.replicated ≡ false)
  unfolding prepare_batch_for_dp
  prepared-split batch n r auto a sp e = ground arith
  prepared-split batch n r _ a sp e = ground arith

  prepared-whole :
      (batch : List A) (n r : ℕ) (s : BatchStrategy) (a : BatchAllocation A)
      → is_split batch n s ≡ false
      → prepare_batch_for_dp batch (pos n) (pos r) s ≡ ok a
      → (a.items ≡ batch) × (a.local_items ≡ length batch) × (a.replicated ≡ true)
  unfolding prepare_batch_for_dp
  prepared-whole batch n r auto a sp e = ground arith
  prepared-whole batch n r _ a sp e = ground arith

  -- The allocations of all ranks for one batch.
  module _ (batch : List A) (n : ℕ) (s : BatchStrategy) (a : ℕ → BatchAllocation A)
      (prepared : (r : ℕ) → r < n → prepare_batch_for_dp batch (pos n) (pos r) s ≡ ok (a r)) where
    width-total : length batch % n ≡ 0 → n * (length batch / n) ≡ length batch
    width-total even = omega arith

    shards-batch : 0 < n → is_split batch n s ≡ true → gather (λ r. (a r).items) n ≡ batch
    shards-batch some_rank sp =
        let first = prepared-split batch n 0 s (a 0) sp (prepared 0 some_rank) in
        gather-slices (length batch / n) batch (λ r. (a r).items) n
          (λ r lt. (prepared-split batch n r s (a r) sp (prepared r lt)).0)
        ∙ take_of_length-le (n * (length batch / n)) batch (omega (arith, width-total first.2))

    -- If the ranks get different data, their shards in order are the batch: no item is lost, none is
    -- run twice. Otherwise every rank has the whole batch.
    pub ranks-batch :
        0 < n
        → (((a 0).replicated ≡ false) × (gather (λ r. (a r).items) n ≡ batch))
          ⊎ (((a 0).replicated ≡ true) × ((r : ℕ) → r < n → (a r).items ≡ batch))
    ranks-batch some_rank = elim (Bool-cases (is_split batch n s)) [
      | inl sp ↦ inl (
        (prepared-split batch n 0 s (a 0) sp (prepared 0 some_rank)).3,
        shards-batch some_rank sp,
      )
      | inr whole ↦ inr (
        (prepared-whole batch n 0 s (a 0) whole (prepared 0 some_rank)).2,
        λ r lt. (prepared-whole batch n r s (a r) whole (prepared r lt)).0,
      )
    ]

    -- The mean over the ranks of a value summed over local items is the mean over the batch, in both
    -- modes: sum over all ranks, divided by the local items of all ranks, is the sum over the batch
    -- divided by its size.
    pub ranks_mean :
        (f : A → ℕ)
        → 0 < n
        → sum_ranks (λ r. sum_of f (a r).items) n * length batch
          ≡ sum_of f batch * sum_ranks (λ r. (a r).local_items) n
    ranks_mean f some_rank = elim (Bool-cases (is_split batch n s)) [
      | inl sp ↦
          let first = prepared-split batch n 0 s (a 0) sp (prepared 0 some_rank) in
          rw
            (
              ← sum_of-gather f (λ r. (a r).items) n,
              shards-batch some_rank sp,
              sum_ranks-const (length batch / n) (λ r. (a r).local_items) n
                  (λ r lt. (prepared-split batch n r s (a r) sp (prepared r lt)).1),
              width-total first.2,
            )
            refl
      | inr whole ↦
          rw
            (
              sum_ranks-const (sum_of f batch) (λ r. sum_of f (a r).items) n
                  (λ r lt.
                    ap (sum_of f) (prepared-whole batch n r s (a r) whole (prepared r lt)).0),
              sum_ranks-const (length batch) (λ r. (a r).local_items) n
                  (λ r lt. (prepared-whole batch n r s (a r) whole (prepared r lt)).1),
            )
            (omega arith)
    ]

-- With AUTO no rank of a non-empty batch is refused, and the data is split exactly when it divides
-- evenly over several ranks.
pub auto-ok :
    {A : Type 0} (batch : List A) (n r : ℕ)
    → 0 < length batch
    → r < n
    → (a : BatchAllocation A) × (prepare_batch_for_dp batch (pos n) (pos r) auto ≡ ok a)
      × (a.total_items ≡ length batch)
      × ((a.replicated ≡ false) ↔ ((1 < n) × (length batch % n ≡ 0)))
unfolding prepare_batch_for_dp
auto-ok [] n r nonempty valid = absurd (omega arith)
auto-ok (x ∷ xs) n r nonempty valid =
    elim (Bool-cases (not (n == 1) && (length (x ∷ xs) % n == 0))) [
      | inl sp ↦ (shard (x ∷ xs) n r, ground arith, ground arith, ground arith)
      | inr no_split ↦ elim (Bool-cases (n == 1)) [
        | inl one ↦ (whole (x ∷ xs) 0 1, ground arith, ground arith, ground arith)
        | inr several ↦ (whole (x ∷ xs) (n - 1) n, ground arith, ground arith, ground arith)
      ]
    ]
