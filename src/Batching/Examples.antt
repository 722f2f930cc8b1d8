-- ===== src/Batching/Examples.antt =====
-- Allocations at a batch of four over two ranks.
use hatchery_core.Common.{
  ℕ, ◌*◌, ◌%◌, ◌<◌, ◌≡◌, ◌⊎◌, ◌↔◌, refl, true, false, List, [], ◌∷◌, length, arith,
}
use hatchery_core.Common.Errors.{ok, raise, value_error}
use hatchery_core.Common.Int.{pos, negsuc}
use hatchery_core.Batching.{
  BatchAllocation, auto, prepare_batch_for_dp, shard, split_batch_across_dp,
  replicate_batch_across_dp, whole,
}
use hatchery_core.Batching.Sums.{sum_of, sum_ranks, gather}
use hatchery_core.Batching.Shards.{ranks-batch, ranks_mean, auto-ok}

abbrev batch : List ℕ
batch = 3 ∷ 1 ∷ 4 ∷ 1 ∷ []

abbrev of_rank : ℕ → BatchAllocation ℕ
of_rank r = shard batch 2 r

prepared : (r : ℕ) → r < 2 → prepare_batch_for_dp batch (pos 2) (pos r) auto ≡ ok (of_rank r)
unfolding prepare_batch_for_dp
prepared r h = ground arith

ranks-batch_example :
    (((of_rank 0).replicated ≡ false) × (gather (λ r. (of_rank r).items) 2 ≡ batch))
    ⊎ (((of_rank 0).replicated ≡ true) × ((r : ℕ) → r < 2 → (of_rank r).items ≡ batch))
ranks-batch_example = ranks-batch batch 2 auto of_rank prepared (omega arith)

ranks_mean_example :
    sum_ranks (λ r. sum_of (λ x. x) (of_rank r).items) 2 * length batch
    ≡ sum_of (λ x. x) batch * sum_ranks (λ r. (of_rank r).local_items) 2
ranks_mean_example = ranks_mean batch 2 auto of_rank prepared (λ x. x) (omega arith)

auto-ok_example :
    (a : BatchAllocation ℕ) × (prepare_batch_for_dp batch (pos 3) (pos 2) auto ≡ ok a)
    × (a.total_items ≡ length batch)
    × ((a.replicated ≡ false) ↔ ((1 < 3) × (length batch % 3 ≡ 0)))
auto-ok_example = auto-ok batch 3 2 (omega arith) (omega arith)

split-uneven : split_batch_across_dp batch (pos 3) (pos 0) ≡ raise value_error
unfolding split_batch_across_dp
split-uneven = refl

replicate-uneven : replicate_batch_across_dp batch (pos 3) (pos 0) ≡ ok (whole batch 2 3)
unfolding replicate_batch_across_dp
replicate-uneven = refl

rank-negative : prepare_batch_for_dp batch (pos 3) (negsuc 0) auto ≡ raise value_error
unfolding prepare_batch_for_dp
rank-negative = refl
