-- ===== src/Queue/Priority.antt =====
-- The order in which `dequeue` prefers jobs, said without the sort key.
use hatchery_core.Common.{
  ℕ, ◌≤◌, ◌<◌, ◌≡◌, ◌≢◌, ◌⊎◌, ◌↔◌, String, List, Option, some, arith, inl, inr, false, subst,
}
use hatchery_core.Common.Dict.{Dict, get, get_or}
use hatchery_core.Common.Errors.{ok}
use hatchery_core.Protocols.{QueuedJob}
use hatchery_core.Queue.State.{JobQueue}
use hatchery_core.Queue.Dequeue.{Readings, key_lt, affinity_bonus, select}
use hatchery_core.Queue.Invariant.{Inv}
use hatchery_core.Queue.Selection.{IsEligible, IsBest, select-ok}

module _ (worker : String) (fs : List String) (seq : Dict ℕ) (best job : QueuedJob) where
  abbrev age : QueuedJob → ℕ
  age j = get_or 0 (get j.job_id seq)

  -- Higher priority; or the same, and this worker is preferred by `best` alone; or the same in both,
  -- and `best` was enqueued no later.
  abbrev pub Precedes : Type 0
  Precedes =
      (job.priority < best.priority)
      ⊎ ((job.priority ≡ best.priority)
          × (((best.preferred_worker ≡ some worker) × (job.preferred_worker ≢ some worker))
              ⊎ (((best.preferred_worker ≡ some worker) ↔ (job.preferred_worker ≡ some worker))
                  × (age best ≤ age job))))

  ordered :
      key_lt worker fs seq job best ≡ false
      → (job.priority < best.priority)
        ⊎ ((job.priority ≡ best.priority)
            × ((affinity_bonus worker fs best < affinity_bonus worker fs job)
                ⊎ ((affinity_bonus worker fs best ≡ affinity_bonus worker fs job)
                    × (age best ≤ age job))))
  unfolding key_lt
  ordered h = ground arith

bonus_cases :
    (worker : String) (fs : List String) (j : QueuedJob)
    → ((affinity_bonus worker fs j ≡ 0) × (j.preferred_worker ≡ some worker))
      ⊎ ((affinity_bonus worker fs j ≡ 1) × (j.preferred_worker ≢ some worker))
unfolding affinity_bonus
bonus_cases worker fs j = ground arith

key_lt-Precedes :
    (worker : String) (fs : List String) (seq : Dict ℕ) (best job : QueuedJob)
    → key_lt worker fs seq job best ≡ false
    → Precedes worker fs seq best job
key_lt-Precedes worker fs seq best job h =
    let o = ordered worker fs seq best job h in
    elim (bonus_cases worker fs best) [
      | inl b ↦ elim (bonus_cases worker fs job) [ inl c ↦ ground arith | inr c ↦ ground arith ]
      | inr b ↦ elim (bonus_cases worker fs job) [ inl c ↦ ground arith | inr c ↦ ground arith ]
    ]

-- The job that is handed out precedes every job that could have been.
pub select-Precedes :
    (worker : String) (fs : List String) (t : Readings) (timeout : ℕ) (q q' : JobQueue)
    (best job : QueuedJob)
    → Inv q
    → select worker fs t timeout q ≡ ok (q', some best)
    → IsEligible worker fs t q job
    → Precedes worker fs q.seq best job
select-Precedes worker fs t timeout q q' best job v e eligible =
    let (r, b, e', v', same_lines, chosen) = select-ok worker fs t q timeout v in
    key_lt-Precedes worker fs q.seq best job
      ((subst (IsBest worker fs t q) (best_eq r b e') chosen).1 job eligible)
  where
    best_eq :
        (r : JobQueue) (b : Option QueuedJob)
        → select worker fs t timeout q ≡ ok (r, b)
        → b ≡ some best
    best_eq r b e' = ground arith
