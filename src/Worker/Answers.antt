-- ===== src/Worker/Answers.antt =====
-- Every job that a worker takes is answered: `run` and `_process_one` of hatchery/core/worker.py
-- with the queue of hatchery/core/backends/queue/memory.py.
use hatchery_core.Common.{ℕ, ◌+◌, ◌<◌, ◌≡◌, ◌⊎◌, String, true, none, some}
use hatchery_core.Common.Dict.{get, get_or}
use hatchery_core.Protocols.{QueuedJob, JobResult}
use hatchery_core.Queue.State.{JobQueue, Lease}
use hatchery_core.Queue.Invariant.{Inv}
use hatchery_core.Queue.Lines.{line}
use hatchery_core.Queue.Settlement.{Takes}
use hatchery_core.Worker.Jobs.{WorkerState, update_accum_pin}

-- The attempts of a job after one more.
abbrev pub next_attempt : String → JobQueue → ℕ
next_attempt id q = get_or 0 (get id q.attempts) + 1

-- The waiter of the job has a result and its event is set.
abbrev pub IsPublished : String → JobQueue → Type 0
IsPublished id q =
    (r : JobResult) × (get id q.results ≡ some r) × (get id q.result_events ≡ some true)

-- What an answer makes of the queue `q`. The job is not leased, and one of three is the case: the
-- leased job, if it was leased, is off its line and its waiter is woken with a result; it was
-- leased and is back on its line, with one more attempt counted and another one left; or its lease
-- had lapsed, and nothing is changed.
pub record IsAnswered (id : String) (q q' : JobQueue) : Type 0 where
  pub inv : Inv q'
  pub free : get id q'.inflight ≡ none
  pub outcome :
      (Takes id (get id q.inflight) q q' × IsPublished id q')
      ⊎ (((lease : Lease) × (get id q.inflight ≡ some lease))
          × ((s : String) → line s q' ≡ line s q)
          × (get id q'.attempts ≡ some (next_attempt id q))
          × (next_attempt id q < q.max_attempts))
      ⊎ ((get id q.inflight ≡ none) × (q' ≡ q))

module _ {W : Type 0} (now duration_ms : ℕ) (between : JobQueue → JobQueue) (job : QueuedJob)
    (w : WorkerState W) where
  -- The queue as a completed job finds it when it is acknowledged.
  abbrev pub after_pin : JobQueue → JobQueue
  after_pin q = between (update_accum_pin now w.worker_id job q)

  -- The two states in which a job that was run may be answered.
  abbrev pub IsMoment : JobQueue → JobQueue → Type 0
  IsMoment q before = (before ≡ q) ⊎ (before ≡ after_pin q)
