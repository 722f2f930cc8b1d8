-- ===== src/Queue/Lines/Moves.antt =====
-- What the table updates do to the lines.
use mathlib.Core.List.{append_assoc, append-nil}
use hatchery_core.Common.{
  ℕ, ◌≡◌, ◌≢◌, refl, sym, ap, ◌∙◌, String, List, [], ◌∷◌, ◌++◌, Option, none, some, same,
  if◌then◌else◌, arith,
}
use hatchery_core.Common.Dict.{Dict, get, insert, remove, get-insert, get-remove}
use hatchery_core.Protocols.{QueuedJob}
use hatchery_core.Queue.State
use hatchery_core.Queue.State.{JobQueue, enqueue, stamp}
use hatchery_core.Queue.Settle.{drop_lease}
use hatchery_core.Queue.Invariant.{Inv}
use hatchery_core.Queue.Invariant.Leases.{put_front, take_lease}
use hatchery_core.Queue.Lines.{line, running, deque, stashed_job}

stashed_job-insert :
    (o : Option String) (id : String) (job : QueuedJob) (pending : Dict QueuedJob)
    → o ≢ some id
    → stashed_job o (insert id job pending) ≡ stashed_job o pending
stashed_job-insert none id job pending h = refl
stashed_job-insert (some j) id job pending h = ground (arith, get-insert id j job pending)

stashed_job-remove :
    (o : Option String) (id : String) (pending : Dict QueuedJob)
    → o ≢ some id
    → stashed_job o (remove id pending) ≡ stashed_job o pending
stashed_job-remove none id pending h = refl
stashed_job-remove (some j) id pending h = ground (arith, get-remove id j pending)

deque-enqueue :
    (now : ℕ) (job : QueuedJob) (q : JobQueue) (s : String)
    → deque s (enqueue now job q)
      ≡ deque s q ++ (if same job.session_id s then stamp now job ∷ [] else [])
unfolding enqueue
deque-enqueue now job q s = ground (
  arith,
  get-insert job.session_id s (deque job.session_id q ++ stamp now job ∷ []) q.session_queues,
  append-nil (deque s q),
)

-- `enqueue` appends to the line of the job's session and leaves the others alone.
pub line-enqueue :
    (now : ℕ) (job : QueuedJob) (q : JobQueue) (s : String)
    → line s (enqueue now job q)
      ≡ line s q ++ (if same job.session_id s then stamp now job ∷ [] else [])
unfolding enqueue
line-enqueue now job q s =
    ap (◌++◌ (running s q)) (deque-enqueue now job q s)
    ∙ sym (append_assoc (running s q) (deque s q) _)

module _ (job : QueuedJob) (q : JobQueue) (s : String) where
  pub line-put_front :
      get job.session_id q.inflight_by_session ≡ none
      → line s (put_front job q) ≡ (if same job.session_id s then job ∷ line s q else line s q)
  line-put_front idle =
      ground (arith, get-insert job.session_id s (job ∷ deque job.session_id q) q.session_queues)

  -- A new lease of the head of a deque leaves every line as it is.
  pub line-take_lease :
      (worker : String) (deadline : ℕ) (rest : List QueuedJob)
      → Inv q
      → get job.session_id q.session_queues ≡ some (job ∷ rest)
      → get job.session_id q.inflight_by_session ≡ none
      → get job.job_id q.inflight ≡ none
      → line s (take_lease job q worker deadline rest) ≡ line s q
  line-take_lease worker deadline rest v head idle new = ground (
    arith,
    get-insert job.session_id s rest q.session_queues,
    get-insert job.session_id s job.job_id q.inflight_by_session,
    get-insert job.job_id job.job_id job q.pending_expired,
    stashed_job-insert (get s q.inflight_by_session) job.job_id job q.pending_expired,
    v.locked s job.job_id,
  )

-- The end of a lease takes the job off the line of its session, where it stood first.
pub line-drop_lease :
    (id : String) (lease : State.Lease) (job : QueuedJob) (q : JobQueue) (s : String)
    → Inv q
    → get id q.inflight ≡ some lease
    → get id q.pending_expired ≡ some job
    → line s q ≡ (
        if same lease.session_id s
        then job ∷ line s (drop_lease id lease q)
        else line s (drop_lease id lease q))
unfolding drop_lease
line-drop_lease id lease job q s v e stash = ground (
  arith,
  get-remove lease.session_id s q.inflight_by_session,
  v.locks lease.session_id id,
  v.locked s id,
  stashed_job-remove (get s q.inflight_by_session) id q.pending_expired,
)
