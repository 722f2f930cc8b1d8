-- ===== src/Queue/Runs.antt =====
-- The queue in use: any sequence of its atomic steps, in any order, by any workers at any times.
use mathlib.Core.List.{append-nil}
use hatchery_core.Common.{
  ℕ, ◌+◌, ◌≡◌, ◌⊎◌, refl, sym, ◌∙◌, subst, String, List, [], ◌∷◌, ◌++◌, Option, none, some, arith,
  name_eq, inl, inr, Option-cases, Bool-cases, leb,
}
use hatchery_core.Common.Dict.{get, get_or}
use hatchery_core.Common.Errors.{ok}
use hatchery_core.Protocols.{QueuedJob, JobResult}
use hatchery_core.Queue.State
use hatchery_core.Queue.State.{
  JobQueue, Pin, ModelFilter, normalize_filter, init, enqueue, stamp, set_accum_pin,
  clear_accum_pin,
}
use hatchery_core.Queue.Dequeue.{Readings, requeue_expired, select, dequeue}
use hatchery_core.Queue.Settle.{ack, nack, begin_wait}
use hatchery_core.Queue.Invariant.{Inv, waiting, leased, session_of}
use hatchery_core.Queue.Invariant.Enqueue.{init-Inv, enqueue-Inv}
use hatchery_core.Queue.Lines.{line}
use hatchery_core.Queue.Lines.Moves.{line-enqueue}
use hatchery_core.Queue.Requeue.{requeue_expired-ok}
use hatchery_core.Queue.Selection.{IsBest, pins-Inv, select-ok}
use hatchery_core.Queue.Settlement.{
  Takes, ack-Inv, ack-Takes, nack-IsRetried, nack-IsDead, nack-absent, begin_wait-Inv,
  line-begin_wait,
}

pub data Step (q : JobQueue) : JobQueue → Type 0 where
  -- the gateway makes a new job id for every job
  enqueued :
      (now : ℕ) (job : QueuedJob)
      → waiting job.job_id q + leased job.job_id q ≡ 0
      → Step q (enqueue now job q)
  requeued : (now : ℕ) {q' : JobQueue} → requeue_expired now q ≡ ok q' → Step q q'
  selected :
      (worker : String) (fs : List String) (t : Readings) (timeout : ℕ) (best : Option QueuedJob)
      {q' : JobQueue}
      → select worker fs t timeout q ≡ ok (q', best)
      → Step q q'
  acked : (id : String) (result : JobResult) → Step q (ack id result q)
  nacked : (id error : String) → Step q (nack id error q)
  pinned : (now ttl : ℕ) (session worker : String) → Step q (set_accum_pin now session worker ttl q)
  unpinned : (session : String) → Step q (clear_accum_pin session q)
  awaited : (id : String) → Step q (begin_wait id q).0

pub data Reach (q : JobQueue) : JobQueue → Type 0 where
  here : Reach q q
  next : {r s : JobQueue} → Reach q r → Step r s → Reach q s

-- What a step may do to the line of a session: nothing, a new job at the end, or the first job gone.
abbrev pub IsFifo : List QueuedJob → List QueuedJob → Type 0
IsFifo before after =
    (after ≡ before)
    ⊎ ((job : QueuedJob) × (after ≡ before ++ job ∷ []))
    ⊎ ((job : QueuedJob) × (before ≡ job ∷ after))

abbrev Kept : JobQueue → JobQueue → Type 0
Kept q q' = Inv q' × ((s : String) → IsFifo (line s q) (line s q'))

Takes-IsFifo :
    (id : String) (o : Option State.Lease) (q q' : JobQueue)
    → Takes id o q q'
    → (s : String) → IsFifo (line s q) (line s q')
Takes-IsFifo id none q q' h s = inl (h s)
Takes-IsFifo id (some lease) q q' (job, named, h) s = elim (name_eq lease.session_id s) [
  | yes p ↦ inr (inr (job, h s ∙ ground arith))
  | no p ↦ inl (sym (h s ∙ ground arith))
]

enqueued-Kept :
    (now : ℕ) (job : QueuedJob) (q : JobQueue)
    → waiting job.job_id q + leased job.job_id q ≡ 0
    → Inv q
    → Kept q (enqueue now job q)
enqueued-Kept now job q new v = (
  enqueue-Inv now job q new v,
  λ s. elim (name_eq job.session_id s) [
    | yes p ↦ inr (inl (stamp now job, line-enqueue now job q s ∙ ground arith))
    | no p ↦ inl (line-enqueue now job q s ∙ ground (arith, append-nil (line s q)))
  ],
)

nacked-Kept : (id error : String) (q : JobQueue) → Inv q → Kept q (nack id error q)
nacked-Kept id error q v = elim (Option-cases (get id q.inflight)) [
  | inl absent ↦ rw (nack-absent id error q absent) (v, λ s. inl refl)
  | inr (lease, held) ↦ elim (Bool-cases (leb q.max_attempts (get_or 0 (get id q.attempts) + 1))) [
    | inl last ↦
        let dead = nack-IsDead id error q lease v held (ground arith) in
        (dead.3, Takes-IsFifo id (some lease) q (nack id error q) dead.0)
    | inr early ↦
        let again = nack-IsRetried id error q lease v held (ground arith) in
        (again.3, λ s. inl (again.0 s))
  ]
]

requeued-Kept : (now : ℕ) (q q' : JobQueue) → requeue_expired now q ≡ ok q' → Inv q → Kept q q'
requeued-Kept now q q' e v =
    let (r, e', v', same_lines, left) = requeue_expired-ok now q v in
    subst (Kept q) (ground arith) (v', λ s. inl (same_lines s))

selected-Kept :
    (worker : String) (fs : List String) (t : Readings) (timeout : ℕ) (best : Option QueuedJob)
    (q q' : JobQueue)
    → select worker fs t timeout q ≡ ok (q', best)
    → Inv q
    → Kept q q'
selected-Kept worker fs t timeout best q q' e v =
    let (r, b, e', v', same_lines, chosen) = select-ok worker fs t q timeout v in
    subst (Kept q) (ground arith) (v', λ s. inl (same_lines s))

-- Every step of the queue keeps the invariant, and is a step of a first-in first-out line in every
-- session: a line stays, gets a new job at its end, or loses its first job.
pub Step-Kept :
    {q q' : JobQueue} → Step q q' → Inv q → Inv q' × ((s : String) → IsFifo (line s q) (line s q'))
unfolding set_accum_pin clear_accum_pin
Step-Kept {q} (enqueued now job new) v = enqueued-Kept now job q new v
Step-Kept {q} {q'} (requeued now e) v = requeued-Kept now q q' e v
Step-Kept {q} {q'} (selected worker fs t timeout best e) v =
    selected-Kept worker fs t timeout best q q' e v
Step-Kept {q} (acked id result) v =
    (ack-Inv id result q v, Takes-IsFifo id _ q (ack id result q) (ack-Takes id result q v))
Step-Kept {q} (nacked id error) v = nacked-Kept id error q v
Step-Kept {q} (pinned now ttl session worker) v = (pins-Inv q _ v, λ s. inl refl)
Step-Kept {q} (unpinned session) v = (pins-Inv q _ v, λ s. inl refl)
Step-Kept {q} (awaited id) v = (begin_wait-Inv id q v, λ s. inl (line-begin_wait id s q))

pub Reach-Inv : {q r : JobQueue} → Reach q r → Inv q → Inv r
Reach-Inv here v = v
Reach-Inv (next reach step) v = (Step-Kept step (Reach-Inv reach v)).0

-- In every state that the queue can come to, two leases of one session are of one job.
pub single_in_flight :
    {q : JobQueue} (reach : Reach init q) (s i j : String)
    → session_of (get i q.inflight) ≡ some s
    → session_of (get j q.inflight) ≡ some s
    → i ≡ j
single_in_flight reach s i j p r =
    let v = Reach-Inv reach init-Inv in ground (arith, v.locks s i, v.locks s j)

-- A job that is handed out is the first of its session's line.
pub dispatched-first :
    (worker : String) (fs : List String) (t : Readings) (timeout : ℕ) (q q' : JobQueue)
    (job : QueuedJob)
    → Inv q
    → select worker fs t timeout q ≡ ok (q', some job)
    → (rest : List QueuedJob) × (line job.session_id q ≡ job ∷ rest)
dispatched-first worker fs t timeout q q' job v e =
    let (r, b, e', v', same_lines, chosen) = select-ok worker fs t q timeout v in
    let (eligible, first) = subst (IsBest worker fs t q) (best_eq r b e') chosen in
    (eligible.offered.rest, ground (arith, eligible.offered.head, eligible.offered.idle))
  where
    best_eq :
        (r : JobQueue) (b : Option QueuedJob)
        → select worker fs t timeout q ≡ ok (r, b)
        → b ≡ some job
    best_eq r b e' = ground arith

-- `dequeue` as a whole, with nothing in between: it returns, and what it hands out is best among
-- what may be handed out once the late leases are released.
pub dequeue-ok :
    (worker : String) (f : ModelFilter) (timeout now : ℕ) (t : Readings) (q : JobQueue)
    → Inv q
    → (r : JobQueue) × (q' : JobQueue) × (best : Option QueuedJob) × (requeue_expired now q ≡ ok r)
      × (dequeue worker f timeout now t q ≡ ok (q', best))
      × Inv q'
      × ((s : String) → line s q' ≡ line s q)
      × IsBest worker (normalize_filter f) t r best
unfolding dequeue
dequeue-ok worker f timeout now t q v =
    let (r, e, vr, same_lines, left) = requeue_expired-ok now q v in
    let (q', best, e', v', same_lines', chosen) =
      select-ok worker (normalize_filter f) t r timeout vr in
    (r, q', best, e, rw e e', v', λ s. same_lines' s ∙ same_lines s, chosen)
