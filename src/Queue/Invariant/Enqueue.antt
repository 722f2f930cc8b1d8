-- ===== src/Queue/Invariant/Enqueue.antt =====
-- The empty queue and `enqueue` keep the invariant.
use hatchery_core.Common.{
  ℕ, ◌+◌, ◌≤◌, ◌≡◌, String, true, false, List, [], ◌∷◌, ◌++◌, All, All-append, some, arith, name_eq,
  if_pos, if_neg, subst,
}
use hatchery_core.Common.Dict.{
  Dict, get, insert, get_or, is_some, total, total-insert, get-insert, insert-Distinct,
}
use hatchery_core.Protocols.{QueuedJob}
use hatchery_core.Queue.State.{JobQueue, init, enqueue, stamp}
use hatchery_core.Queue.Invariant.{Inv, count_id, waiting, leased}

pub init-Inv : Inv init
unfolding init get total
init-Inv = record {
  own = λ s. tt;
  locked = λ s id h. ground arith;
  locks = λ s id h. ground arith;
  stashed = λ s id h. ground arith;
  unique = λ id. omega arith;
  distinct = tt;
  sessions = tt;
  answered = λ id h. ground arith;
}

pub count_id-append :
    (id : String) (xs ys : List QueuedJob)
    → count_id id (xs ++ ys) ≡ count_id id xs + count_id id ys
count_id-append id [] ys = omega arith
count_id-append id (x ∷ xs) ys = omega (arith, count_id-append id xs ys)

-- Writing a deque of jobs of the session `k` keeps every deque to its session.
pub own-insert :
    (k s : String) (dq : List QueuedJob) (queues : Dict (List QueuedJob))
    → All (λ j. j.session_id ≡ k) dq
    → All (λ j. j.session_id ≡ s) (get_or [] (get s queues))
    → All (λ j. j.session_id ≡ s) (get_or [] (get s (insert k dq queues)))
own-insert k s dq queues new old = elim (name_eq k s) [
  | yes p ↦
      rw (get-insert k s dq queues, if_pos _ p) (subst (λ t. All (λ j. j.session_id ≡ t) dq) p new)
  | no p ↦ rw (get-insert k s dq queues, if_neg _ p) old
]

pub stamp-names :
    (now : ℕ) (job : QueuedJob)
    → ((stamp now job).job_id ≡ job.job_id) × ((stamp now job).session_id ≡ job.session_id)
unfolding stamp
stamp-names now job = ground arith

enqueue-own :
    (now : ℕ) (job : QueuedJob) (q : JobQueue)
    → Inv q
    → (s : String)
    → All (λ j. j.session_id ≡ s) (get_or [] (get s (enqueue now job q).session_queues))
unfolding enqueue
enqueue-own now job q v s =
    own-insert job.session_id s _ q.session_queues
      (All-append (λ j. j.session_id ≡ job.session_id) _ _ (v.own job.session_id)
        ((stamp-names now job).1, tt))
      (v.own s)

-- The copies of an id in a table of deques, after a deque is written.
pub total-insert_deque :
    (id k : String) (dq : List QueuedJob) (queues : Dict (List QueuedJob))
    → total (count_id id) (insert k dq queues) + count_id id (get_or [] (get k queues))
      ≡ total (count_id id) queues + count_id id dq
total-insert_deque id k dq queues = ground (arith, total-insert (count_id id) k dq queues)

-- A job with a new id is held once.
enqueue_unique :
    (now : ℕ) (job : QueuedJob) (q : JobQueue)
    → waiting job.job_id q + leased job.job_id q ≡ 0
    → (id : String) → waiting id q + leased id q ≤ 1
    → waiting id (enqueue now job q) + leased id (enqueue now job q) ≤ 1
unfolding enqueue
enqueue_unique now job q new id h =
    let dq = get_or [] (get job.session_id q.session_queues) in
    ground (
      arith,
      total-insert_deque id job.session_id (dq ++ stamp now job ∷ []) q.session_queues,
      count_id-append id dq (stamp now job ∷ []),
      stamp-names now job,
    )

enqueue-answered :
    (now : ℕ) (job : QueuedJob) (q : JobQueue)
    → Inv q
    → (id : String) → get id (enqueue now job q).result_events ≡ some true
    → is_some (get id q.results) ≡ true
unfolding enqueue
enqueue-answered now job q v id h =
    ground (arith, get-insert job.job_id id false q.result_events, v.answered id)

pub enqueue-Inv :
    (now : ℕ) (job : QueuedJob) (q : JobQueue)
    → waiting job.job_id q + leased job.job_id q ≡ 0
    → Inv q
    → Inv (enqueue now job q)
unfolding enqueue
enqueue-Inv now job q new v = record {
  own = λ s. enqueue-own now job q v s;
  locked = v.locked;
  locks = v.locks;
  stashed = v.stashed;
  unique = λ id. enqueue_unique now job q new id (v.unique id);
  distinct = v.distinct;
  sessions = insert-Distinct _ _ q.session_queues v.sessions;
  answered = λ id h. enqueue-answered now job q v id h;
}
