-- ===== src/Queue/Invariant/Leases.antt =====
-- The invariant under the end of a lease, a job put back at the head, and a new lease.
use hatchery_core.Common.{
  ℕ, ◌+◌, ◌≤◌, ◌≡◌, refl, String, List, [], ◌∷◌, All, none, some, arith, subst,
}
use hatchery_core.Common.Dict.{
  get, insert, get_or, get-insert, get-remove, insert-Distinct, remove-Distinct, weight-le-total,
}
use hatchery_core.Protocols.{QueuedJob}
use hatchery_core.Queue.State
use hatchery_core.Queue.State.{JobQueue}
use hatchery_core.Queue.Settle.{drop_lease}
use hatchery_core.Queue.Invariant.{Inv, count_id, waiting, leased, session_of, names_of}
use hatchery_core.Queue.Invariant.Enqueue.{own-insert, total-insert_deque}

module _ (id : String) (lease : State.Lease) (q : JobQueue) where
  drop_lease-locked :
      Inv q
      → get id q.inflight ≡ some lease
      → (s j : String) → get s (drop_lease id lease q).inflight_by_session ≡ some j
      → session_of (get j (drop_lease id lease q).inflight) ≡ some s
  unfolding drop_lease
  drop_lease-locked v e s j h = ground (
    arith,
    get-remove id j q.inflight,
    get-remove lease.session_id s q.inflight_by_session,
    v.locked s j,
  )

  drop_lease-locks :
      Inv q
      → get id q.inflight ≡ some lease
      → (s j : String) → session_of (get j (drop_lease id lease q).inflight) ≡ some s
      → get s (drop_lease id lease q).inflight_by_session ≡ some j
  unfolding drop_lease
  drop_lease-locks v e s j h = ground (
    arith,
    get-remove id j q.inflight,
    get-remove lease.session_id s q.inflight_by_session,
    v.locks s j,
    v.locks s id,
  )

  drop_lease-stashed :
      Inv q
      → (s j : String) → session_of (get j (drop_lease id lease q).inflight) ≡ some s
      → names_of (get j (drop_lease id lease q).pending_expired) ≡ some (j, s)
  unfolding drop_lease
  drop_lease-stashed v s j h =
      ground (arith, get-remove id j q.inflight, get-remove id j q.pending_expired, v.stashed s j)

  drop_lease-leased : (j : String) → leased j (drop_lease id lease q) ≤ leased j q
  unfolding drop_lease
  drop_lease-leased j = ground (arith, get-remove id j q.inflight)

  pub drop_lease-Inv : get id q.inflight ≡ some lease → Inv q → Inv (drop_lease id lease q)
  unfolding drop_lease
  drop_lease-Inv e v = record {
    own = v.own;
    locked = drop_lease-locked v e;
    locks = drop_lease-locks v e;
    stashed = drop_lease-stashed v;
    unique = λ j. omega (arith, v.unique j, drop_lease-leased j);
    distinct = remove-Distinct id q.inflight v.distinct;
    sessions = v.sessions;
    answered = v.answered;
  }

  -- The job whose lease ended is held nowhere.
  pub drop_lease-free :
      get id q.inflight ≡ some lease
      → Inv q
      → waiting id (drop_lease id lease q) + leased id (drop_lease id lease q) ≡ 0
  unfolding drop_lease
  drop_lease-free e v = ground (arith, get-remove id id q.inflight, v.unique id)

module _ (job : QueuedJob) (q : JobQueue) where
  -- A deque is written with one more job at its head.
  abbrev pub put_front : JobQueue
  put_front = record q {
    session_queues =
        insert job.session_id (job ∷ get_or [] (get job.session_id q.session_queues))
          q.session_queues;
  }

  put_front_unique :
      waiting job.job_id q + leased job.job_id q ≡ 0
      → (id : String) → waiting id q + leased id q ≤ 1
      → waiting id put_front + leased id put_front ≤ 1
  put_front_unique new id h = ground (
    arith,
    total-insert_deque id job.session_id (job ∷ get_or [] (get job.session_id q.session_queues))
        q.session_queues,
  )

  pub put_front-Inv : waiting job.job_id q + leased job.job_id q ≡ 0 → Inv q → Inv put_front
  put_front-Inv new v = record {
    own =
        λ s. own-insert job.session_id s _ q.session_queues (refl, v.own job.session_id) (v.own s);
    locked = v.locked;
    locks = v.locks;
    stashed = v.stashed;
    unique = λ id. put_front_unique new id (v.unique id);
    distinct = v.distinct;
    sessions = insert-Distinct _ _ q.session_queues v.sessions;
    answered = v.answered;
  }

  -- The job at the head of its deque, leased to a worker.
  module _ (worker : String) (deadline : ℕ) (rest : List QueuedJob) where
    abbrev pub new_lease : State.Lease
    new_lease = record { session_id = job.session_id; worker_id = worker; deadline = deadline }

    abbrev pub take_lease : JobQueue
    take_lease = record q {
      session_queues = insert job.session_id rest q.session_queues;
      inflight = insert job.job_id new_lease q.inflight;
      inflight_by_session = insert job.session_id job.job_id q.inflight_by_session;
      pending_expired = insert job.job_id job q.pending_expired;
    }

    module _ (v : Inv q) (head : get job.session_id q.session_queues ≡ some (job ∷ rest))
        (idle : get job.session_id q.inflight_by_session ≡ none) where
      head-own : All (λ j. j.session_id ≡ job.session_id) rest
      head-own =
          (subst (λ o. All (λ j. j.session_id ≡ job.session_id) (get_or [] o)) head
            (v.own job.session_id)).1

      not-leased : leased job.job_id q ≡ 0
      not-leased = ground (
        arith,
        head,
        weight-le-total (count_id job.job_id) job.session_id q.session_queues,
        v.unique job.job_id,
      )

      take_lease-locked :
          (s j : String)
          → get s take_lease.inflight_by_session ≡ some j
          → session_of (get j take_lease.inflight) ≡ some s
      take_lease-locked s j h = ground (
        arith,
        get-insert job.session_id s job.job_id q.inflight_by_session,
        get-insert job.job_id j new_lease q.inflight,
        v.locked s j,
        not-leased,
      )

      take_lease-locks :
          (s j : String)
          → session_of (get j take_lease.inflight) ≡ some s
          → get s take_lease.inflight_by_session ≡ some j
      take_lease-locks s j h = ground (
        arith,
        get-insert job.session_id s job.job_id q.inflight_by_session,
        get-insert job.job_id j new_lease q.inflight,
        v.locks s j,
      )

      take_lease-stashed :
          (s j : String)
          → session_of (get j take_lease.inflight) ≡ some s
          → names_of (get j take_lease.pending_expired) ≡ some (j, s)
      take_lease-stashed s j h = ground (
        arith,
        get-insert job.job_id j job q.pending_expired,
        get-insert job.job_id j new_lease q.inflight,
        v.stashed s j,
      )

      take_lease_unique : (id : String) → waiting id take_lease + leased id take_lease ≤ 1
      take_lease_unique id = ground (
        arith,
        total-insert_deque id job.session_id rest q.session_queues,
        get-insert job.job_id id new_lease q.inflight,
        v.unique id,
        head,
      )

      pub take_lease-Inv : Inv take_lease
      take_lease-Inv = record {
        own = λ s. own-insert job.session_id s rest q.session_queues head-own (v.own s);
        locked = take_lease-locked;
        locks = take_lease-locks;
        stashed = take_lease-stashed;
        unique = take_lease_unique;
        distinct = insert-Distinct _ _ q.inflight v.distinct;
        sessions = insert-Distinct _ _ q.session_queues v.sessions;
        answered = v.answered;
      }
