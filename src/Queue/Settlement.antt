-- ===== src/Queue/Settlement.antt =====
-- `ack`, `nack` and `wait_for_result`: the invariant, the lines, and the results.
use hatchery_core.Common.{
  ℕ, ◌+◌, ◌≤◌, ◌<◌, ◌≡◌, refl, sym, subst, String, true, false, ◌∷◌, Option, none, some, same,
  if◌then◌else◌, arith, name_eq, ite, inl, inr, Option-cases,
}
use hatchery_core.Common.Dict.{
  Dict, get, insert, remove, get_or, is_some, get-insert, get-remove, get-insert_self,
  get-remove_self, set_default,
}
use hatchery_core.Protocols.{QueuedJob, JobResult}
use hatchery_core.Queue.State
use hatchery_core.Queue.State.{JobQueue}
use hatchery_core.Queue.Settle.{drop_lease, publish, ack, failed_result, retry, nack, begin_wait}
use hatchery_core.Queue.Invariant.{Inv}
use hatchery_core.Queue.Invariant.Leases.{drop_lease-Inv, put_front}
use hatchery_core.Queue.Lines.{line}
use hatchery_core.Queue.Lines.Moves.{line-drop_lease}
use hatchery_core.Queue.Requeue.{stash, returned-Inv, line-returned}

publish-answered :
    (id : String) (result : JobResult) (q : JobQueue)
    → Inv q
    → (j : String) → get j (publish id result q).result_events ≡ some true
    → is_some (get j (publish id result q).results) ≡ true
unfolding publish
publish-answered id result q v j h =
    ground
      (arith, get-insert id j true q.result_events, get-insert id j result q.results, v.answered j)

publish-Inv : (id : String) (result : JobResult) (q : JobQueue) → Inv q → Inv (publish id result q)
unfolding publish
publish-Inv id result q v = record {
  own = v.own;
  locked = v.locked;
  locks = v.locks;
  stashed = v.stashed;
  unique = v.unique;
  distinct = v.distinct;
  sessions = v.sessions;
  answered = publish-answered id result q v;
}

-- The tables of attempts and dead letters are not in the invariant.
notes-Inv :
    (q : JobQueue) (attempts : Dict ℕ) (dead : Dict (QueuedJob × String))
    → Inv q
    → Inv (record q { attempts = attempts; dead_letter = dead })
notes-Inv q attempts dead v = record {
  own = v.own;
  locked = v.locked;
  locks = v.locks;
  stashed = v.stashed;
  unique = v.unique;
  distinct = v.distinct;
  sessions = v.sessions;
  answered = v.answered;
}

-- The id of a result that is published last is the one that is acknowledged.
pub ack-results :
    (id j : String) (result : JobResult) (q : JobQueue)
    → (get j (ack id result q).results ≡ ite (name_eq id j) (some result) (get j q.results))
      × (get j (ack id result q).result_events
          ≡ ite (name_eq id j) (some true) (get j q.result_events))
      × (get j (ack id result q).attempts ≡ ite (name_eq id j) none (get j q.attempts))
unfolding ack
ack-results id j result q = elim (Option-cases (get id q.inflight)) [
  | inl absent ↦ rw absent (
    get-insert id j result q.results,
    get-insert id j true q.result_events,
    get-remove id j q.attempts,
  )
  | inr (lease, held) ↦ rw held (
    get-insert id j result q.results,
    get-insert id j true q.result_events,
    get-remove id j q.attempts,
  )
]

pub ack-Inv : (id : String) (result : JobResult) (q : JobQueue) → Inv q → Inv (ack id result q)
unfolding ack
ack-Inv id result q v = elim (Option-cases (get id q.inflight)) [
  | inl absent ↦ rw absent (
      publish-Inv id result (record q { attempts = remove id q.attempts })
        (notes-Inv q (remove id q.attempts) q.dead_letter v))
  | inr (lease, held) ↦
      let q' = drop_lease id lease q in
      rw held (
        publish-Inv id result (record q' { attempts = remove id q'.attempts })
          (notes-Inv q' (remove id q'.attempts) q'.dead_letter (drop_lease-Inv id lease q held v)))
]

-- Between two states the leased job goes off the head of the line of its session, and the other
-- lines stay; with no lease all lines stay.
abbrev pub Takes : String → Option State.Lease → JobQueue → JobQueue → Type 0
Takes id none q q' = (s : String) → line s q' ≡ line s q
Takes id (some lease) q q' =
    (job : QueuedJob) × (job.job_id ≡ id)
    × ((s : String) → line s q ≡ (if same lease.session_id s then job ∷ line s q' else line s q'))

drop_lease-Takes :
    (id : String) (lease : State.Lease) (q : JobQueue)
    → Inv q
    → get id q.inflight ≡ some lease
    → Takes id (some lease) q (drop_lease id lease q)
drop_lease-Takes id lease q v held =
    let (job, stashed, named, owned) = stash id lease q v held in
    (job, named, λ s. line-drop_lease id lease job q s v held stashed)

-- An acknowledgement completes the job that is in flight under the id, and nothing else.
pub ack-Takes :
    (id : String) (result : JobResult) (q : JobQueue)
    → Inv q
    → Takes id (get id q.inflight) q (ack id result q)
unfolding ack
ack-Takes id result q v = elim (Option-cases (get id q.inflight)) [
  | inl absent ↦ rw absent (λ s. refl)
  | inr (lease, held) ↦ rw held (drop_lease-Takes id lease q v held)
]

module _ (id error : String) (q : JobQueue) (lease : State.Lease) (v : Inv q)
    (held : get id q.inflight ≡ some lease) where
  abbrev attempt : ℕ
  attempt = get_or 0 (get id q.attempts) + 1

  abbrev noted : JobQueue
  noted = record (drop_lease id lease q) { attempts = insert id attempt q.attempts }

  retried_state : QueuedJob → JobQueue
  retried_state job = record (put_front job (drop_lease id lease q)) {
    attempts = insert id attempt q.attempts;
  }

  dead_state : QueuedJob → JobQueue
  dead_state job =
      publish id (failed_result id error)
        (record noted { dead_letter = insert id (job, error) q.dead_letter })

  module _ (job : QueuedJob) (stashed : get id q.pending_expired ≡ some job)
      (owned : job.session_id ≡ lease.session_id) where
    nack-retried_state : attempt < q.max_attempts → nack id error q ≡ retried_state job
    unfolding nack retry retried_state
    nack-retried_state early = ground arith

    nack-dead_state : q.max_attempts ≤ attempt → nack id error q ≡ dead_state job
    unfolding nack retry dead_state
    nack-dead_state late = ground arith

  -- What a refusal before the last attempt leaves.
  abbrev pub IsRetried : JobQueue → Type 0
  IsRetried q' =
      ((s : String) → line s q' ≡ line s q)
      × (get id q'.inflight ≡ none)
      × (get id q'.attempts ≡ some attempt)
      × Inv q'

  -- What the refusal of the last attempt leaves.
  abbrev pub IsDead : JobQueue → Type 0
  IsDead q' =
      Takes id (some lease) q q'
      × ((get id q'.results ≡ some (failed_result id error))
          × (get id q'.result_events ≡ some true))
      × ((job : QueuedJob) × (job.job_id ≡ id) × (get id q'.dead_letter ≡ some (job, error)))
      × Inv q'

  -- Before the last attempt a refused job is back at the head of its line: no line changes, its
  -- lease is gone, and its attempts are counted.
  pub nack-IsRetried : attempt < q.max_attempts → IsRetried (nack id error q)
  nack-IsRetried early =
      let (job, stashed, named, owned) = stash id lease q v held in
      subst IsRetried (sym (nack-retried_state job stashed owned early)) (
        unfold retried_state drop_lease in
        (
          line-returned id lease job q v held stashed named owned,
          get-remove_self id q.inflight,
          get-insert_self id attempt q.attempts,
          notes-Inv (put_front job (drop_lease id lease q)) (insert id attempt q.attempts)
              q.dead_letter (returned-Inv id lease job q v held stashed named owned),
        ))

  -- The last attempt takes the job off the line, keeps it as a dead letter, stores the failure as the
  -- result and sets the event of the waiters.
  pub nack-IsDead : q.max_attempts ≤ attempt → IsDead (nack id error q)
  nack-IsDead late =
      let (job, stashed, named, owned) = stash id lease q v held in
      subst IsDead (sym (nack-dead_state job stashed owned late)) (
        unfold dead_state publish in
        (
          drop_lease-Takes id lease q v held,
          (get-insert_self id (failed_result id error) _, get-insert_self id true _),
          (job, named, get-insert_self id (job, error) q.dead_letter),
          publish-Inv id (failed_result id error) _ (
              notes-Inv (drop_lease id lease q) (insert id attempt q.attempts)
                (insert id (job, error) q.dead_letter) (drop_lease-Inv id lease q held v)),
        ))

-- A refusal of an id that is not in flight changes nothing.
pub nack-absent :
    (id error : String) (q : JobQueue) → get id q.inflight ≡ none → nack id error q ≡ q
unfolding nack
nack-absent id error q absent = ground arith

begun-answered :
    (id : String) (q : JobQueue)
    → Inv q
    → (j : String) → get j (set_default id false q.result_events) ≡ some true
    → is_some (get j q.results) ≡ true
begun-answered id q v j h = ground (arith, get-insert id j false q.result_events, v.answered j)

pub begin_wait-Inv : (id : String) (q : JobQueue) → Inv q → Inv (begin_wait id q).0
unfolding begin_wait
begin_wait-Inv id q v = elim (Option-cases (get id q.results)) [
  | inr (r, there) ↦ rw (there, begin_wait) v
  | inl absent ↦
      rw (absent, begin_wait)
        (record {
          own = v.own;
          locked = v.locked;
          locks = v.locks;
          stashed = v.stashed;
          unique = v.unique;
          distinct = v.distinct;
          sessions = v.sessions;
          answered = λ j h. begun-answered id q v j h;
        })
]

pub line-begin_wait : (id s : String) (q : JobQueue) → line s (begin_wait id q).0 ≡ line s q
unfolding begin_wait
line-begin_wait id s q = ground arith
