-- ===== src/Queue/Waits.antt =====
-- The waiters of the queue: when their events are set, and what they get.
use hatchery_core.Common.{
  ℕ, ◌≡◌, ◌↔◌, ◌⊎◌, String, true, false, List, [], ◌∷◌, Option, some, arith, inl, inr, ◌∙◌, ap, sym,
  Option-cases,
}
use hatchery_core.Common.Dict.{get, get-insert, is_some}
use hatchery_core.Common.Errors.{ok, Result-cases}
use hatchery_core.Protocols.{QueuedJob, JobResult}
use hatchery_core.Queue.State.{JobQueue, init, enqueue, set_accum_pin, clear_accum_pin}
use hatchery_core.Queue.Dequeue.{
  Readings, release_one, release_all, requeue_expired, take_first, select,
}
use hatchery_core.Queue.Settle.{
  drop_lease, publish, ack, failed_result, retry, nack, begin_wait, wait_for_result, Wake,
  signalled,
}
use hatchery_core.Queue.Invariant.Enqueue.{init-Inv}
use hatchery_core.Queue.Settlement.{ack-results}
use hatchery_core.Queue.Runs.{
  Step, enqueued, requeued, selected, acked, nacked, pinned, unpinned, awaited, Reach, here, next,
  Reach-Inv,
}

-- A result that is there has its event set.
abbrev IsRung : JobQueue → Type 0
IsRung q = (id : String) → is_some (get id q.results) ≡ true → get id q.result_events ≡ some true

-- The two tables of the waiters are as they were.
abbrev SameAnswers : JobQueue → JobQueue → Type 0
SameAnswers q q' = (q'.results ≡ q.results) × (q'.result_events ≡ q.result_events)

SameAnswers-IsRung : (q q' : JobQueue) → SameAnswers q q' → IsRung q → IsRung q'
SameAnswers-IsRung q q' (e, f) h =
    λ id there. ap (get id) f ∙ h id (ap (λ d. is_some (get id d)) (sym e) ∙ there)

release_one-SameAnswers :
    (id : String) (q q' : JobQueue) → release_one id q ≡ ok q' → SameAnswers q q'
unfolding release_one
release_one-SameAnswers id q q' e = elim (Option-cases (get id q.inflight)) [
  | inl missing ↦ absurd (ground arith)
  | inr (lease, held) ↦ (ground arith, ground arith)
]

release_all-SameAnswers :
    (ids : List String) (q q' : JobQueue) → release_all ids q ≡ ok q' → SameAnswers q q'
unfolding release_all
release_all-SameAnswers [] q q' e = (ground arith, ground arith)
release_all-SameAnswers (id ∷ ids) q q' e = elim (Result-cases (release_one id q)) [
  | inr (x, f) ↦ absurd (ground arith)
  | inl (r, f) ↦
      let first = release_one-SameAnswers id q r f in
      let rest = release_all-SameAnswers ids r q' (ground arith) in
      (rest.0 ∙ first.0, rest.1 ∙ first.1)
]

take_first-SameAnswers :
    (worker : String) (fs : List String) (now timeout : ℕ) (q q' : JobQueue)
    (best : Option QueuedJob) (l : List QueuedJob)
    → take_first worker fs now timeout q l ≡ ok (q', best)
    → SameAnswers q q'
unfolding take_first
take_first-SameAnswers worker fs now timeout q q' best [] e = (ground arith, ground arith)
take_first-SameAnswers worker fs now timeout q q' best (job ∷ others) e =
    elim (Option-cases (get job.session_id q.session_queues)) [
      | inl missing ↦ absurd (ground arith)
      | inr ([], head) ↦ absurd (ground arith)
      | inr (first ∷ rest, head) ↦ (ground arith, ground arith)
    ]

select-SameAnswers :
    (worker : String) (fs : List String) (t : Readings) (timeout : ℕ) (best : Option QueuedJob)
    (q q' : JobQueue)
    → select worker fs t timeout q ≡ ok (q', best)
    → SameAnswers q q'
unfolding select
select-SameAnswers worker fs t timeout best q q' e =
    take_first-SameAnswers worker fs t.lease timeout _ q' best _ e

enqueue-IsRung : (now : ℕ) (job : QueuedJob) (q : JobQueue) → IsRung q → IsRung (enqueue now job q)
unfolding enqueue
enqueue-IsRung now job q h =
    λ id there. ground (arith, h id there, get-insert job.job_id id false q.result_events)

publish-IsRung :
    (id : String) (result : JobResult) (q : JobQueue) → IsRung q → IsRung (publish id result q)
unfolding publish
publish-IsRung id result q h = λ j there.
    ground (arith, h j, get-insert id j result q.results, get-insert id j true q.result_events)

nack-IsRung : (id error : String) (q : JobQueue) → IsRung q → IsRung (nack id error q)
unfolding nack retry drop_lease publish
nack-IsRung id error q h = λ j there. elim (Option-cases (get id q.inflight)) [
  | inl absent ↦ ground (arith, h j)
  | inr (lease, held) ↦ elim (Option-cases (get id q.pending_expired)) [
    | inl e ↦ ground (
      arith,
      h j,
      get-insert id j (failed_result id error) q.results,
      get-insert id j true q.result_events,
    )
    | inr (job, e) ↦ ground (
      arith,
      h j,
      get-insert id j (failed_result id error) q.results,
      get-insert id j true q.result_events,
    )
  ]
]

begin_wait-IsRung : (id : String) (q : JobQueue) → IsRung q → IsRung (begin_wait id q).0
unfolding begin_wait
begin_wait-IsRung id q h = elim (Option-cases (get id q.results)) [
  | inr (r, there) ↦ rw (there, begin_wait) h
  | inl absent ↦
      rw (absent, begin_wait)
        (λ j there. ground (arith, h j there, get-insert id j false q.result_events))
]

ack-IsRung : (id : String) (result : JobResult) (q : JobQueue) → IsRung q → IsRung (ack id result q)
ack-IsRung id result q h =
    λ j there. let e = ack-results id j result q in ground (arith, h j, e.0, e.1)

Step-IsRung : {q q' : JobQueue} → Step q q' → IsRung q → IsRung q'
unfolding set_accum_pin clear_accum_pin requeue_expired
Step-IsRung {q} (enqueued now job new) h = enqueue-IsRung now job q h
Step-IsRung {q} {q'} (requeued now e) h =
    SameAnswers-IsRung q q' (release_all-SameAnswers _ q q' e) h
Step-IsRung {q} {q'} (selected worker fs t timeout best e) h =
    SameAnswers-IsRung q q' (select-SameAnswers worker fs t timeout best q q' e) h
Step-IsRung {q} (acked id result) h = ack-IsRung id result q h
Step-IsRung {q} (nacked id error) h = nack-IsRung id error q h
Step-IsRung (pinned now ttl session worker) h = h
Step-IsRung (unpinned session) h = h
Step-IsRung {q} (awaited id) h = begin_wait-IsRung id q h

Reach-IsRung : {q r : JobQueue} → Reach q r → IsRung q → IsRung r
Reach-IsRung here h = h
Reach-IsRung (next reach step) h = Step-IsRung step (Reach-IsRung reach h)

init-IsRung : IsRung init
unfolding init get
init-IsRung = λ id there. absurd (ground arith)

Reach-trans : {q r s : JobQueue} → Reach q r → Reach r s → Reach q s
Reach-trans reach here = reach
Reach-trans reach (next more step) = next (Reach-trans reach more) step

-- In every state that the queue can come to, the event of a job is set if and only if its result is
-- there: whoever waits on the event is woken once there is a result, and never without one.
pub rung_iff_answered :
    {q : JobQueue} (reach : Reach init q) (id : String)
    → (get id q.result_events ≡ some true) ↔ (is_some (get id q.results) ≡ true)
rung_iff_answered reach id =
    (λ rung. (Reach-Inv reach init-Inv).answered id rung, Reach-IsRung reach init-IsRung id)

-- A waiter begins in a state that the queue can come to; any steps of any tasks follow, up to a state
-- in which its event is set, and it goes on there. Then it gets a result, the one that was there at
-- first or the one that is there now, and meets no KeyError.
pub wait_for_result-answered :
    (id : String) (later : JobQueue → Wake) (q q' : JobQueue)
    → Reach init q
    → Reach (begin_wait id q).0 q'
    → get id q'.result_events ≡ some true
    → later (begin_wait id q).0 ≡ signalled q'
    → (r : JobResult) × (wait_for_result id later q ≡ ok r)
      × ((get id q.results ≡ some r) ⊎ (get id q'.results ≡ some r))
unfolding wait_for_result
wait_for_result-answered id later q q' before since rung woken =
    elim (Option-cases (get id q.results)) [
      | inr (r, there) ↦ (r, ground arith, inl there)
      | inl absent ↦ elim (Option-cases (get id q'.results)) [
        | inr (r, found) ↦ (r, ground arith, inr found)
        | inl missing ↦
            let there =
              (rung_iff_answered (Reach-trans (next before (awaited id)) since) id).0 rung in
            absurd (ground arith)
      ]
    ]
