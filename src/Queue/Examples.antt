-- ===== src/Queue/Examples.antt =====
-- Runs of the queue, and its theorems at concrete states.
use hatchery_core.Common.{◌≡◌, ◌⊎◌, ◌↔◌, refl, String, true, [], ◌∷◌, Option, some, arith, name_eq}
use hatchery_core.Common.Dict.{get, is_some, insert, remove}
use hatchery_core.Common.Errors.{ok}
use hatchery_core.Protocols.{QueuedJob, JobResult}
use hatchery_core.Queue.State.{
  JobQueue, init, enqueue, stamp, accepts, get_queue_depth, one_model, normalize_filter,
}
use hatchery_core.Queue.Dequeue.{is_reserved, requeue_expired, select, dequeue}
use hatchery_core.Queue.Settle.{ack, nack, begin_wait, wait_for_result, signalled}
use hatchery_core.Queue.Waits.{wait_for_result-answered, rung_iff_answered}
use hatchery_core.Queue.Invariant.{Inv, session_of}
use hatchery_core.Queue.Lines.{line}
use hatchery_core.Queue.Requeue.{requeue_expired-ok, unexpired}
use hatchery_core.Queue.Selection.{IsBest, IsEligible, select-ok}
use hatchery_core.Queue.Priority.{Precedes, select-Precedes}
use hatchery_core.Queue.Settlement.{
  Takes, ack-Takes, nack-IsRetried, nack-IsDead, IsRetried, IsDead,
}
use hatchery_core.Queue.Runs.{acked, here, next, IsFifo, Step-Kept, single_in_flight, dequeue-ok}
use hatchery_core.Queue.Samples.{
  first_job, second_job, done, readings, both_waiting, leased_to, in_flight, select-run,
  in_flight-Reach, both_waiting-Inv, in_flight-Inv,
}

Step-Kept_example :
    Inv (ack "j1" done in_flight)
    × ((s : String) → IsFifo (line s in_flight) (line s (ack "j1" done in_flight)))
Step-Kept_example = Step-Kept (acked "j1" done) in_flight-Inv

j1-leased : session_of (get "j1" in_flight.inflight) ≡ some "s1"
unfolding get name_eq
j1-leased = refl

single_in_flight_example : ◌≡◌ {A = String} "j1" "j1"
single_in_flight_example = single_in_flight in_flight-Reach "s1" "j1" "j1" j1-leased j1-leased

select-ok_example :
    (q' : JobQueue) × (best : Option QueuedJob) × (select "w" ("m" ∷ []) readings 300 both_waiting
      ≡ ok (q', best))
    × Inv q'
    × ((s : String) → line s q' ≡ line s both_waiting)
    × IsBest "w" ("m" ∷ []) readings both_waiting best
select-ok_example = select-ok "w" ("m" ∷ []) readings both_waiting 300 both_waiting-Inv

first_job-IsEligible : IsEligible "w" ("m" ∷ []) readings both_waiting first_job
unfolding enqueue init stamp get insert name_eq accepts is_reserved
first_job-IsEligible = record {
  offered = record {
    rest = second_job ∷ [];
    head = refl;
    idle = refl;
    fits = refl;
    allowed = refl;
  };
  open_to = refl;
}

select-Precedes_example : Precedes "w" ("m" ∷ []) both_waiting.seq first_job first_job
select-Precedes_example =
    select-Precedes "w" ("m" ∷ []) readings 300 both_waiting in_flight first_job first_job
      both_waiting-Inv select-run first_job-IsEligible

dequeue-ok_example :
    (r : JobQueue) × (q' : JobQueue) × (best : Option QueuedJob) × (requeue_expired 400000 in_flight
      ≡ ok r)
    × (dequeue "v" (one_model "m") 300 400000 readings in_flight ≡ ok (q', best))
    × Inv q'
    × ((s : String) → line s q' ≡ line s in_flight)
    × IsBest "v" (normalize_filter (one_model "m")) readings r best
dequeue-ok_example = dequeue-ok "v" (one_model "m") 300 400000 readings in_flight in_flight-Inv

requeue_expired-ok_example :
    (q' : JobQueue) × (requeue_expired 300005 in_flight ≡ ok q')
    × Inv q'
    × ((s : String) → line s q' ≡ line s in_flight)
    × ((id : String) → get id q'.inflight ≡ unexpired 300005 (get id in_flight.inflight))
requeue_expired-ok_example = requeue_expired-ok 300005 in_flight in_flight-Inv

j1-held : get "j1" in_flight.inflight ≡ some leased_to
unfolding get name_eq
j1-held = refl

ack-Takes_example : Takes "j1" (get "j1" in_flight.inflight) in_flight (ack "j1" done in_flight)
ack-Takes_example = ack-Takes "j1" done in_flight in_flight-Inv

nack-IsRetried_example :
    IsRetried "j1" "out of memory" in_flight leased_to in_flight-Inv j1-held
      (nack "j1" "out of memory" in_flight)
unfolding get
nack-IsRetried_example =
    nack-IsRetried "j1" "out of memory" in_flight leased_to in_flight-Inv j1-held (omega arith)

-- The same job at its third attempt.
abbrev third_attempt : JobQueue
third_attempt = record in_flight { attempts = ("j1", 2) ∷ [] }

third_attempt-Inv : Inv third_attempt
third_attempt-Inv = record {
  own = in_flight-Inv.own;
  locked = in_flight-Inv.locked;
  locks = in_flight-Inv.locks;
  stashed = in_flight-Inv.stashed;
  unique = in_flight-Inv.unique;
  distinct = in_flight-Inv.distinct;
  sessions = in_flight-Inv.sessions;
  answered = in_flight-Inv.answered;
}

nack-IsDead_example :
    IsDead "j1" "out of memory" third_attempt leased_to third_attempt-Inv j1-held
      (nack "j1" "out of memory" third_attempt)
unfolding get name_eq
nack-IsDead_example =
    nack-IsDead "j1" "out of memory" third_attempt leased_to third_attempt-Inv j1-held (omega arith)

-- The state in which a waiter for the leased job has begun, and what the answer makes of it.
abbrev waiting : JobQueue
waiting = (begin_wait "j1" in_flight).0

j1-rung : get "j1" (ack "j1" done waiting).result_events ≡ some true
unfolding ack begin_wait get insert remove name_eq
j1-rung = refl

rung_iff_answered_example :
    (get "j1" in_flight.result_events ≡ some true) ↔ (is_some (get "j1" in_flight.results) ≡ true)
rung_iff_answered_example = rung_iff_answered in_flight-Reach "j1"

wait_for_result-answered_example :
    (r : JobResult) × (wait_for_result "j1" (λ q. signalled (ack "j1" done q)) in_flight ≡ ok r)
    × ((get "j1" in_flight.results ≡ some r) ⊎ (get "j1" (ack "j1" done waiting).results ≡ some r))
wait_for_result-answered_example =
    wait_for_result-answered "j1" (λ q. signalled (ack "j1" done q)) in_flight
      (ack "j1" done waiting) in_flight-Reach (next here (acked "j1" done)) j1-rung refl

depth-run : get_queue_depth (one_model "m") in_flight ≡ 2
unfolding get_queue_depth get name_eq
depth-run = refl
