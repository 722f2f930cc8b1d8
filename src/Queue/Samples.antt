-- ===== src/Queue/Samples.antt =====
-- Two jobs of one session, waiting and then with the first one leased, for the tests of the queue and
-- of the worker.
use hatchery_core.Common.{ℕ, ◌≡◌, refl, String, false, [], ◌∷◌, none, some, arith, name_eq}
use hatchery_core.Common.Dict.{get, insert, total}
use hatchery_core.Common.Errors.{ok}
use hatchery_core.Common.Sort.{sort_by}
use hatchery_core.Protocols.{QueuedJob, JobResult, JobStatus}
use hatchery_core.Queue.State
use hatchery_core.Queue.State.{
  JobQueue, init, enqueue, stamp, accepts, get_queue_depth, any_model, one_model, ModelFilter,
  normalize_filter, set_accum_pin,
}
use hatchery_core.Queue.Dequeue.{Readings, select}
use hatchery_core.Queue.Invariant.{Inv}
use hatchery_core.Queue.Invariant.Enqueue.{init-Inv}
use hatchery_core.Queue.Runs.{enqueued, selected, Reach, here, next, Reach-Inv}

-- A `forward_backward` of session "s1" and the `optim_step` behind it, of higher priority.
abbrev pub job : String → String → ℕ → QueuedJob
job id session priority = record {
  job_id = id;
  session_id = session;
  operation = "forward_backward";
  payload = [];
  priority = priority;
  preferred_worker = none;
  required_model = some "m";
  estimated_duration_ms = none;
  user_id = none;
  enqueued_at = some 0;
  required_cp_degree = 1;
}

abbrev pub first_job : QueuedJob
first_job = job "j1" "s1" 0

abbrev pub second_job : QueuedJob
second_job = job "j2" "s1" 10

abbrev pub done : JobResult
done = record {
  job_id = "j1";
  status = JobStatus.completed;
  result = some [];
  error = none;
  metrics = none;
}

abbrev pub readings : Readings
readings = record { pin = 5; affinity = 5; lease = 5 }

abbrev pub both_waiting : JobQueue
both_waiting = enqueue 0 second_job (enqueue 0 first_job init)

abbrev pub leased_to : State.Lease
leased_to = record { session_id = "s1"; worker_id = "w"; deadline = 300005 }

abbrev pub in_flight : JobQueue
in_flight = record {
  session_queues = ("s1", second_job ∷ []) ∷ [];
  inflight_by_session = ("s1", "j1") ∷ [];
  inflight = ("j1", leased_to) ∷ [];
  counter = 2;
  seq = ("j1", 0) ∷ ("j2", 1) ∷ [];
  results = [];
  result_events = ("j1", false) ∷ ("j2", false) ∷ [];
  attempts = [];
  max_attempts = 3;
  dead_letter = [];
  accum_pins = [];
  pending_expired = ("j1", first_job) ∷ [];
}

-- The older job is handed out although the newer one has the higher priority.
pub select-run : select "w" ("m" ∷ []) readings 300 both_waiting ≡ ok (in_flight, some first_job)
unfolding select enqueue init stamp get insert name_eq sort_by accepts
select-run = refl

pub both_waiting-Reach : Reach init both_waiting
unfolding enqueue init get insert total name_eq stamp
both_waiting-Reach =
    next (next here (enqueued 0 first_job (omega arith))) (enqueued 0 second_job (omega arith))

pub in_flight-Reach : Reach init in_flight
in_flight-Reach =
    next both_waiting-Reach (selected "w" ("m" ∷ []) readings 300 (some first_job) select-run)

pub both_waiting-Inv : Inv both_waiting
both_waiting-Inv = Reach-Inv both_waiting-Reach init-Inv

pub in_flight-Inv : Inv in_flight
in_flight-Inv = Reach-Inv in_flight-Reach init-Inv
