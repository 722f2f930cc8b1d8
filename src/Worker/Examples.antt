-- ===== src/Worker/Examples.antt =====
-- The worker's theorems at a leased `forward_backward`.
use hatchery_core.Common.{ℕ, ◌+◌, true, List, [], ◌∷◌, Option, none}
use hatchery_core.Common.Errors.{Result, ok, raise}
use hatchery_core.Protocols.{QueuedJob}
use hatchery_core.Queue.State.{JobQueue, init, enqueue}
use hatchery_core.Queue.Dequeue.{Readings, select}
use hatchery_core.Queue.Samples.{job, first_job, in_flight}
use hatchery_core.Worker.Jobs.{Outcome, Runtime, WorkerState, process_one}

-- A model that counts the calls of its handlers.
abbrev env : Runtime ℕ (List ℕ)
env = record {
  unpackb = λ bytes. ok bytes;
  empty_dict = [];
  decode = λ bytes. ok "";
  is_dict = λ p. true;
  verifiers = [];
  handle = λ operation session_id payload s.
      (record s { model = s.model + 1 }, Outcome.returned (7 ∷ [], []));
  describe = λ e. "";
  str = λ n. "";
}

abbrev worker : WorkerState ℕ
worker = record {
  worker_id = "w";
  stores = record {
    metadata = record { sessions = []; jobs = []; checkpoints = [] };
    objects = record { blobs = []; metadata = [] };
    model = 0;
  };
  queue = in_flight;
  cadence = record { window_size = 20; history = [] };
  registry = none;
}

-- A job of another session arrives while the handler runs.
abbrev third_job : QueuedJob
third_job = job "j3" "s2" 0

abbrev arrival : JobQueue → JobQueue
arrival q = enqueue 0 third_job q

abbrev answered_queue : JobQueue
answered_queue = (process_one env 9000 40 50 arrival (λ q. q) first_job worker).queue

abbrev at_the_last : Readings
at_the_last = record { pin = 608999; affinity = 608999; lease = 608999 }

abbrev state_of : Result (JobQueue × Option QueuedJob) → JobQueue
state_of (ok (q, best)) = q
state_of (raise e) = init

abbrev handed_out : JobQueue
handed_out = state_of (select "v" ("m" ∷ []) at_the_last 300 answered_queue)
