-- ===== src/Queue/State.antt =====
-- The fields of `InMemoryJobQueue` (hatchery/core/backends/queue/memory.py), the construction, and
-- the operations that touch one table: `enqueue`, the accumulation pins, the queue depth.
-- A clock reading is an argument of each operation, in milliseconds.
use hatchery_core.Common.{
  ℕ, suc, ◌+◌, String, Bool, true, false, ◌||◌, List, [], ◌∷◌, ◌++◌, none, some, length, filter,
  same, if◌then◌else◌,
}
use hatchery_core.Common.Dict.{Dict, get, insert, remove, get_or, set_default, values}
use hatchery_core.Protocols.{QueuedJob, JobResult}

-- `_inflight[job_id]`: the tuple (session_id, worker_id, deadline).
pub record Lease : Type 0 where
  pub session_id : String
  pub worker_id : String
  pub deadline : ℕ

-- `_accum_pins[session_id]`: the tuple (owner, expires).
pub record Pin : Type 0 where
  pub owner : String
  pub expires : ℕ

pub record JobQueue : Type 0 where
  pub session_queues : Dict (List QueuedJob)
  pub inflight_by_session : Dict String
  pub inflight : Dict Lease
  pub counter : ℕ
  pub seq : Dict ℕ
  pub results : Dict JobResult
  pub result_events : Dict Bool
  pub attempts : Dict ℕ
  pub max_attempts : ℕ
  pub dead_letter : Dict (QueuedJob × String)
  pub accum_pins : Dict Pin
  pub pending_expired : Dict QueuedJob

unfoldable pub init : JobQueue
init = record {
  session_queues = [];
  inflight_by_session = [];
  inflight = [];
  counter = 0;
  seq = [];
  results = [];
  result_events = [];
  attempts = [];
  max_attempts = 3;
  dead_letter = [];
  accum_pins = [];
  pending_expired = [];
}

-- `job.enqueued_at = self._clock()` when it is None
unfoldable pub stamp : ℕ → QueuedJob → QueuedJob
stamp now job = elim job.enqueued_at [ none ↦ record job { enqueued_at = some now } | some t ↦ job ]

unfoldable pub enqueue : ℕ → QueuedJob → JobQueue → JobQueue
unfolding stamp
enqueue now job q =
    let waiting = get_or [] (get job.session_id q.session_queues) in
    record q {
      session_queues = insert job.session_id (waiting ++ stamp now job ∷ []) q.session_queues;
      counter = suc q.counter;
      seq = insert job.job_id q.counter q.seq;
      result_events = set_default job.job_id false q.result_events;
    }

unfoldable pub set_accum_pin : ℕ → String → String → ℕ → JobQueue → JobQueue
set_accum_pin now session_id worker_id ttl q = record q {
  accum_pins = insert session_id (record { owner = worker_id; expires = now + ttl }) q.accum_pins;
}

unfoldable pub clear_accum_pin : String → JobQueue → JobQueue
clear_accum_pin session_id q = record q { accum_pins = remove session_id q.accum_pins }

unfoldable pub dead_letter_jobs : JobQueue → List (QueuedJob × String)
dead_letter_jobs q = values q.dead_letter

-- The argument `model_filter`: None, one name, or a list of names.
pub data ModelFilter : Type 0 where
  any_model : ModelFilter
  one_model : String → ModelFilter
  models : List String → ModelFilter

unfoldable pub normalize_filter : ModelFilter → List String
normalize_filter any_model = []
normalize_filter (one_model m) = m ∷ []
normalize_filter (models ms) = ms

-- `m in filter_set`
unfoldable pub member : String → List String → Bool
member m [] = false
member m (x ∷ xs) = same x m || member m xs

-- `not filter_set or job.required_model is None or job.required_model in filter_set`
unfoldable pub accepts : List String → QueuedJob → Bool
unfolding member
accepts [] job = true
accepts (m ∷ ms) job = elim job.required_model [ none ↦ true | some r ↦ member r (m ∷ ms) ]

waiting_depth : List String → Dict (List QueuedJob) → ℕ
unfolding accepts
waiting_depth fs [] = 0
waiting_depth fs ((s, dq) ∷ d) = length (filter (accepts fs) dq) + waiting_depth fs d

-- `depth += 1 if not filter_set else 0` when the job of a lease is not known
unknown_depth : List String → ℕ
unknown_depth [] = 1
unknown_depth (m ∷ ms) = 0

inflight_depth : List String → Dict QueuedJob → Dict Lease → ℕ
unfolding accepts unknown_depth
inflight_depth fs pending [] = 0
inflight_depth fs pending ((id, l) ∷ d) =
    elim (get id pending) [ none ↦ unknown_depth fs | some job ↦ if accepts fs job then 1 else 0 ]
    + inflight_depth fs pending d

unfoldable pub get_queue_depth : ModelFilter → JobQueue → ℕ
unfolding waiting_depth inflight_depth normalize_filter
get_queue_depth f q =
    waiting_depth (normalize_filter f) q.session_queues
    + inflight_depth (normalize_filter f) q.pending_expired q.inflight
