-- ===== src/SqliteQueue/Table.antt =====
-- The tables `queue_jobs`, `queue_seq` and `queue_accum_pins`.
use hatchery_core.Common.{ℕ, String, Bool, true, false, List, [], Option, none, map, if◌then◌else◌}
use hatchery_core.Common.Dict.{Dict}
use hatchery_core.Protocols.{QueuedJob}
use hatchery_core.Queue.State.{Pin}

-- The column `state`
pub data RowState : Type 0 where
  queued inflight completed failed : RowState

abbrev pub is_queued : RowState → Bool
is_queued RowState.queued = true
is_queued RowState.inflight = false
is_queued RowState.completed = false
is_queued RowState.failed = false

abbrev pub is_inflight : RowState → Bool
is_inflight RowState.queued = false
is_inflight RowState.inflight = true
is_inflight RowState.completed = false
is_inflight RowState.failed = false

-- A row: `job_id` to `enqueued_at` are the columns that `enqueue` fills from the job.
pub record Row : Type 0 where
  pub job_id : String
  pub session_id : String
  pub operation : String
  pub payload : List ℕ
  pub priority : ℕ
  pub preferred_worker : Option String
  pub required_model : Option String
  pub estimated_duration_ms : Option ℕ
  pub user_id : Option String
  pub enqueued_at : Option ℕ
  pub seq : ℕ
  pub state : RowState
  pub worker_id : Option String
  pub visibility_deadline : Option ℕ
  pub attempts : ℕ
  pub result : Option (List ℕ)
  pub error : Option String
  pub metrics : Option (Dict String)
  pub completed_at : Option ℕ

pub record SqliteQueue : Type 0 where
  pub rows : List Row
  pub counter : ℕ
  pub pins : Dict Pin
  pub max_attempts : ℕ

-- The tables that `initialize` makes
abbrev pub init : ℕ → SqliteQueue
init max_attempts = record { rows = []; counter = 0; pins = []; max_attempts = max_attempts }

-- `UPDATE ... SET f WHERE p`
abbrev pub update_where : (Row → Bool) → (Row → Row) → List Row → List Row
update_where p f = map (λ r. if p r then f r else r)

-- A column that is NULL is `None` again: the job as the INSERT and `_row_to_job` carry it.
abbrev pub row_to_job : Row → QueuedJob
row_to_job r = record {
  job_id = r.job_id;
  session_id = r.session_id;
  operation = r.operation;
  payload = r.payload;
  priority = r.priority;
  preferred_worker = r.preferred_worker;
  required_model = r.required_model;
  estimated_duration_ms = r.estimated_duration_ms;
  user_id = r.user_id;
  enqueued_at = r.enqueued_at;
  required_cp_degree = 1;
}

-- The row that `enqueue` inserts; the columns that it does not name have their defaults.
abbrev pub new_row : ℕ → QueuedJob → Row
new_row seq job = record {
  job_id = job.job_id;
  session_id = job.session_id;
  operation = job.operation;
  payload = job.payload;
  priority = job.priority;
  preferred_worker = job.preferred_worker;
  required_model = job.required_model;
  estimated_duration_ms = job.estimated_duration_ms;
  user_id = job.user_id;
  enqueued_at = job.enqueued_at;
  seq = seq;
  state = RowState.queued;
  worker_id = none;
  visibility_deadline = none;
  attempts = 0;
  result = none;
  error = none;
  metrics = none;
  completed_at = none;
}
