-- ===== src/Metadata/Jobs.antt =====
-- The jobs of the store, in hatchery/core/backends/metadata/memory.py.
use hatchery_core.Common.{
  ℕ, String, Bool, true, false, ◌&&◌, List, map, Option, none, some, ltb, same, filter, take,
  if◌then◌else◌,
}
use hatchery_core.Common.Dict.{get, insert, get_or, is_some, values}
use hatchery_core.Common.Errors.{ok, raise, value_error, key_error}
use hatchery_core.Common.Sort.{sort_by}
use hatchery_core.Protocols.{JobRecord, JobStatus}
use hatchery_core.Metadata.Fields.{JobField, set_job_field, set_all}
use hatchery_core.Metadata.Sessions.{MetadataStore, Done}

unfoldable pub create_job : JobRecord → MetadataStore → Done
create_job r m =
    if is_some (get r.job_id m.jobs)
    then (m, raise value_error)
    else (record m { jobs = insert r.job_id r m.jobs }, ok tt)

abbrev pub get_job : String → MetadataStore → Option JobRecord
get_job id m = get id m.jobs

unfoldable pub update_job : String → List JobField → MetadataStore → Done
unfolding set_all set_job_field
update_job id fields m = elim (get id m.jobs) [
  | none ↦ (m, raise key_error)
  | some r ↦
      let (r', out) = set_all set_job_field fields r in
      (record m { jobs = insert id r' m.jobs }, out)
]

-- `status in pending_states`
abbrev pub is_pending : JobStatus → Bool
is_pending JobStatus.queued = true
is_pending JobStatus.assigned = true
is_pending JobStatus.running = true
is_pending JobStatus.completed = false
is_pending JobStatus.failed = false
is_pending JobStatus.timed_out = false

abbrev pub older : JobRecord → JobRecord → Bool
older a b = ltb a.created_at b.created_at

abbrev pub is_pending_of : String → JobRecord → Bool
is_pending_of session_id j = same j.session_id session_id && is_pending j.status

unfoldable pub get_pending_jobs : String → MetadataStore → List JobRecord
get_pending_jobs session_id m = sort_by older (filter (is_pending_of session_id) (values m.jobs))

abbrev pub is_completed : JobStatus → Bool
is_completed JobStatus.queued = false
is_completed JobStatus.assigned = false
is_completed JobStatus.running = false
is_completed JobStatus.completed = true
is_completed JobStatus.failed = false
is_completed JobStatus.timed_out = false

pub record StepRow : Type 0 where
  pub job_id : String
  pub operation : String
  pub duration_ms : Option ℕ
  pub tokens : Option ℕ
  pub completed_at : Option ℕ

abbrev pub step_row : JobRecord → StepRow
step_row j = record {
  job_id = j.job_id;
  operation = j.operation;
  duration_ms = j.gpu_time_ms;
  tokens = j.tokens_processed;
  completed_at = j.completed_at;
}

abbrev pub is_step_of : String → JobRecord → Bool
is_step_of session_id j =
    same j.session_id session_id && (is_completed j.status && is_some j.gpu_time_ms)

abbrev pub finished_later : JobRecord → JobRecord → Bool
finished_later a b = ltb (get_or 0 b.completed_at) (get_or 0 a.completed_at)

unfoldable pub get_session_step_history : String → ℕ → MetadataStore → List StepRow
get_session_step_history session_id last_n m =
    map step_row
      (take last_n (sort_by finished_later (filter (is_step_of session_id) (values m.jobs))))
