-- ===== src/Gateway/Views.antt =====
-- The response bodies of the routes of hatchery/core/gateway.py.
use hatchery_core.Common.{ℕ, String, List, Option}
use hatchery_core.Protocols.{SessionRecord, SessionStatus, JobRecord, JobStatus}

-- `status.value`
abbrev pub session_value : SessionStatus → String
session_value SessionStatus.active = "active"
session_value SessionStatus.suspended = "suspended"
session_value SessionStatus.terminated = "terminated"
session_value SessionStatus.failed = "failed"

pub record SessionView : Type 0 where
  pub session_id : String
  pub base_model : String
  pub rank : Option ℕ
  pub lora_alpha : ℕ
  pub target_modules : List String
  pub total_steps : ℕ
  pub accum_steps : ℕ
  pub created_at : ℕ
  pub last_accessed : ℕ
  pub status : String
  pub avg_step_duration_ms : Option ℕ
  pub total_tokens_processed : ℕ

abbrev pub session_view : SessionRecord → SessionView
session_view r = record {
  session_id = r.session_id;
  base_model = r.base_model;
  rank = r.lora_rank;
  lora_alpha = r.lora_alpha;
  target_modules = r.target_modules;
  total_steps = r.total_steps;
  accum_steps = r.accum_steps;
  created_at = r.created_at;
  last_accessed = r.last_accessed;
  status = session_value r.status;
  avg_step_duration_ms = r.avg_step_duration_ms;
  total_tokens_processed = r.total_tokens_processed;
}

pub record SessionItem : Type 0 where
  pub session_id : String
  pub base_model : String
  pub rank : Option ℕ
  pub total_steps : ℕ
  pub status : String
  pub created_at : ℕ
  pub last_accessed : ℕ

abbrev pub session_item : SessionRecord → SessionItem
session_item r = record {
  session_id = r.session_id;
  base_model = r.base_model;
  rank = r.lora_rank;
  total_steps = r.total_steps;
  status = session_value r.status;
  created_at = r.created_at;
  last_accessed = r.last_accessed;
}

pub record ResumeSessionResponse : Type 0 where
  pub session_id : String
  pub base_model : String
  pub rank : Option ℕ
  pub total_steps : ℕ
  pub accum_steps : ℕ
  pub created_at : ℕ
  pub avg_step_duration_ms : Option ℕ

abbrev pub resume_response : SessionRecord → ResumeSessionResponse
resume_response r = record {
  session_id = r.session_id;
  base_model = r.base_model;
  rank = r.lora_rank;
  total_steps = r.total_steps;
  accum_steps = r.accum_steps;
  created_at = r.created_at;
  avg_step_duration_ms = r.avg_step_duration_ms;
}

abbrev pub job_value : JobStatus → String
job_value JobStatus.queued = "queued"
job_value JobStatus.assigned = "assigned"
job_value JobStatus.running = "running"
job_value JobStatus.completed = "completed"
job_value JobStatus.failed = "failed"
job_value JobStatus.timed_out = "timed_out"

pub record JobView : Type 0 where
  pub job_id : String
  pub session_id : String
  pub operation : String
  pub status : String
  pub created_at : ℕ
  pub completed_at : Option ℕ
  pub gpu_time_ms : Option ℕ
  pub error : Option String

abbrev pub job_view : JobRecord → JobView
job_view r = record {
  job_id = r.job_id;
  session_id = r.session_id;
  operation = r.operation;
  status = job_value r.status;
  created_at = r.created_at;
  completed_at = r.completed_at;
  gpu_time_ms = r.gpu_time_ms;
  error = r.error_message;
}
