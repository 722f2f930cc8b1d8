-- ===== src/Protocols.antt =====
-- hatchery/core/protocols.py: the records that the gateway, the queue, the metadata store and the
-- workers exchange. Times are natural numbers of milliseconds; byte strings are lists of bytes.
use hatchery_core.Common.{ℕ, String, Bool, List, Option}
use hatchery_core.Common.Dict.{Dict}

pub data SessionStatus : Type 0 where
  active suspended terminated failed : SessionStatus

pub data JobStatus : Type 0 where
  queued assigned running completed failed timed_out : JobStatus

pub record SessionRecord : Type 0 where
  pub session_id : String
  pub user_id : String
  pub base_model : String
  pub lora_rank : Option ℕ
  pub lora_alpha : ℕ
  pub target_modules : List String
  pub total_steps : ℕ
  pub accum_steps : ℕ
  pub created_at : ℕ
  pub last_accessed : ℕ
  pub status : SessionStatus
  pub state_prefix : String
  pub last_worker_id : Option String
  pub avg_step_duration_ms : Option ℕ
  pub total_tokens_processed : ℕ

pub record JobRecord : Type 0 where
  pub job_id : String
  pub session_id : String
  pub user_id : String
  pub operation : String
  pub status : JobStatus
  pub created_at : ℕ
  pub assigned_at : Option ℕ
  pub completed_at : Option ℕ
  pub worker_id : Option String
  pub payload_key : Option String
  pub payload_inline : Option (List ℕ)
  pub result_key : Option String
  pub result_inline : Option (List ℕ)
  pub error_message : Option String
  pub gpu_time_ms : Option ℕ
  pub tokens_processed : Option ℕ

pub record QueuedJob : Type 0 where
  pub job_id : String
  pub session_id : String
  pub operation : String
  pub payload : List ℕ
  pub priority : ℕ
  pub preferred_worker : Option String
  pub required_model : Option String
  pub estimated_duration_ms : Option ℕ
  pub user_id : Option String
  pub enqueued_at : Option ℕ
  pub required_cp_degree : ℕ

pub record JobResult : Type 0 where
  pub job_id : String
  pub status : JobStatus
  pub result : Option (List ℕ)
  pub error : Option String
  pub metrics : Option (Dict String)

pub record CheckpointRecord : Type 0 where
  pub checkpoint_id : String
  pub session_id : String
  pub user_id : String
  pub name : String
  pub checkpoint_type : String
  pub created_at : ℕ
  pub expires_at : Option ℕ
  pub size_bytes : ℕ
  pub is_public : Bool
  pub object_key : String

pub record AuthenticatedUser : Type 0 where
  pub user_id : String
  pub email : Option String
  pub org_id : Option String
  pub roles : List String
  pub tier : String
  pub max_concurrent_sessions : ℕ
  pub max_rank : ℕ
  pub allowed_models : Option (List String)

-- `runtime_optimizations` holds any values; they are texts here, and nothing reads them.
pub record WorkerInfo : Type 0 where
  pub worker_id : String
  pub provider : String
  pub gpu_type : String
  pub gpu_count : ℕ
  pub loaded_models : List String
  pub status : String
  pub max_concurrent_loras : ℕ
  pub vram_free_mb : ℕ
  pub region : Option String
  pub spot : Bool
  pub last_heartbeat : Option ℕ
  pub cp_degree : ℕ
  pub runtime_optimizations : Dict String
