-- ===== src/Metadata/Fields.antt =====
-- The keyword arguments of `update_session`, `update_job` and `update_checkpoint` in
-- hatchery/core/backends/metadata/memory.py: for each field of the record an assignment, and the
-- names that are not fields.
use hatchery_core.Common.{ℕ, String, Bool, List, [], ◌∷◌, Option, none, some}
use hatchery_core.Common.Errors.{Result, ok, raise, attribute_error}
use hatchery_core.Protocols.{SessionRecord, SessionStatus, JobRecord, JobStatus, CheckpointRecord}

pub data SessionField : Type 0 where
  session_id : String → SessionField
  user_id : String → SessionField
  base_model : String → SessionField
  lora_rank : Option ℕ → SessionField
  lora_alpha : ℕ → SessionField
  target_modules : List String → SessionField
  total_steps : ℕ → SessionField
  accum_steps : ℕ → SessionField
  created_at : ℕ → SessionField
  last_accessed : ℕ → SessionField
  status : SessionStatus → SessionField
  state_prefix : String → SessionField
  last_worker_id : Option String → SessionField
  avg_step_duration_ms : Option ℕ → SessionField
  total_tokens_processed : ℕ → SessionField
  no_field : String → SessionField

-- `setattr`, for a field of the record
unfoldable pub set_session_field : SessionField → SessionRecord → Option SessionRecord
set_session_field (SessionField.session_id v) r = some (record r { session_id = v })
set_session_field (SessionField.user_id v) r = some (record r { user_id = v })
set_session_field (SessionField.base_model v) r = some (record r { base_model = v })
set_session_field (SessionField.lora_rank v) r = some (record r { lora_rank = v })
set_session_field (SessionField.lora_alpha v) r = some (record r { lora_alpha = v })
set_session_field (SessionField.target_modules v) r = some (record r { target_modules = v })
set_session_field (SessionField.total_steps v) r = some (record r { total_steps = v })
set_session_field (SessionField.accum_steps v) r = some (record r { accum_steps = v })
set_session_field (SessionField.created_at v) r = some (record r { created_at = v })
set_session_field (SessionField.last_accessed v) r = some (record r { last_accessed = v })
set_session_field (SessionField.status v) r = some (record r { status = v })
set_session_field (SessionField.state_prefix v) r = some (record r { state_prefix = v })
set_session_field (SessionField.last_worker_id v) r = some (record r { last_worker_id = v })
set_session_field (SessionField.avg_step_duration_ms v) r =
    some (record r { avg_step_duration_ms = v })
set_session_field (SessionField.total_tokens_processed v) r =
    some (record r { total_tokens_processed = v })
set_session_field (SessionField.no_field k) r = none

pub data JobField : Type 0 where
  job_id : String → JobField
  session_id : String → JobField
  user_id : String → JobField
  operation : String → JobField
  status : JobStatus → JobField
  created_at : ℕ → JobField
  assigned_at : Option ℕ → JobField
  completed_at : Option ℕ → JobField
  worker_id : Option String → JobField
  payload_key : Option String → JobField
  payload_inline : Option (List ℕ) → JobField
  result_key : Option String → JobField
  result_inline : Option (List ℕ) → JobField
  error_message : Option String → JobField
  gpu_time_ms : Option ℕ → JobField
  tokens_processed : Option ℕ → JobField
  no_field : String → JobField

-- `setattr`, for a field of the record
unfoldable pub set_job_field : JobField → JobRecord → Option JobRecord
set_job_field (JobField.job_id v) r = some (record r { job_id = v })
set_job_field (JobField.session_id v) r = some (record r { session_id = v })
set_job_field (JobField.user_id v) r = some (record r { user_id = v })
set_job_field (JobField.operation v) r = some (record r { operation = v })
set_job_field (JobField.status v) r = some (record r { status = v })
set_job_field (JobField.created_at v) r = some (record r { created_at = v })
set_job_field (JobField.assigned_at v) r = some (record r { assigned_at = v })
set_job_field (JobField.completed_at v) r = some (record r { completed_at = v })
set_job_field (JobField.worker_id v) r = some (record r { worker_id = v })
set_job_field (JobField.payload_key v) r = some (record r { payload_key = v })
set_job_field (JobField.payload_inline v) r = some (record r { payload_inline = v })
set_job_field (JobField.result_key v) r = some (record r { result_key = v })
set_job_field (JobField.result_inline v) r = some (record r { result_inline = v })
set_job_field (JobField.error_message v) r = some (record r { error_message = v })
set_job_field (JobField.gpu_time_ms v) r = some (record r { gpu_time_ms = v })
set_job_field (JobField.tokens_processed v) r = some (record r { tokens_processed = v })
set_job_field (JobField.no_field k) r = none

pub data CheckpointField : Type 0 where
  checkpoint_id : String → CheckpointField
  session_id : String → CheckpointField
  user_id : String → CheckpointField
  name : String → CheckpointField
  checkpoint_type : String → CheckpointField
  created_at : ℕ → CheckpointField
  expires_at : Option ℕ → CheckpointField
  size_bytes : ℕ → CheckpointField
  is_public : Bool → CheckpointField
  object_key : String → CheckpointField
  no_field : String → CheckpointField

-- `setattr`, for a field of the record
unfoldable pub set_checkpoint_field : CheckpointField → CheckpointRecord → Option CheckpointRecord
set_checkpoint_field (CheckpointField.checkpoint_id v) r = some (record r { checkpoint_id = v })
set_checkpoint_field (CheckpointField.session_id v) r = some (record r { session_id = v })
set_checkpoint_field (CheckpointField.user_id v) r = some (record r { user_id = v })
set_checkpoint_field (CheckpointField.name v) r = some (record r { name = v })
set_checkpoint_field (CheckpointField.checkpoint_type v) r = some (record r { checkpoint_type = v })
set_checkpoint_field (CheckpointField.created_at v) r = some (record r { created_at = v })
set_checkpoint_field (CheckpointField.expires_at v) r = some (record r { expires_at = v })
set_checkpoint_field (CheckpointField.size_bytes v) r = some (record r { size_bytes = v })
set_checkpoint_field (CheckpointField.is_public v) r = some (record r { is_public = v })
set_checkpoint_field (CheckpointField.object_key v) r = some (record r { object_key = v })
set_checkpoint_field (CheckpointField.no_field k) r = none

module _ {F R : Type 0} (set : F → R → Option R) where
  -- The loop over the keyword arguments: those before an unknown name are already set.
  unfoldable pub set_all : List F → R → R × Result (Unit {0})
  set_all [] r = (r, ok tt)
  set_all (f ∷ fs) r = elim (set f r) [
    | none ↦ (r, raise attribute_error)
    | some r' ↦ set_all fs r'
  ]
