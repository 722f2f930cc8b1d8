-- ===== src/Metadata/Examples.antt =====
-- The metadata store's theorems at a small store.
use hatchery_core.Common.{
  In, ◌↔◌, ℕ, ◌≡◌, refl, String, [], ◌∷◌, ◌++◌, none, some, false, arith, name_eq, filter, length,
  apart,
}
use hatchery_core.Common.Dict.{get, get_or, values}
use hatchery_core.Common.Errors.{ok}
use hatchery_core.Common.Sort.{sort_by}
use hatchery_core.Protocols.{SessionRecord, SessionStatus, JobRecord, JobStatus, CheckpointRecord}
use hatchery_core.Metadata.Fields.{SessionField, CheckpointField, set_session_field, set_all}
use hatchery_core.Metadata.Sessions.{
  MetadataStore, update_session, list_sessions, is_listed, get_active_session_count_by_worker,
}
use hatchery_core.Metadata.Checkpoints.{
  create_checkpoint, get_checkpoint, update_checkpoint, delete_checkpoint,
}
use hatchery_core.Metadata.Listing.{IsOf, HasStatus, IsNewestFirst, list_sessions-matching}
use hatchery_core.Metadata.Counts.{is_active_on, get_active_session_count_by_worker-length}
use hatchery_core.Metadata.Updates.{checkpoint_isolation}

abbrev session : String → ℕ → SessionRecord
session id created_at = record {
  session_id = id;
  user_id = "u";
  base_model = "m";
  lora_rank = some 16;
  lora_alpha = 32;
  target_modules = [];
  total_steps = 0;
  accum_steps = 0;
  created_at = created_at;
  last_accessed = created_at;
  status = SessionStatus.active;
  state_prefix = "";
  last_worker_id = some "w";
  avg_step_duration_ms = none;
  total_tokens_processed = 0;
}

abbrev job : String → JobStatus → ℕ → JobRecord
job id status created_at = record {
  job_id = id;
  session_id = "s1";
  user_id = "u";
  operation = "optim_step";
  status = status;
  created_at = created_at;
  assigned_at = none;
  completed_at = none;
  worker_id = none;
  payload_key = none;
  payload_inline = none;
  result_key = none;
  result_inline = none;
  error_message = none;
  gpu_time_ms = some 7;
  tokens_processed = none;
}

abbrev checkpoint : CheckpointRecord
checkpoint = record {
  checkpoint_id = "c1";
  session_id = "s1";
  user_id = "u";
  name = "first";
  checkpoint_type = "training";
  created_at = 3;
  expires_at = none;
  size_bytes = 0;
  is_public = false;
  object_key = "";
}

abbrev small : MetadataStore
small = record {
  sessions = ("s1", session "s1" 1) ∷ ("s2", session "s2" 2) ∷ [];
  jobs = ("j1", job "j1" JobStatus.completed 1) ∷ ("j2", job "j2" JobStatus.queued 2) ∷ [];
  checkpoints = ("c1", checkpoint) ∷ [];
}

list_sessions-run :
    list_sessions (some "u") none 1 0 small ++ list_sessions (some "u") none 1 1 small
    ≡ session "s2" 2 ∷ session "s1" 1 ∷ []
unfolding list_sessions is_listed sort_by name_eq
list_sessions-run = refl

list_sessions-matching_example :
    ((r : SessionRecord)
      → In r (list_sessions (some "u") (some SessionStatus.active) 100 0 small) ↔ (
          In r (values small.sessions)
          × IsOf (some "u") r
          × HasStatus (some SessionStatus.active) r))
    × IsNewestFirst (list_sessions (some "u") (some SessionStatus.active) 100 0 small)
list_sessions-matching_example =
    list_sessions-matching (some "u") (some SessionStatus.active) 100 small (omega arith)

get_active_session_count_by_worker-length_example :
    get_or 0 (get "w" (get_active_session_count_by_worker small))
    ≡ length (filter (is_active_on "w") (values small.sessions))
get_active_session_count_by_worker-length_example =
    get_active_session_count_by_worker-length "w" small

two_fields-run :
    (update_session "s1" (SessionField.total_steps 4 ∷ SessionField.accum_steps 2 ∷ []) small).1
    ≡ ok tt
unfolding update_session set_all set_session_field get name_eq
two_fields-run = refl

checkpoint_isolation_example :
    (get_checkpoint "s2" "c1" small ≡ none)
    × (get "c1"
          (update_checkpoint "s2" "c1" (CheckpointField.size_bytes 5 ∷ []) small).0.checkpoints
        ≡ some checkpoint)
    × (get "c1" (delete_checkpoint "s2" "c1" small).checkpoints ≡ some checkpoint)
    × (get "c1" (create_checkpoint checkpoint small).0.checkpoints ≡ some checkpoint)
unfolding get name_eq
checkpoint_isolation_example =
    checkpoint_isolation "s2" "c1" "c1" checkpoint checkpoint (CheckpointField.size_bytes 5 ∷ [])
      small refl (apart "s1" "s2" refl)
