-- ===== src/Gateway/Admission.antt =====
-- The route `create_session` of hatchery/core/gateway.py: the part up to the wait for the worker, and the
-- part after it.
use hatchery_core.Common.{
  ℕ, String, Bool, true, false, not, ◌&&◌, ◌||◌, List, [], ◌∷◌, Option, none, some, length, leb,
  ltb, same, if◌then◌else◌, zero, suc,
}
use hatchery_core.Common.Dict.{get_or}
use hatchery_core.Common.Int.{ℤ}
use hatchery_core.Protocols.{
  SessionRecord, SessionStatus, AuthenticatedUser, WorkerInfo, JobRecord, JobResult, JobStatus,
}
use hatchery_core.Lora.{target_modules_for}
use hatchery_core.ModelIds.Ids.{ResolvedModel, resolve_model_id}
use hatchery_core.Metadata.Fields.{SessionField, JobField}
use hatchery_core.Metadata.Sessions as Sessions
use hatchery_core.Metadata.Jobs.{update_job, is_completed}
use hatchery_core.Queue.State.{member}
use hatchery_core.Gateway.State.{Settings, answer, refuse, Handler, ◌>>◌, done, on_metadata, text}
use hatchery_core.Gateway.Jobs.{Codec, Routing, enqueue_job}

-- The dropout is a float between 0 and 1, which is only passed on: a text here. The bounds of `rank`,
-- 1 and 256, are checked before the handler runs.
pub record CreateSessionRequest : Type 0 where
  pub base_model : String
  pub rank : Option ℕ
  pub lora_alpha : Option ℕ
  pub target_modules : Option (List String)
  pub use_rslora : Bool
  pub init_lora_weights : String
  pub lora_dropout : String

pub record CreateSessionResponse : Type 0 where
  pub session_id : String
  pub base_model : String
  pub status : String

-- The payload of `init_session`.
pub record InitSession : Type 0 where
  pub base_model : String
  pub rank : Option ℕ
  pub lora_alpha : ℕ
  pub target_modules : List String
  pub use_rslora : Bool
  pub init_lora_weights : String
  pub lora_dropout : String

-- What the route takes from its surroundings: the codec, the settings, the signers, the payload as a
-- dictionary, the functions that model ids and target modules need, and the registered workers.
pub record Surroundings (P : Type 0) : Type 0 where
  pub codec : Codec P
  pub config : Settings
  pub signers : List (String → P → P)
  pub init_payload : InitSession → P
  pub int : String → Option ℤ
  pub normalize : String → String
  pub lower : String → String
  pub model_type : String → Option String
  pub workers : List WorkerInfo

-- The three tests in front of the route, in their order.
unfoldable pub check_quotas : AuthenticatedUser → CreateSessionRequest → Handler (Unit {0})
check_quotas user req b =
    let existing =
      Sessions.list_sessions (some user.user_id) (some SessionStatus.active) 100 0 b.metadata in
    if leb user.max_concurrent_sessions (length existing)
    then (b, refuse 429)
    else if elim req.rank [ none ↦ false | some r ↦ ltb user.max_rank r ]
    then (b, refuse 403)
    else if elim user.allowed_models [ none ↦ false | some l ↦ not (member req.base_model l) ]
    then (b, refuse 403)
    else (b, answer tt)

-- `req.lora_alpha or (req.rank if req.rank is not None else 0)`: a 0 counts as not given.
abbrev pub alpha_of : Option ℕ → Option ℕ → ℕ
alpha_of none rank = get_or 0 rank
alpha_of (some zero) rank = get_or 0 rank
alpha_of (some (suc n)) rank = suc n

-- `w.status not in ("offline", "draining") and base_model in w.loaded_models`
abbrev pub serves : String → WorkerInfo → Bool
serves base_model w =
    not (same w.status "offline" || same w.status "draining") && member base_model w.loaded_models

unfoldable pub any_serves : String → List WorkerInfo → Bool
any_serves base_model [] = false
any_serves base_model (w ∷ ws) = serves base_model w || any_serves base_model ws

-- A session whose model no registered worker serves is marked as failed; without workers there is no test.
unfoldable pub check_workers : String → String → List WorkerInfo → Handler (Unit {0})
unfolding any_serves
check_workers session_id base_model [] b = (b, answer tt)
check_workers session_id base_model (w ∷ ws) b =
    if any_serves base_model (w ∷ ws)
    then (b, answer tt)
    else (do
      on_metadata
          (Sessions.update_session session_id (SessionField.status SessionStatus.failed ∷ []))
      λ b'. (b', refuse 503))
        b

module _ {P : Type 0} (env : Surroundings P) where
  abbrev pub modules_of : CreateSessionRequest → String → List String
  modules_of req base_model = elim req.target_modules [
    | some l ↦ l
    | none ↦ target_modules_for env.normalize env.lower env.model_type base_model true true false
  ]

  -- The new record; `now` is the clock's reading.
  abbrev pub new_session :
      ℕ → String → AuthenticatedUser → CreateSessionRequest → String → SessionRecord
  new_session now session_id user req base_model = record {
    session_id = session_id;
    user_id = user.user_id;
    base_model = base_model;
    lora_rank = req.rank;
    lora_alpha = alpha_of req.lora_alpha req.rank;
    target_modules = modules_of req base_model;
    total_steps = 0;
    accum_steps = 0;
    created_at = now;
    last_accessed = now;
    status = SessionStatus.active;
    state_prefix = text (env.config.sessions_prefix ∷ "/" ∷ session_id ∷ "/live_state" ∷ []);
    last_worker_id = none;
    avg_step_duration_ms = none;
    total_tokens_processed = 0;
  }

  abbrev pub init_session : CreateSessionRequest → String → InitSession
  init_session req base_model = record {
    base_model = base_model;
    rank = req.rank;
    lora_alpha = alpha_of req.lora_alpha req.rank;
    target_modules = modules_of req base_model;
    use_rslora = req.use_rslora;
    init_lora_weights = req.init_lora_weights;
    lora_dropout = req.lora_dropout;
  }

  abbrev pub init_routing : ResolvedModel → Routing
  init_routing resolved = record {
    priority = 10;
    preferred_worker = none;
    required_model = some resolved.base_model;
    estimated_duration_ms = none;
    required_cp_degree = resolved.required_cp_degree;
  }

  -- Once the record is stored: the test of the workers, and the job.
  unfoldable pub start_session :
      ℕ
      → String
      → String
      → AuthenticatedUser
      → CreateSessionRequest
      → ResolvedModel
      → Handler JobRecord
  unfolding check_workers
  start_session now session_id job_id user req resolved = do
    check_workers session_id resolved.base_model env.workers
    enqueue_job env.codec env.config env.signers now job_id session_id user.user_id "init_session"
        (env.init_payload (init_session req resolved.base_model)) (init_routing resolved)

  -- Once the quotas are kept.
  unfoldable pub admit :
      ℕ
      → String
      → String
      → AuthenticatedUser
      → CreateSessionRequest
      → ResolvedModel
      → Handler JobRecord
  unfolding start_session
  admit now session_id job_id user req resolved = do
    on_metadata (Sessions.create_session (new_session now session_id user req resolved.base_model))
    start_session now session_id job_id user req resolved

  -- Up to the wait; the session's id and the job's are fresh.
  unfoldable pub create_session :
      ℕ → String → String → AuthenticatedUser → CreateSessionRequest → Handler JobRecord
  unfolding check_quotas admit
  create_session now session_id job_id user req = do
    check_quotas user req
    admit now session_id job_id user req (resolve_model_id env.int req.base_model)

abbrev pub init_outcome : ℕ → JobResult → List JobField
init_outcome now result =
    JobField.status result.status
    ∷ JobField.completed_at (some now)
    ∷ JobField.error_message result.error
    ∷ []

unfoldable pub answer_created : String → String → JobStatus → Handler CreateSessionResponse
answer_created session_id base_model status =
    if is_completed status
    then done (record { session_id = session_id; base_model = base_model; status = "active" })
    else (do
      on_metadata
          (Sessions.update_session session_id (SessionField.status SessionStatus.failed ∷ []))
      λ b. (b, refuse 500))

-- After the wait, with the result that it returns.
unfoldable pub finish_create :
    ℕ → String → String → String → JobResult → Handler CreateSessionResponse
unfolding answer_created
finish_create now session_id job_id base_model result = do
  on_metadata (update_job job_id (init_outcome now result))
  answer_created session_id base_model result.status
