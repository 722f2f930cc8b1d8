-- ===== src/Gateway/Operations.antt =====
-- `_run_op` of hatchery/core/gateway.py with the hooks of hatchery/core/plugins.py: the part up to the
-- wait for the worker, and the part after it. A hook is a function of its own state, `W`, and may raise.
use hatchery_core.Common.{ℕ, String, true, List, [], ◌∷◌, Option, none, some}
use hatchery_core.Common.Dict.{get, get_or}
use hatchery_core.Common.Errors.{Result, ok, raise}
use hatchery_core.Protocols.{SessionRecord, AuthenticatedUser, JobRecord, JobStatus, JobResult}
use hatchery_core.Metadata.Fields.{JobField}
use hatchery_core.Metadata.Jobs.{update_job}
use hatchery_core.Gateway.State.{
  Backends, Settings, Answer, answer, refuse, crash, of_result, on_metadata,
}
use hatchery_core.Gateway.Ownership.{get_owned_session}
use hatchery_core.Gateway.Jobs.{Codec, Routing, enqueue_job}

-- A hook's call, or several: the hooks' state after it, and what it returns or raises.
abbrev pub Call : Type 0 → Type 0 → Type 0
Call W A = W → W × Answer A

abbrev pub after {ℓ} :
    {W A : Type 0} {B : Type ℓ} → W × Answer A → (A → W → W × Answer B) → W × Answer B
after (w, answer a) f = f a w
after (w, refuse code) f = (w, refuse code)
after (w, crash e) f = (w, crash e)

abbrev pub PreHook : (W C P : Type 0) → Type 0
PreHook W C P = SessionRecord → AuthenticatedUser → String → P → Call W C

abbrev pub PostHook : (W C : Type 0) → Type 0
PostHook W C = C → SessionRecord → AuthenticatedUser → JobResult → Call W (Unit {0})

module _ {W C : Type 0} where
  -- The contexts in the hooks' order.
  unfoldable pub run_pre_op_hooks :
      {P : Type 0}
      → List (PreHook W C P)
      → SessionRecord
      → AuthenticatedUser
      → String
      → P
      → Call W (List C)
  run_pre_op_hooks [] session user operation payload w = (w, answer [])
  run_pre_op_hooks (hook ∷ hooks) session user operation payload w =
      after (hook session user operation payload w) λ ctx w'.
        after (run_pre_op_hooks hooks session user operation payload w')
          λ ctxs w''. (w'', answer (ctx ∷ ctxs))

  -- The last pair first; what is longer of the two lists is left out.
  unfoldable pub run_post_op_hooks :
      List C
      → List (PostHook W C)
      → SessionRecord
      → AuthenticatedUser
      → JobResult
      → Call W (Unit {0})
  run_post_op_hooks [] hooks session user result w = (w, answer tt)
  run_post_op_hooks (ctx ∷ ctxs) [] session user result w = (w, answer tt)
  run_post_op_hooks (ctx ∷ ctxs) (hook ∷ hooks) session user result w =
      after (run_post_op_hooks ctxs hooks session user result w)
        λ _ w'. hook ctx session user result w'

-- `registry` is the optional `session_registry`, with what its `get` returns or raises.
unfoldable pub resolve_preferred_worker :
    Option (String → Result (Option String)) → SessionRecord → Option String
resolve_preferred_worker none session = session.last_worker_id
resolve_preferred_worker (some find) session = elim (find session.session_id) [
  | ok (some worker) ↦ some worker
  | ok none ↦ session.last_worker_id
  | raise e ↦ session.last_worker_id
]

-- What `_run_op` takes from its surroundings: `unpackb` of MessagePack, the empty dictionary, and a
-- number from the text that stands for a metric.
pub record OpSurroundings (W C P : Type 0) : Type 0 where
  pub codec : Codec P
  pub config : Settings
  pub signers : List (String → P → P)
  pub pre_op : List (PreHook W C P)
  pub post_op : List (PostHook W C)
  pub registry : Option (String → Result (Option String))
  pub unpackb : List ℕ → Result P
  pub empty_dict : P
  pub metric : String → ℕ

-- The task that waits: the job, the session's record and the contexts.
pub record Waiting (C : Type 0) : Type 0 where
  pub job : JobRecord
  pub session : SessionRecord
  pub contexts : List C

-- The state of the backends and of the hooks.
abbrev pub Shared : Type 0 → Type 0
Shared W = Backends × W

abbrev pub op_routing : ℕ → Option String → SessionRecord → Routing
op_routing priority preferred session = record {
  priority = priority;
  preferred_worker = preferred;
  required_model = some session.base_model;
  estimated_duration_ms = session.avg_step_duration_ms;
  required_cp_degree = 1;
}

-- A part on one of the two states, and what follows on both.
abbrev pub on_backends {ℓ} :
    {W A : Type 0} {B : Type ℓ}
    → Backends × Answer A
    → W
    → (A → Shared W → Shared W × Answer B)
    → Shared W × Answer B
on_backends (b, answer a) w f = f a (b, w)
on_backends (b, refuse code) w f = ((b, w), refuse code)
on_backends (b, crash e) w f = ((b, w), crash e)

abbrev pub on_hooks {ℓ} :
    {W A : Type 0} {B : Type ℓ}
    → Backends
    → W × Answer A
    → (A → Shared W → Shared W × Answer B)
    → Shared W × Answer B
on_hooks b (w, answer a) f = f a (b, w)
on_hooks b (w, refuse code) f = ((b, w), refuse code)
on_hooks b (w, crash e) f = ((b, w), crash e)

module _ {W C P : Type 0} (env : OpSurroundings W C P) where
  abbrev pub waiting : SessionRecord → List C → JobRecord → Shared W → Shared W × Answer (Waiting C)
  waiting session contexts job s =
      (s, answer (record { job = job; session = session; contexts = contexts }))

  -- The job that the operation enqueues.
  abbrev pub op_job :
      ℕ
      → String
      → AuthenticatedUser
      → String
      → String
      → P
      → ℕ
      → SessionRecord
      → Backends
      → Backends × Answer JobRecord
  op_job now job_id user session_id operation payload priority session b =
      enqueue_job env.codec env.config env.signers now job_id session_id user.user_id operation
        payload (op_routing priority (resolve_preferred_worker env.registry session) session) b

  -- From the hooks on
  unfoldable pub prepare_op :
      ℕ
      → String
      → AuthenticatedUser
      → String
      → String
      → P
      → ℕ
      → SessionRecord
      → Shared W
      → Shared W × Answer (Waiting C)
  unfolding resolve_preferred_worker
  prepare_op now job_id user session_id operation payload priority session (b, w) =
      on_hooks b (run_pre_op_hooks env.pre_op session user operation payload w) λ contexts (b', w').
        on_backends (op_job now job_id user session_id operation payload priority session b') w'
          (waiting session contexts)

  unfoldable pub run_op :
      ℕ
      → String
      → AuthenticatedUser
      → String
      → String
      → P
      → ℕ
      → Shared W
      → Shared W × Answer (Waiting C)
  unfolding prepare_op
  run_op now job_id user session_id operation payload priority (b, w) =
      on_backends (get_owned_session now session_id user.user_id true b) w
        (prepare_op now job_id user session_id operation payload priority)

  -- `(result.metrics or {}).get(name)`
  abbrev pub metric_of : String → JobResult → Option ℕ
  metric_of name result = elim (get name (get_or [] result.metrics)) [
    | none ↦ none
    | some v ↦ some (env.metric v)
  ]

  abbrev pub op_outcome : ℕ → JobResult → List JobField
  op_outcome now result =
      JobField.status result.status
      ∷ JobField.completed_at (some now)
      ∷ JobField.error_message result.error
      ∷ JobField.gpu_time_ms (metric_of "duration_ms" result)
      ∷ JobField.tokens_processed (metric_of "tokens" result)
      ∷ []

  -- `msgpack.unpackb(result.result) if result.result else {}`: empty bytes count as none.
  abbrev pub unpacked : Option (List ℕ) → Result P
  unpacked none = ok env.empty_dict
  unpacked (some []) = ok env.empty_dict
  unpacked (some (x ∷ xs)) = env.unpackb (x ∷ xs)

  -- What the caller gets for the result.
  unfoldable pub op_answer : JobResult → Answer P
  op_answer result = elim result.status [
    | JobStatus.failed ↦ refuse 500
    | JobStatus.timed_out ↦ refuse 504
    | JobStatus.queued ↦ of_result (unpacked result.result)
    | JobStatus.assigned ↦ of_result (unpacked result.result)
    | JobStatus.running ↦ of_result (unpacked result.result)
    | JobStatus.completed ↦ of_result (unpacked result.result)
  ]

  unfoldable pub finish_op :
      ℕ → AuthenticatedUser → Waiting C → JobResult → Shared W → Shared W × Answer P
  unfolding op_answer
  finish_op now user task result (b, w) =
      on_backends (on_metadata (update_job task.job.job_id (op_outcome now result)) b) w
        λ _ (b1, w1).
          on_hooks b1 (run_post_op_hooks task.contexts env.post_op task.session user result w1)
            λ _ s. (s, op_answer result)
