-- ===== src/Worker/Jobs.antt =====
-- How a worker of one rank runs a job that it took and answers it, in hatchery/core/worker.py. The
-- handlers of the operations, MessagePack, the hooks that verify a payload and the text of an
-- exception are parameters.
use Prim.Native.String.{◌++◌ as append}
use mathlib.Core.Option as Option
use hatchery_core.Common.{
  ℕ, String, Bool, List, [], ◌∷◌, Option, none, some, same, ltb, if◌then◌else◌,
}
use hatchery_core.Common.Dict.{Dict}
use hatchery_core.Common.Errors.{Error, Result, ok, raise}
use hatchery_core.Protocols.{QueuedJob, JobResult, JobStatus}
use hatchery_core.Metadata.Fields.{SessionField}
use hatchery_core.Metadata.Sessions.{MetadataStore, update_session}
use hatchery_core.Metadata.Jobs.{is_completed}
use hatchery_core.Objects.{ObjectStore, merge}
use hatchery_core.Queue.State.{JobQueue, member, set_accum_pin, clear_accum_pin}
use hatchery_core.Queue.Settle.{ack, nack, failed_result}
use hatchery_core.Registry.{SessionRegistry, set_worker}
use hatchery_core.Scheduler.{StepCadenceTracker, record_step, avg_duration_ms}
use hatchery_core.Worker.Payload.{read_payload}

-- A value, or an exception with its text.
pub data Outcome (A : Type 0) : Type 0 where
  returned : A → Outcome A
  raised : String → Outcome A

-- What the handlers read and write: the stores, and the model with its caches, `W`.
pub record Stores (W : Type 0) : Type 0 where
  pub metadata : MetadataStore
  pub objects : ObjectStore
  pub model : W

-- The parameters. `handle` is the handler of an operation, with its result packed and its metrics;
-- `str` is the text of a number, as a metric.
pub record Runtime (W P : Type 0) : Type 0 where
  pub unpackb : List ℕ → Result P
  pub empty_dict : P
  pub decode : List ℕ → Result String
  pub is_dict : P → Bool
  pub verifiers : List (QueuedJob → P → Outcome P)
  pub handle : String → String → P → Stores W → Stores W × Outcome (List ℕ × Dict String)
  pub describe : Error → String
  pub str : ℕ → String

-- `verify_payload` of hatchery/core/plugins.py; a verifier may change the payload or raise.
unfoldable pub verify_payload :
    {P : Type 0} → List (QueuedJob → P → Outcome P) → QueuedJob → P → Outcome P
verify_payload [] job payload = Outcome.returned payload
verify_payload (verifier ∷ verifiers) job payload = elim (verifier job payload) [
  | Outcome.raised text ↦ Outcome.raised text
  | Outcome.returned payload' ↦ verify_payload verifiers job payload'
]

abbrev pub handlers : List String
handlers =
    "init_session" ∷ "forward_backward" ∷ "forward_only" ∷ "forward_custom_step1"
    ∷ "forward_custom_step2" ∷ "optim_step" ∷ "save_weights" ∷ "load_weights" ∷ "sample"
    ∷ "compute_logprobs" ∷ "forward_logprobs" ∷ []

module _ {W P : Type 0} (env : Runtime W P) where
  abbrev pub completed_result : ℕ → QueuedJob → List ℕ × Dict String → JobResult
  completed_result duration job (packed, extra_metrics) = record {
    job_id = job.job_id;
    status = JobStatus.completed;
    result = some packed;
    error = none;
    metrics = some (merge (("duration_ms", env.str duration) ∷ []) extra_metrics);
  }

  -- The look-up of the handler, and its call; `duration` is what the clock measures of it.
  unfoldable pub dispatch : ℕ → QueuedJob → P → Stores W → Stores W × Outcome JobResult
  dispatch duration job payload s =
      if member job.operation handlers
      then (let (s', out) = env.handle job.operation job.session_id payload s in
          elim out [
            | Outcome.returned done ↦ (s', Outcome.returned (completed_result duration job done))
            | Outcome.raised text ↦ (s', Outcome.raised text)
          ])
      else (
        s,
        Outcome.returned (failed_result job.job_id (append "Unknown operation: " job.operation)),
      )

  -- Only a dictionary is verified.
  abbrev pub verified : QueuedJob → P → Outcome P
  verified job payload =
      if env.is_dict payload
      then verify_payload env.verifiers job payload
      else Outcome.returned payload

  unfoldable pub execute_job : ℕ → QueuedJob → Stores W → Stores W × Outcome JobResult
  unfolding verify_payload dispatch
  execute_job duration job s =
      elim (read_payload env.unpackb env.empty_dict env.decode job.payload s.objects) [
        | raise e ↦ (s, Outcome.raised (env.describe e))
        | ok payload ↦ elim (verified job payload) [
          | Outcome.raised text ↦ (s, Outcome.returned (failed_result job.job_id text))
          | Outcome.returned payload' ↦ dispatch duration job payload' s
        ]
      ]

abbrev pub accum_pinning_ops : List String
accum_pinning_ops = "forward_backward" ∷ "forward_custom_step2" ∷ []

-- The default of `ttl_s`, in milliseconds
abbrev pub pin_ttl : ℕ
pin_ttl = 600000

unfoldable pub update_accum_pin : ℕ → String → QueuedJob → JobQueue → JobQueue
update_accum_pin now worker_id job q =
    if member job.operation accum_pinning_ops
    then set_accum_pin now job.session_id worker_id pin_ttl q
    else if same job.operation "optim_step"
    then clear_accum_pin job.session_id q
    else q

-- The worker, and what it shares with the others; the registry is optional.
pub record WorkerState (W : Type 0) : Type 0 where
  pub worker_id : String
  pub stores : Stores W
  pub queue : JobQueue
  pub cadence : StepCadenceTracker
  pub registry : Option SessionRegistry

-- The two calls of the queue after a completed job, each awaited: the pin before the acknowledgement.
unfoldable pub answer_steps : ℕ → String → QueuedJob → JobResult → List (JobQueue → JobQueue)
unfolding update_accum_pin
answer_steps now worker_id job result =
    update_accum_pin now worker_id job ∷ ack job.job_id result ∷ []

-- Calls in their order; `between` is what the other tasks do to the queue after each.
unfoldable pub run_steps : (JobQueue → JobQueue) → List (JobQueue → JobQueue) → JobQueue → JobQueue
run_steps between [] q = q
run_steps between (f ∷ []) q = f q
run_steps between (f ∷ g ∷ fs) q = run_steps between (g ∷ fs) (between (f q))

module _ {W : Type 0} where
  -- The session's record: KeyError is suppressed, and nothing else can be raised.
  abbrev pub note_session : String → QueuedJob → StepCadenceTracker → Stores W → Stores W
  note_session worker_id job cadence s = record s {
    metadata =
        (update_session job.session_id
          (SessionField.last_worker_id (some worker_id)
            ∷ SessionField.avg_step_duration_ms (avg_duration_ms job.session_id cadence)
            ∷ [])
          s.metadata).0;
  }

  -- `duration_ms` is the time since the job was taken.
  unfoldable pub ack_completed_job :
      ℕ → ℕ → (JobQueue → JobQueue) → QueuedJob → JobResult → WorkerState W → WorkerState W
  unfolding answer_steps run_steps
  ack_completed_job now duration_ms between job result w =
      let cadence = record_step now job.session_id job.operation duration_ms w.cadence in
      record w {
        queue = run_steps between (answer_steps now w.worker_id job result) w.queue;
        cadence = cadence;
        stores = note_session w.worker_id job cadence w.stores;
        registry = Option.map (set_worker now job.session_id w.worker_id) w.registry;
      }

  -- What `_process_one` does with what `_execute_job` returns or raises.
  unfoldable pub settle :
      ℕ → ℕ → (JobQueue → JobQueue) → QueuedJob → Outcome JobResult → WorkerState W → WorkerState W
  unfolding ack_completed_job
  settle now duration_ms between job (Outcome.raised text) w = record w {
    queue = nack job.job_id text w.queue;
  }
  settle now duration_ms between job (Outcome.returned result) w =
      if is_completed result.status
      then ack_completed_job now duration_ms between job result w
      else record w { queue = ack job.job_id result w.queue }

-- While the handler runs, the queue goes on without this worker: `later` is what the other tasks make
-- of it, and `between` what they make of it between two calls of the answer. The two durations are that of the handler and that of the whole.
unfoldable pub process_one :
    {W P : Type 0}
    → Runtime W P
    → ℕ
    → ℕ
    → ℕ
    → (JobQueue → JobQueue)
    → (JobQueue → JobQueue)
    → QueuedJob
    → WorkerState W
    → WorkerState W
unfolding execute_job settle
process_one env now handler_ms job_ms later between job w =
    let (stores, out) = execute_job env handler_ms job w.stores in
    settle now job_ms between job out (record w { stores = stores; queue = later w.queue })

-- The end of a round of `run`: a job that needs more context ranks than the worker has is refused.
unfoldable pub run_job :
    {W P : Type 0}
    → Runtime W P
    → ℕ
    → ℕ
    → ℕ
    → ℕ
    → (JobQueue → JobQueue)
    → (JobQueue → JobQueue)
    → QueuedJob
    → WorkerState W
    → WorkerState W
unfolding process_one
run_job env cp_degree now handler_ms job_ms later between job w =
    if ltb cp_degree job.required_cp_degree
    then record w {
      queue =
          nack job.job_id
            (append "Worker cp_degree=" (
              append (env.str cp_degree)
                (append ", job requires " (env.str job.required_cp_degree))))
            w.queue;
    }
    else process_one env now handler_ms job_ms later between job w
