-- ===== src/Gateway/Jobs.antt =====
-- The helpers of hatchery/core/gateway.py that put a job into the queue, and the hooks of
-- hatchery/core/plugins.py that run around it. Payloads, their MessagePack bytes and the hooks are
-- parameters. A fresh id of the module uuid is an argument.
use hatchery_core.Common.{ℕ, String, List, [], ◌∷◌, Option, none, some, leb, length, if◌then◌else◌}
use hatchery_core.Protocols.{JobRecord, JobStatus, QueuedJob}
use hatchery_core.Metadata.Jobs.{create_job}
use hatchery_core.Objects.{put}
use hatchery_core.Queue.State.{enqueue}
use hatchery_core.Gateway.State.{Settings, answer, Handler, ◌>>◌, on_metadata, text}

-- What the gateway's code takes from outside: MessagePack, UTF-8, and Python's text of a number.
pub record Codec (P : Type 0) : Type 0 where
  pub packb : P → List ℕ
  pub encode : String → List ℕ
  pub str : ℕ → String

-- The registered signers, each a function of the session's id and the payload.
unfoldable pub sign_payload : {P : Type 0} → List (String → P → P) → String → P → P
sign_payload [] session_id payload = payload
sign_payload (signer ∷ signers) session_id payload =
    sign_payload signers session_id (signer session_id payload)

-- The arguments of `_enqueue_job` after the payload.
pub record Routing : Type 0 where
  pub priority : ℕ
  pub preferred_worker : Option String
  pub required_model : Option String
  pub estimated_duration_ms : Option ℕ
  pub required_cp_degree : ℕ

-- `config.objects.put`, whose content type is this by default.
unfoldable pub put_payload : {P : Type 0} → Codec P → ℕ → String → List ℕ → Handler (Unit {0})
put_payload c now key payload b = (
  record b { objects = put c.str now key payload "application/octet-stream" none b.objects },
  answer tt,
)

abbrev pub queued_record : ℕ → String → String → String → String → JobRecord
queued_record now job_id session_id user_id operation = record {
  job_id = job_id;
  session_id = session_id;
  user_id = user_id;
  operation = operation;
  status = JobStatus.queued;
  created_at = now;
  assigned_at = none;
  completed_at = none;
  worker_id = none;
  payload_key = none;
  payload_inline = none;
  result_key = none;
  result_inline = none;
  error_message = none;
  gpu_time_ms = none;
  tokens_processed = none;
}

abbrev pub queued_job : ℕ → String → String → String → String → List ℕ → Routing → QueuedJob
queued_job now job_id session_id user_id operation transport r = record {
  job_id = job_id;
  session_id = session_id;
  operation = operation;
  payload = transport;
  priority = r.priority;
  preferred_worker = r.preferred_worker;
  required_model = r.required_model;
  estimated_duration_ms = r.estimated_duration_ms;
  user_id = some user_id;
  enqueued_at = some now;
  required_cp_degree = r.required_cp_degree;
}

-- The record of the job, then the job in the queue.
unfoldable pub submit : ℕ → JobRecord → QueuedJob → Handler JobRecord
submit now r job = do
  on_metadata (create_job r)
  λ b. (record b { queue = enqueue now job b.queue }, answer r)

abbrev pub payload_key_of : Settings → String → String
payload_key_of config job_id = text (config.jobs_prefix ∷ "/" ∷ job_id ∷ "/payload.msgpack" ∷ [])

-- The arguments: the settings, the signers, the clock and a fresh job id; then the code's own.
unfoldable pub enqueue_job :
    {P : Type 0}
    → Codec P
    → Settings
    → List (String → P → P)
    → ℕ
    → String
    → String
    → String
    → String
    → P
    → Routing
    → Handler JobRecord
unfolding sign_payload put_payload submit
enqueue_job c config signers now job_id session_id user_id operation payload routing =
    let payload_bytes = c.packb (sign_payload signers session_id payload) in
    let r = queued_record now job_id session_id user_id operation in
    if leb (length payload_bytes) config.inline_payload_threshold
    then submit now (record r { payload_inline = some payload_bytes })
        (queued_job now job_id session_id user_id operation payload_bytes routing)
    else (do
      put_payload c now (payload_key_of config job_id) payload_bytes
      submit now (record r { payload_key = some (payload_key_of config job_id) })
          (queued_job now job_id session_id user_id operation
            (c.encode (payload_key_of config job_id)) routing))
