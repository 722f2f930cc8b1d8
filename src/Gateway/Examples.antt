-- ===== src/Gateway/Examples.antt =====
-- The gateway's theorems at one user with one session. A payload is a list of numbers, which MessagePack
-- writes after a marker.
use Prim.Native.Nat.{min, max}
use hatchery_core.Common.{
  ℕ, ◌+◌, ◌≡◌, ◌≤◌, ◌↔◌, arith, refl, String, false, List, [], ◌∷◌, none, some, apart,
}
use hatchery_core.Common.Dict.{get}
use hatchery_core.Common.Errors.{Result, ok}
use hatchery_core.Protocols.{
  SessionRecord, SessionStatus, AuthenticatedUser, JobRecord, JobResult, JobStatus, QueuedJob,
}
use hatchery_core.Queue.State as Queues
use hatchery_core.Auth.{new_user, default_options}
use hatchery_core.Worker.Payload.{is_msgpack}
use hatchery_core.Gateway.State.{Backends, Settings, Answer, refuse}
use hatchery_core.Gateway.Jobs.{Codec, Routing, enqueue_job, sign_payload}
use hatchery_core.Gateway.Admission.{Surroundings, CreateSessionRequest, create_session}
use hatchery_core.Gateway.Operations.{OpSurroundings}
use hatchery_core.Gateway.Requests.{Ask, Event, serve_ask, advance}
use hatchery_core.Gateway.Delivery.{IsDelivered, enqueue_job-IsDelivered}
use hatchery_core.Gateway.Owners.{serve_ask-foreign}
use hatchery_core.Gateway.Events.{EventChange, advance-Change}
use hatchery_core.Gateway.Quotas.{active_sessions, create_session-quota}
use hatchery_core.Gateway.Refusals.{create_session-429}

abbrev session : SessionRecord
session = record {
  session_id = "s1";
  user_id = "ann";
  base_model = "m";
  lora_rank = some 16;
  lora_alpha = 32;
  target_modules = [];
  total_steps = 0;
  accum_steps = 0;
  created_at = 1;
  last_accessed = 1;
  status = SessionStatus.active;
  state_prefix = "";
  last_worker_id = none;
  avg_step_duration_ms = none;
  total_tokens_processed = 0;
}

abbrev backends : Backends
unfolding Queues.init
backends = record {
  metadata = record { sessions = ("s1", session) ∷ []; jobs = []; checkpoints = [] };
  objects = record { blobs = []; metadata = [] };
  queue = Queues.init;
}

abbrev ann : AuthenticatedUser
ann = new_user "ann" default_options

abbrev bob : AuthenticatedUser
bob = new_user "bob" default_options

abbrev config : Settings
config = record { sessions_prefix = "sessions"; jobs_prefix = "jobs"; inline_payload_threshold = 2 }

abbrev codec : Codec (List ℕ)
codec = record { packb = λ p. 128 ∷ p; encode = λ key. 106 ∷ []; str = λ n. "" }

abbrev unpackb : List ℕ → Result (List ℕ)
unpackb [] = ok []
unpackb (x ∷ xs) = ok xs

abbrev signers : List (String → List ℕ → List ℕ)
signers = (λ id p. 9 ∷ p) ∷ []

abbrev routing : Routing
routing = record {
  priority = 0;
  preferred_worker = none;
  required_model = some "m";
  estimated_duration_ms = none;
  required_cp_degree = 1;
}

abbrev env : Surroundings (List ℕ)
env = record {
  codec = codec;
  config = config;
  signers = signers;
  init_payload = λ i. [];
  int = λ s. none;
  normalize = λ s. s;
  lower = λ s. s;
  model_type = λ s. none;
  workers = [];
}

abbrev ops : OpSurroundings ℕ (Unit {0}) (List ℕ)
ops = record {
  codec = codec;
  config = config;
  signers = signers;
  pre_op = (λ session user operation payload w. (w + 1, Answer.answer tt)) ∷ [];
  post_op = [];
  registry = none;
  unpackb = unpackb;
  empty_dict = [];
  metric = λ s. 0;
}

-- The payload has four bytes with the signer's and the marker, so it goes to the object store.
enqueue_job-IsDelivered_example :
    (r : JobRecord) × (job : QueuedJob) × IsDelivered codec unpackb []
      (λ bytes. ok "jobs/j1/payload.msgpack")
      5
      (9 ∷ 1 ∷ 2 ∷ [])
      backends
      (enqueue_job codec config signers 5 "j1" "s1" "ann" "forward" (1 ∷ 2 ∷ []) routing backends)
      r
      job
unfolding sign_payload is_msgpack get backends
enqueue_job-IsDelivered_example =
    enqueue_job-IsDelivered codec unpackb [] (λ bytes. ok "jobs/j1/payload.msgpack") config signers
      5 "j1" "s1" "ann" "forward" (1 ∷ 2 ∷ []) routing backends refl refl refl refl refl

serve_ask-foreign_example :
    serve_ask env ops 5 "j1" bob "s1" Ask.delete (backends, 0) ≡ ((backends, 0), refuse 403)
unfolding get backends hatchery_core.Common.name_eq
serve_ask-foreign_example =
    serve_ask-foreign env ops 5 "j1" bob "s1" Ask.delete backends 0 session refl
      (apart "ann" "bob" refl)

-- The job of `create_session` is never taken, and the session was terminated during the wait.
abbrev timed_out : JobResult
timed_out = record {
  job_id = "j1";
  status = JobStatus.timed_out;
  result = none;
  error = none;
  metrics = none;
}

abbrev ended_wait : Event (Unit {0}) (List ℕ)
ended_wait = Event.created "s1" "j1" "m" timed_out

advance-Change_example :
    (r' : SessionRecord) × (get "s1"
        (advance env ops 5 "j2" ann ended_wait (backends, 0)).0.0.metadata.sessions
      ≡ some r')
    × EventChange "ann" "s1" ended_wait session r'
unfolding get backends hatchery_core.Common.name_eq
advance-Change_example = advance-Change env ops 5 ann "j2" "s1" session backends 0 ended_wait refl

abbrev request : CreateSessionRequest
request = record {
  base_model = "m";
  rank = some 8;
  lora_alpha = none;
  target_modules = some ("q_proj" ∷ []);
  use_rslora = false;
  init_lora_weights = "default";
  lora_dropout = "0.0";
}

create_session-429_example :
    ((create_session env 5 "s2" "j1" ann request backends).1 ≡ refuse 429)
    ↔ (5 ≤ min 100 (active_sessions "ann" backends.metadata.sessions))
create_session-429_example = create_session-429 env 5 ann "s2" "j1" request backends

create_session-quota_example :
    active_sessions "ann" (create_session env 5 "s2" "j2" ann request backends).0.metadata.sessions
    ≤ max 5 (active_sessions "ann" backends.metadata.sessions)
create_session-quota_example =
    create_session-quota env 5 ann "s2" "j2" request backends (omega arith)
