-- ===== src/Gateway/Requests.antt =====
-- The requests of a user to the gateway of hatchery/core/gateway.py: each up to its answer or to its
-- wait for a job, and from the end of the wait on.
use hatchery_core.Common.{ℕ, String}
use hatchery_core.Protocols.{AuthenticatedUser, JobResult}
use hatchery_core.Gateway.State.{Backends, Answer, answer, refuse, crash}
use hatchery_core.Gateway.Routes.{
  get_session, list_sessions, resume_session, delete_session, save_weights, list_checkpoints,
  get_job,
}
use hatchery_core.Gateway.Admission.{
  CreateSessionRequest, Surroundings, create_session, finish_create,
}
use hatchery_core.Gateway.Operations.{OpSurroundings, Shared, Waiting, run_op, finish_op}

-- What a user asks of one session: to see it, to resume or delete it, to save its weights under a
-- name, to list what is saved, or to run an operation on it.
pub data Ask (P : Type 0) : Type 0 where
  show resume delete checkpoints : Ask P
  save : String → Ask P
  run : String → P → ℕ → Ask P

pub data Request (P : Type 0) : Type 0 where
  create : String → CreateSessionRequest → Request P
  sessions : ℕ → ℕ → Request P
  job : String → Request P
  ask : String → Ask P → Request P

-- The answer, less its body.
abbrev pub code_of {ℓ} : {A : Type ℓ} → Answer A → Answer (Unit {0})
code_of (answer a) = answer tt
code_of (refuse code) = refuse code
code_of (crash e) = crash e

abbrev pub replied {ℓ} :
    {W : Type 0} {A : Type ℓ} → W → Backends × Answer A → Shared W × Answer (Unit {0})
replied w (b, a) = ((b, w), code_of a)

module _ {W C P : Type 0} (env : Surroundings P) (ops : OpSurroundings W C P) where
  -- `job_id` is fresh, if a job comes of it.
  unfoldable pub serve_ask :
      ℕ → String → AuthenticatedUser → String → Ask P → Shared W → Shared W × Answer (Unit {0})
  serve_ask now job_id user id Ask.show (b, w) = replied w (get_session now user.user_id id b)
  serve_ask now job_id user id Ask.resume (b, w) = replied w (resume_session now user.user_id id b)
  serve_ask now job_id user id Ask.delete (b, w) =
      replied w (delete_session env.config now user.user_id id b)
  serve_ask now job_id user id Ask.checkpoints (b, w) =
      replied w (list_checkpoints env.config now user.user_id id b)
  serve_ask now job_id user id (Ask.save name) (b, w) =
      replied w (save_weights env.config now user.user_id id name b)
  serve_ask now job_id user id (Ask.run operation payload priority) s =
      let (s', out) = run_op ops now job_id user id operation payload priority s in
      (s', code_of out)

  unfoldable pub serve :
      ℕ → String → AuthenticatedUser → Request P → Shared W → Shared W × Answer (Unit {0})
  unfolding serve_ask
  serve now job_id user (Request.create id req) (b, w) =
      replied w (create_session env now id job_id user req b)
  serve now job_id user (Request.sessions limit offset) (b, w) =
      replied w (list_sessions user.user_id limit offset b)
  serve now job_id user (Request.job id) (b, w) = replied w (get_job user.user_id id b)
  serve now job_id user (Request.ask id a) s = serve_ask now job_id user id a s

-- What the gateway does without a wait: a request comes, or the wait of `create_session` for its job,
-- or of an operation for its own, ends with a result.
pub data Event (C P : Type 0) : Type 0 where
  asked : Request P → Event C P
  created : String → String → String → JobResult → Event C P
  operated : Waiting C → JobResult → Event C P

module _ {W C P : Type 0} (env : Surroundings P) (ops : OpSurroundings W C P) where
  unfoldable pub advance :
      ℕ → String → AuthenticatedUser → Event C P → Shared W → Shared W × Answer (Unit {0})
  unfolding serve
  advance now job_id user (Event.asked req) s = serve env ops now job_id user req s
  advance now job_id user (Event.created id init_job base_model result) (b, w) =
      replied w (finish_create now id init_job base_model result b)
  advance now job_id user (Event.operated task result) s =
      let (s', out) = finish_op ops now user task result s in (s', code_of out)
