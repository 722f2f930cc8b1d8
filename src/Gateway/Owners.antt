-- ===== src/Gateway/Owners.antt =====
-- The gateway of hatchery/core/gateway.py keeps the users apart.
use hatchery_core.Common.{ℕ, ◌≡◌, ◌≢◌, refl, String, true, some, arith}
use hatchery_core.Common.Dict.{get}
use hatchery_core.Protocols.{SessionRecord, AuthenticatedUser}
use hatchery_core.Gateway.State.{Backends, refuse}
use hatchery_core.Gateway.Ownership.{get_owned_session}
use hatchery_core.Gateway.Routes.{
  get_session, resume_session, delete_session, save_weights, list_checkpoints,
}
use hatchery_core.Gateway.Admission.{Surroundings}
use hatchery_core.Gateway.Operations.{OpSurroundings, run_op}
use hatchery_core.Gateway.Requests.{Ask, serve_ask}

-- The check refuses the session of another user with 403.
get_owned_session-foreign :
    (now : ℕ) (id user_id : String) (b : Backends) (r : SessionRecord)
    → get id b.metadata.sessions ≡ some r
    → r.user_id ≢ user_id
    → get_owned_session now id user_id true b ≡ (b, refuse 403)
unfolding get_owned_session
get_owned_session-foreign now id user_id b r found other = ground arith

module _ {W C P : Type 0} (env : Surroundings P) (ops : OpSurroundings W C P) where
  -- Whatever a user asks of the session of another user, the answer is 403, and no store, no queue and
  -- no hook's state changes.
  pub serve_ask-foreign :
      (now : ℕ) (job_id : String) (user : AuthenticatedUser) (id : String) (a : Ask P)
      (b : Backends) (w : W) (r : SessionRecord)
      → get id b.metadata.sessions ≡ some r
      → r.user_id ≢ user.user_id
      → serve_ask env ops now job_id user id a (b, w) ≡ ((b, w), refuse 403)
  unfolding serve_ask get_session resume_session delete_session save_weights list_checkpoints run_op
  serve_ask-foreign now job_id user id Ask.show b w r found other =
      rw (get_owned_session-foreign now id user.user_id b r found other) refl
  serve_ask-foreign now job_id user id Ask.resume b w r found other = ground arith
  serve_ask-foreign now job_id user id Ask.delete b w r found other =
      rw (get_owned_session-foreign now id user.user_id b r found other) refl
  serve_ask-foreign now job_id user id Ask.checkpoints b w r found other =
      rw (get_owned_session-foreign now id user.user_id b r found other) refl
  serve_ask-foreign now job_id user id (Ask.save name) b w r found other =
      rw (get_owned_session-foreign now id user.user_id b r found other) refl
  serve_ask-foreign now job_id user id (Ask.run operation payload priority) b w r found other =
      rw (get_owned_session-foreign now id user.user_id b r found other) refl
