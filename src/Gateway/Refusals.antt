-- ===== src/Gateway/Refusals.antt =====
-- When `create_session` of hatchery/core/gateway.py refuses a request with 429.
use Prim.Native.Nat.{min}
use hatchery_core.Common.{
  ℕ, ◌≤◌, ◌≡◌, ◌↔◌, refl, String, Bool, true, false, List, [], ◌∷◌, ◌==◌, arith, Option-cases,
  Bool-cases, inl, inr, ap,
}
use hatchery_core.Common.Dict.{get}
use hatchery_core.Protocols.{AuthenticatedUser, WorkerInfo, SessionStatus}
use hatchery_core.Metadata.Fields.{SessionField, set_all, set_session_field}
use hatchery_core.Metadata.Sessions as Sessions
use hatchery_core.Metadata.Jobs.{create_job}
use hatchery_core.ModelIds.Ids.{ResolvedModel, resolve_model_id}
use hatchery_core.Gateway.State.{
  Backends, Settings, Answer, answer, refuse, crash, Handler, on_metadata, then_with,
}
use hatchery_core.Gateway.Jobs.{Codec, Routing, enqueue_job, submit, put_payload}
use hatchery_core.Gateway.Admission.{
  Surroundings, CreateSessionRequest, check_quotas, check_workers, any_serves, create_session,
  start_session, admit, init_session, init_routing, new_session,
}
use hatchery_core.Gateway.Quotas.{active_sessions, check_quotas-429}

abbrev is_429 {ℓ} : {A : Type ℓ} → Answer A → Bool
is_429 (answer a) = false
is_429 (refuse code) = code == 429
is_429 (crash e) = false

then_with-not_429 :
    {A B : Type 0} (out : Backends × Answer A) (f : A → Handler B)
    → is_429 out.1 ≡ false
    → ((a : A) (b : Backends) → is_429 (f a b).1 ≡ false)
    → is_429 (then_with out f).1 ≡ false
then_with-not_429 (b, answer a) f q h = h a b
then_with-not_429 (b, refuse code) f q h = q
then_with-not_429 (b, crash e) f q h = refl

enqueue_job-not_429 :
    {P : Type 0} (c : Codec P) (config : Settings) (signers : List (String → P → P)) (now : ℕ)
    (job_id session_id user_id operation : String) (payload : P) (routing : Routing) (b : Backends)
    → is_429
        (enqueue_job c config signers now job_id session_id user_id operation payload routing b).1
      ≡ false
unfolding enqueue_job submit put_payload create_job
enqueue_job-not_429 c config signers now job_id session_id user_id operation payload routing b =
    elim (Option-cases (get job_id b.metadata.jobs)) [
      | inl new ↦ ground arith
      | inr (r, old) ↦ ground arith
    ]

update_session-not_429 :
    (id : String) (status : SessionStatus) (b : Backends)
    → is_429 (on_metadata (Sessions.update_session id (SessionField.status status ∷ [])) b).1
      ≡ false
unfolding Sessions.update_session set_all set_session_field
update_session-not_429 id status b = elim (Option-cases (get id b.metadata.sessions)) [
  | inl e ↦ ground arith
  | inr (r, e) ↦ ground arith
]

check_workers-not_429 :
    (id base_model : String) (ws : List WorkerInfo) (b : Backends)
    → is_429 (check_workers id base_model ws b).1 ≡ false
unfolding check_workers
check_workers-not_429 id base_model [] b = refl
check_workers-not_429 id base_model (v ∷ vs) b =
    elim (Bool-cases (any_serves base_model (v ∷ vs))) [
      | inl e ↦ rw e refl
      | inr e ↦ rw e (
          then_with-not_429 {A = Unit {0}} {B = Unit {0}}
            (on_metadata
              (Sessions.update_session id (SessionField.status SessionStatus.failed ∷ [])) b)
            (λ a b'. (b', refuse 503)) (update_session-not_429 id SessionStatus.failed b)
            (λ a b'. refl))
    ]

module _ {P : Type 0} (env : Surroundings P) (now : ℕ) (user : AuthenticatedUser)
    (id job_id : String) (req : CreateSessionRequest) where
  start_session-not_429 :
      (resolved : ResolvedModel) (b : Backends)
      → is_429 (start_session env now id job_id user req resolved b).1 ≡ false
  unfolding start_session
  start_session-not_429 resolved b =
      then_with-not_429 (check_workers id resolved.base_model env.workers b) _
        (check_workers-not_429 id resolved.base_model env.workers b)
        (λ a b'.
          enqueue_job-not_429 env.codec env.config env.signers now job_id id user.user_id
            "init_session" (env.init_payload (init_session env req resolved.base_model))
            (init_routing env resolved) b')

  admit-not_429 :
      (resolved : ResolvedModel) (b : Backends)
      → is_429 (admit env now id job_id user req resolved b).1 ≡ false
  unfolding admit Sessions.create_session
  admit-not_429 resolved b =
      then_with-not_429
        (on_metadata (Sessions.create_session (new_session env now id user req resolved.base_model))
          b)
        (λ _. start_session env now id job_id user req resolved) (ground arith)
        (λ a b'. start_session-not_429 resolved b')

  check_quotas-is_429 :
      (b : Backends)
      → is_429 (check_quotas user req b).1 ≡ true
      → check_quotas user req b ≡ (b, refuse 429)
  unfolding check_quotas
  check_quotas-is_429 b e = ground arith

  then_with-is_429 :
      {A B : Type 0} (out : Backends × Answer A) (f : A → Handler B)
      → is_429 (then_with out f).1 ≡ true
      → ((a : A) (b : Backends) → is_429 (f a b).1 ≡ false)
      → is_429 out.1 ≡ true
  then_with-is_429 (b, answer a) f q h = absurd (ground (arith, h a b))
  then_with-is_429 (b, refuse code) f q h = q
  then_with-is_429 (b, crash e) f q h = q

  -- `create_session` refuses a request with 429 if and only if the user's active sessions, counted up
  -- to 100, are as many as the quota allows.
  pub create_session-429 :
      (b : Backends)
      → ((create_session env now id job_id user req b).1 ≡ refuse 429) ↔ (
          user.max_concurrent_sessions ≤ min 100 (active_sessions user.user_id b.metadata.sessions))
  unfolding create_session
  create_session-429 b =
      let resolved = resolve_model_id env.int req.base_model in
      let counted = check_quotas-429 user req b in
      (
        λ p. counted.0 (
            check_quotas-is_429 b (
              then_with-is_429 (check_quotas user req b) _ (ap is_429 p)
                (λ a b'. admit-not_429 resolved b'))),
        λ full. rw (counted.1 full) refl,
      )
