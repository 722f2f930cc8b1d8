-- ===== src/Gateway/Admitted.antt =====
-- `create_session` of hatchery/core/gateway.py leaves the sessions that are there as they are.
use hatchery_core.Common.{
  ℕ, ◌≡◌, ◌≢◌, refl, String, name_eq, [], ◌∷◌, some, arith, Option-cases, Bool-cases, inl, inr, sym,
  ap, subst, List, ◌∙◌,
}
use hatchery_core.Common.Dict.{Dict, get, get-insert}
use hatchery_core.Common.Errors.{raise, value_error}
use hatchery_core.Protocols.{SessionRecord, SessionStatus, AuthenticatedUser, WorkerInfo}
use hatchery_core.Metadata.Fields.{SessionField}
use hatchery_core.Metadata.Sessions as Sessions
use hatchery_core.Gateway.State.{
  Backends, Answer, answer, refuse, crash, on_metadata, then_with, Handler, of_result,
}
use hatchery_core.Gateway.Admission.{
  Surroundings, CreateSessionRequest, check_quotas, check_workers, any_serves, create_session,
  start_session, admit, init_session, init_routing, new_session,
}
use hatchery_core.ModelIds.Ids.{ResolvedModel, resolve_model_id}
use hatchery_core.Gateway.Lifecycle.{sessions_after}
use hatchery_core.Gateway.Changes.{enqueue_job-sessions}

-- A part keeps the sessions' property if what comes before and what follows keep it.
pub then_with-keeps :
    {A B : Type 0} (Q : Dict SessionRecord → Type 0) (out : Backends × Answer A) (f : A → Handler B)
    → Q (sessions_after out)
    → ((a : A) (b : Backends) → Q b.metadata.sessions → Q (sessions_after (f a b)))
    → Q (sessions_after (then_with out f))
then_with-keeps Q (b, answer a) f q h = h a b q
then_with-keeps Q (b, refuse code) f q h = q
then_with-keeps Q (b, crash e) f q h = q

pub check_quotas-same :
    (user : AuthenticatedUser) (req : CreateSessionRequest) (b : Backends)
    → (check_quotas user req b).0 ≡ b
unfolding check_quotas
check_quotas-same user req b = ground arith

module _ {P : Type 0} (env : Surroundings P) (now : ℕ) (x : String) (r : SessionRecord) where
  abbrev pub Kept : Dict SessionRecord → Type 0
  Kept d = get x d ≡ some r

  update_session-Kept :
      (id : String) (status : SessionStatus) (b : Backends)
      → id ≢ x
      → Kept b.metadata.sessions
      → Kept (
          sessions_after
            (on_metadata (Sessions.update_session id (SessionField.status status ∷ [])) b))
  unfolding Sessions.update_session
  update_session-Kept id status b other k = elim (Option-cases (get id b.metadata.sessions)) [
    | inl e ↦ ground arith
    | inr (r', e) ↦
        ground (arith, get-insert id x (record r' { status = status }) b.metadata.sessions)
  ]

  check_workers-Kept :
      (id base_model : String) (ws : List WorkerInfo) (b : Backends)
      → id ≢ x
      → Kept b.metadata.sessions
      → Kept (sessions_after (check_workers id base_model ws b))
  unfolding check_workers
  check_workers-Kept id base_model [] b other k = k
  check_workers-Kept id base_model (v ∷ vs) b other k =
      elim (Bool-cases (any_serves base_model (v ∷ vs))) [
        | inl e ↦ rw e k
        | inr e ↦ rw e (
            then_with-keeps Kept _ _ (update_session-Kept id SessionStatus.failed b other k)
              (λ a b' k'. k'))
      ]

  start_session-Kept :
      (id job_id : String) (user : AuthenticatedUser) (req : CreateSessionRequest)
      (resolved : ResolvedModel) (b : Backends)
      → id ≢ x
      → Kept b.metadata.sessions
      → Kept (sessions_after (start_session env now id job_id user req resolved b))
  unfolding start_session
  start_session-Kept id job_id user req resolved b other k =
      then_with-keeps Kept (check_workers id resolved.base_model env.workers b) _
        (check_workers-Kept id resolved.base_model env.workers b other k)
        (λ a b' k'.
          subst Kept
            (sym (
              enqueue_job-sessions env.codec env.config env.signers now job_id id user.user_id
                "init_session" (env.init_payload (init_session env req resolved.base_model))
                (init_routing env resolved) b'))
            k')

  create_record-Kept :
      (id : String) (user : AuthenticatedUser) (req : CreateSessionRequest)
      (resolved : ResolvedModel) (b : Backends)
      → id ≢ x
      → Kept b.metadata.sessions
      → Kept (
          sessions_after (
            on_metadata
              (Sessions.create_session (new_session env now id user req resolved.base_model))
              b))
  unfolding Sessions.create_session
  create_record-Kept id user req resolved b other k =
      elim (Option-cases (get id b.metadata.sessions)) [
        | inl e ↦ ground (
          arith,
          get-insert id x (new_session env now id user req resolved.base_model) b.metadata.sessions,
        )
        | inr (r', e) ↦ ground arith
      ]

  -- The store refuses an id that is taken.
  admit-Kept :
      (id job_id : String) (user : AuthenticatedUser) (req : CreateSessionRequest)
      (resolved : ResolvedModel) (b : Backends)
      → Kept b.metadata.sessions
      → Kept (sessions_after (admit env now id job_id user req resolved b))
  unfolding admit Sessions.create_session
  admit-Kept id job_id user req resolved b k = elim (name_eq id x) [
    | yes p ↦
        let here : get id b.metadata.sessions ≡ some r =
          ap (λ z. get z b.metadata.sessions) p ∙ k in
        let taken : Sessions.create_session (new_session env now id user req resolved.base_model)
              b.metadata
            ≡ (b.metadata, raise value_error) =
          rw (here, Sessions.create_session) refl in
        subst
          (λ o. Kept (
            sessions_after (
              then_with {A = Unit {0}} (record b { metadata = o.0 }, of_result o.1)
                (λ _. start_session env now id job_id user req resolved))))
          (sym taken) k
    | no n ↦
        then_with-keeps Kept
          (on_metadata
            (Sessions.create_session (new_session env now id user req resolved.base_model)) b)
          _ (create_record-Kept id user req resolved b n k)
          (λ a b' k'. start_session-Kept id job_id user req resolved b' n k')
  ]

  pub create_session-Kept :
      (id job_id : String) (user : AuthenticatedUser) (req : CreateSessionRequest) (b : Backends)
      → Kept b.metadata.sessions
      → Kept (sessions_after (create_session env now id job_id user req b))
  unfolding create_session
  create_session-Kept id job_id user req b k =
      then_with-keeps Kept (check_quotas user req b) _
        (subst (λ b'. Kept b'.metadata.sessions) (sym (check_quotas-same user req b)) k)
        (λ a b' k'. admit-Kept id job_id user req (resolve_model_id env.int req.base_model) b' k')
