-- ===== src/Gateway/Served.antt =====
-- The change of a session's record by any request to the gateway of hatchery/core/gateway.py.
use hatchery_core.Common.{ℕ, ◌≡◌, refl, String, true, some, arith, inl, inr, sym, subst}
use hatchery_core.Common.Dict.{Dict, get}
use hatchery_core.Protocols.{SessionRecord, AuthenticatedUser}
use hatchery_core.Gateway.State.{Backends, Answer, answer, refuse, crash}
use hatchery_core.Gateway.Ownership.{get_owned_session-cases, entered}
use hatchery_core.Gateway.Routes.{list_sessions, get_job}
use hatchery_core.Gateway.Admission.{Surroundings}
use hatchery_core.Gateway.Operations.{
  OpSurroundings, Shared, run_op, run_pre_op_hooks, resolve_preferred_worker, op_routing, on_hooks,
  on_backends, prepare_op, op_job, waiting,
}
use hatchery_core.Gateway.Requests.{Ask, Request, serve_ask, serve}
use hatchery_core.Gateway.Lifecycle.{Change, Follows, sessions_after, follow-entered, follow-same}
use hatchery_core.Gateway.Admitted.{create_session-Kept}
use hatchery_core.Gateway.Changes.{
  enqueue_job-sessions, get_session-Follows, list_checkpoints-Follows, save_weights-Follows,
  delete_session-Follows, resume_session-Follows,
}

abbrev pub shared_sessions {ℓ} :
    {W : Type 0} {A : Type ℓ} → Shared W × Answer A → Dict SessionRecord
shared_sessions out = out.0.0.metadata.sessions

pub on_hooks-sessions :
    {W A B : Type 0} (b : Backends) (out : W × Answer A) (f : A → Shared W → Shared W × Answer B)
    → ((a : A) (w : W) → shared_sessions (f a (b, w)) ≡ b.metadata.sessions)
    → shared_sessions (on_hooks b out f) ≡ b.metadata.sessions
on_hooks-sessions b (w, answer a) f h = h a w
on_hooks-sessions b (w, refuse code) f h = refl
on_hooks-sessions b (w, crash e) f h = refl

pub on_backends-sessions :
    {W A B : Type 0} (d : Dict SessionRecord) (out : Backends × Answer A) (w : W)
    (f : A → Shared W → Shared W × Answer B)
    → sessions_after out ≡ d
    → ((a : A) (b : Backends) → b.metadata.sessions ≡ d → shared_sessions (f a (b, w)) ≡ d)
    → shared_sessions (on_backends out w f) ≡ d
on_backends-sessions d (b, answer a) w f e h = h a b e
on_backends-sessions d (b, refuse code) w f e h = e
on_backends-sessions d (b, crash e') w f e h = e

module _ {W C P : Type 0} (ops : OpSurroundings W C P) (now : ℕ) (user : AuthenticatedUser)
    (x : String) (r : SessionRecord) (b : Backends) (w : W)
    (found : get x b.metadata.sessions ≡ some r) where
  prepare_op-sessions :
      (job_id id operation : String) (payload : P) (priority : ℕ) (session : SessionRecord)
      (b' : Backends)
      → shared_sessions
          (prepare_op ops now job_id user id operation payload priority session (b', w))
        ≡ b'.metadata.sessions
  unfolding prepare_op
  prepare_op-sessions job_id id operation payload priority session b' =
      on_hooks-sessions b' (run_pre_op_hooks ops.pre_op session user operation payload w)
        (λ contexts (b'', w').
          on_backends (op_job ops now job_id user id operation payload priority session b'') w'
            (waiting ops session contexts))
        λ contexts w'.
          on_backends-sessions b'.metadata.sessions
            (op_job ops now job_id user id operation payload priority session b') w'
            (waiting ops session contexts)
            (enqueue_job-sessions ops.codec ops.config ops.signers now job_id id user.user_id
              operation payload
              (op_routing priority (resolve_preferred_worker ops.registry session) session) b')
            (λ job b'' e. e)

  run_op-Follows :
      (job_id id operation : String) (payload : P) (priority : ℕ)
      → Follows user.user_id x r
          (shared_sessions (run_op ops now job_id user id operation payload priority (b, w)))
  unfolding run_op
  run_op-Follows job_id id operation payload priority =
      elim (get_owned_session-cases now id user.user_id true b) [
        | inl (code, e) ↦ rw e (follow-same user.user_id x r _ _ found refl)
        | inr (r0, e) ↦ rw e.run (
            subst (Follows user.user_id x r)
              (sym
                (prepare_op-sessions job_id id operation payload priority r0 (entered now id r0 b)))
              (follow-entered user.user_id x r now id true b r0 found e))
      ]

module _ {W C P : Type 0} (env : Surroundings P) (ops : OpSurroundings W C P) (now : ℕ)
    (user : AuthenticatedUser) (job_id x : String) (r : SessionRecord) (b : Backends) (w : W) where
  serve_ask-Follows :
      (id : String) (a : Ask P)
      → get x b.metadata.sessions ≡ some r
      → Follows user.user_id x r (shared_sessions (serve_ask env ops now job_id user id a (b, w)))
  unfolding serve_ask
  serve_ask-Follows id Ask.show found = get_session-Follows now user.user_id x r b found id
  serve_ask-Follows id Ask.resume found = resume_session-Follows now user.user_id x r b found id
  serve_ask-Follows id Ask.delete found =
      delete_session-Follows now user.user_id x r b found env.config id
  serve_ask-Follows id Ask.checkpoints found =
      list_checkpoints-Follows now user.user_id x r b found env.config id
  serve_ask-Follows id (Ask.save name) found =
      save_weights-Follows now user.user_id x r b found env.config id name
  serve_ask-Follows id (Ask.run operation payload priority) found =
      run_op-Follows ops now user x r b w found job_id id operation payload priority

  pub serve-Change :
      (req : Request P)
      → get x b.metadata.sessions ≡ some r
      → (r' : SessionRecord) × (get x
            (serve env ops now job_id user req (b, w)).0.0.metadata.sessions
          ≡ some r')
        × Change user.user_id r r'
  unfolding serve list_sessions get_job
  serve-Change (Request.create id req) found =
      (r, create_session-Kept env now x r id job_id user req b found, Change.keep)
  serve-Change (Request.sessions limit offset) found = (r, found, Change.keep)
  serve-Change (Request.job id) found =
      follow-same user.user_id x r b.metadata.sessions _ found (ground arith)
  serve-Change (Request.ask id a) found = serve_ask-Follows id a found
