-- ===== src/Gateway/Quotas.antt =====
-- The quota of sessions in `create_session` of hatchery/core/gateway.py.
use Prim.Native.Nat.{min, max}
use hatchery_core.Common.{
  ℕ, ◌+◌, ◌≤◌, ◌<◌, ◌≡◌, ◌↔◌, refl, String, Bool, true, false, same, ◌&&◌, [], ◌∷◌, some, arith,
  length, filter, Option-cases, Bool-cases, inl, inr, sym, ap, subst, List, ◌∙◌, leb, length-take,
}
use hatchery_core.Common.Dict.{Dict, get, values, total, total-insert}
use hatchery_core.Common.Count.{one_if}
use hatchery_core.Common.Sort.{sort_by}
use hatchery_core.Common.Query.{length-sort_by}
use hatchery_core.Protocols.{SessionRecord, SessionStatus, AuthenticatedUser, WorkerInfo}
use hatchery_core.Metadata.Sessions as Sessions
use hatchery_core.Metadata.Sessions.{is_listed, same_status, newer}
use hatchery_core.Metadata.Fields.{SessionField, set_all, set_session_field}
use hatchery_core.ModelIds.Ids.{ResolvedModel, resolve_model_id}
use hatchery_core.Gateway.Admitted.{then_with-keeps, check_quotas-same}
use hatchery_core.Gateway.Changes.{enqueue_job-sessions}
use hatchery_core.Gateway.State.{
  Backends, Answer, answer, refuse, crash, Handler, on_metadata, then_with,
}
use hatchery_core.Gateway.Admission.{
  Surroundings, CreateSessionRequest, check_quotas, check_workers, any_serves, create_session,
  start_session, admit, init_session, init_routing, new_session,
}
use hatchery_core.Gateway.Lifecycle.{sessions_after}

-- An active session of the user, said without the filters of `list_sessions`.
abbrev pub is_active : SessionStatus → Bool
is_active SessionStatus.active = true
is_active SessionStatus.suspended = false
is_active SessionStatus.terminated = false
is_active SessionStatus.failed = false

abbrev pub is_active_of : String → SessionRecord → Bool
is_active_of user_id r = same r.user_id user_id && is_active r.status

status-same : (s : SessionStatus) → same_status s SessionStatus.active ≡ is_active s
unfolding same_status
status-same SessionStatus.active = refl
status-same SessionStatus.suspended = refl
status-same SessionStatus.terminated = refl
status-same SessionStatus.failed = refl

is_listed_lem :
    (user_id : String) (r : SessionRecord)
    → is_listed (some user_id) (some SessionStatus.active) r ≡ is_active_of user_id r
unfolding is_listed
is_listed_lem user_id r = ap (λ c. same r.user_id user_id && c) (status-same r.status)

-- The number of a user's active sessions.
abbrev pub active_sessions : String → Dict SessionRecord → ℕ
active_sessions user_id = total (λ r. one_if (is_active_of user_id r))

length-filter :
    (user_id : String) (d : Dict SessionRecord)
    → length (filter (is_listed (some user_id) (some SessionStatus.active)) (values d))
      ≡ active_sessions user_id d
unfolding total
length-filter user_id [] = refl
length-filter user_id ((k, r) ∷ d) = elim (Bool-cases (is_active_of user_id r)) [
  | inl e ↦ ground (arith, is_listed_lem user_id r, length-filter user_id d)
  | inr e ↦ ground (arith, is_listed_lem user_id r, length-filter user_id d)
]

-- What the first test counts: the active sessions, 100 at most.
listed_lem :
    (user_id : String) (b : Backends)
    → length (Sessions.list_sessions (some user_id) (some SessionStatus.active) 100 0 b.metadata)
      ≡ min 100 (active_sessions user_id b.metadata.sessions)
unfolding Sessions.list_sessions
listed_lem user_id b =
    let l =
      filter (is_listed (some user_id) (some SessionStatus.active)) (values b.metadata.sessions) in
    length-take 100 (sort_by newer l)
    ∙ ap (min 100) (length-sort_by newer l ∙ length-filter user_id b.metadata.sessions)

-- The first test of `create_session`.
pub check_quotas-429 :
    (user : AuthenticatedUser) (req : CreateSessionRequest) (b : Backends)
    → (check_quotas user req b ≡ (b, refuse 429))
      ↔ (user.max_concurrent_sessions ≤ min 100 (active_sessions user.user_id b.metadata.sessions))
unfolding check_quotas
check_quotas-429 user req b = (
  λ p. ground (arith, listed_lem user.user_id b),
  λ full. ground (arith, listed_lem user.user_id b),
)

module _ {P : Type 0} (env : Surroundings P) (now : ℕ) (user : AuthenticatedUser) where
  abbrev active : Dict SessionRecord → ℕ
  active d = active_sessions user.user_id d

  -- A record that is not active does not add to the count.
  fail-active :
      (id : String) (b : Backends)
      → active (
          sessions_after (
            on_metadata
              (Sessions.update_session id (SessionField.status SessionStatus.failed ∷ []))
              b))
        ≤ active b.metadata.sessions
  unfolding Sessions.update_session set_all set_session_field
  fail-active id b = elim (Option-cases (get id b.metadata.sessions)) [
    | inl e ↦ ground arith
    | inr (r, e) ↦ ground (
      arith,
      total-insert (λ r'. one_if (is_active_of user.user_id r')) id
          (record r { status = SessionStatus.failed }) b.metadata.sessions,
    )
  ]

  create-active :
      (r : SessionRecord) (b : Backends)
      → active (sessions_after (on_metadata (Sessions.create_session r) b))
        ≤ active b.metadata.sessions + 1
  unfolding Sessions.create_session
  create-active r b = elim (Option-cases (get r.session_id b.metadata.sessions)) [
    | inl e ↦ ground (
      arith,
      total-insert (λ r'. one_if (is_active_of user.user_id r')) r.session_id r b.metadata.sessions,
    )
    | inr (r', e) ↦ ground arith
  ]

  check_workers-active :
      (id base_model : String) (ws : List WorkerInfo) (b : Backends)
      → active (sessions_after (check_workers id base_model ws b)) ≤ active b.metadata.sessions
  unfolding check_workers
  check_workers-active id base_model [] b = omega arith
  check_workers-active id base_model (v ∷ vs) b =
      elim (Bool-cases (any_serves base_model (v ∷ vs))) [
        | inl e ↦ rw e (omega arith)
        | inr e ↦ rw e (
            then_with-keeps (λ d. active d ≤ active b.metadata.sessions) _ _ (fail-active id b)
              (λ a b' k. k))
      ]

  start_session-active :
      (id job_id : String) (req : CreateSessionRequest) (resolved : ResolvedModel) (b : Backends)
      → active (sessions_after (start_session env now id job_id user req resolved b))
        ≤ active b.metadata.sessions
  unfolding start_session
  start_session-active id job_id req resolved b =
      then_with-keeps (λ d. active d ≤ active b.metadata.sessions)
        (check_workers id resolved.base_model env.workers b) _
        (check_workers-active id resolved.base_model env.workers b)
        (λ a b' k.
          subst (λ d. active d ≤ active b.metadata.sessions)
            (sym (
              enqueue_job-sessions env.codec env.config env.signers now job_id id user.user_id
                "init_session" (env.init_payload (init_session env req resolved.base_model))
                (init_routing env resolved) b'))
            k)

  admit-active :
      (id job_id : String) (req : CreateSessionRequest) (resolved : ResolvedModel) (b : Backends)
      → active (sessions_after (admit env now id job_id user req resolved b))
        ≤ active b.metadata.sessions + 1
  unfolding admit
  admit-active id job_id req resolved b =
      then_with-keeps (λ d. active d ≤ active b.metadata.sessions + 1)
        (on_metadata (Sessions.create_session (new_session env now id user req resolved.base_model))
          b)
        _ (create-active (new_session env now id user req resolved.base_model) b)
        (λ a b' k. omega (arith, k, start_session-active id job_id req resolved b'))

  then_with-active :
      {A B : Type 0} (n : ℕ) (out : Backends × Answer A) (f : A → Handler B)
      → active (sessions_after out) ≤ n
      → ((a : A) → active (sessions_after (f a out.0)) ≤ n)
      → active (sessions_after (then_with out f)) ≤ n
  then_with-active n (b, answer a) f q h = h a
  then_with-active n (b, refuse code) f q h = q
  then_with-active n (b, crash e) f q h = q

  -- Where the quota is at most 100, no request for a session brings the user's active sessions above
  -- the quota, and above what they were.
  pub create_session-quota :
      (id job_id : String) (req : CreateSessionRequest) (b : Backends)
      → user.max_concurrent_sessions ≤ 100
      → active_sessions user.user_id
          (create_session env now id job_id user req b).0.metadata.sessions
        ≤ max user.max_concurrent_sessions (active_sessions user.user_id b.metadata.sessions)
  unfolding create_session
  create_session-quota id job_id req b small =
      let count = active_sessions user.user_id b.metadata.sessions in
      let limit = max user.max_concurrent_sessions count in
      let resolved = resolve_model_id env.int req.base_model in
      elim (Bool-cases (leb user.max_concurrent_sessions (min 100 count))) [
        | inl full ↦ rw ((check_quotas-429 user req b).1 (ground arith)) (omega arith)
        | inr room ↦
            let few : count < user.max_concurrent_sessions = ground arith in
            let alone = sym (check_quotas-same user req b) in
            then_with-active limit (check_quotas user req b) _
              (subst (λ b'. active b'.metadata.sessions ≤ limit) alone (omega arith))
              (λ a.
                subst
                  (λ b'.
                    active (sessions_after (admit env now id job_id user req resolved b')) ≤ limit)
                  alone (omega (arith, few, admit-active id job_id req resolved b)))
      ]
