-- ===== src/Gateway/Changes.antt =====
-- The change of a session's record, route by route (hatchery/core/gateway.py).
use hatchery_core.Common.{
  ℕ, ◌≡◌, refl, String, true, [], ◌∷◌, some, same, arith, Option-cases, Bool-cases, inl, inr, sym,
  subst, List,
}
use hatchery_core.Common.Dict.{get, insert, get-insert, get-insert_self}
use hatchery_core.Common.Errors.{Result-cases, ok}
use hatchery_core.Protocols.{SessionRecord, SessionStatus}
use hatchery_core.Metadata.Fields.{SessionField, set_all, set_session_field}
use hatchery_core.Metadata.Sessions.{same_status, update_session}
use hatchery_core.Metadata.Jobs.{create_job}
use hatchery_core.Objects.{exists, copy}
use hatchery_core.Gateway.State.{
  Backends, Settings, Handler, ◌>>◌, done, on_metadata, then_with, of_result,
}
use hatchery_core.Gateway.Ownership.{get_owned_session-cases, entered, touched}
use hatchery_core.Gateway.Jobs.{Codec, Routing, enqueue_job, submit, put_payload}
use hatchery_core.Gateway.Routes.{
  get_session, resume_session, delete_session, save_weights, list_checkpoints, copy_weights,
}
use hatchery_core.Gateway.Lifecycle.{
  Change, Follows, follow_at, sessions_after, follow-insert, follow-entered, follow-same,
  open_not_terminated,
}

copy_weights-sessions :
    (src dst answered : String) (b : Backends)
    → sessions_after ((copy_weights src dst >> done answered) b) ≡ b.metadata.sessions
unfolding copy_weights
copy_weights-sessions src dst answered b = elim (Bool-cases (exists src b.objects)) [
  | inr e ↦ ground arith
  | inl e ↦ elim (Result-cases (copy src dst b.objects)) [
    | inl (s, c) ↦ ground arith
    | inr (x, c) ↦ ground arith
  ]
]

-- The status of a session is set, and what follows does not touch the sessions.
pub status-sessions :
    {A : Type 0} (id : String) (status : SessionStatus) (r : SessionRecord) (k : Handler A)
    (b : Backends)
    → get id b.metadata.sessions ≡ some r
    → ((b' : Backends) → sessions_after (k b') ≡ b'.metadata.sessions)
    → sessions_after ((on_metadata (update_session id (SessionField.status status ∷ [])) >> k) b)
      ≡ insert id (record r { status = status }) b.metadata.sessions
unfolding update_session set_all set_session_field
status-sessions id status r k b here quiet =
    let m = record b.metadata {
      sessions = insert id (record r { status = status }) b.metadata.sessions;
    } in
    let ran : update_session id (SessionField.status status ∷ []) b.metadata ≡ (m, ok tt) =
      rw (here, update_session) refl in
    subst
      (λ o.
        sessions_after
          (then_with {A = Unit {0}} (record b { metadata = o.0 }, of_result o.1) (λ _. k))
        ≡ m.sessions)
      (sym ran) (quiet (record b { metadata = m }))

pub enqueue_job-sessions :
    {P : Type 0} (c : Codec P) (config : Settings) (signers : List (String → P → P)) (now : ℕ)
    (job_id session_id user_id operation : String) (payload : P) (routing : Routing) (b : Backends)
    → sessions_after
        (enqueue_job c config signers now job_id session_id user_id operation payload routing b)
      ≡ b.metadata.sessions
unfolding enqueue_job submit put_payload create_job
enqueue_job-sessions c config signers now job_id session_id user_id operation payload routing b =
    elim (Option-cases (get job_id b.metadata.jobs)) [
      | inl new ↦ ground arith
      | inr (r, old) ↦ ground arith
    ]

module _ (now : ℕ) (user_id x : String) (r : SessionRecord) (b : Backends)
    (found : get x b.metadata.sessions ≡ some r) where
  pub get_session-Follows :
      (id : String) → Follows user_id x r (sessions_after (get_session now user_id id b))
  unfolding get_session
  get_session-Follows id = elim (get_owned_session-cases now id user_id true b) [
    | inl (code, e) ↦ rw e (follow-same user_id x r _ _ found refl)
    | inr (r0, e) ↦ rw e.run (follow-entered user_id x r now id true b r0 found e)
  ]

  pub list_checkpoints-Follows :
      (config : Settings) (id : String)
      → Follows user_id x r (sessions_after (list_checkpoints config now user_id id b))
  unfolding list_checkpoints
  list_checkpoints-Follows config id = elim (get_owned_session-cases now id user_id true b) [
    | inl (code, e) ↦ rw e (follow-same user_id x r _ _ found refl)
    | inr (r0, e) ↦ rw e.run (follow-entered user_id x r now id true b r0 found e)
  ]

  pub save_weights-Follows :
      (config : Settings) (id name : String)
      → Follows user_id x r (sessions_after (save_weights config now user_id id name b))
  unfolding save_weights copy_weights
  save_weights-Follows config id name = elim (get_owned_session-cases now id user_id true b) [
    | inl (code, e) ↦ rw e (follow-same user_id x r _ _ found refl)
    | inr (r0, e) ↦
        subst (Follows user_id x r)
          (sym (rw e.run (copy_weights-sessions _ _ _ (entered now id r0 b))))
          (follow-entered user_id x r now id true b r0 found e)
  ]

  pub delete_session-Follows :
      (config : Settings) (id : String)
      → Follows user_id x r (sessions_after (delete_session config now user_id id b))
  unfolding delete_session update_session set_all set_session_field
  delete_session-Follows config id = elim (get_owned_session-cases now id user_id true b) [
    | inl (code, e) ↦ rw e (follow-same user_id x r _ _ found refl)
    | inr (r0, e) ↦
        let last = record (touched now r0) { status = SessionStatus.terminated } in
        let d = insert id (touched now r0) b.metadata.sessions in
        let here : get id d ≡ some (touched now r0) = get-insert_self id _ b.metadata.sessions in
        let ran : sessions_after (delete_session config now user_id id b) ≡ insert id last d =
          rw e.run (
            status-sessions id SessionStatus.terminated (touched now r0) _ (entered now id r0 b)
              here (λ b'. refl)) in
        subst (Follows user_id x r) (sym ran) (
          follow_at user_id x r id r0 last b.metadata.sessions (insert id last d) found e.found
            (Change.end now e.owner (open_not_terminated true r0.status e.is_open))
            (ground (
              arith,
              get-insert id x last d,
              get-insert id x (touched now r0) b.metadata.sessions,
            )))
  ]

  pub resume_session-Follows :
      (id : String) → Follows user_id x r (sessions_after (resume_session now user_id id b))
  unfolding resume_session update_session set_all set_session_field same_status
  resume_session-Follows id = elim (Option-cases (get id b.metadata.sessions)) [
    | inl e ↦ follow-same user_id x r _ _ found (ground arith)
    | inr (r0, e) ↦ elim (Bool-cases (same r0.user_id user_id)) [
      | inr other ↦ follow-same user_id x r _ _ found (ground arith)
      | inl own ↦ elim (Bool-cases (same_status r0.status SessionStatus.terminated)) [
        | inl over ↦ follow-same user_id x r _ _ found (ground arith)
        | inr on ↦
            let ran : sessions_after (resume_session now user_id id b)
                ≡ insert id (touched now r0) b.metadata.sessions =
              ground arith in
            subst (Follows user_id x r) (sym ran) (
              follow-insert user_id x r id r0 (touched now r0) b.metadata.sessions found e
                (Change.wake now (ground arith) (λ p. ground arith)))
      ]
    ]
  ]
