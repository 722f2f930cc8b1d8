-- ===== src/Gateway/Events.antt =====
-- The change of a session's record by any request to the gateway of hatchery/core/gateway.py, and by the
-- end of any wait.
use hatchery_core.Common.{
  ℕ, ◌≡◌, ◌≢◌, ◌⊎◌, refl, String, true, false, List, [], ◌∷◌, none, some, arith, inl, inr, sym,
  subst, ap, ◌∙◌, name_eq, Option-cases, Bool-cases,
}
use hatchery_core.Common.Dict.{Dict, get, insert, get-insert}
use hatchery_core.Protocols.{SessionRecord, SessionStatus, AuthenticatedUser, JobStatus, JobResult}
use hatchery_core.Metadata.Fields.{JobField, SessionField}
use hatchery_core.Metadata.Sessions.{update_session}
use hatchery_core.Metadata.Jobs.{update_job, is_completed}
use hatchery_core.Gateway.State.{
  Backends, Answer, Handler, answer, refuse, crash, ◌>>◌, then_with, on_metadata,
}
use hatchery_core.Gateway.Admission.{
  Surroundings, CreateSessionResponse, init_outcome, answer_created, finish_create,
}
use hatchery_core.Gateway.Operations.{
  OpSurroundings, Waiting, run_post_op_hooks, op_outcome, op_answer, finish_op,
}
use hatchery_core.Gateway.Requests.{Event, advance}
use hatchery_core.Gateway.Lifecycle.{Change, sessions_after}
use hatchery_core.Gateway.Changes.{status-sessions}
use hatchery_core.Gateway.Served.{
  shared_sessions, on_hooks-sessions, on_backends-sessions, serve-Change,
}

-- `finish_create` and `finish_op` store the job's outcome, and of the sessions only the status of the
-- session that was to be created.
update_job-sessions :
    (id : String) (fields : List JobField) (b : Backends)
    → sessions_after (on_metadata (update_job id fields) b) ≡ b.metadata.sessions
unfolding update_job
update_job-sessions id fields b = elim (Option-cases (get id b.metadata.jobs)) [
  | inl e ↦ ground arith
  | inr (r, e) ↦ ground arith
]

-- The end of `create_session` where the result is not a completed one.
abbrev refused : String → Handler CreateSessionResponse
refused id = on_metadata (update_session id (SessionField.status SessionStatus.failed ∷ [])) >> λ b.
    (b, refuse 500)

refused-run :
    (id base_model : String) (status : JobStatus) (b : Backends)
    → is_completed status ≡ false
    → answer_created id base_model status b ≡ refused id b
unfolding answer_created
refused-run id base_model status b e = rw e refl

completed-run :
    (id base_model : String) (status : JobStatus) (b : Backends)
    → is_completed status ≡ true
    → answer_created id base_model status b
      ≡ (b, answer (record { session_id = id; base_model = base_model; status = "active" }))
unfolding answer_created
completed-run id base_model status b e = rw e refl

refused-absent :
    (id : String) (b : Backends)
    → get id b.metadata.sessions ≡ none
    → sessions_after (refused id b) ≡ b.metadata.sessions
unfolding update_session
refused-absent id b absent = ground arith

-- What a wait that ends makes of the record of a session: for `create_session` of that very session,
-- a result that is not a completed one makes it failed.
abbrev pub IsFinished : String → String → JobStatus → SessionRecord → SessionRecord → Type 0
IsFinished id x status r r' =
    (r' ≡ r)
    ⊎ ((id ≡ x)
        × (status ≢ JobStatus.completed)
        × (r' ≡ record r { status = SessionStatus.failed }))

module _ (x : String) (r : SessionRecord) where
  abbrev Finished : String → JobStatus → Dict SessionRecord → Type 0
  Finished id status d = (r' : SessionRecord) × (get x d ≡ some r') × IsFinished id x status r r'

  failed-Finished :
      (id : String) (status : JobStatus) (r0 : SessionRecord) (d : Dict SessionRecord)
      → status ≢ JobStatus.completed
      → get x d ≡ some r
      → get id d ≡ some r0
      → Finished id status (insert id (record r0 { status = SessionStatus.failed }) d)
  failed-Finished id status r0 d e found here =
      let failed : SessionRecord = record r0 { status = SessionStatus.failed } in
      elim (name_eq id x) [
        | yes p ↦
            let old : r0 ≡ r = ground arith in
            (
              failed,
              ground (arith, get-insert id x failed d),
              inr (
                p,
                e,
                ap {A = SessionRecord} (λ z. record z { status = SessionStatus.failed }) old,
              ),
            )
        | no n ↦ (r, ground (arith, get-insert id x failed d), inl refl)
      ]

  refused-Finished :
      (id : String) (status : JobStatus) (b : Backends)
      → status ≢ JobStatus.completed
      → get x b.metadata.sessions ≡ some r
      → Finished id status (sessions_after (refused id b))
  refused-Finished id status b e found = elim (Option-cases (get id b.metadata.sessions)) [
    | inl absent ↦ (r, ap (get x) (refused-absent id b absent) ∙ found, inl refl)
    | inr (r0, here) ↦
        let set =
          status-sessions {A = CreateSessionResponse} id SessionStatus.failed r0
            (λ b'. (b', refuse 500)) b here (λ b'. refl) in
        subst (Finished id status) (sym set)
          (failed-Finished id status r0 b.metadata.sessions e found here)
  ]

  answer_created-Finished :
      (id base_model : String) (status : JobStatus) (b : Backends)
      → get x b.metadata.sessions ≡ some r
      → Finished id status (sessions_after (answer_created id base_model status b))
  answer_created-Finished id base_model status b found = elim (Bool-cases (is_completed status)) [
    | inl e ↦
        subst (λ out. Finished id status (sessions_after out))
          (sym (completed-run id base_model status b e)) (r, found, inl refl)
    | inr e ↦
        subst (λ out. Finished id status (sessions_after out))
          (sym (refused-run id base_model status b e))
          (refused-Finished id status b (λ p. ground arith) found)
  ]

  finish_create-Finished :
      (now : ℕ) (id job_id base_model : String) (result : JobResult) (b : Backends)
      → get x b.metadata.sessions ≡ some r
      → Finished id result.status (sessions_after (finish_create now id job_id base_model result b))
  unfolding finish_create
  finish_create-Finished now id job_id base_model result b found =
      let alone = update_job-sessions job_id (init_outcome now result) b in
      then_with-found (λ d. Finished id result.status d)
        (on_metadata (update_job job_id (init_outcome now result)) b)
        (λ _. answer_created id base_model result.status) (r, ap (get x) alone ∙ found, inl refl)
        (λ a b' k. answer_created-Finished id base_model result.status b' k)
        (ap (get x) alone ∙ found)
    where
      then_with-found :
          (Q : Dict SessionRecord → Type 0) (out : Backends × Answer (Unit {0}))
          (f : Unit {0} → Handler CreateSessionResponse)
          → Q (sessions_after out)
          → ((a : Unit {0}) (b : Backends)
              → get x b.metadata.sessions ≡ some r
              → Q (sessions_after (f a b)))
          → get x (sessions_after out) ≡ some r
          → Q (sessions_after (then_with out f))
      then_with-found Q (b, answer a) f q h k = h a b k
      then_with-found Q (b, refuse code) f q h k = q
      then_with-found Q (b, crash e) f q h k = q

finish_op-sessions :
    {W C P : Type 0} (ops : OpSurroundings W C P) (now : ℕ) (user : AuthenticatedUser)
    (task : Waiting C) (result : JobResult) (b : Backends) (w : W)
    → shared_sessions (finish_op ops now user task result (b, w)) ≡ b.metadata.sessions
unfolding finish_op
finish_op-sessions ops now user task result b w =
    on_backends-sessions b.metadata.sessions
      (on_metadata (update_job task.job.job_id (op_outcome ops now result)) b) w _
      (update_job-sessions task.job.job_id (op_outcome ops now result) b)
      (λ a b' e.
        on_hooks-sessions b'
          (run_post_op_hooks task.contexts ops.post_op task.session user result w)
          (λ _ s. (s, op_answer ops result)) (λ a' w'. refl)
        ∙ e)

-- How a record may change in one event.
abbrev pub EventChange :
    {C P : Type 0} → String → String → Event C P → SessionRecord → SessionRecord → Type 0
EventChange user_id x (Event.asked req) r r' = Change user_id r r'
EventChange user_id x (Event.created id job_id base_model result) r r' =
    IsFinished id x result.status r r'
EventChange user_id x (Event.operated task result) r r' = r' ≡ r

-- A request comes to the gateway, up to its answer or its wait, or a wait ends. In a request the record
-- of a session that is there stays the same, unless it is the user's and not terminated: then it may
-- become active with a new time of access, or terminated. An operation whose wait ends leaves it the
-- same. When the wait of `create_session` ends it stays the same, unless it is the session that was to
-- be created and the result is not a completed one: then it is failed, whatever its status was.
pub advance-Change :
    {W C P : Type 0} (env : Surroundings P) (ops : OpSurroundings W C P) (now : ℕ)
    (user : AuthenticatedUser) (job_id x : String) (r : SessionRecord) (b : Backends) (w : W)
    (event : Event C P)
    → get x b.metadata.sessions ≡ some r
    → (r' : SessionRecord) × (get x
          (advance env ops now job_id user event (b, w)).0.0.metadata.sessions
        ≡ some r')
      × EventChange user.user_id x event r r'
unfolding advance
advance-Change env ops now user job_id x r b w (Event.asked req) found =
    serve-Change env ops now user job_id x r b w req found
advance-Change env ops now user job_id x r b w (Event.created id init_job base_model result) found =
    finish_create-Finished x r now id init_job base_model result b found
advance-Change env ops now user job_id x r b w (Event.operated task result) found =
    (r, ap (get x) (finish_op-sessions ops now user task result b w) ∙ found, refl)
