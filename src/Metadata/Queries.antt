-- ===== src/Metadata/Queries.antt =====
-- What the lists of the metadata store hold, and their order.
use hatchery_core.Common.{
  ℕ, ◌+◌, ◌-◌, ◌≤◌, ◌≡◌, refl, String, List, ◌++◌, Option, map, filter, slice, take, length, sym,
  subst, arith, take_of_length-le,
}
use hatchery_core.Common.Dict.{get_or, values}
use hatchery_core.Common.Sort.{sort_by}
use hatchery_core.Common.Query.{
  IsQuery, ascending-IsQuery, descending-IsQuery, slice-append_next, length-sort_by,
  length-filter-le,
}
use hatchery_core.Protocols.{SessionRecord, SessionStatus, JobRecord}
use hatchery_core.Metadata.Sessions.{MetadataStore, list_sessions, is_listed, newer}
use hatchery_core.Metadata.Jobs.{
  get_pending_jobs, is_pending_of, older, get_session_step_history, is_step_of, finished_later,
  step_row,
}
use hatchery_core.Metadata.Checkpoints.{list_checkpoints, is_listed_checkpoint, newer_checkpoint}

-- A page of sessions and the page that begins where it ends are one page of both sizes.
pub list_sessions-append :
    (user_id : Option String) (status : Option SessionStatus) (a b offset : ℕ) (m : MetadataStore)
    → list_sessions user_id status a offset m ++ list_sessions user_id status b (offset + a) m
      ≡ list_sessions user_id status (a + b) offset m
unfolding list_sessions
list_sessions-append user_id status a b offset m = slice-append_next offset a b _

-- A page that is large enough, from the first on, holds exactly the sessions that match both filters, the newest first.
pub list_sessions-IsQuery :
    (user_id : Option String) (status : Option SessionStatus) (limit : ℕ) (m : MetadataStore)
    → length (values m.sessions) ≤ limit
    → IsQuery
        (is_listed user_id status)
        newer
        (values m.sessions)
        (list_sessions user_id status limit 0 m)
unfolding list_sessions
list_sessions-IsQuery user_id status limit m enough =
    subst (IsQuery (is_listed user_id status) newer (values m.sessions)) (sym all)
      (descending-IsQuery (λ r. r.created_at) (is_listed user_id status) (values m.sessions))
  where
    rows : List SessionRecord
    rows = filter (is_listed user_id status) (values m.sessions)

    all : slice 0 (0 + limit) (sort_by newer rows) ≡ sort_by newer rows
    all =
        let e : 0 + limit - 0 ≡ limit = omega arith in
        rw e (
          take_of_length-le limit (sort_by newer rows) (
            omega (
              arith,
              length-sort_by newer rows,
              length-filter-le (is_listed user_id status) (values m.sessions),
            )))

-- The pending jobs of a session are exactly its stored jobs that are queued, assigned or running, the oldest first.
pub get_pending_jobs-IsQuery :
    (session_id : String) (m : MetadataStore)
    → IsQuery (is_pending_of session_id) older (values m.jobs) (get_pending_jobs session_id m)
unfolding get_pending_jobs
get_pending_jobs-IsQuery session_id m =
    ascending-IsQuery (λ j. j.created_at) (is_pending_of session_id) (values m.jobs)

-- The listed checkpoints are exactly the stored ones of the session, and of the type if one is
-- given, the newest first.
pub list_checkpoints-IsQuery :
    (session_id : String) (checkpoint_type : Option String) (m : MetadataStore)
    → IsQuery
        (is_listed_checkpoint session_id checkpoint_type)
        newer_checkpoint
        (values m.checkpoints)
        (list_checkpoints session_id checkpoint_type m)
unfolding list_checkpoints
list_checkpoints-IsQuery session_id checkpoint_type m =
    descending-IsQuery (λ r. r.created_at) (is_listed_checkpoint session_id checkpoint_type)
      (values m.checkpoints)

-- The step history is the first `last_n` rows of an answer that holds exactly the completed, timed
-- jobs of the session, the last finished first.
pub get_session_step_history-ok :
    (session_id : String) (last_n : ℕ) (m : MetadataStore)
    → (l : List JobRecord) × IsQuery (is_step_of session_id) finished_later (values m.jobs) l
      × (get_session_step_history session_id last_n m ≡ map step_row (take last_n l))
unfolding get_session_step_history
get_session_step_history-ok session_id last_n m = (
  _,
  descending-IsQuery (λ j. get_or 0 j.completed_at) (is_step_of session_id) (values m.jobs),
  refl,
)
