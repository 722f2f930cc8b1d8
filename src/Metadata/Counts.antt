-- ===== src/Metadata/Counts.antt =====
-- `get_active_session_count_by_worker` counts what a filter over the sessions counts.
use hatchery_core.Common.{
  ℕ, ◌+◌, ◌≡◌, String, Bool, ◌&&◌, List, [], ◌∷◌, filter, length, arith, if◌then◌else◌,
  Option-cases, inl, inr,
}
use hatchery_core.Common.Dict.{Dict, get, get_or, values, get-insert}
use hatchery_core.Protocols.{SessionRecord, SessionStatus}
use hatchery_core.Metadata.Sessions.{
  MetadataStore, is_on, same_status, count_session, count_sessions,
  get_active_session_count_by_worker,
}

-- The session is active and on the worker.
abbrev pub is_active_on : String → SessionRecord → Bool
is_active_on worker_id r = same_status r.status SessionStatus.active && is_on worker_id r

abbrev one : Bool → ℕ
one b = if b then 1 else 0

count_session-get :
    (w : String) (r : SessionRecord) (counts : Dict ℕ)
    → get_or 0 (get w (count_session r counts)) ≡ get_or 0 (get w counts) + one (is_active_on w r)
unfolding count_session
count_session-get w r counts = elim (Option-cases r.last_worker_id) [
  | inl e ↦ ground arith
  | inr (v, e) ↦ ground (arith, get-insert v w (get_or 0 (get v counts) + 1) counts)
]

count_sessions-get :
    (w : String) (rs : List SessionRecord) (counts : Dict ℕ)
    → get_or 0 (get w (count_sessions rs counts))
      ≡ get_or 0 (get w counts) + length (filter (is_active_on w) rs)
unfolding count_sessions
count_sessions-get w [] counts = omega arith
count_sessions-get w (r ∷ rs) counts =
    ground (arith, count_session-get w r counts, count_sessions-get w rs (count_session r counts))

-- The count under a worker, or 0 where there is none, is the number of the active sessions that
-- `list_sessions_by_worker` lists for it.
pub get_active_session_count_by_worker-length :
    (w : String) (m : MetadataStore)
    → get_or 0 (get w (get_active_session_count_by_worker m))
      ≡ length (filter (is_active_on w) (values m.sessions))
unfolding get_active_session_count_by_worker get
get_active_session_count_by_worker-length w m =
    omega (arith, count_sessions-get w (values m.sessions) [])
