-- ===== src/Queue/Invariant.antt =====
-- The invariant of `InMemoryJobQueue`, and what is read off its tables.
pub mod Enqueue
pub mod Leases
use hatchery_core.Common.{
  ℕ, ◌+◌, ◌≤◌, ◌≡◌, String, Bool, true, List, [], ◌∷◌, ◌++◌, All, Option, none, some, same,
  if◌then◌else◌,
}
use hatchery_core.Common.Dict.{Dict, get, get_or, is_some, total, Distinct}
use hatchery_core.Protocols.{QueuedJob}
use hatchery_core.Queue.State
use hatchery_core.Queue.State.{JobQueue}

-- The session whose job is leased under this id.
abbrev pub session_of : Option State.Lease → Option String
session_of none = none
session_of (some l) = some l.session_id

abbrev pub names_of : Option QueuedJob → Option (String × String)
names_of none = none
names_of (some job) = some (job.job_id, job.session_id)

-- How often a job with this id stands in a deque.
abbrev pub count_id : String → List QueuedJob → ℕ
count_id id [] = 0
count_id id (job ∷ dq) = (if same job.job_id id then 1 else 0) + count_id id dq

abbrev pub waiting : String → JobQueue → ℕ
waiting id q = total (count_id id) q.session_queues

abbrev pub leased : String → JobQueue → ℕ
leased id q = if is_some (get id q.inflight) then 1 else 0

pub record Inv (q : JobQueue) : Type 0 where
  -- a deque holds jobs of its session
  pub own : (s : String) → All (λ job. job.session_id ≡ s) (get_or [] (get s q.session_queues))
  -- a session's lock names a lease of that session, and each lease is its session's lock
  pub locked :
      (s id : String)
      → get s q.inflight_by_session ≡ some id
      → session_of (get id q.inflight) ≡ some s
  pub locks :
      (s id : String)
      → session_of (get id q.inflight) ≡ some s
      → get s q.inflight_by_session ≡ some id
  -- the job of every lease is stashed
  pub stashed :
      (s id : String)
      → session_of (get id q.inflight) ≡ some s
      → names_of (get id q.pending_expired) ≡ some (id, s)
  -- no job is held twice
  pub unique : (id : String) → waiting id q + leased id q ≤ 1
  pub distinct : Distinct q.inflight
  pub sessions : Distinct q.session_queues
  -- an event is set only when the result is there
  pub answered :
      (id : String) → get id q.result_events ≡ some true → is_some (get id q.results) ≡ true
