-- ===== src/Queue/Lines.antt =====
-- The abstract view of the queue: one line of jobs for each session. The job in flight stands first,
-- and the deque follows.
pub mod Moves
use hatchery_core.Common.{◌≡◌, refl, String, List, [], ◌∷◌, ◌++◌, Option, none, some}
use hatchery_core.Common.Dict.{Dict, get, get_or}
use hatchery_core.Protocols.{QueuedJob}
use hatchery_core.Queue.State.{JobQueue}

abbrev pub to_list : Option QueuedJob → List QueuedJob
to_list none = []
to_list (some job) = job ∷ []

abbrev pub stashed_job : Option String → Dict QueuedJob → List QueuedJob
stashed_job none pending = []
stashed_job (some id) pending = to_list (get id pending)

abbrev pub running : String → JobQueue → List QueuedJob
running s q = stashed_job (get s q.inflight_by_session) q.pending_expired

abbrev pub deque : String → JobQueue → List QueuedJob
deque s q = get_or [] (get s q.session_queues)

abbrev pub line : String → JobQueue → List QueuedJob
line s q = running s q ++ deque s q
