-- ===== src/Registry.antt =====
-- hatchery/core/session_registry.py: which worker a session is on, until the entry runs out. The
-- clock's reading is the argument `now`, in milliseconds.
use hatchery_core.Common.{
  ℕ, ◌+◌, String, List, [], ◌∷◌, Option, none, some, ltb, same, if◌then◌else◌,
}
use hatchery_core.Common.Dict.{Dict, get, insert, remove}
pub mod Owners
mod Examples

pub record Entry : Type 0 where
  pub worker_id : String
  pub expires_at : ℕ

pub record SessionRegistry : Type 0 where
  pub entries : Dict Entry
  pub ttl : ℕ

unfoldable pub set_worker : ℕ → String → String → SessionRegistry → SessionRegistry
set_worker now session_id worker_id r = record r {
  entries =
      insert session_id (record { worker_id = worker_id; expires_at = now + r.ttl }) r.entries;
}

unfoldable pub get_worker : ℕ → String → SessionRegistry → SessionRegistry × Option String
get_worker now session_id r = elim (get session_id r.entries) [
  | none ↦ (r, none)
  | some e ↦
      if ltb e.expires_at now
      then (record r { entries = remove session_id r.entries }, none)
      else (r, some e.worker_id)
]

unfoldable pub remove_session : String → SessionRegistry → SessionRegistry
remove_session session_id r = record r { entries = remove session_id r.entries }

-- The loop over the entries: the worker's sessions, and the expired ones.
unfoldable pub scan : ℕ → String → Dict Entry → List String × List String
scan now w [] = ([], [])
scan now w ((sid, e) ∷ d) =
    let (found, expired) = scan now w d in
    if ltb e.expires_at now
    then (found, sid ∷ expired)
    else if same e.worker_id w
    then (sid ∷ found, expired)
    else (found, expired)

unfoldable pub remove_all : List String → Dict Entry → Dict Entry
remove_all [] d = d
remove_all (sid ∷ ids) d = remove_all ids (remove sid d)

unfoldable pub get_sessions_for_worker :
    ℕ → String → SessionRegistry → SessionRegistry × List String
unfolding scan remove_all
get_sessions_for_worker now w r =
    let (found, expired) = scan now w r.entries in
    (record r { entries = remove_all expired r.entries }, found)
