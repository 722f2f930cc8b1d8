-- ===== src/Metadata/Sessions.antt =====
-- The state of the store and its sessions, in hatchery/core/backends/metadata/memory.py.
use hatchery_core.Common.{
  ℕ, ◌+◌, ◌==◌, String, Bool, true, false, not, ◌&&◌, List, [], ◌∷◌, Option, none, some, ltb, same,
  filter, slice, if◌then◌else◌,
}
use hatchery_core.Common.Dict.{Dict, get, insert, get_or, is_some, values}
use hatchery_core.Common.Errors.{Result, ok, raise, value_error, key_error}
use hatchery_core.Common.Sort.{sort_by}
use hatchery_core.Protocols.{SessionRecord, SessionStatus, JobRecord, CheckpointRecord}
use hatchery_core.Metadata.Fields.{SessionField, set_session_field, set_all}

pub record MetadataStore : Type 0 where
  pub sessions : Dict SessionRecord
  pub jobs : Dict JobRecord
  pub checkpoints : Dict CheckpointRecord

abbrev pub init : MetadataStore
init = record { sessions = []; jobs = []; checkpoints = [] }

-- A method that changes the store: the store after it, and what it returns or raises.
abbrev pub Done : Type 0
Done = MetadataStore × Result (Unit {0})

unfoldable pub create_session : SessionRecord → MetadataStore → Done
create_session r m =
    if is_some (get r.session_id m.sessions)
    then (m, raise value_error)
    else (record m { sessions = insert r.session_id r m.sessions }, ok tt)

abbrev pub get_session : String → MetadataStore → Option SessionRecord
get_session id m = get id m.sessions

unfoldable pub update_session : String → List SessionField → MetadataStore → Done
unfolding set_all set_session_field
update_session id fields m = elim (get id m.sessions) [
  | none ↦ (m, raise key_error)
  | some r ↦
      let (r', out) = set_all set_session_field fields r in
      (record m { sessions = insert id r' m.sessions }, out)
]

number : SessionStatus → ℕ
number SessionStatus.active = 0
number SessionStatus.suspended = 1
number SessionStatus.terminated = 2
number SessionStatus.failed = 3

-- `==` on statuses
unfoldable pub same_status : SessionStatus → SessionStatus → Bool
unfolding number
same_status a b = number a == number b

-- An argument that is `None` filters nothing out.
abbrev pub wanted : {A B : Type 0} → (A → B → Bool) → Option A → B → Bool
wanted test none b = true
wanted test (some a) b = test a b

-- The two filters of `list_sessions`
unfoldable pub is_listed : Option String → Option SessionStatus → SessionRecord → Bool
unfolding same_status
is_listed user_id status r =
    wanted (λ u s. same s.user_id u) user_id r && wanted (λ x s. same_status s.status x) status r

-- `created_at` in reverse: the newest first, and in their order where it is the same
abbrev pub newer : SessionRecord → SessionRecord → Bool
newer a b = ltb b.created_at a.created_at

unfoldable pub list_sessions :
    Option String → Option SessionStatus → ℕ → ℕ → MetadataStore → List SessionRecord
unfolding is_listed
list_sessions user_id status limit offset m =
    slice offset (offset + limit)
      (sort_by newer (filter (is_listed user_id status) (values m.sessions)))

-- `r.last_worker_id == worker_id`
abbrev pub is_on : String → SessionRecord → Bool
is_on worker_id r = elim r.last_worker_id [ none ↦ false | some w ↦ same w worker_id ]

abbrev pub list_sessions_by_worker : String → MetadataStore → List SessionRecord
list_sessions_by_worker worker_id m = filter (is_on worker_id) (values m.sessions)

-- One round of the loop: sessions that are not active, or on no worker, are skipped.
unfoldable pub count_session : SessionRecord → Dict ℕ → Dict ℕ
unfolding same_status
count_session r counts = elim r.last_worker_id [
  | none ↦ counts
  | some w ↦
      if not (same_status r.status SessionStatus.active)
      then counts
      else insert w (get_or 0 (get w counts) + 1) counts
]

unfoldable pub count_sessions : List SessionRecord → Dict ℕ → Dict ℕ
unfolding count_session
count_sessions [] counts = counts
count_sessions (r ∷ rs) counts = count_sessions rs (count_session r counts)

unfoldable pub get_active_session_count_by_worker : MetadataStore → Dict ℕ
unfolding count_sessions
get_active_session_count_by_worker m = count_sessions (values m.sessions) []
