-- ===== src/Metadata/Checkpoints.antt =====
-- The checkpoints of the store, in hatchery/core/backends/metadata/memory.py.
use hatchery_core.Common.{
  ℕ, String, Bool, false, ◌&&◌, List, Option, none, some, ltb, leb, same, filter, if◌then◌else◌,
}
use hatchery_core.Common.Dict.{get, insert, remove, is_some, values}
use hatchery_core.Common.Errors.{ok, raise, value_error, key_error}
use hatchery_core.Common.Sort.{sort_by}
use hatchery_core.Protocols.{CheckpointRecord}
use hatchery_core.Metadata.Fields.{CheckpointField, set_checkpoint_field, set_all}
use hatchery_core.Metadata.Sessions.{MetadataStore, Done, wanted}

unfoldable pub create_checkpoint : CheckpointRecord → MetadataStore → Done
create_checkpoint r m =
    if is_some (get r.checkpoint_id m.checkpoints)
    then (m, raise value_error)
    else (record m { checkpoints = insert r.checkpoint_id r m.checkpoints }, ok tt)

-- The record, if it is one of the session's: the guard of the three methods that take a session.
abbrev pub of_session : String → Option CheckpointRecord → Option CheckpointRecord
of_session session_id none = none
of_session session_id (some r) = if same r.session_id session_id then some r else none

unfoldable pub get_checkpoint : String → String → MetadataStore → Option CheckpointRecord
get_checkpoint session_id id m = of_session session_id (get id m.checkpoints)

abbrev pub newer_checkpoint : CheckpointRecord → CheckpointRecord → Bool
newer_checkpoint a b = ltb b.created_at a.created_at

abbrev pub is_listed_checkpoint : String → Option String → CheckpointRecord → Bool
is_listed_checkpoint session_id checkpoint_type r =
    same r.session_id session_id && wanted (λ t c. same c.checkpoint_type t) checkpoint_type r

unfoldable pub list_checkpoints : String → Option String → MetadataStore → List CheckpointRecord
list_checkpoints session_id checkpoint_type m =
    sort_by newer_checkpoint
      (filter (is_listed_checkpoint session_id checkpoint_type) (values m.checkpoints))

unfoldable pub update_checkpoint : String → String → List CheckpointField → MetadataStore → Done
unfolding set_all set_checkpoint_field
update_checkpoint session_id id fields m = elim (of_session session_id (get id m.checkpoints)) [
  | none ↦ (m, raise key_error)
  | some r ↦
      let (r', out) = set_all set_checkpoint_field fields r in
      (record m { checkpoints = insert id r' m.checkpoints }, out)
]

unfoldable pub delete_checkpoint : String → String → MetadataStore → MetadataStore
delete_checkpoint session_id id m = elim (of_session session_id (get id m.checkpoints)) [
  | none ↦ m
  | some r ↦ record m { checkpoints = remove id m.checkpoints }
]

abbrev pub is_expired : ℕ → CheckpointRecord → Bool
is_expired now r = elim r.expires_at [ none ↦ false | some t ↦ leb t now ]

-- `now` is the argument, or the clock's reading where it is `None`.
unfoldable pub get_expired_checkpoints : ℕ → MetadataStore → List CheckpointRecord
get_expired_checkpoints now m = filter (is_expired now) (values m.checkpoints)
