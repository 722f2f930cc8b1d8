-- ===== src/Metadata/Updates.antt =====
-- What the methods that change the metadata store keep.
use hatchery_core.Common.{
  ◌≡◌, ◌≢◌, refl, String, List, [], ◌∷◌, ◌++◌, Option, none, some, arith, Option-cases, inl, inr,
}
use hatchery_core.Common.Dict.{Dict, get, get-insert, get-remove}
use hatchery_core.Common.Errors.{ok, raise, attribute_error}
use hatchery_core.Protocols.{CheckpointRecord}
use hatchery_core.Metadata.Fields.{
  SessionField, set_session_field, set_all, CheckpointField, set_checkpoint_field,
}
use hatchery_core.Metadata.Sessions.{MetadataStore, update_session}
use hatchery_core.Metadata.Checkpoints.{
  create_checkpoint, get_checkpoint, update_checkpoint, delete_checkpoint, of_session,
}

module _ {F R : Type 0} (set : F → R → Option R) where
  set_all-append :
      (f : F) (fs gs : List F) (r : R)
      → ((r' : R) → set f r' ≡ none)
      → (set_all set fs r).1 ≡ ok tt
      → set_all set (fs ++ f ∷ gs) r ≡ ((set_all set fs r).0, raise attribute_error)
  unfolding set_all
  set_all-append f [] gs r unknown fine = rw (unknown r) refl
  set_all-append f (g ∷ fs) gs r unknown fine = elim (Option-cases (set g r)) [
    | inl e ↦ ground arith
    | inr (r', e) ↦ ground (arith, set_all-append f fs gs r' unknown)
  ]

-- A keyword argument that is not a field raises AttributeError, and the arguments before it stay set: the store
-- is what the call with those alone leaves.
pub update_session-no_field :
    (id k : String) (fs gs : List SessionField) (m : MetadataStore)
    → (update_session id fs m).1 ≡ ok tt
    → update_session id (fs ++ SessionField.no_field k ∷ gs) m
      ≡ ((update_session id fs m).0, raise attribute_error)
unfolding update_session set_session_field
update_session-no_field id k fs gs m fine = elim (Option-cases (get id m.sessions)) [
  | inl e ↦ ground arith
  | inr (r, e) ↦
      ground
        (arith, set_all-append set_session_field (SessionField.no_field k) fs gs r (λ r'. refl))
]

-- The guard lets nothing of another session through.
guarded :
    (s j id : String) (c r : CheckpointRecord) (d : Dict CheckpointRecord)
    → get id d ≡ some c
    → c.session_id ≢ s
    → of_session s (get j d) ≡ some r
    → j ≢ id
guarded s j id c r d e other h = λ p. ground arith

-- A stored checkpoint of another session than the one that a method is called for is not shown, and
-- it outlives every update, deletion and creation, whatever their arguments.
pub checkpoint_isolation :
    (s j id : String) (c r : CheckpointRecord) (fields : List CheckpointField) (m : MetadataStore)
    → get id m.checkpoints ≡ some c
    → c.session_id ≢ s
    → (get_checkpoint s id m ≡ none)
      × (get id (update_checkpoint s j fields m).0.checkpoints ≡ some c)
      × (get id (delete_checkpoint s j m).checkpoints ≡ some c)
      × (get id (create_checkpoint r m).0.checkpoints ≡ some c)
unfolding get_checkpoint update_checkpoint delete_checkpoint create_checkpoint
checkpoint_isolation s j id c r fields m e other = (
  ground arith,
  elim (Option-cases (of_session s (get j m.checkpoints))) [
    | inl h ↦ ground arith
    | inr (x, h) ↦ ground (
      arith,
      guarded s j id c x m.checkpoints e other h,
      get-insert j id (set_all set_checkpoint_field fields x).0 m.checkpoints,
    )
  ],
  elim (Option-cases (of_session s (get j m.checkpoints))) [
    | inl h ↦ ground arith
    | inr (x, h) ↦
        ground (arith, guarded s j id c x m.checkpoints e other h, get-remove j id m.checkpoints)
  ],
  ground (arith, get-insert r.checkpoint_id id r m.checkpoints),
)
