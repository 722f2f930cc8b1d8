-- ===== src/Gateway/Ownership.antt =====
-- `_get_owned_session` of hatchery/core/gateway.py.
use hatchery_core.Common.{
  ℕ, ◌≡◌, ◌⊎◌, inl, inr, String, Bool, true, false, not, [], ◌∷◌, none, some, same, arith,
  if◌then◌else◌, Option-cases, Bool-cases,
}
use hatchery_core.Common.Dict.{get, insert}
use hatchery_core.Protocols.{SessionRecord, SessionStatus}
use hatchery_core.Metadata.Fields.{SessionField, set_session_field, set_all}
use hatchery_core.Metadata.Sessions.{update_session}
use hatchery_core.Gateway.State.{Backends, Answer, refuse, Handler, ◌>>◌, done, on_metadata}

-- `record.status in allowed`
unfoldable pub is_open : Bool → SessionStatus → Bool
is_open accept_suspended SessionStatus.active = true
is_open accept_suspended SessionStatus.suspended = accept_suspended
is_open accept_suspended SessionStatus.terminated = false
is_open accept_suspended SessionStatus.failed = false

unfoldable pub get_owned_session : ℕ → String → String → Bool → Handler SessionRecord
unfolding is_open update_session
get_owned_session now session_id user_id accept_suspended b =
    elim (get session_id b.metadata.sessions) [
      | none ↦ (b, refuse 404)
      | some r ↦
          if not (same r.user_id user_id)
          then (b, refuse 403)
          else if not (is_open accept_suspended r.status)
          then (b, refuse 410)
          else (do
            on_metadata (
                update_session session_id
                  (SessionField.last_accessed now ∷ SessionField.status SessionStatus.active ∷ []))
            done r)
              b
    ]

abbrev pub touched : ℕ → SessionRecord → SessionRecord
touched now r = record r { last_accessed = now; status = SessionStatus.active }

-- What the check leaves of the backends where it lets the user in.
abbrev pub entered : ℕ → String → SessionRecord → Backends → Backends
entered now session_id r b = record b {
  metadata = record b.metadata { sessions = insert session_id (touched now r) b.metadata.sessions };
}

-- The user owns the session, which is open.
pub record IsEntered (now : ℕ) (id user_id : String) (accept : Bool) (b : Backends)
    (r : SessionRecord) : Type 0 where
  pub found : get id b.metadata.sessions ≡ some r
  pub owner : r.user_id ≡ user_id
  pub is_open : is_open accept r.status ≡ true
  pub run : get_owned_session now id user_id accept b ≡ (entered now id r b, Answer.answer r)

-- Either the check refuses and nothing changes, or the session is open and the user's.
pub get_owned_session-cases :
    (now : ℕ) (id user_id : String) (accept : Bool) (b : Backends)
    → ((code : ℕ) × (get_owned_session now id user_id accept b ≡ (b, refuse code)))
      ⊎ ((r : SessionRecord) × IsEntered now id user_id accept b r)
unfolding get_owned_session update_session set_all set_session_field
get_owned_session-cases now id user_id accept b = elim (Option-cases (get id b.metadata.sessions)) [
  | inl e ↦ inl (404, ground arith)
  | inr (r, e) ↦ elim (Bool-cases (same r.user_id user_id)) [
    | inr other ↦ inl (403, ground arith)
    | inl own ↦ elim (Bool-cases (is_open accept r.status)) [
      | inr shut ↦ inl (410, ground arith)
      | inl o ↦ inr (r, record { found = e; owner = ground arith; is_open = o; run = ground arith })
    ]
  ]
]
