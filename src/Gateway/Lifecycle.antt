-- ===== src/Gateway/Lifecycle.antt =====
-- What one request to the gateway of hatchery/core/gateway.py does to a session's record.
use hatchery_core.Common.{
  ℕ, ◌≡◌, ◌≢◌, String, Bool, name_eq, true, some, arith, ap, subst, ◌∙◌, ite,
}
use hatchery_core.Common.Dict.{Dict, get, insert, get-insert}
use hatchery_core.Protocols.{SessionRecord, SessionStatus}
use hatchery_core.Gateway.State.{Backends, Answer}
use hatchery_core.Gateway.Ownership.{IsEntered, entered, touched, is_open}

-- The life of a session as the requests of a user may move it on: nobody but its owner does, and no
-- request leaves the status terminated.
pub data Change (user_id : String) (r : SessionRecord) : SessionRecord → Type 0 where
  keep : Change user_id r r
  wake :
      (now : ℕ)
      → r.user_id ≡ user_id
      → r.status ≢ SessionStatus.terminated
      → Change user_id r (touched now r)
  end :
      (now : ℕ)
      → r.user_id ≡ user_id
      → r.status ≢ SessionStatus.terminated
      → Change user_id r (record (touched now r) { status = SessionStatus.terminated })

-- The sessions after a handler's run.
abbrev pub sessions_after {ℓ} : {A : Type ℓ} → Backends × Answer A → Dict SessionRecord
sessions_after out = out.0.metadata.sessions

-- The record that follows this one in a table.
abbrev pub Follows : String → String → SessionRecord → Dict SessionRecord → Type 0
Follows user_id x r d = (r' : SessionRecord) × (get x d ≡ some r') × Change user_id r r'

pub open_not_terminated :
    (accept : Bool) (s : SessionStatus) → is_open accept s ≡ true → s ≢ SessionStatus.terminated
unfolding is_open
open_not_terminated accept s h = λ p. ground arith

module _ (user_id x : String) (r : SessionRecord) where
  -- A table in which one key holds a record that may follow the one that stood there.
  pub follow_at :
      (id : String) (r0 r' : SessionRecord) (d e : Dict SessionRecord)
      → get x d ≡ some r
      → get id d ≡ some r0
      → Change user_id r0 r'
      → get x e ≡ ite (name_eq id x) (some r') (get x d)
      → Follows user_id x r e
  follow_at id r0 r' d e found here change at = elim (name_eq id x) [
    | yes p ↦ (r', ground arith, subst (λ z. Change user_id z r') (ground arith) change)
    | no n ↦ (r, ground arith, Change.keep)
  ]

  pub follow-insert :
      (id : String) (r0 r' : SessionRecord) (d : Dict SessionRecord)
      → get x d ≡ some r
      → get id d ≡ some r0
      → Change user_id r0 r'
      → Follows user_id x r (insert id r' d)
  follow-insert id r0 r' d found here change =
      follow_at id r0 r' d (insert id r' d) found here change (get-insert id x r' d)

  pub follow-entered :
      (now : ℕ) (id : String) (accept : Bool) (b : Backends) (r0 : SessionRecord)
      → get x b.metadata.sessions ≡ some r
      → IsEntered now id user_id accept b r0
      → Follows user_id x r (entered now id r0 b).metadata.sessions
  follow-entered now id accept b r0 found e =
      follow-insert id r0 (touched now r0) b.metadata.sessions found e.found
        (Change.wake now e.owner (open_not_terminated accept r0.status e.is_open))

  pub follow-same : (d e : Dict SessionRecord) → get x d ≡ some r → e ≡ d → Follows user_id x r e
  follow-same d e found p = (r, ap (get x) p ∙ found, Change.keep)
