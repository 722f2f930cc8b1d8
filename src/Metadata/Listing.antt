-- ===== src/Metadata/Listing.antt =====
-- What `list_sessions` of hatchery/core/backends/metadata answers, said without its filters.
use hatchery_core.Common.{
  ℕ, ◌≤◌, ◌≡◌, ◌↔◌, refl, String, true, List, [], ◌∷◌, Option, none, some, arith, length, All,
  All-In, All-impl, In,
}
use hatchery_core.Common.Dict.{values}
use hatchery_core.Common.Sort.{IsSorted}
use hatchery_core.Protocols.{SessionRecord, SessionStatus}
use hatchery_core.Metadata.Sessions.{MetadataStore, list_sessions, is_listed, same_status, newer}
use hatchery_core.Metadata.Queries.{list_sessions-IsQuery}

-- The session is of the user and has the status, where they are given.
abbrev pub IsOf : Option String → SessionRecord → Type 0
IsOf none r = Unit {0}
IsOf (some user_id) r = r.user_id ≡ user_id

abbrev pub HasStatus : Option SessionStatus → SessionRecord → Type 0
HasStatus none r = Unit {0}
HasStatus (some status) r = r.status ≡ status

-- Every session is created no earlier than those behind it.
abbrev pub IsNewestFirst : List SessionRecord → Type 0
IsNewestFirst [] = Unit {0}
IsNewestFirst (r ∷ l) = All (λ s. s.created_at ≤ r.created_at) l × IsNewestFirst l

same_status-eq : (a b : SessionStatus) → (same_status a b ≡ true) ↔ (a ≡ b)
unfolding same_status
same_status-eq a b = ground arith

is_listed-matches :
    (user_id : Option String) (status : Option SessionStatus) (r : SessionRecord)
    → (is_listed user_id status r ≡ true) ↔ (IsOf user_id r × HasStatus status r)
unfolding is_listed
is_listed-matches none none r = (λ e. (tt, tt), λ h. refl)
is_listed-matches none (some s) r = ground (arith, same_status-eq r.status s)
is_listed-matches (some u) none r = ground arith
is_listed-matches (some u) (some s) r = ground (arith, same_status-eq r.status s)

IsSorted-IsNewestFirst : (l : List SessionRecord) → IsSorted newer l → IsNewestFirst l
IsSorted-IsNewestFirst [] h = tt
IsSorted-IsNewestFirst (r ∷ l) h =
    (All-impl _ _ l (λ s k. ground arith) h.0, IsSorted-IsNewestFirst l h.1)

-- A page that is large enough, from the first on, holds a session if and only if it is stored, is of
-- the user if one is given, and has the status if one is given; and the newest sessions come first.
pub list_sessions-matching :
    (user_id : Option String) (status : Option SessionStatus) (limit : ℕ) (m : MetadataStore)
    → length (values m.sessions) ≤ limit
    → ((r : SessionRecord)
        → In r (list_sessions user_id status limit 0 m)
          ↔ (In r (values m.sessions) × IsOf user_id r × HasStatus status r))
      × IsNewestFirst (list_sessions user_id status limit 0 m)
list_sessions-matching user_id status limit m enough =
    let q = list_sessions-IsQuery user_id status limit m enough in
    (
      λ r. (
        λ i.
            let found = All-In _ r _ q.sound i in
            let h = (is_listed-matches user_id status r).0 found.1 in (found.0, h.0, h.1),
        λ h. q.complete r h.0 ((is_listed-matches user_id status r).1 (h.1, h.2)),
      ),
      IsSorted-IsNewestFirst _ q.sorted,
    )
