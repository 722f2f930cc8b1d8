-- ===== src/Auth/Access.antt =====
-- Who is let in: the provider against a function from tokens to users.
use hatchery_core.Common.{
  ◌≡◌, ◌≢◌, ◌↔◌, refl, ap, String, true, false, List, [], ◌∷◌, none, some, same, In, arith, name_eq,
  if◌then◌else◌, Option-cases, inl, inr,
}
use hatchery_core.Common.Dict.{Dict, get, get-insert}
use hatchery_core.Protocols.{AuthenticatedUser}
use hatchery_core.Auth.{
  ApiKeyRecord, KeyOptions, new_user, add_key, generate_key, revoke, authenticate, authorize,
  is_among,
}

-- If two tokens do not collide under the hash, then after `add_key`, or `generate_key` with its fresh token, the token, unless
-- it is empty, is the new user's, after `revoke` it is nobody's, and where the
-- second token is another one, it is whose it was.
pub authenticate_lem :
    (hash : String → String) (token q user_id : String) (o : KeyOptions)
    (records : Dict ApiKeyRecord)
    → (hash token ≡ hash q → token ≡ q)
    → (authenticate hash q (add_key hash token user_id o records) ≡ (
        if same token q
        then (if same q "" then none else some (new_user user_id o))
        else authenticate hash q records))
      × ((generate_key hash token user_id o records).0 ≡ add_key hash token user_id o records)
      × (authenticate hash q (revoke hash token records)
          ≡ (if same token q then none else authenticate hash q records))
unfolding add_key generate_key revoke authenticate
authenticate_lem hash token q user_id o records injective = elim (name_eq token q) [
  | yes e ↦
      let same_hash : hash token ≡ hash q = ap hash e in
      (
        ground (arith, get-insert (hash token) (hash q) made records),
        refl,
        elim (Option-cases (get (hash token) records)) [
          | inl n ↦ ground arith
          | inr (r, n) ↦
              ground (arith, get-insert (hash token) (hash q) (record r { revoked = true }) records)
        ],
      )
  | no d ↦
      let other_hash : hash token ≢ hash q = λ p. d (injective p) in
      (
        ground (arith, get-insert (hash token) (hash q) made records),
        refl,
        elim (Option-cases (get (hash token) records)) [
          | inl n ↦ ground arith
          | inr (r, n) ↦
              ground (arith, get-insert (hash token) (hash q) (record r { revoked = true }) records)
        ],
      )
]
  where
    made : ApiKeyRecord
    made = record { user = new_user user_id o; token_hash = hash token; revoked = false }

is_among-In : (x : String) (ys : List String) → (is_among x ys ≡ true) ↔ In x ys
unfolding is_among
is_among-In x [] = (λ e. ground arith, λ i. absurd i)
is_among-In x (y ∷ ys) =
    (λ e. ground (arith, is_among-In x ys), λ i. ground (arith, is_among-In x ys))

-- A user may train exactly the models of its list, if it has one, and do everything else.
pub authorize_lem :
    (user : AuthenticatedUser) (models : List String) (resource : String)
    → user.allowed_models ≡ some models
    → ((authorize user "train" resource ≡ true) ↔ In resource models)
      × ((action : String) → action ≢ "train" → authorize user action resource ≡ true)
unfolding authorize
authorize_lem user models resource e = (
  (
    λ h. (is_among-In resource models).0 (ground arith),
    λ i. ground (arith, (is_among-In resource models).1 i),
  ),
  λ action d. ground arith,
)
