-- ===== src/Auth.antt =====
-- hatchery/core/backends/auth/api_key.py. `hash` is SHA-256 of the token in hexadecimal, of Python's
-- hashlib, and a fresh token comes from its module secrets: both are parameters.
use hatchery_core.Common.{
  ℕ, String, Bool, true, false, ◌&&◌, List, [], ◌∷◌, Option, none, some, same, if◌then◌else◌,
}
use hatchery_core.Common.Dict.{Dict, get, insert, get_or}
use hatchery_core.Protocols.{AuthenticatedUser}
pub mod Access
mod Examples

pub record ApiKeyRecord : Type 0 where
  pub user : AuthenticatedUser
  pub token_hash : String
  pub revoked : Bool

-- The keyword arguments of `add_key`.
pub record KeyOptions : Type 0 where
  pub email : Option String
  pub org_id : Option String
  pub roles : Option (List String)
  pub tier : String
  pub max_concurrent_sessions : ℕ
  pub max_rank : ℕ
  pub allowed_models : Option (List String)

abbrev pub default_options : KeyOptions
default_options = record {
  email = none;
  org_id = none;
  roles = none;
  tier = "free";
  max_concurrent_sessions = 5;
  max_rank = 64;
  allowed_models = none;
}

abbrev pub new_user : String → KeyOptions → AuthenticatedUser
new_user user_id o = record {
  user_id = user_id;
  email = o.email;
  org_id = o.org_id;
  roles = get_or [] o.roles;
  tier = o.tier;
  max_concurrent_sessions = o.max_concurrent_sessions;
  max_rank = o.max_rank;
  allowed_models = o.allowed_models;
}

-- `resource in allowed_models`
unfoldable pub is_among : String → List String → Bool
is_among x [] = false
is_among x (y ∷ ys) = if same y x then true else is_among x ys

unfoldable pub authorize : AuthenticatedUser → String → String → Bool
unfolding is_among
authorize user action resource = elim user.allowed_models [
  | none ↦ true
  | some models ↦ if same action "train" then is_among resource models else true
]

module _ (hash : String → String) where
  unfoldable pub add_key : String → String → KeyOptions → Dict ApiKeyRecord → Dict ApiKeyRecord
  add_key token user_id o records =
      insert (hash token)
        (record { user = new_user user_id o; token_hash = hash token; revoked = false }) records

  -- `fresh` is what `secrets.token_urlsafe` gives.
  unfoldable pub generate_key :
      String → String → KeyOptions → Dict ApiKeyRecord → Dict ApiKeyRecord × String
  unfolding add_key
  generate_key fresh user_id o records = (add_key fresh user_id o records, fresh)

  unfoldable pub revoke : String → Dict ApiKeyRecord → Dict ApiKeyRecord
  revoke token records = elim (get (hash token) records) [
    | none ↦ records
    | some r ↦ insert (hash token) (record r { revoked = true }) records
  ]

  unfoldable pub authenticate : String → Dict ApiKeyRecord → Option AuthenticatedUser
  authenticate token records = if same token "" then none else elim (get (hash token) records) [
    | none ↦ none
    | some r ↦ if r.revoked then none else some r.user
  ]
