-- ===== src/Auth/Examples.antt =====
-- The theorems on access with the identity as the hash.
use hatchery_core.Common.{◌≡◌, [], ◌∷◌, none, some, same, if◌then◌else◌}
use hatchery_core.Protocols.{AuthenticatedUser}
use hatchery_core.Auth.{default_options, new_user, add_key, generate_key, revoke, authenticate}
use hatchery_core.Auth.Access.{authenticate_lem}

authenticate_lem_example :
    (authenticate (λ t. t) "k1" (add_key (λ t. t) "k1" "u" default_options []) ≡ (
      if same "k1" "k1"
      then (if same "k1" "" then none else some (new_user "u" default_options))
      else authenticate (λ t. t) "k1" []))
    × ((generate_key (λ t. t) "k1" "u" default_options []).0
        ≡ add_key (λ t. t) "k1" "u" default_options [])
    × (authenticate (λ t. t) "k1" (revoke (λ t. t) "k1" [])
        ≡ (if same "k1" "k1" then none else authenticate (λ t. t) "k1" []))
authenticate_lem_example = authenticate_lem (λ t. t) "k1" "k1" "u" default_options [] (λ p. p)

abbrev limited : AuthenticatedUser
limited = record (new_user "u" default_options) { allowed_models = some ("m" ∷ []) }
