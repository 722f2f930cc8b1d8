-- ===== src/Registry/Examples.antt =====
-- The registry theorems at a registry of two sessions, one of which has run out at 500.
use hatchery_core.Common.{◌≡◌, ◌↔◌, refl, [], ◌∷◌, some, In, arith, name_eq}
use hatchery_core.Common.Dict.{get}
use hatchery_core.Registry.{SessionRegistry, get_sessions_for_worker}
use hatchery_core.Registry.Owners.{owner, get_sessions_for_worker-ok}

abbrev two : SessionRegistry
two = record {
  entries =
      ("s1", record { worker_id = "w"; expires_at = 400 })
      ∷ ("s2", record { worker_id = "w"; expires_at = 600 })
      ∷ [];
  ttl = 120;
}

get_sessions_for_worker-ok_example :
    (In "s2" (get_sessions_for_worker 500 "w" two).1 ↔ (owner 500 "s2" two ≡ some "w"))
    × (owner 550 "s2" (get_sessions_for_worker 500 "w" two).0 ≡ owner 550 "s2" two)
unfolding get name_eq
get_sessions_for_worker-ok_example =
    get_sessions_for_worker-ok 500 "w" 550 "s2" two (omega arith) (refl, (refl, tt))
