-- ===== src/Objects/Examples.antt =====
-- The keys of a store of two blobs.
use hatchery_core.Common.{[], ◌∷◌}
use hatchery_core.Objects.{ObjectStore}

abbrev two_blobs : ObjectStore
two_blobs = record { blobs = ("sessions/s1/meta", 1 ∷ []) ∷ ("jobs/j1", []) ∷ []; metadata = [] }
