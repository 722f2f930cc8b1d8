-- ===== src/Objects/Keys.antt =====
-- The store against a function from keys to blobs.
use text.Mathlib.Text.{starts_with}
use hatchery_core.Common.{
  ℕ, ◌≡◌, ◌↔◌, String, true, List, [], ◌∷◌, Option, some, same, In, All-In, All-filter, In-filter,
  arith, if◌then◌else◌,
}
use hatchery_core.Common.Dict.{Dict, get, get-insert, get-remove, is_some, keys}
use hatchery_core.Common.Errors.{ok, raise, key_error, ◌>>=◌}
use hatchery_core.Common.Sort.{All-sort_by, In-sort_by}
use hatchery_core.Common.Query.{All-self}
use hatchery_core.Objects.{ObjectStore, put, get_blob, delete, exists, list_keys, copy, text_lt}

-- `get` after `put`, `delete` and the `copy` of a stored blob is the put blob, KeyError, and the copied blob, under
-- the key, and what it was under every other key.
pub get_blob_lem :
    (str : ℕ → String) (ts : ℕ) (k q source content_type : String) (blob stored : List ℕ)
    (metadata : Option (Dict String)) (s : ObjectStore)
    → get source s.blobs ≡ some stored
    → (get_blob q (put str ts k blob content_type metadata s)
        ≡ (if same k q then ok blob else get_blob q s))
      × (get_blob q (delete k s) ≡ (if same k q then raise key_error else get_blob q s))
      × ((copy source k s >>= get_blob q) ≡ (if same k q then ok stored else get_blob q s))
unfolding put get_blob delete copy
get_blob_lem str ts k q source content_type blob stored metadata s e = (
  ground (arith, get-insert k q blob s.blobs),
  ground (arith, get-remove k q s.blobs),
  ground (arith, get-insert k q stored s.blobs),
)

In-keys : (q : String) (d : Dict (List ℕ)) → In q (keys d) ↔ (is_some (get q d) ≡ true)
unfolding get
In-keys q [] = (λ i. absurd i, λ e. ground arith)
In-keys q ((k, v) ∷ d) = (λ i. ground (arith, In-keys q d), λ e. ground (arith, In-keys q d))

-- The listed keys are exactly those that exist and begin with the prefix.
pub list_keys-In :
    (prefix q : String) (s : ObjectStore)
    → In q (list_keys prefix s) ↔ ((exists q s ≡ true) × (starts_with q prefix ≡ true))
unfolding list_keys
list_keys-In prefix q s = (
  λ i.
      let found =
        All-In (λ k. In k (keys s.blobs) × (starts_with k prefix ≡ true)) q _
          (All-sort_by text_lt _ _
            (All-filter _ (λ k. starts_with k prefix) (keys s.blobs) (All-self (keys s.blobs))))
          i in
      ((In-keys q s.blobs).0 found.0, found.1),
  λ (e, p).
      In-sort_by text_lt q _
        (In-filter (λ k. starts_with k prefix) q (keys s.blobs) p ((In-keys q s.blobs).1 e)),
)
