-- ===== src/Objects.antt =====
-- hatchery/core/backends/object_store/memory.py: blobs and their metadata under keys. `str` is Python's
-- text of a number; `ts` is the clock's reading. Bytes are numbers.
use Prim.Native.String.{compare}
use Prim.Native.Nat.{Ordering}
use text.Mathlib.Text.{starts_with}
use hatchery_core.Common.{
  ℕ, ◌+◌, String, Bool, true, false, List, [], ◌∷◌, Option, none, some, length, filter,
}
use hatchery_core.Common.Dict.{Dict, get, insert, remove, get_or, is_some, keys}
use hatchery_core.Common.Errors.{Result, ok, raise, key_error, or_raise, ◌>>=◌}
use hatchery_core.Common.Sort.{sort_by}
pub mod Keys
mod Examples

pub record ObjectStore : Type 0 where
  pub blobs : Dict (List ℕ)
  pub metadata : Dict (Dict String)

-- `{..., **extra}`
unfoldable pub merge : Dict String → Dict String → Dict String
merge d [] = d
merge d ((k, v) ∷ extra) = merge (insert k v d) extra

unfoldable pub put :
    (ℕ → String) → ℕ → String → List ℕ → String → Option (Dict String) → ObjectStore → ObjectStore
unfolding merge
put str ts key blob content_type metadata s = record {
  blobs = insert key blob s.blobs;
  metadata =
      insert key
        (merge (("content_type", content_type) ∷ ("size", str (length blob)) ∷ ("ts", str ts) ∷ [])
          (get_or [] metadata))
        s.metadata;
}

unfoldable pub get_blob : String → ObjectStore → Result (List ℕ)
get_blob key s = or_raise (get key s.blobs) key_error

unfoldable pub delete : String → ObjectStore → ObjectStore
delete key s = record { blobs = remove key s.blobs; metadata = remove key s.metadata }

abbrev pub exists : String → ObjectStore → Bool
exists key s = is_some (get key s.blobs)

-- The order of texts
abbrev pub text_lt : String → String → Bool
text_lt a b = elim (compare a b) [ Ordering.lt ↦ true | _ ↦ false ]

unfoldable pub list_keys : String → ObjectStore → List String
list_keys prefix s = sort_by text_lt (filter (λ k. starts_with k prefix) (keys s.blobs))

unfoldable pub copy : String → String → ObjectStore → Result ObjectStore
copy src_key dst_key s = do
  blob ← or_raise (get src_key s.blobs) key_error
  ok (record {
    blobs = insert dst_key blob s.blobs;
    metadata = insert dst_key (get_or [] (get src_key s.metadata)) s.metadata;
  })
