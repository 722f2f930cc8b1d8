-- ===== src/Common/Ordered.antt =====
-- `collections.OrderedDict` over the dictionaries: `move_to_end`, and the order of the keys.
use Prim.Native.Nat.{suc, ◌≤◌}
use Prim.Native.String.{String}
use mathlib.Core.List.{[], ◌∷◌, ◌++◌}
use mathlib.Core.Logic.{ite}
use mathlib.Core.Option.{none, some}
use mathlib.Core.Path.{◌≡◌, refl, ◌∙◌}
use native.Mathlib.Omega.{arith}
use hatchery_core.Common.Dict.{
  Dict, get, insert, remove, get-remove, Distinct, remove-Distinct, remove_absent,
}
use hatchery_core.Common.Lists.{length, length-append}
use hatchery_core.Common.Tests.{name_eq}

module _ {ℓ} {V : Type ℓ} where
  -- `d[k] = v; d.move_to_end(k)`
  abbrev pub move_to_end : String → V → Dict V → Dict V
  move_to_end k v d = remove k d ++ (k, v) ∷ []

  pub insert_absent :
      (k : String) (v : V) (d : Dict V) → get k d ≡ none → insert k v d ≡ d ++ (k, v) ∷ []
  unfolding get insert
  insert_absent k v [] h = refl
  insert_absent k v ((j, w) ∷ d) h = ground (arith, insert_absent k v d)

  pub get-append :
      (q : String) (d e : Dict V)
      → get q (d ++ e) ≡ (elim (get q d) [ none ↦ get q e | some v ↦ some v ])
  unfolding get
  get-append q [] e = refl
  get-append q ((j, w) ∷ d) e = ground (arith, get-append q d e)

  pub append-Distinct :
      (k : String) (v : V) (d : Dict V) → get k d ≡ none → Distinct d → Distinct (d ++ (k, v) ∷ [])
  unfolding get
  append-Distinct k v [] h u = (refl, tt)
  append-Distinct k v ((j, w) ∷ d) h u =
      ground (arith, get-append j d ((k, v) ∷ []), append-Distinct k v d)

  pub length-remove :
      (k : String) (v : V) (d : Dict V)
      → Distinct d
      → get k d ≡ some v
      → suc (length (remove k d)) ≡ length d
  unfolding get remove
  length-remove k v [] u h = ground arith
  length-remove k v ((j, w) ∷ d) u h = ground (arith, length-remove k v d u.1, remove_absent k d)

  pub length-remove-le : (k : String) (d : Dict V) → length (remove k d) ≤ length d
  unfolding remove
  length-remove-le k [] = omega arith
  length-remove-le k ((j, w) ∷ d) = ground (arith, length-remove-le k d)

  pub length-insert-le : (k : String) (v : V) (d : Dict V) → length (insert k v d) ≤ suc (length d)
  unfolding insert
  length-insert-le k v [] = omega arith
  length-insert-le k v ((j, w) ∷ d) = ground (arith, length-insert-le k v d)

  pub get-move_to_end :
      (k q : String) (v : V) (d : Dict V)
      → get q (move_to_end k v d) ≡ ite (name_eq k q) (some v) (get q d)
  unfolding get
  get-move_to_end k q v d = get-append q (remove k d) ((k, v) ∷ []) ∙ moved
    where
      moved :
          (elim (get q (remove k d)) [ none ↦ get q ((k, v) ∷ []) | some w ↦ some w ])
          ≡ ite (name_eq k q) (some v) (get q d)
      moved = ground (arith, get-remove k q d)

  pub move_to_end-Distinct :
      (k : String) (v : V) (d : Dict V) → Distinct d → Distinct (move_to_end k v d)
  move_to_end-Distinct k v d u =
      append-Distinct k v (remove k d) (ground (arith, get-remove k k d)) (remove-Distinct k d u)

  pub length-move_to_end :
      (k : String) (v w : V) (d : Dict V)
      → Distinct d
      → get k d ≡ some w
      → length (move_to_end k v d) ≡ length d
  length-move_to_end k v w d u h =
      omega (arith, length-append (remove k d) ((k, v) ∷ []), length-remove k w d u h)
