-- ===== src/Common/Dict.antt =====
-- Python's `dict` with text keys: an association list in insertion order.
use Prim.Native.Nat.{ℕ, ◌+◌, ◌≤◌}
use Prim.Native.String.{String}
use mathlib.Core.Bool.{Bool, true, false}
use mathlib.Core.List.{List, [], ◌∷◌, map}
use mathlib.Core.Logic.{ite}
use mathlib.Core.Option.{Option, none, some}
use mathlib.Core.Path.{◌≡◌, refl}
use native.Mathlib.Omega.{arith}
use hatchery_core.Common.Tests.{name_eq}

abbrev pub Dict {ℓ} : Type ℓ → Type ℓ
Dict V = List (String × V)

module _ {ℓ} {V : Type ℓ} where
  -- `d.get(k)`
  unfoldable pub get : String → Dict V → Option V
  get k [] = none
  get k ((j, v) ∷ d) = ite (name_eq j k) (some v) (get k d)

  -- `d[k] = v`: in place if the key is there, at the end otherwise
  unfoldable pub insert : String → V → Dict V → Dict V
  insert k v [] = (k, v) ∷ []
  insert k v ((j, w) ∷ d) = ite (name_eq j k) ((k, v) ∷ d) ((j, w) ∷ insert k v d)

  -- `d.pop(k, None)`, less its result
  unfoldable pub remove : String → Dict V → Dict V
  remove k [] = []
  remove k ((j, w) ∷ d) = ite (name_eq j k) (remove k d) ((j, w) ∷ remove k d)

  -- `d.get(k, default)`
  abbrev pub get_or : V → Option V → V
  get_or a none = a
  get_or a (some v) = v

  -- `k in d`
  abbrev pub is_some : Option V → Bool
  is_some none = false
  is_some (some v) = true

  -- `d.setdefault(k, v)`
  abbrev pub set_default : String → V → Dict V → Dict V
  set_default k v d = elim (get k d) [ none ↦ insert k v d | some _ ↦ d ]

  abbrev pub keys : Dict V → List String
  keys = map (λ e. e.0)

  abbrev pub values : Dict V → List V
  values = map (λ e. e.1)

  pub get-insert :
      (k q : String) (v : V) (d : Dict V)
      → get q (insert k v d) ≡ ite (name_eq k q) (some v) (get q d)
  unfolding get insert
  get-insert k q v [] = refl
  get-insert k q v ((j, w) ∷ d) = ground (arith, get-insert k q v d)

  pub get-remove :
      (k q : String) (d : Dict V) → get q (remove k d) ≡ ite (name_eq k q) none (get q d)
  unfolding get remove
  get-remove k q [] = ground arith
  get-remove k q ((j, w) ∷ d) = ground (arith, get-remove k q d)

  pub get-insert_self : (k : String) (v : V) (d : Dict V) → get k (insert k v d) ≡ some v
  get-insert_self k v d = ground (arith, get-insert k k v d)

  pub get-remove_self : (k : String) (d : Dict V) → get k (remove k d) ≡ none
  get-remove_self k d = ground (arith, get-remove k k d)

  -- Each key stands once, as in every `dict`.
  abbrev pub Distinct : Dict V → Type ℓ
  Distinct [] = Unit
  Distinct ((k, v) ∷ d) = (get k d ≡ none) × Distinct d

  pub insert-Distinct : (k : String) (v : V) (d : Dict V) → Distinct d → Distinct (insert k v d)
  unfolding get insert
  insert-Distinct k v [] h = (refl, tt)
  insert-Distinct k v ((j, w) ∷ d) h = ground (arith, get-insert k j v d, insert-Distinct k v d h.1)

  pub remove-Distinct : (k : String) (d : Dict V) → Distinct d → Distinct (remove k d)
  unfolding remove
  remove-Distinct k [] h = tt
  remove-Distinct k ((j, w) ∷ d) h = ground (arith, get-remove k j d, remove-Distinct k d h.1)

  -- `d.pop` of a key that is not there leaves the dictionary alone.
  pub remove_absent : (key : String) (m : Dict V) → get key m ≡ none → remove key m ≡ m
  unfolding remove get
  remove_absent key [] missing = refl
  remove_absent key ((other, v) ∷ m) missing = ground (arith, remove_absent key m)

  pub get-cons_self : (k : String) (v : V) (d : Dict V) → get k ((k, v) ∷ d) ≡ some v
  unfolding get
  get-cons_self k v d = ground arith

  pub remove-cons_self :
      (k : String) (v : V) (d : Dict V) → get k d ≡ none → remove k ((k, v) ∷ d) ≡ d
  unfolding remove
  remove-cons_self k v d h = ground (arith, remove_absent k d)

  -- A number read off every entry, summed.
  unfoldable pub total : (V → ℕ) → Dict V → ℕ
  total f [] = 0
  total f ((k, v) ∷ d) = f v + total f d

  abbrev pub weight : (V → ℕ) → Option V → ℕ
  weight f none = 0
  weight f (some v) = f v

  pub total-insert :
      (f : V → ℕ) (k : String) (v : V) (d : Dict V)
      → total f (insert k v d) + weight f (get k d) ≡ total f d + f v
  unfolding total insert get
  total-insert f k v [] = omega arith
  total-insert f k v ((j, w) ∷ d) = ground (arith, total-insert f k v d)

  pub weight-le-total : (f : V → ℕ) (k : String) (d : Dict V) → weight f (get k d) ≤ total f d
  unfolding total get
  weight-le-total f k [] = omega arith
  weight-le-total f k ((j, w) ∷ d) = ground (arith, weight-le-total f k d)

pub ruleset dict_laws = (get-insert, get-remove)
