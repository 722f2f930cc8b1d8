-- ===== src/Tinker/Records.antt =====
-- What `_SeqIdTracker` of hatchery/core/tinker_compat.py keeps on record.
use hatchery_core.Common.{
  ℕ, zero, suc, ◌+◌, ◌≤◌, ◌%◌, ◌≡◌, ◌≢◌, refl, String, Bool, false, List, [], ◌∷◌, Option, none,
  some, arith, name_eq, filter, inl, inr, Bool-cases, subst, ap, ◌==◌, if◌then◌else◌, All, ◌∙◌,
}
use hatchery_core.Common.Dict.{
  Dict, get, remove, get_or, keys, get-insert, get-remove, get-insert_self, Distinct,
  insert-Distinct, remove-Distinct,
}
use hatchery_core.Tinker.Futures.{
  FutureResponse, NumberDict, get_number, insert_number, SeqIdTracker, is_stale, remove_keys,
  sweep_seen, find_seen, check, record_seen,
}

get-insert_number :
    (n m : ℕ) (v : FutureResponse) (d : NumberDict)
    → get_number m (insert_number n v d) ≡ (if n == m then some v else get_number m d)
unfolding get_number insert_number
get-insert_number n m v [] = refl
get-insert_number n m v ((k, w) ∷ d) = ground (arith, get-insert_number n m v d)

-- Removing keys that are all others keeps an entry.
get-remove_keys {ℓ} :
    {V : Type ℓ} (key : String) (v : V) (d : Dict V) (ks : List String)
    → get key d ≡ some v
    → All (λ k. k ≢ key) ks
    → get key (remove_keys ks d) ≡ some v
unfolding remove_keys
get-remove_keys key v d [] found others = found
get-remove_keys key v d (k ∷ ks) found others =
    get-remove_keys key v (remove k d) ks (get-remove k key d ∙ (ground arith)) others.1

module _ {V : Type 0} (p : String × V → Bool) (key : String) where
  absent_keys : (d : Dict V) → get key d ≡ none → All (λ k. k ≢ key) (keys (filter p d))
  unfolding get
  absent_keys [] h = tt
  absent_keys ((k, v) ∷ d) h = elim (Bool-cases (p (k, v))) [
    | inl e ↦ rw e ((λ same_key. ground arith), absent_keys d (ground arith))
    | inr e ↦ rw e (absent_keys d (ground arith))
  ]

  -- The one entry of the key fails the test, so no key that passes is this one.
  other_keys :
      (d : Dict V) (v : V)
      → Distinct d
      → get key d ≡ some v
      → p (key, v) ≡ false
      → All (λ k. k ≢ key) (keys (filter p d))
  unfolding get
  other_keys [] v h found fails = tt
  other_keys ((k, w) ∷ d) v h found fails = elim (name_eq k key) [
    | yes same_key ↦
        let this : w ≡ v = ground arith in
        let fails' : p (k, w) ≡ false = ap (λ e. p e) (λ i. (same_key i, this i)) ∙ fails in
        rw fails' (absent_keys d (subst (λ z. get z d ≡ none) same_key h.0))
    | no other ↦ elim (Bool-cases (p (k, w))) [
      | inl e ↦ rw e (other, other_keys d v h.1 (ground arith) fails)
      | inr e ↦ rw e (other_keys d v h.1 (ground arith) fails)
    ]
  ]

pub remove_keys-Distinct :
    {V : Type 0} (ks : List String) (d : Dict V) → Distinct d → Distinct (remove_keys ks d)
unfolding remove_keys
remove_keys-Distinct [] d h = h
remove_keys-Distinct (k ∷ ks) d h = remove_keys-Distinct ks (remove k d) (remove-Distinct k d h)

-- The first response to a numbered request is on record under its key, with a reading of the clock
-- that is not before `t`.
pub record IsRecorded (key : String) (n : ℕ) (r : FutureResponse) (t : ℕ) (s : SeqIdTracker)
    : Type 0 where
  pub stored : (d : NumberDict) × (get key s.seen ≡ some d) × (get_number n d ≡ some r)
  pub kept_from : (t' : ℕ) × (get key s.ts ≡ some t') × (t ≤ t')
  pub distinct : Distinct s.ts

module _ (key : String) (n : ℕ) (r : FutureResponse) (t : ℕ) (s : SeqIdTracker)
    (rec : IsRecorded key n r t s) where
  sweep_seen-IsRecorded : (now : ℕ) → now ≤ t + 3600000 → IsRecorded key n r t (sweep_seen now s)
  unfolding sweep_seen
  sweep_seen-IsRecorded now early =
      let (d, found, mine) = rec.stored in
      let (t', at, le) = rec.kept_from in
      let others = other_keys (is_stale now) key s.ts t' rec.distinct at (ground arith) in
      record {
        stored = (d, get-remove_keys key d s.seen _ found others, mine);
        kept_from = (t', get-remove_keys key t' s.ts _ at others, le);
        distinct = remove_keys-Distinct (keys (filter (is_stale now) s.ts)) s.ts rec.distinct;
      }

  record_seen-IsRecorded :
      (now : ℕ) (other : String) (m : ℕ) (r' : FutureResponse)
      → t ≤ now
      → ((other ≡ key) → suc m ≢ n)
      → IsRecorded key n r t (record_seen now other (some (suc m)) r' s)
  unfolding record_seen
  record_seen-IsRecorded now other m r' le free =
      let (d, found, mine) = rec.stored in
      let (t', at, le') = rec.kept_from in
      let mapped = insert_number (suc m) r' (get_or [] (get other s.seen)) in
      elim (name_eq other key) [
        | yes p ↦
            let found' : get other s.seen ≡ some d = ap (λ z. get z s.seen) p ∙ found in
            record {
              stored = (
                insert_number (suc m) r' d,
                ground (arith, get-insert other key mapped s.seen),
                ground (arith, get-insert_number (suc m) n r' d, free p),
              );
              kept_from = (now, ground (arith, get-insert other key now s.ts), le);
              distinct = insert-Distinct other now s.ts rec.distinct;
            }
        | no q ↦ record {
          stored = (d, ground (arith, get-insert other key mapped s.seen), mine);
          kept_from = (t', ground (arith, get-insert other key now s.ts), le');
          distinct = insert-Distinct other now s.ts rec.distinct;
        }
      ]

  pub check-IsRecorded :
      (now : ℕ) (other : String) (seq_id : Option ℕ)
      → now ≤ t + 3600000
      → IsRecorded key n r t (check now other seq_id s).0
  unfolding check
  check-IsRecorded now other seq_id early = elim (Bool-cases (suc s.check_count % 1000 == 0)) [
    | inl e ↦
        let a = sweep_seen-IsRecorded now early in
        rw e (record { stored = a.stored; kept_from = a.kept_from; distinct = a.distinct })
    | inr e ↦
        rw e (record { stored = rec.stored; kept_from = rec.kept_from; distinct = rec.distinct })
  ]

pub find_seen-IsRecorded :
    (key : String) (n : ℕ) (r : FutureResponse) (t : ℕ) (s : SeqIdTracker)
    → IsRecorded key (suc n) r t s
    → find_seen key (some (suc n)) s.seen ≡ some r
unfolding find_seen
find_seen-IsRecorded key n r t s rec = let (d, found, mine) = rec.stored in ground arith

-- What is put on record for a request that was not found leaves the other records.
pub unseen-IsRecorded :
    (key : String) (n : ℕ) (r : FutureResponse) (t now : ℕ) (other : String) (seq_id : Option ℕ)
    (r' : FutureResponse) (s : SeqIdTracker)
    → IsRecorded key (suc n) r t s
    → t ≤ now
    → find_seen other seq_id s.seen ≡ none
    → IsRecorded key (suc n) r t (record_seen now other seq_id r' s)
unfolding record_seen
unseen-IsRecorded key n r t now other none r' s rec late new = rec
unseen-IsRecorded key n r t now other (some zero) r' s rec late new = rec
unseen-IsRecorded key n r t now other (some (suc m)) r' s rec late new =
    record_seen-IsRecorded key (suc n) r t s rec now other m r' late λ same_key same_number.
      let there : find_seen other (some (suc m)) s.seen ≡ some r =
        (λ i. find_seen (same_key i) (some (same_number i)) s.seen)
        ∙ find_seen-IsRecorded key n r t s rec in
      ground arith

-- A new number is on record from then on.
pub new-IsRecorded :
    (key : String) (n now : ℕ) (r : FutureResponse) (s : SeqIdTracker)
    → Distinct s.ts
    → IsRecorded key (suc n) r now (record_seen now key (some (suc n)) r s)
unfolding record_seen
new-IsRecorded key n now r s h =
    let d = get_or [] (get key s.seen) in
    record {
      stored = (
        insert_number (suc n) r d,
        get-insert_self key (insert_number (suc n) r d) s.seen,
        ground (arith, get-insert_number (suc n) (suc n) r d),
      );
      kept_from = (now, get-insert_self key now s.ts, omega arith);
      distinct = insert-Distinct key now s.ts h;
    }

pub check-Distinct :
    (now : ℕ) (key : String) (seq_id : Option ℕ) (s : SeqIdTracker)
    → Distinct s.ts
    → Distinct (check now key seq_id s).0.ts
unfolding check sweep_seen
check-Distinct now key seq_id s h = elim (Bool-cases (suc s.check_count % 1000 == 0)) [
  | inl e ↦ rw e (remove_keys-Distinct (keys (filter (is_stale now) s.ts)) s.ts h)
  | inr e ↦ rw e h
]

pub check_lem :
    (now : ℕ) (key : String) (seq_id : Option ℕ) (s : SeqIdTracker)
    → (check now key seq_id s).1 ≡ find_seen key seq_id (check now key seq_id s).0.seen
unfolding check
check_lem now key seq_id s = refl
