-- ===== src/SqliteQueue/Taking.antt =====
-- `dequeue` keeps the invariant: the row that it takes has no other row of its session in flight.
use hatchery_core.Common.{
  ℕ, ◌+◌, ◌*◌, ◌≤◌, ◌≡◌, sym, subst, String, Bool, true, ◌&&◌, List, [], ◌∷◌, Option, same, name_eq,
  arith, In, All, All-filter, if◌then◌else◌, filter,
}
use hatchery_core.Common.Sort.{All-sort_by}
use hatchery_core.Common.Query.{All-self}
use hatchery_core.Common.Count.{
  count, one_if, count-map_same, count_mono, count_disjoint, count-map_split, count_of_In,
}
use hatchery_core.SqliteQueue.Table.{Row, SqliteQueue, update_where}
use hatchery_core.SqliteQueue.Methods.{
  has_id, release_expired_pins, release_expired, inflight_of, is_candidate, candidates, before,
  to_inflight, take_first, dequeue,
}
use hatchery_core.SqliteQueue.Invariant.{Inv, has_seq, release_expired-Inv}

module _ (worker : String) (model_filter : Option String) (q : SqliteQueue) where
  -- Every row of the sorted list is a row of the table that passes the WHERE clause.
  pub candidates-All :
      All
        (λ r. In r q.rows × (is_candidate worker model_filter q r ≡ true))
        (candidates worker model_filter q)
  unfolding candidates
  candidates-All =
      All-sort_by (before worker) _ (filter (is_candidate worker model_filter q) q.rows)
        (All-filter _ (is_candidate worker model_filter q) q.rows (All-self q.rows))

  -- A row of an id and a session.
  abbrev both : String → String → Row → Bool
  both id s r = has_id id r && same r.session_id s

  taken-count :
      (id s : String) (deadline : ℕ)
      → count (inflight_of s) (update_where (has_id id) (to_inflight worker deadline) q.rows)
        ≤ count (inflight_of s) q.rows + count (both id s) q.rows
  taken-count id s deadline =
      count-map_split (inflight_of s) (inflight_of s) (both id s)
        (λ r. if has_id id r then to_inflight worker deadline r else r) q.rows (λ r. ground arith)

  -- A row that is taken is the only one with its id, and its session has no other row in flight.
  take-single :
      (r : Row) (deadline : ℕ) (s : String)
      → Inv q
      → In r q.rows
      → is_candidate worker model_filter q r ≡ true
      → count (inflight_of s) (update_where (has_id r.job_id) (to_inflight worker deadline) q.rows)
        ≤ 1
  unfolding is_candidate
  take-single r deadline s v i c =
      let idle : count (inflight_of r.session_id) q.rows ≡ 0 = ground arith in
      elim (name_eq r.session_id s) [
        | yes e ↦ omega (
          arith,
          taken-count r.job_id s deadline,
          subst (λ x. count (inflight_of x) q.rows ≡ 0) e idle,
          count_mono (both r.job_id s) (has_id r.job_id) q.rows (λ x. ground arith),
          v.ids r.job_id,
        )
        | no d ↦ omega (
          arith,
          taken-count r.job_id s deadline,
          v.single s,
          v.ids r.job_id,
          count_disjoint (both r.job_id s) (both r.job_id r.session_id) (has_id r.job_id) q.rows
              (λ x. apart_sessions r s x (name_eq x.session_id s) d),
          count_of_In (both r.job_id r.session_id) r q.rows i (ground arith),
        )
      ]
    where
      apart_sessions :
          (r : Row) (s : String) (x : Row)
          → Dec (x.session_id ≡ s)
          → ¬ (r.session_id ≡ s)
          → one_if (both r.job_id s x) + one_if (both r.job_id r.session_id x)
            ≤ one_if (has_id r.job_id x)
      apart_sessions r s x (yes e) d = ground arith
      apart_sessions r s x (no e) d = ground arith

  take_first-Inv :
      (deadline : ℕ) (l : List Row)
      → Inv q
      → All (λ r. In r q.rows × (is_candidate worker model_filter q r ≡ true)) l
      → Inv (take_first worker deadline l q).0
  unfolding take_first
  take_first-Inv deadline [] v all = v
  take_first-Inv deadline (r ∷ l) v ((i, c), all) = record {
    ids = λ id.
        subst (λ n. n ≤ 1)
          (sym (
            count-map_same (has_id id) (has_id id)
              (λ x. if has_id r.job_id x then to_inflight worker deadline x else x) q.rows
              (λ x. ground arith)))
          (v.ids id);
    seqs = λ n.
        subst (λ m. m ≤ 1)
          (sym (
            count-map_same (has_seq n) (has_seq n)
              (λ x. if has_id r.job_id x then to_inflight worker deadline x else x) q.rows
              (λ x. ground arith)))
          (v.seqs n);
    fresh = λ n h.
        subst (λ m. m ≡ 0)
          (sym (
            count-map_same (has_seq n) (has_seq n)
              (λ x. if has_id r.job_id x then to_inflight worker deadline x else x) q.rows
              (λ x. ground arith)))
          (v.fresh n h);
    single = λ s. take-single r deadline s v i c;
  }

pub release-Inv :
    (now now_pins : ℕ) (q : SqliteQueue)
    → Inv q
    → Inv (release_expired_pins now_pins (release_expired now q))
unfolding release_expired_pins
release-Inv now now_pins q v =
    let w = release_expired-Inv now q v in
    record { ids = w.ids; seqs = w.seqs; fresh = w.fresh; single = w.single }

pub dequeue-Inv :
    (worker : String) (model_filter : Option String) (timeout now now_pins now_lease : ℕ)
    (q : SqliteQueue)
    → Inv q
    → Inv (dequeue worker model_filter timeout now now_pins now_lease q).0
unfolding dequeue
dequeue-Inv worker model_filter timeout now now_pins now_lease q v =
    let free = release_expired_pins now_pins (release_expired now q) in
    take_first-Inv worker model_filter free (now_lease + 1000 * timeout)
      (candidates worker model_filter free) (release-Inv now now_pins q v)
      (candidates-All worker model_filter free)
