-- ===== src/SqliteQueue/Invariant.antt =====
-- The invariant of the tables, and the methods other than `dequeue`.
use hatchery_core.Common.{
  ℕ, ◌+◌, ◌≤◌, ◌<◌, ◌≡◌, refl, sym, subst, String, Bool, false, ◌&&◌, [], ◌∷◌, leb, ltb, ◌==◌,
  arith, inl, inr, Bool-cases, Option-cases, if◌then◌else◌,
}
use hatchery_core.Common.Count.{count, count-append, count-map, count-map_same}
use hatchery_core.Protocols.{QueuedJob, JobResult}
use hatchery_core.SqliteQueue.Table.{Row, SqliteQueue, init, is_inflight, update_where, new_row}
use hatchery_core.SqliteQueue.Methods.{
  has_id, next_seq, insert_job, is_expired, to_queued, release_expired, inflight_of, ack, nack,
  to_failed, to_retried, find_row,
}

abbrev pub has_seq : ℕ → Row → Bool
has_seq n r = r.seq == n

-- Ids and sequence numbers are unique, the numbers are at most the counter, and no session has two
-- rows in flight.
pub record Inv (q : SqliteQueue) : Type 0 where
  pub ids : (id : String) → count (has_id id) q.rows ≤ 1
  pub seqs : (n : ℕ) → count (has_seq n) q.rows ≤ 1
  pub fresh : (n : ℕ) → q.counter < n → count (has_seq n) q.rows ≡ 0
  pub single : (s : String) → count (inflight_of s) q.rows ≤ 1

pub init-Inv : (max : ℕ) → Inv (init max)
init-Inv max = record {
  ids = λ id. omega arith;
  seqs = λ n. omega arith;
  fresh = λ n h. refl;
  single = λ s. omega arith;
}

-- An UPDATE that keeps the ids, the numbers and the sessions, and sets no row in flight.
module _ (test : Row → Bool) (f : Row → Row) (same_id : (r : Row) → (f r).job_id ≡ r.job_id)
    (same_seq : (r : Row) → (f r).seq ≡ r.seq)
    (idle : (r : Row) → is_inflight (f r).state ≡ false) where
  update-Inv : (q : SqliteQueue) → Inv q → Inv (record q { rows = update_where test f q.rows })
  update-Inv q v = record {
    ids = λ id.
        subst (λ n. n ≤ 1)
          (sym (
            count-map_same (has_id id) (has_id id) (λ r. if test r then f r else r) q.rows
              (λ r. ground (arith, same_id r))))
          (v.ids id);
    seqs = λ n.
        subst (λ m. m ≤ 1)
          (sym (
            count-map_same (has_seq n) (has_seq n) (λ r. if test r then f r else r) q.rows
              (λ r. ground (arith, same_seq r))))
          (v.seqs n);
    fresh = λ n h.
        subst (λ m. m ≡ 0)
          (sym (
            count-map_same (has_seq n) (has_seq n) (λ r. if test r then f r else r) q.rows
              (λ r. ground (arith, same_seq r))))
          (v.fresh n h);
    single = λ s. omega (
      arith,
      count-map (inflight_of s) (inflight_of s) (λ r. if test r then f r else r) q.rows
          (λ r. ground (arith, idle r)),
      v.single s,
    );
  }

-- An UPDATE that keeps the numbers.
pub update-seqs :
    (test : Row → Bool) (f : Row → Row)
    → ((r : Row) → (f r).seq ≡ r.seq)
    → (n : ℕ) (q : SqliteQueue)
    → count (has_seq n) (update_where test f q.rows) ≡ count (has_seq n) q.rows
update-seqs test f same_seq n q =
    count-map_same (has_seq n) (has_seq n) (λ r. if test r then f r else r) q.rows
      (λ r. ground (arith, same_seq r))

pub release_expired-Inv : (now : ℕ) (q : SqliteQueue) → Inv q → Inv (release_expired now q)
unfolding release_expired
release_expired-Inv now q v =
    update-Inv (is_expired now) to_queued (λ r. refl) (λ r. refl) (λ r. refl) q v

pub ack-Inv :
    (now : ℕ) (id : String) (result : JobResult) (q : SqliteQueue)
    → Inv q
    → Inv (ack now id result q)
unfolding ack
ack-Inv now id result q v = update-Inv (has_id id) _ (λ r. refl) (λ r. refl) (λ r. refl) q v

pub nack-Inv : (now : ℕ) (id error : String) (q : SqliteQueue) → Inv q → Inv (nack now id error q)
unfolding nack
nack-Inv now id error q v =
    elim (Option-cases (find_row (λ r. has_id id r && is_inflight r.state) q.rows)) [
      | inl e ↦ rw (e, nack) v
      | inr (r, e) ↦
          let n = r.attempts + 1 in
          let dead =
            update-Inv (has_id id) (to_failed n error now) (λ x. refl) (λ x. refl) (λ x. refl) q
              v in
          let again =
            update-Inv (has_id id) (to_retried n error) (λ x. refl) (λ x. refl) (λ x. refl) q v in
          rw (e, nack)
            (elim (Bool-cases (leb q.max_attempts n)) [ inl c ↦ rw c dead | inr c ↦ rw c again ])
    ]

pub next_seq-Inv : (q : SqliteQueue) → Inv q → Inv (next_seq q).0
unfolding next_seq
next_seq-Inv q v = record {
  ids = v.ids;
  seqs = v.seqs;
  fresh = λ n h. v.fresh n (omega arith);
  single = v.single;
}

pub insert_job-Inv :
    (seq : ℕ) (job : QueuedJob) (q : SqliteQueue)
    → seq ≤ q.counter
    → count (has_seq seq) q.rows ≡ 0
    → Inv q
    → Inv (insert_job seq job q).0
unfolding insert_job
insert_job-Inv seq job q drawn unused v =
    elim (Bool-cases (ltb 0 (count (has_id job.job_id) q.rows))) [
      | inl there ↦ rw there v
      | inr new ↦
          let added = new_row seq job in
          rw new (record {
            ids = λ id. ground (arith, count-append (has_id id) q.rows (added ∷ []), v.ids id);
            seqs = λ n. elim (Bool-cases (seq == n)) [
              | inl e ↦
                  let own : seq ≡ n = ground arith in
                  let none_yet : count (has_seq n) q.rows ≡ 0 =
                    subst (λ m. count (has_seq m) q.rows ≡ 0) own unused in
                  ground (arith, count-append (has_seq n) q.rows (added ∷ []))
              | inr e ↦ ground (arith, count-append (has_seq n) q.rows (added ∷ []), v.seqs n)
            ];
            fresh =
                λ n h. ground (arith, count-append (has_seq n) q.rows (added ∷ []), v.fresh n h);
            single =
                λ s. ground (arith, count-append (inflight_of s) q.rows (added ∷ []), v.single s);
          })
    ]
