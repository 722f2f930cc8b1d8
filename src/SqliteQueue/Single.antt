-- ===== src/SqliteQueue/Single.antt =====
-- The states of the tables that the transactions of the methods of
-- hatchery/core/backends/queue/sqlite.py reach, by any tasks of any processes in any order.
use hatchery_core.Common.{
  ℕ, ◌+◌, ◌*◌, ◌≤◌, ◌≡◌, refl, String, ◌&&◌, List, [], ◌∷◌, ◌++◌, Option, ◌==◌, ltb, leb, arith,
  inl, inr, ◌∙◌, Bool-cases, Option-cases,
}
use hatchery_core.Common.Count.{count, count-append}
use hatchery_core.Protocols.{QueuedJob, JobResult}
use hatchery_core.SqliteQueue.Table.{SqliteQueue, Row, is_inflight, init, new_row}
use hatchery_core.SqliteQueue.Methods.{
  has_id, next_seq, insert_job, set_accum_pin, clear_accum_pin, release_expired,
  release_expired_pins, is_expired, to_queued, candidates, take_first, to_inflight, dequeue, ack,
  nack, find_row, to_failed, to_retried,
}
use hatchery_core.SqliteQueue.Invariant.{
  Inv, has_seq, init-Inv, next_seq-Inv, insert_job-Inv, update-seqs, ack-Inv, nack-Inv,
}
use hatchery_core.SqliteQueue.Taking.{dequeue-Inv}

-- The methods that change the tables in one transaction.
pub data Move (q : SqliteQueue) : SqliteQueue → Type 0 where
  dequeued :
      (worker : String) (model_filter : Option String) (timeout now now_pins now_lease : ℕ)
      → Move q (dequeue worker model_filter timeout now now_pins now_lease q).0
  acked : (now : ℕ) (id : String) (result : JobResult) → Move q (ack now id result q)
  nacked : (now : ℕ) (id error : String) → Move q (nack now id error q)
  pinned : (now ttl : ℕ) (session worker : String) → Move q (set_accum_pin now session worker ttl q)
  unpinned : (session : String) → Move q (clear_accum_pin session q)

-- A transaction: one of these, or one of the two of `enqueue`.
pub data Step (q : SqliteQueue) : SqliteQueue → Type 0 where
  numbered : Step q (next_seq q).0
  inserted : (seq : ℕ) (job : QueuedJob) → Step q (insert_job seq job q).0
  moved : {q' : SqliteQueue} → Move q q' → Step q q'

-- The states that are reached from the empty tables, with the numbers that calls of `enqueue` have
-- drawn and not yet used. A call inserts its job with its own number, at any time after it was drawn.
pub data Reach (max_attempts : ℕ) : List ℕ → SqliteQueue → Type 0 where
  here : Reach max_attempts [] (init max_attempts)
  number :
      {drawn : List ℕ} {q : SqliteQueue}
      → Reach max_attempts drawn q
      → Reach max_attempts ((next_seq q).1 ∷ drawn) (next_seq q).0
  insert :
      {q : SqliteQueue} (earlier : List ℕ) (seq : ℕ) (later : List ℕ) (job : QueuedJob)
      → Reach max_attempts (earlier ++ seq ∷ later) q
      → Reach max_attempts (earlier ++ later) (insert_job seq job q).0
  move :
      {drawn : List ℕ} {q q' : SqliteQueue}
      → Move q q'
      → Reach max_attempts drawn q
      → Reach max_attempts drawn q'

abbrev times_drawn : ℕ → List ℕ → ℕ
times_drawn n = count (λ m. m == n)

-- No number is drawn twice or used while it is drawn, and the drawn ones are at most the counter.
record AreFresh (drawn : List ℕ) (q : SqliteQueue) : Type 0 where
  once : (n : ℕ) → times_drawn n drawn + count (has_seq n) q.rows ≤ 1
  bounded : (n : ℕ) → 1 ≤ times_drawn n drawn → n ≤ q.counter

abbrev SameNumbers : SqliteQueue → SqliteQueue → Type 0
SameNumbers q q' =
    ((n : ℕ) → count (has_seq n) q'.rows ≡ count (has_seq n) q.rows) × (q'.counter ≡ q.counter)

SameNumbers-AreFresh :
    (drawn : List ℕ) (q q' : SqliteQueue) → SameNumbers q q' → AreFresh drawn q → AreFresh drawn q'
SameNumbers-AreFresh drawn q q' (rows, counter) f = record {
  once = λ n. omega (arith, rows n, f.once n);
  bounded = λ n h. omega (arith, counter, f.bounded n h);
}

take_first-SameNumbers :
    (worker : String) (deadline : ℕ) (l : List Row) (q : SqliteQueue)
    → SameNumbers q (take_first worker deadline l q).0
unfolding take_first
take_first-SameNumbers worker deadline [] q = (λ n. refl, refl)
take_first-SameNumbers worker deadline (r ∷ l) q =
    (λ n. update-seqs (has_id r.job_id) (to_inflight worker deadline) (λ x. refl) n q, refl)

nack-SameNumbers :
    (now : ℕ) (id error : String) (q : SqliteQueue) → SameNumbers q (nack now id error q)
unfolding nack
nack-SameNumbers now id error q =
    elim (Option-cases (find_row (λ r. has_id id r && is_inflight r.state) q.rows)) [
      | inl e ↦ rw (e, nack) (λ n. refl, refl)
      | inr (r, e) ↦
          let n = r.attempts + 1 in
          rw (e, nack)
            (elim (Bool-cases (leb q.max_attempts n)) [
              | inl c ↦
                  rw c (λ k. update-seqs (has_id id) (to_failed n error now) (λ x. refl) k q, refl)
              | inr c ↦
                  rw c (λ k. update-seqs (has_id id) (to_retried n error) (λ x. refl) k q, refl)
            ])
    ]

Move-SameNumbers : {q q' : SqliteQueue} → Move q q' → SameNumbers q q'
unfolding dequeue release_expired release_expired_pins ack set_accum_pin clear_accum_pin
Move-SameNumbers {q} (dequeued worker model_filter timeout now now_pins now_lease) =
    let free = release_expired_pins now_pins (release_expired now q) in
    let took =
      take_first-SameNumbers worker (now_lease + 1000 * timeout)
        (candidates worker model_filter free) free in
    (λ n. took.0 n ∙ update-seqs (is_expired now) to_queued (λ x. refl) n q, took.1)
Move-SameNumbers {q} (acked now id result) = (λ n. update-seqs (has_id id) _ (λ x. refl) n q, refl)
Move-SameNumbers {q} (nacked now id error) = nack-SameNumbers now id error q
Move-SameNumbers (pinned now ttl session worker) = (λ n. refl, refl)
Move-SameNumbers (unpinned session) = (λ n. refl, refl)

Move-Inv : {q q' : SqliteQueue} → Move q q' → Inv q → Inv q'
unfolding set_accum_pin clear_accum_pin
Move-Inv {q} (dequeued worker model_filter timeout now now_pins now_lease) v =
    dequeue-Inv worker model_filter timeout now now_pins now_lease q v
Move-Inv {q} (acked now id result) v = ack-Inv now id result q v
Move-Inv {q} (nacked now id error) v = nack-Inv now id error q v
Move-Inv (pinned now ttl session worker) v = record {
  ids = v.ids;
  seqs = v.seqs;
  fresh = v.fresh;
  single = v.single;
}
Move-Inv (unpinned session) v = record {
  ids = v.ids;
  seqs = v.seqs;
  fresh = v.fresh;
  single = v.single;
}

next_seq-AreFresh :
    (drawn : List ℕ) (q : SqliteQueue)
    → Inv q
    → AreFresh drawn q
    → AreFresh ((next_seq q).1 ∷ drawn) (next_seq q).0
unfolding next_seq
next_seq-AreFresh drawn q v f = record {
  once = λ n. ground (arith, f.once n, f.bounded n, v.fresh n);
  bounded = λ n h. ground (arith, f.bounded n);
}

insert_job-AreFresh :
    (earlier : List ℕ) (seq : ℕ) (later : List ℕ) (job : QueuedJob) (q : SqliteQueue)
    → AreFresh (earlier ++ seq ∷ later) q
    → AreFresh (earlier ++ later) (insert_job seq job q).0
unfolding insert_job
insert_job-AreFresh earlier seq later job q f =
    elim (Bool-cases (ltb 0 (count (has_id job.job_id) q.rows))) [
      | inl there ↦ rw there (record {
        once = λ n. ground (arith, split n, both n, f.once n);
        bounded = λ n h. ground (arith, split n, both n, f.bounded n);
      })
      | inr new ↦ rw new (record {
        once = λ n. ground (
          arith,
          split n,
          both n,
          f.once n,
          count-append (has_seq n) q.rows (new_row seq job ∷ []),
        );
        bounded = λ n h. ground (arith, split n, both n, f.bounded n);
      })
    ]
  where
    split :
        (n : ℕ)
        → times_drawn n (earlier ++ seq ∷ later)
          ≡ times_drawn n earlier + times_drawn n (seq ∷ later)
    split n = count-append (λ m. m == n) earlier (seq ∷ later)

    both : (n : ℕ) → times_drawn n (earlier ++ later) ≡ times_drawn n earlier + times_drawn n later
    both n = count-append (λ m. m == n) earlier later

Reach-sound :
    {max_attempts : ℕ} {drawn : List ℕ} {q : SqliteQueue}
    → Reach max_attempts drawn q
    → Inv q × AreFresh drawn q
Reach-sound {max_attempts} here =
    (init-Inv max_attempts, record { once = λ n. omega arith; bounded = λ n h. omega arith })
Reach-sound (number {drawn} {q} reach) =
    let (v, f) = Reach-sound reach in (next_seq-Inv q v, next_seq-AreFresh drawn q v f)
Reach-sound (insert {q} earlier seq later job reach) =
    let (v, f) = Reach-sound reach in
    let drawn = count-append (λ m. m == seq) earlier (seq ∷ later) in
    (
      insert_job-Inv seq job q (f.bounded seq (ground (arith, drawn)))
          (ground (arith, drawn, f.once seq)) v,
      insert_job-AreFresh earlier seq later job q f,
    )
Reach-sound (move {drawn} {q} {q'} step reach) =
    let (v, f) = Reach-sound reach in
    (Move-Inv step v, SameNumbers-AreFresh drawn q q' (Move-SameNumbers step) f)

-- In every state that the transactions reach from the empty tables, with any number of calls of
-- `enqueue` between their two transactions, job ids and sequence numbers are unique and each session
-- has at most one row in flight.
pub reachable-Inv :
    {max_attempts : ℕ} {drawn : List ℕ} {q : SqliteQueue} → Reach max_attempts drawn q → Inv q
reachable-Inv reach = (Reach-sound reach).0
