-- ===== src/SqliteQueue/Outcomes.antt =====
-- What a waiter is told, and that it stays.
use hatchery_core.Common.{
  ℕ, ◌+◌, ◌*◌, ◌≤◌, ◌≡◌, ◌⊎◌, sym, subst, ◌∙◌, ap, String, Bool, true, not, ◌&&◌, List, [], ◌∷◌,
  ◌++◌, map, Option, none, some, leb, ltb, name_eq, arith, inl, inr, In, All, All-impl, Bool-cases,
  Option-cases, if◌then◌else◌,
}
use hatchery_core.Common.Count.{count, one_if, count_disjoint, count_of_In}
use hatchery_core.Protocols.{JobResult, JobStatus}
use hatchery_core.SqliteQueue.Table.{Row, SqliteQueue, is_queued, is_inflight, new_row}
use hatchery_core.SqliteQueue.Methods.{
  has_id, next_seq, insert_job, is_expired, to_queued, release_expired, release_expired_pins,
  to_inflight, take_first, candidates, is_candidate, dequeue, json_metrics, ack, to_completed,
  find_row, nack, answer_of, poll, set_accum_pin, clear_accum_pin, to_failed, to_retried,
}
use hatchery_core.SqliteQueue.Invariant.{Inv}
use hatchery_core.SqliteQueue.Taking.{candidates-All, release-Inv}
use hatchery_core.SqliteQueue.Single.{
  dequeued, acked, nacked, pinned, unpinned, Step, numbered, inserted, moved,
}

find_row-In :
    (p : Row → Bool) (rows : List Row) (r : Row)
    → find_row p rows ≡ some r
    → In r rows × (p r ≡ true)
unfolding find_row
find_row-In p [] r e = absurd (ground arith)
find_row-In p (x ∷ rows) r e = elim (Bool-cases (p x)) [
  | inl c ↦ let here : x ≡ r = ground arith in (inl here, subst (λ y. p y ≡ true) here c)
  | inr c ↦ let (i, d) = find_row-In p rows r (ground arith) in (inr i, d)
]

find_row-map :
    (p : Row → Bool) (f : Row → Row) (rows : List Row) (r : Row)
    → ((x : Row) → p (f x) ≡ p x)
    → find_row p rows ≡ some r
    → find_row p (map f rows) ≡ some (f r)
unfolding find_row
find_row-map p f [] r h e = absurd (ground arith)
find_row-map p f (x ∷ rows) r h e = ground (arith, h x, find_row-map p f rows r h)

find_row-append :
    (p : Row → Bool) (rows more : List Row) (r : Row)
    → find_row p rows ≡ some r
    → find_row p (rows ++ more) ≡ some r
unfolding find_row
find_row-append p [] more r e = absurd (ground arith)
find_row-append p (x ∷ rows) more r e = ground (arith, find_row-append p rows more r)

-- After `ack` of a row that is there, a waiter is told COMPLETED with the result's blob and metrics and no error,
-- whatever status and error the result has.
pub poll-ack :
    (now : ℕ) (id : String) (result : JobResult) (r : Row) (q : SqliteQueue)
    → find_row (has_id id) q.rows ≡ some r
    → poll id (ack now id result q)
      ≡ some (record {
        job_id = id;
        status = JobStatus.completed;
        result = result.result;
        error = none;
        metrics = json_metrics result.metrics;
      })
unfolding poll ack
poll-ack now id result r q e =
    let found = find_row-In (has_id id) q.rows r e in
    let after =
      find_row-map (has_id id) (λ x. if has_id id x then to_completed now result x else x) q.rows r
        (λ x. ground arith) e in
    let own : has_id id r ≡ true = found.1 in ground arith

-- Two rows of one id are in the same state.
module _ (q : SqliteQueue) (v : Inv q) where
  same_row :
      (id : String) (p : Row → Bool) (a b : Row)
      → In a q.rows
      → In b q.rows
      → has_id id a ≡ true
      → has_id id b ≡ true
      → p a ≡ true
      → p b ≡ true
  same_row id p a b i j ca cb pa = elim (Bool-cases (p b)) [
    | inl c ↦ c
    | inr c ↦ absurd (
        omega (
          arith,
          v.ids id,
          count_of_In (λ x. has_id id x && p x) a q.rows i (ground arith),
          count_of_In (λ x. has_id id x && not (p x)) b q.rows j (ground arith),
          count_disjoint (λ x. has_id id x && p x) (λ x. has_id id x && not (p x)) (has_id id)
              q.rows (λ x. exclusive (has_id id x) (p x)),
        ))
  ]
    where
      exclusive : (a b : Bool) → one_if (a && b) + one_if (a && not b) ≤ one_if a
      exclusive a b = ground arith

  -- A finished row keeps its answer under an UPDATE of rows that are not finished.
  abbrev is_finished : Row → Bool
  is_finished r = not (is_queued r.state) && not (is_inflight r.state)

  poll-In :
      (id : String) (answer : JobResult)
      → poll id q ≡ some answer
      → (r : Row) × (find_row (has_id id) q.rows ≡ some r) × (is_finished r ≡ true)
  unfolding poll
  poll-In id answer e = elim (Option-cases (find_row (has_id id) q.rows)) [
    | inl n ↦ absurd (ground arith)
    | inr (r, n) ↦ (r, n, ground arith)
  ]

  update-poll :
      (id : String) (answer : JobResult) (f : Row → Row)
      → ((x : Row) → (f x).job_id ≡ x.job_id)
      → ((x : Row) → In x q.rows → has_id id x ≡ true → is_finished x ≡ true → f x ≡ x)
      → poll id q ≡ some answer
      → poll id (record q { rows = map f q.rows }) ≡ some answer
  unfolding poll
  update-poll id answer f ids kept e =
      let (r, n, done) = poll-In id answer e in
      let (i, c) = find_row-In (has_id id) q.rows r n in
      let after = find_row-map (has_id id) f q.rows r (λ x. ground (arith, ids x)) n in
      let whole : find_row (has_id id) (map f q.rows) ≡ find_row (has_id id) q.rows =
        after ∙ ap (λ x. some x) (kept r i c done) ∙ sym n in
      ap (answer_of id) whole ∙ e

release-poll :
    (id : String) (answer : JobResult) (now now_pins : ℕ) (q : SqliteQueue)
    → Inv q
    → poll id q ≡ some answer
    → poll id (release_expired_pins now_pins (release_expired now q)) ≡ some answer
unfolding release_expired_pins release_expired is_expired poll
release-poll id answer now now_pins q v e =
    update-poll q v id answer (λ r. if is_expired now r then to_queued r else r) (λ x. ground arith)
      (λ x i c done. ground arith) e

take-poll :
    (id : String) (answer : JobResult) (worker : String) (deadline : ℕ) (l : List Row)
    (q : SqliteQueue)
    → Inv q
    → All (λ r. In r q.rows × (is_queued r.state ≡ true)) l
    → poll id q ≡ some answer
    → poll id (take_first worker deadline l q).0 ≡ some answer
unfolding take_first
take-poll id answer worker deadline [] q v all e = e
take-poll id answer worker deadline (best ∷ l) q v ((i, waits), all) e =
    update-poll q v id answer
      (λ r. if has_id best.job_id r then to_inflight worker deadline r else r) (λ x. ground arith)
      untouched e
  where
    untouched :
        (x : Row)
        → In x q.rows
        → has_id id x ≡ true
        → is_finished q v x ≡ true
        → (if has_id best.job_id x then to_inflight worker deadline x else x) ≡ x
    untouched x j c done = elim (Bool-cases (has_id best.job_id x)) [
      | inr other ↦ ground arith
      | inl own ↦
          let same_state =
            same_row q v best.job_id (λ r. is_queued r.state) best x i j (ground arith) own waits in
          absurd (ground arith)
    ]

candidate-queued :
    (worker : String) (model_filter : Option String) (q : SqliteQueue) (r : Row)
    → is_candidate worker model_filter q r ≡ true
    → is_queued r.state ≡ true
unfolding is_candidate
candidate-queued worker model_filter q r c = ground arith

dequeue-poll :
    (id : String) (answer : JobResult) (worker : String) (model_filter : Option String)
    (timeout now now_pins now_lease : ℕ) (q : SqliteQueue)
    → Inv q
    → poll id q ≡ some answer
    → poll id (dequeue worker model_filter timeout now now_pins now_lease q).0 ≡ some answer
unfolding dequeue
dequeue-poll id answer worker model_filter timeout now now_pins now_lease q v e =
    let free = release_expired_pins now_pins (release_expired now q) in
    take-poll id answer worker (now_lease + 1000 * timeout) (candidates worker model_filter free)
      free (release-Inv now now_pins q v)
      (All-impl _ (λ r. In r free.rows × (is_queued r.state ≡ true)) _
        (λ r h. (h.0, candidate-queued worker model_filter free r h.1))
        (candidates-All worker model_filter free))
      (release-poll id answer now now_pins q v e)

nack-poll :
    (id : String) (answer : JobResult) (now : ℕ) (other error : String) (q : SqliteQueue)
    → Inv q
    → poll id q ≡ some answer
    → poll id (nack now other error q) ≡ some answer
unfolding nack
nack-poll id answer now other error q v e =
    elim (Option-cases (find_row (λ r. has_id other r && is_inflight r.state) q.rows)) [
      | inl n ↦ rw (n, nack) e
      | inr (r, n) ↦
          let (i, c) = find_row-In (λ x. has_id other x && is_inflight x.state) q.rows r n in
          let f : Row → Row =
            if leb q.max_attempts (r.attempts + 1)
            then to_failed (r.attempts + 1) error now
            else to_retried (r.attempts + 1) error in
          rw (n, nack)
            (update-poll q v id answer (λ x. if has_id other x then f x else x)
              (λ x. keeps_id r x (leb q.max_attempts (r.attempts + 1)))
              (λ x j d done. untouched r x i c j done f) e)
    ]
  where
    keeps_id :
        (r x : Row) (b : Bool)
        → (if has_id other x
            then (if b
                  then to_failed (r.attempts + 1) error now
                  else to_retried (r.attempts + 1) error)
                x
            else x).job_id
          ≡ x.job_id
    keeps_id r x b = ground arith

    untouched :
        (r x : Row)
        → In r q.rows
        → (has_id other r && is_inflight r.state) ≡ true
        → In x q.rows
        → is_finished q v x ≡ true
        → (f : Row → Row) → (if has_id other x then f x else x) ≡ x
    untouched r x i c j done f = elim (Bool-cases (has_id other x)) [
      | inr apart ↦ ground arith
      | inl own ↦
          let same_state =
            same_row q v other (λ y. is_inflight y.state) r x i j (ground arith) own
              (ground arith) in
          absurd (ground arith)
    ]

-- An answer that a waiter could read stays what it is under every transaction of the methods, but
-- for another `ack` of the same job.
pub answer_stays :
    (id : String) (answer : JobResult) {q q' : SqliteQueue}
    → Step q q'
    → Inv q
    → poll id q ≡ some answer
    → (poll id q' ≡ some answer) ⊎ ((now : ℕ) × (result : JobResult) × (q' ≡ ack now id result q))
unfolding next_seq insert_job poll ack set_accum_pin clear_accum_pin
answer_stays id answer numbered v e = inl e
answer_stays id answer {q} (inserted seq job) v e =
    inl (elim (Bool-cases (ltb 0 (count (has_id job.job_id) q.rows))) [
      | inl there ↦ rw there e
      | inr new ↦
          let (r, n, done) = poll-In q v id answer e in
          rw new (
            ap (answer_of id)
              (find_row-append (has_id id) q.rows (new_row seq job ∷ []) r n ∙ sym n)
            ∙ e)
    ])
answer_stays id answer {q} (moved (dequeued worker model_filter timeout now now_pins now_lease)) v
      e =
    inl (dequeue-poll id answer worker model_filter timeout now now_pins now_lease q v e)
answer_stays id answer {q} (moved (acked now other result)) v e = elim (name_eq other id) [
  | yes p ↦ inr (now, result, ap (λ x. ack now x result q) p)
  | no d ↦ inl (
      update-poll q v id answer (λ r. if has_id other r then to_completed now result r else r)
        (λ x. ground arith) (λ x i c fin. ground arith) e)
]
answer_stays id answer {q} (moved (nacked now other error)) v e =
    inl (nack-poll id answer now other error q v e)
answer_stays id answer (moved (pinned now ttl session worker)) v e = inl e
answer_stays id answer (moved (unpinned session)) v e = inl e
