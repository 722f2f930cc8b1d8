-- ===== src/SqliteQueue/Heads.antt =====
-- What `dequeue` picks: the WHERE clause and the ORDER BY clause against a description without them.
use hatchery_core.Common.{
  ℕ, ◌+◌, ◌*◌, ◌≤◌, ◌<◌, ◌≡◌, ◌⊎◌, refl, sym, subst, ap, String, true, false, List, [], ◌∷◌, Option,
  none, some, ltb, arith, inl, inr, In, All, All-In, In-filter, Bool-cases, Option-cases,
  if◌then◌else◌,
}
use hatchery_core.Common.Dict.{get}
use hatchery_core.Common.Sort.{sort_by-IsSorted, IsSorted, In-sort_by}
use hatchery_core.Common.Count.{count, count_of_In, In-of_count}
use hatchery_core.Protocols.{QueuedJob}
use hatchery_core.SqliteQueue.Table.{Row, SqliteQueue, is_queued, row_to_job}
use hatchery_core.SqliteQueue.Methods.{
  queued_of, inflight_of, min_seq, is_head, pin_allows, fits, is_candidate, preference, before,
  candidates, take_first, dequeue, release_expired, release_expired_pins,
}
use hatchery_core.SqliteQueue.Taking.{candidates-All}

-- The minimum is the number of a queued row of the session, and at most that of each.
min_seq-In :
    (s : String) (rows : List Row) (m : ℕ)
    → min_seq s rows ≡ some m
    → (r : Row) × In r rows × (queued_of s r ≡ true) × (r.seq ≡ m)
unfolding min_seq
min_seq-In s [] m e = absurd (ground arith)
min_seq-In s (x ∷ rows) m e = elim (Bool-cases (queued_of s x)) [
  | inr other ↦ let (r, i, c, n) = min_seq-In s rows m (ground arith) in (r, inr i, c, n)
  | inl own ↦ elim (Option-cases (min_seq s rows)) [
    | inl none_left ↦ (x, inl refl, own, ground arith)
    | inr (k, at) ↦ elim (Bool-cases (ltb k x.seq)) [
      | inl less ↦ let (r, i, c, n) = min_seq-In s rows k at in (r, inr i, c, ground arith)
      | inr more ↦ (x, inl refl, own, ground arith)
    ]
  ]
]

min_seq-le :
    (s : String) (rows : List Row) (r : Row)
    → In r rows
    → queued_of s r ≡ true
    → (m : ℕ) × (min_seq s rows ≡ some m) × (m ≤ r.seq)
unfolding min_seq
min_seq-le s [] r i c = absurd i
min_seq-le s (x ∷ rows) r (inl e) c =
    let own : queued_of s x ≡ true = subst (λ y. queued_of s y ≡ true) (sym e) c in
    let number : x.seq ≡ r.seq = ap (λ y. y.seq) e in
    elim (Option-cases (min_seq s rows)) [
      | inl none_left ↦ (x.seq, ground arith, ground arith)
      | inr (k, at) ↦ (if ltb k x.seq then k else x.seq, ground arith, ground arith)
    ]
min_seq-le s (x ∷ rows) r (inr i) c =
    let (k, at, le) = min_seq-le s rows r i c in
    elim (Bool-cases (queued_of s x)) [
      | inl own ↦ (if ltb k x.seq then k else x.seq, ground arith, ground arith)
      | inr other ↦ (k, ground arith, le)
    ]

module _ (worker : String) (model_filter : Option String) (q : SqliteQueue) where
  -- A row that the worker may have: the oldest queued one of a session in which nothing is in flight,
  -- not pinned to another worker, and of a model that it serves.
  pub record IsEligible (r : Row) : Type 0 where
    pub listed : In r q.rows
    pub waits : is_queued r.state ≡ true
    pub oldest : (x : Row) → In x q.rows → queued_of r.session_id x ≡ true → r.seq ≤ x.seq
    pub idle : (x : Row) → In x q.rows → inflight_of r.session_id x ≡ false
    pub unpinned : pin_allows worker (get r.session_id q.pins) ≡ true
    pub served : fits model_filter r ≡ true

  is_head-oldest :
      (r x : Row)
      → is_head q.rows r ≡ true
      → In x q.rows
      → queued_of r.session_id x ≡ true
      → r.seq ≤ x.seq
  unfolding is_head
  is_head-oldest r x h i c = let (m, at, le) = min_seq-le r.session_id q.rows x i c in ground arith

  oldest-is_head :
      (r : Row)
      → In r q.rows
      → is_queued r.state ≡ true
      → ((x : Row) → In x q.rows → queued_of r.session_id x ≡ true → r.seq ≤ x.seq)
      → is_head q.rows r ≡ true
  unfolding is_head
  oldest-is_head r i w old =
      let (m, at, le) = min_seq-le r.session_id q.rows r i (ground arith) in
      let (x, j, c, n) = min_seq-In r.session_id q.rows m at in
      let more : r.seq ≤ x.seq = old x j c in ground arith

  idle_rows :
      (s : String) (x : Row)
      → count (inflight_of s) q.rows ≡ 0
      → In x q.rows
      → inflight_of s x ≡ false
  idle_rows s x zero_rows i = elim (Bool-cases (inflight_of s x)) [
    | inl c ↦ absurd (omega (arith, count_of_In (inflight_of s) x q.rows i c, zero_rows))
    | inr c ↦ c
  ]

  count_none :
      (s : String)
      → ((x : Row) → In x q.rows → inflight_of s x ≡ false)
      → count (inflight_of s) q.rows ≡ 0
  count_none s h = elim (Bool-cases (ltb 0 (count (inflight_of s) q.rows))) [
    | inl some_row ↦
        let (x, i, c) = In-of_count (inflight_of s) q.rows (ground arith) in
        let d : inflight_of s x ≡ false = h x i in absurd (ground arith)
    | inr no_row ↦ ground arith
  ]

  candidate-IsEligible :
      (r : Row) → In r q.rows → is_candidate worker model_filter q r ≡ true → IsEligible r
  unfolding is_candidate
  candidate-IsEligible r i c = record {
    listed = i;
    waits = ground arith;
    oldest = λ x. is_head-oldest r x (ground arith);
    idle = λ x. idle_rows r.session_id x (ground arith);
    unpinned = ground arith;
    served = ground arith;
  }

  IsEligible-candidate : (r : Row) → IsEligible r → is_candidate worker model_filter q r ≡ true
  unfolding is_candidate
  IsEligible-candidate r e =
      let head = oldest-is_head r e.listed e.waits e.oldest in
      let idle = count_none r.session_id e.idle in
      let waits = e.waits in let unpinned = e.unpinned in let served = e.served in ground arith

  -- Higher priority; or the same, and this worker is preferred by `best` alone; or the same in both, and
  -- `best` was enqueued no later.
  abbrev pub Precedes : Row → Row → Type 0
  Precedes best r =
      (r.priority < best.priority)
      ⊎ ((r.priority ≡ best.priority)
          × ((preference worker best < preference worker r)
              ⊎ ((preference worker best ≡ preference worker r) × (best.seq ≤ r.seq))))

  before-Precedes : (best r : Row) → before worker r best ≡ false → Precedes best r
  unfolding before
  before-Precedes best r h = ground arith

  -- Nothing is taken exactly if no row is eligible, and a job that is taken is that of an eligible row
  -- that precedes every eligible one.
  abbrev pub IsBest : Option QueuedJob → Type 0
  IsBest none = (r : Row) → ¬ IsEligible r
  IsBest (some job) =
      (best : Row) × (job ≡ row_to_job best)
      × IsEligible best
      × ((r : Row) → IsEligible r → Precedes best r)

  candidates-IsSorted : IsSorted (before worker) (candidates worker model_filter q)
  unfolding candidates before
  candidates-IsSorted =
      sort_by-IsSorted (before worker) (λ a b h. ground arith) (λ a b c h k. ground arith) _

  IsEligible-In : (r : Row) → IsEligible r → In r (candidates worker model_filter q)
  unfolding candidates
  IsEligible-In r e =
      In-sort_by (before worker) r _ (
        In-filter (is_candidate worker model_filter q) r q.rows (IsEligible-candidate r e) e.listed)

  take_first-IsBest :
      (deadline : ℕ) (l : List Row)
      → All (λ r. In r q.rows × (is_candidate worker model_filter q r ≡ true)) l
      → IsSorted (before worker) l
      → ((r : Row) → IsEligible r → In r l)
      → IsBest (take_first worker deadline l q).1
  unfolding take_first
  take_first-IsBest deadline [] all sorted complete = complete
  take_first-IsBest deadline (best ∷ l) ((i, c), all) (first, sorted) complete = (
    best,
    refl,
    candidate-IsEligible best i c,
    λ r e. elim (complete r e) [
      | inl p ↦ subst (Precedes best) p (inr (refl, inr (refl, omega arith)))
      | inr j ↦ before-Precedes best r (All-In _ r l first j)
    ],
  )

-- `dequeue` returns, and after the late leases and pins are released it takes a row that is eligible and precedes
-- every eligible one, or nothing exactly if no row is eligible.
pub dequeue-IsBest :
    (worker : String) (model_filter : Option String) (timeout now now_pins now_lease : ℕ)
    (q : SqliteQueue)
    → IsBest worker model_filter
        (release_expired_pins now_pins (release_expired now q))
        (dequeue worker model_filter timeout now now_pins now_lease q).1
unfolding dequeue
dequeue-IsBest worker model_filter timeout now now_pins now_lease q =
    let free = release_expired_pins now_pins (release_expired now q) in
    take_first-IsBest worker model_filter free (now_lease + 1000 * timeout)
      (candidates worker model_filter free) (candidates-All worker model_filter free)
      (candidates-IsSorted worker model_filter free) (IsEligible-In worker model_filter free)
