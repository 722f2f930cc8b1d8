-- ===== src/Queue/Selection.antt =====
-- `dequeue` under its second lock: it never raises, hands out the best job that the worker may have,
-- and nothing only if there is no such job.
use hatchery_core.Common.{
  ℕ, ◌*◌, ◌+◌, ◌≡◌, refl, subst, String, Bool, true, false, not, List, [], ◌∷◌, Option, none, some,
  All, In, All-In, All-filter, All-impl, In-filter, arith, inl, inr,
}
use hatchery_core.Common.Dict.{Dict, get, get_or, weight-le-total}
use hatchery_core.Common.Errors.{Result, ok}
use hatchery_core.Common.Sort.{sort_by, All-sort_by, In-sort_by, sort_by-IsSorted, IsSorted}
use hatchery_core.Protocols.{QueuedJob}
use hatchery_core.Queue.State.{JobQueue, Pin}
use hatchery_core.Queue.Dequeue.{Readings, visible, is_reserved, key_lt, take_first, select}
use hatchery_core.Queue.Invariant.{Inv, count_id}
use hatchery_core.Queue.Invariant.Leases.{take_lease, take_lease-Inv}
use hatchery_core.Queue.Lines.{line}
use hatchery_core.Queue.Lines.Moves.{line-take_lease}
use hatchery_core.Queue.Candidates.{
  pin_allows, entries, IsOffered, candidates-IsOffered, candidates_complete,
}

module _ (worker : String) (fs : List String) (seq : Dict ℕ) where
  key_lt-asym :
      (a b : QueuedJob) → key_lt worker fs seq a b ≡ true → key_lt worker fs seq b a ≡ false
  unfolding key_lt
  key_lt-asym a b h = ground arith

  key_lt_irrefl : (a : QueuedJob) → key_lt worker fs seq a a ≡ false
  unfolding key_lt
  key_lt_irrefl a = ground arith

  key_lt-total :
      (a b c : QueuedJob)
      → key_lt worker fs seq b a ≡ false
      → key_lt worker fs seq c b ≡ false
      → key_lt worker fs seq c a ≡ false
  unfolding key_lt
  key_lt-total a b c h k = ground arith

-- The deques of a queue with the invariant, as the loop meets them.
listed :
    (q : JobQueue)
    → Inv q
    → (d : Dict (List QueuedJob)) → All (λ e. get e.0 q.session_queues ≡ some e.1) d
    → All (λ e. (get e.0 q.session_queues ≡ some e.1) × All (λ job. job.session_id ≡ e.0) e.1) d
listed q v [] h = tt
listed q v ((s, dq) ∷ d) h = (
  (h.0, subst (λ o. All (λ job. job.session_id ≡ s) (get_or [] o)) h.0 (v.own s)),
  listed q v d h.1,
)

pub pins-Inv : (q : JobQueue) (pins : Dict Pin) → Inv q → Inv (record q { accum_pins = pins })
pins-Inv q pins v = record {
  own = v.own;
  locked = v.locked;
  locks = v.locks;
  stashed = v.stashed;
  unique = v.unique;
  distinct = v.distinct;
  sessions = v.sessions;
  answered = v.answered;
}

module _ (worker : String) (fs : List String) (t : Readings) (q : JobQueue) where
  abbrev pub allowed_by : String → Bool
  allowed_by s = pin_allows worker t.pin (get s q.accum_pins)

  -- A job that the worker may have now: the head of the deque of an idle session, of a model that
  -- it serves, not pinned to another worker, and not in the window of another worker.
  pub record IsEligible (job : QueuedJob) : Type 0 where
    pub offered : IsOffered worker fs t.pin q.inflight_by_session q.session_queues allowed_by job
    pub open_to : is_reserved worker fs t.affinity job ≡ false

  visible-IsEligible : Inv q → All IsEligible (visible worker fs t q)
  unfolding visible
  visible-IsEligible v =
      All-impl _ IsEligible _ (λ job h. record { offered = h.0; open_to = ground arith })
        (All-filter _ (λ job. not (is_reserved worker fs t.affinity job)) _
          (candidates-IsOffered worker fs t.pin q.inflight_by_session q.session_queues allowed_by
            q.session_queues q.accum_pins (λ r. refl)
            (listed q v q.session_queues (entries q.session_queues v.sessions))))

  IsEligible-visible : (job : QueuedJob) → IsEligible job → In job (visible worker fs t q)
  unfolding visible
  IsEligible-visible job h =
      In-filter (λ j. not (is_reserved worker fs t.affinity j)) job _ (rw h.open_to)
        (candidates_complete worker fs t.pin q.inflight_by_session q.session_queues allowed_by
          q.session_queues q.accum_pins job.session_id job h.offered.rest (λ r. refl) h.offered.head
          h.offered.idle h.offered.fits h.offered.allowed)

  -- Nothing is handed out only if no job is eligible, and a job that is handed out is eligible and
  -- no eligible job comes before it.
  abbrev pub IsBest : Option QueuedJob → Type 0
  IsBest none = (job : QueuedJob) → ¬ IsEligible job
  IsBest (some best) =
      IsEligible best
      × ((job : QueuedJob) → IsEligible job → key_lt worker fs q.seq job best ≡ false)

  abbrev Outcome : Result (JobQueue × Option QueuedJob) → Type 0
  Outcome r =
      (q' : JobQueue) × (best : Option QueuedJob) × (r ≡ ok (q', best))
      × Inv q'
      × ((s : String) → line s q' ≡ line s q)
      × IsBest best

  not-leased :
      (job : QueuedJob) (rest : List QueuedJob)
      → Inv q
      → get job.session_id q.session_queues ≡ some (job ∷ rest)
      → get job.job_id q.inflight ≡ none
  not-leased job rest v head = ground (
    arith,
    weight-le-total (count_id job.job_id) job.session_id q.session_queues,
    v.unique job.job_id,
  )

  take_first-Outcome :
      (timeout : ℕ) (pins : Dict Pin) (l : List QueuedJob)
      → Inv q
      → All IsEligible l
      → ((job : QueuedJob) → IsEligible job → In job l)
      → IsSorted (key_lt worker fs q.seq) l
      → Outcome (take_first worker fs t.lease timeout (record q { accum_pins = pins }) l)
  unfolding take_first
  take_first-Outcome timeout pins [] v all complete sorted =
      (record q { accum_pins = pins }, none, refl, pins-Inv q pins v, λ s. refl, complete)
  take_first-Outcome timeout pins (best ∷ others) v all complete sorted =
      let q₀ : JobQueue = record q { accum_pins = pins } in
      let o = all.0.offered in
      (
        take_lease best q₀ worker (t.lease + 1000 * timeout) o.rest,
        some best,
        rw o.head,
        take_lease-Inv best q₀ worker (t.lease + 1000 * timeout) o.rest (pins-Inv q pins v) o.head
            o.idle,
        λ s.
            line-take_lease best q₀ s worker (t.lease + 1000 * timeout) o.rest (pins-Inv q pins v)
              o.head o.idle (not-leased best o.rest v o.head),
        (
          all.0,
          λ job e. elim (complete job e) [
            | inl same_job ↦
                subst (λ j. key_lt worker fs q.seq j best ≡ false) same_job
                  (key_lt_irrefl worker fs q.seq best)
            | inr later ↦ All-In _ job others sorted.0 later
          ],
        ),
      )

  -- In every state of the invariant `dequeue` under its second lock returns, keeps the invariant and
  -- every session's line, and hands out a best eligible job, or nothing if no job is eligible.
  pub select-ok :
      (timeout : ℕ)
      → Inv q
      → (q' : JobQueue) × (best : Option QueuedJob) × (select worker fs t timeout q ≡ ok (q', best))
        × Inv q'
        × ((s : String) → line s q' ≡ line s q)
        × IsBest best
  unfolding select
  select-ok timeout v =
      take_first-Outcome timeout _ (sort_by (key_lt worker fs q.seq) (visible worker fs t q)) v
        (All-sort_by (key_lt worker fs q.seq) IsEligible _ (visible-IsEligible v))
        (λ job e. In-sort_by (key_lt worker fs q.seq) job _ (IsEligible-visible job e))
        (sort_by-IsSorted (key_lt worker fs q.seq) (key_lt-asym worker fs q.seq)
          (key_lt-total worker fs q.seq) _)
