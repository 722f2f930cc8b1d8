-- ===== src/Queue/Dequeue.antt =====
-- `_requeue_expired` and `dequeue` of hatchery/core/backends/queue/memory.py. The two take the lock
-- one after the other, so each is a step of its own, and another task may run between them.
use hatchery_core.Common.{
  ℕ, ◌+◌, ◌*◌, String, Bool, true, false, not, ◌&&◌, ◌||◌, List, [], ◌∷◌, ◌++◌, Option, none, some,
  filter, ltb, leb, ◌==◌, same, if◌then◌else◌,
}
use hatchery_core.Common.Dict.{Dict, get, insert, remove, get_or, is_some, set_default, keys}
use hatchery_core.Common.Errors.{Result, ok, raise, key_error, index_error, or_raise, ◌>>=◌}
use hatchery_core.Common.Sort.{sort_by}
use hatchery_core.Protocols.{QueuedJob}
use hatchery_core.Queue.State.{JobQueue, Lease, Pin, ModelFilter, normalize_filter, accepts}

-- `_AFFINITY_WINDOW_S`, in milliseconds.
abbrev pub affinity_window : ℕ
affinity_window = 2000

-- The job is put back at the head of the deque of its session.
push_back : Option QueuedJob → String → Dict (List QueuedJob) → Dict (List QueuedJob)
push_back none s queues = set_default s [] queues
push_back (some job) s queues = insert s (job ∷ get_or [] (get s queues)) queues

-- One round of the loop over `expired`.
unfoldable pub release_one : String → JobQueue → Result JobQueue
unfolding push_back
release_one id q = do
  lease ← or_raise (get id q.inflight) key_error
  ok (record q {
    inflight = remove id q.inflight;
    inflight_by_session = remove lease.session_id q.inflight_by_session;
    session_queues = push_back (get id q.pending_expired) lease.session_id q.session_queues;
    pending_expired = remove id q.pending_expired;
  })

unfoldable pub release_all : List String → JobQueue → Result JobQueue
release_all [] q = ok q
release_all (id ∷ ids) q = do q' ← release_one id q; release_all ids q'

unfoldable pub expired_ids : ℕ → Dict Lease → List String
expired_ids now d = keys (filter (λ e. leb (e.1).deadline now) d)

unfoldable pub requeue_expired : ℕ → JobQueue → Result JobQueue
unfolding release_all expired_ids
requeue_expired now q = release_all (expired_ids now q.inflight) q

-- The clock readings under the second lock: for the pins, for the affinity window, for the deadline.
pub record Readings : Type 0 where
  pub pin : ℕ
  pub affinity : ℕ
  pub lease : ℕ

module _ (worker_id : String) (filter_set : List String) where
  -- The pin's part of a round: whether the head may go to this worker, and the pins after it.
  unfoldable pub check_pin : ℕ → String → Dict Pin → Bool × Dict Pin
  check_pin now s pins = elim (get s pins) [
    | none ↦ (true, pins)
    | some p ↦ if leb p.expires now then (true, remove s pins) else (same p.owner worker_id, pins)
  ]

  -- One round of the loop over the session deques: the candidate, if there is one.
  unfoldable pub visit :
      ℕ → Dict String → String → List QueuedJob → Dict Pin → List QueuedJob × Dict Pin
  unfolding check_pin
  visit now inflight s [] pins = ([], pins)
  visit now inflight s (head ∷ rest) pins =
      if is_some (get s inflight)
      then ([], pins)
      else if not (accepts filter_set head)
      then ([], pins)
      else let (allowed, pins') = check_pin now s pins in (if allowed then head ∷ [] else [], pins')

  unfoldable pub candidates :
      ℕ → Dict String → Dict (List QueuedJob) → Dict Pin → List QueuedJob × Dict Pin
  unfolding visit
  candidates now inflight [] pins = ([], pins)
  candidates now inflight ((s, dq) ∷ queues) pins =
      let (found, pins') = visit now inflight s dq pins in
      let (more, pins'') = candidates now inflight queues pins' in (found ++ more, pins'')

  -- Within the window after its enqueueing a job is only for the worker that it prefers.
  unfoldable pub is_reserved : ℕ → QueuedJob → Bool
  is_reserved now job = elim job.preferred_worker [
    | none ↦ false
    | some w ↦
        not (same w "")
        && not (same w worker_id)
        && elim job.enqueued_at [ none ↦ false | some t ↦ ltb now (t + affinity_window) ]
  ]

  unfoldable pub affinity_bonus : QueuedJob → ℕ
  affinity_bonus job = elim job.preferred_worker [
    | none ↦ 1
    | some w ↦ if same w worker_id then 0 else 1
  ]

  -- The order of the tuples `_sort_key`: higher priority, own sessions, then the older job.
  unfoldable pub key_lt : Dict ℕ → QueuedJob → QueuedJob → Bool
  unfolding affinity_bonus
  key_lt seq a b =
      ltb b.priority a.priority
      || (a.priority == b.priority
          && (ltb (affinity_bonus a) (affinity_bonus b)
              || (affinity_bonus a == affinity_bonus b
                  && ltb (get_or 0 (get a.job_id seq)) (get_or 0 (get b.job_id seq)))))

  -- The head of the sorted list is popped from its deque and leased.
  unfoldable pub take_first :
      ℕ → ℕ → JobQueue → List QueuedJob → Result (JobQueue × Option QueuedJob)
  take_first now timeout q [] = ok (q, none)
  take_first now timeout q (selected ∷ others) = do
    dq ← or_raise (get selected.session_id q.session_queues) key_error
    elim dq [
      | [] ↦ raise index_error
      | first ∷ rest ↦ ok (
        record q {
          session_queues = insert selected.session_id rest q.session_queues;
          inflight =
              insert selected.job_id
                (record {
                  session_id = selected.session_id;
                  worker_id = worker_id;
                  deadline = now + 1000 * timeout;
                })
                q.inflight;
          inflight_by_session = insert selected.session_id selected.job_id q.inflight_by_session;
          pending_expired = insert selected.job_id selected q.pending_expired;
        },
        some selected,
      )
    ]

  unfoldable pub visible : Readings → JobQueue → List QueuedJob
  unfolding candidates is_reserved
  visible t q =
      filter (λ job. not (is_reserved t.affinity job))
        (candidates t.pin q.inflight_by_session q.session_queues q.accum_pins).0

  -- `dequeue` under its second lock
  unfoldable pub select : Readings → ℕ → JobQueue → Result (JobQueue × Option QueuedJob)
  unfolding candidates visible key_lt take_first
  select t timeout q =
      let pins = (candidates t.pin q.inflight_by_session q.session_queues q.accum_pins).1 in
      take_first t.lease timeout (record q { accum_pins = pins })
        (sort_by (key_lt q.seq) (visible t q))

unfoldable pub dequeue :
    String → ModelFilter → ℕ → ℕ → Readings → JobQueue → Result (JobQueue × Option QueuedJob)
unfolding requeue_expired select normalize_filter
dequeue worker_id model_filter timeout now t q = do
  q' ← requeue_expired now q
  select worker_id (normalize_filter model_filter) t timeout q'
