-- ===== src/Queue/Settle.antt =====
-- `ack`, `nack` and `wait_for_result` of hatchery/core/backends/queue/memory.py.
use hatchery_core.Common.{
  ℕ, ◌+◌, String, true, false, [], ◌∷◌, Option, none, some, leb, if◌then◌else◌,
}
use hatchery_core.Common.Dict.{get, insert, remove, get_or, set_default}
use hatchery_core.Common.Errors.{Result, ok, key_error, or_raise}
use hatchery_core.Protocols.{QueuedJob, JobResult, JobStatus}
use hatchery_core.Queue.State.{JobQueue, Lease}

-- A lease that ends: its two tables and the stashed job are cleared.
unfoldable pub drop_lease : String → Lease → JobQueue → JobQueue
drop_lease id lease q = record q {
  inflight = remove id q.inflight;
  inflight_by_session = remove lease.session_id q.inflight_by_session;
  pending_expired = remove id q.pending_expired;
}

-- `_results[id] = result`, and the event is set.
unfoldable pub publish : String → JobResult → JobQueue → JobQueue
publish id result q = record q {
  results = insert id result q.results;
  result_events = insert id true q.result_events;
}

unfoldable pub ack : String → JobResult → JobQueue → JobQueue
unfolding drop_lease publish
ack id result q =
    let q' : JobQueue = elim (get id q.inflight) [
      | none ↦ q
      | some lease ↦ drop_lease id lease q
    ] in
    publish id result (record q' { attempts = remove id q'.attempts })

abbrev pub failed_result : String → String → JobResult
failed_result id error = record {
  job_id = id;
  status = JobStatus.failed;
  result = none;
  error = some error;
  metrics = none;
}

-- The end of `nack`: give up, or put the job back at the head of its deque.
unfoldable pub retry : String → String → String → ℕ → Option QueuedJob → JobQueue → JobQueue
unfolding publish
retry id session_id error n none q = publish id (failed_result id error) q
retry id session_id error n (some job) q =
    if leb q.max_attempts n
    then publish id (failed_result id error)
        (record q { dead_letter = insert id (job, error) q.dead_letter })
    else record q {
      session_queues =
          insert session_id (job ∷ get_or [] (get session_id q.session_queues)) q.session_queues;
    }

unfoldable pub nack : String → String → JobQueue → JobQueue
unfolding drop_lease retry
nack id error q = elim (get id q.inflight) [
  | none ↦ q
  | some lease ↦
      let n = get_or 0 (get id q.attempts) + 1 in
      retry id lease.session_id error n (get id q.pending_expired)
        (record (drop_lease id lease q) { attempts = insert id n q.attempts })
]

-- The first part of `wait_for_result`, under the lock: the result if it is there, and else an event.
unfoldable pub begin_wait : String → JobQueue → JobQueue × Option JobResult
begin_wait id q = elim (get id q.results) [
  | some r ↦ (q, some r)
  | none ↦ (record q { result_events = set_default id false q.result_events }, none)
]

-- What ends the wait on the event: it is set, and the queue is then in this state, or time is up;
-- the text is the error message, which names the limit.
pub data Wake : Type 0 where
  signalled : JobQueue → Wake
  timeout : String → Wake

abbrev pub timeout_result : String → String → JobResult
timeout_result id message = record {
  job_id = id;
  status = JobStatus.timed_out;
  result = none;
  error = some message;
  metrics = none;
}

unfoldable pub end_wait : String → Wake → Result JobResult
end_wait id (signalled q) = or_raise (get id q.results) key_error
end_wait id (timeout message) = ok (timeout_result id message)

-- `later` is what the other tasks do until the wait ends.
unfoldable pub wait_for_result : String → (JobQueue → Wake) → JobQueue → Result JobResult
unfolding begin_wait end_wait
wait_for_result id later q =
    let (q', found) = begin_wait id q in
    elim found [ some r ↦ ok r | none ↦ end_wait id (later q') ]
