-- ===== src/SqliteQueue/Methods.antt =====
-- The methods of `SQLiteJobQueue` in hatchery/core/backends/queue/sqlite.py.
use hatchery_core.Common.{
  ℕ, suc, ◌+◌, ◌*◌, String, Bool, true, false, not, ◌&&◌, ◌||◌, List, [], ◌∷◌, ◌++◌, Option, none,
  some, filter, ltb, leb, ◌==◌, same, if◌then◌else◌,
}
use hatchery_core.Common.Dict.{Dict, get, insert, remove}
use hatchery_core.Common.Errors.{Result, ok, raise, value_error}
use hatchery_core.Common.Count.{count}
use hatchery_core.Common.Sort.{sort_by}
use hatchery_core.Protocols.{QueuedJob, JobResult, JobStatus}
use hatchery_core.Queue.State.{Pin, stamp}
use hatchery_core.SqliteQueue.Table.{
  Row, RowState, SqliteQueue, is_queued, is_inflight, update_where, row_to_job, new_row,
}

abbrev pub has_id : String → Row → Bool
has_id id r = same r.job_id id

-- `_next_seq`, a transaction of its own: the new value of the counter.
unfoldable pub next_seq : SqliteQueue → SqliteQueue × ℕ
next_seq q = (record q { counter = suc q.counter }, suc q.counter)

-- The INSERT, with a number that was drawn before; the primary key refuses a job id that is there,
-- which sqlite3 raises as its IntegrityError.
unfoldable pub insert_job : ℕ → QueuedJob → SqliteQueue → SqliteQueue × Result (Unit {0})
insert_job seq job q =
    if ltb 0 (count (has_id job.job_id) q.rows)
    then (q, raise value_error)
    else (record q { rows = q.rows ++ new_row seq job ∷ [] }, ok tt)

-- `between` is what other processes do between the two transactions.
unfoldable pub enqueue :
    ℕ → (SqliteQueue → SqliteQueue) → QueuedJob → SqliteQueue → SqliteQueue × Result (Unit {0})
unfolding stamp next_seq insert_job
enqueue now between job q =
    let (bumped, seq) = next_seq q in insert_job seq (stamp now job) (between bumped)

abbrev pub is_live_pin : ℕ → String × Pin → Bool
is_live_pin now e = not (leb (e.1).expires now)

unfoldable pub release_expired_pins : ℕ → SqliteQueue → SqliteQueue
release_expired_pins now q = record q { pins = filter (is_live_pin now) q.pins }

unfoldable pub set_accum_pin : ℕ → String → String → ℕ → SqliteQueue → SqliteQueue
set_accum_pin now session_id worker_id ttl q = record q {
  pins = insert session_id (record { owner = worker_id; expires = now + ttl }) q.pins;
}

unfoldable pub clear_accum_pin : String → SqliteQueue → SqliteQueue
clear_accum_pin session_id q = record q { pins = remove session_id q.pins }

unfoldable pub is_expired : ℕ → Row → Bool
is_expired now r =
    is_inflight r.state && elim r.visibility_deadline [ none ↦ false | some d ↦ leb d now ]

abbrev pub to_queued : Row → Row
to_queued r = record r { state = RowState.queued; worker_id = none; visibility_deadline = none }

unfoldable pub release_expired : ℕ → SqliteQueue → SqliteQueue
unfolding is_expired
release_expired now q = record q { rows = update_where (is_expired now) to_queued q.rows }

abbrev pub queued_of : String → Row → Bool
queued_of s r = is_queued r.state && same r.session_id s

abbrev pub inflight_of : String → Row → Bool
inflight_of s r = is_inflight r.state && same r.session_id s

-- `session_heads`: MIN(seq) over the queued rows of a session.
unfoldable pub min_seq : String → List Row → Option ℕ
min_seq s [] = none
min_seq s (r ∷ rows) =
    let rest = min_seq s rows in
    if queued_of s r
    then elim rest [ none ↦ some r.seq | some m ↦ some (if ltb m r.seq then m else r.seq) ]
    else rest

-- The join with `session_heads`
unfoldable pub is_head : List Row → Row → Bool
unfolding min_seq
is_head rows r = elim (min_seq r.session_id rows) [ none ↦ false | some m ↦ m == r.seq ]

-- NOT EXISTS a pin of the session whose worker is another one
abbrev pub pin_allows : String → Option Pin → Bool
pin_allows worker_id none = true
pin_allows worker_id (some p) = same p.owner worker_id

-- `required_model IS NULL OR required_model = ?`, where there is a filter
abbrev pub fits : Option String → Row → Bool
fits none r = true
fits (some m) r = elim r.required_model [ none ↦ true | some x ↦ same x m ]

-- The WHERE clause
unfoldable pub is_candidate : String → Option String → SqliteQueue → Row → Bool
unfolding is_head
is_candidate worker_id model_filter q r =
    is_queued r.state
    && (is_head q.rows r
        && (count (inflight_of r.session_id) q.rows == 0
            && (pin_allows worker_id (get r.session_id q.pins) && fits model_filter r)))

abbrev pub preference : String → Row → ℕ
preference worker_id r = elim r.preferred_worker [
  | none ↦ 1
  | some w ↦ if same w worker_id then 0 else 1
]

-- The ORDER BY clause: `a` stands before `b`.
unfoldable pub before : String → Row → Row → Bool
before worker_id a b =
    ltb b.priority a.priority
    || (a.priority == b.priority
        && (ltb (preference worker_id a) (preference worker_id b)
            || (preference worker_id a == preference worker_id b && ltb a.seq b.seq)))

unfoldable pub candidates : String → Option String → SqliteQueue → List Row
unfolding is_candidate before
candidates worker_id model_filter q =
    sort_by (before worker_id) (filter (is_candidate worker_id model_filter q) q.rows)

abbrev pub to_inflight : String → ℕ → Row → Row
to_inflight worker_id deadline r = record r {
  state = RowState.inflight;
  worker_id = some worker_id;
  visibility_deadline = some deadline;
}

-- LIMIT 1, and the UPDATE of the row
unfoldable pub take_first : String → ℕ → List Row → SqliteQueue → SqliteQueue × Option QueuedJob
take_first worker_id deadline [] q = (q, none)
take_first worker_id deadline (r ∷ others) q = (
  record q { rows = update_where (has_id r.job_id) (to_inflight worker_id deadline) q.rows },
  some (row_to_job r),
)

-- `now` is read for the leases, for the pins and for the deadline.
unfoldable pub dequeue :
    String → Option String → ℕ → ℕ → ℕ → ℕ → SqliteQueue → SqliteQueue × Option QueuedJob
unfolding release_expired release_expired_pins candidates take_first
dequeue worker_id model_filter timeout now now_pins now_lease q =
    let free = release_expired_pins now_pins (release_expired now q) in
    take_first worker_id (now_lease + 1000 * timeout) (candidates worker_id model_filter free) free

-- A dictionary that is empty is NULL.
abbrev pub json_metrics : Option (Dict String) → Option (Dict String)
json_metrics none = none
json_metrics (some []) = none
json_metrics (some (e ∷ d)) = some (e ∷ d)

abbrev pub to_completed : ℕ → JobResult → Row → Row
to_completed now result r = record r {
  state = RowState.completed;
  result = result.result;
  error = none;
  metrics = json_metrics result.metrics;
  completed_at = some now;
  worker_id = none;
  visibility_deadline = none;
}

unfoldable pub ack : ℕ → String → JobResult → SqliteQueue → SqliteQueue
ack now id result q = record q { rows = update_where (has_id id) (to_completed now result) q.rows }

-- The row of a job id; the ids are a primary key.
unfoldable pub find_row : (Row → Bool) → List Row → Option Row
find_row p [] = none
find_row p (r ∷ rows) = if p r then some r else find_row p rows

abbrev pub to_failed : ℕ → String → ℕ → Row → Row
to_failed attempts error now r = record r {
  state = RowState.failed;
  attempts = attempts;
  error = some error;
  completed_at = some now;
  worker_id = none;
  visibility_deadline = none;
}

abbrev pub to_retried : ℕ → String → Row → Row
to_retried attempts error r = record r {
  state = RowState.queued;
  attempts = attempts;
  error = some error;
  worker_id = none;
  visibility_deadline = none;
}

unfoldable pub nack : ℕ → String → String → SqliteQueue → SqliteQueue
unfolding find_row
nack now id error q = elim (find_row (λ r. has_id id r && is_inflight r.state) q.rows) [
  | none ↦ q
  | some r ↦
      let attempts = r.attempts + 1 in
      record q {
        rows =
            update_where (has_id id)
              (if leb q.max_attempts attempts
                then to_failed attempts error now
                else to_retried attempts error)
              q.rows;
      }
]

-- What a row says to a waiter.
unfoldable pub answer : String → Row → Option JobResult
answer id r = elim r.state [
  | RowState.completed ↦ some (record {
    job_id = id;
    status = JobStatus.completed;
    result = r.result;
    error = none;
    metrics = r.metrics;
  })
  | RowState.failed ↦ some (record {
    job_id = id;
    status = JobStatus.failed;
    result = none;
    error =
        some
          (elim r.error [ none ↦ "job failed" | some e ↦ if same e "" then "job failed" else e ]);
    metrics = none;
  })
  | RowState.queued ↦ none
  | RowState.inflight ↦ none
]

abbrev pub answer_of : String → Option Row → Option JobResult
answer_of id none = none
answer_of id (some r) = answer id r

-- One poll of `wait_for_result`: an answer, or none, and then it sleeps and polls again.
unfoldable pub poll : String → SqliteQueue → Option JobResult
unfolding find_row answer
poll id q = answer_of id (find_row (has_id id) q.rows)

-- The loop: the states at the polls, of which the last one is past the deadline.
unfoldable pub wait_for_result : String → String → List SqliteQueue → JobResult
unfolding poll
wait_for_result id message [] = record {
  job_id = id;
  status = JobStatus.timed_out;
  result = none;
  error = some message;
  metrics = none;
}
wait_for_result id message (q ∷ later) = elim (poll id q) [
  | some r ↦ r
  | none ↦ wait_for_result id message later
]

unfoldable pub get_queue_depth : Option String → SqliteQueue → ℕ
get_queue_depth model_filter q =
    count (λ r. (is_queued r.state || is_inflight r.state) && fits model_filter r) q.rows
