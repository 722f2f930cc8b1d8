-- ===== src/SqliteQueue/Examples.antt =====
-- A run on the tables: a job is enqueued, taken by a worker and settled.
use hatchery_core.Common.{ℕ, ◌≡◌, ◌⊎◌, refl, [], ◌∷◌, none, some, name_eq}
use hatchery_core.Common.Dict.{get}
use hatchery_core.Common.Sort.{sort_by}
use hatchery_core.Protocols.{QueuedJob, JobResult, JobStatus}
use hatchery_core.Queue.State.{stamp}
use hatchery_core.SqliteQueue.Table.{SqliteQueue, init, new_row}
use hatchery_core.SqliteQueue.Methods.{
  next_seq, insert_job, enqueue, release_expired, release_expired_pins, candidates, is_candidate,
  before, take_first, to_inflight, dequeue, ack, nack, find_row, poll,
}
use hatchery_core.SqliteQueue.Invariant.{Inv}
use hatchery_core.SqliteQueue.Single.{
  Reach, here, number, insert, move, dequeued, acked, nacked, moved, reachable-Inv,
}
use hatchery_core.SqliteQueue.Heads.{IsBest, dequeue-IsBest}
use hatchery_core.SqliteQueue.Outcomes.{poll-ack, answer_stays}

-- A job of a long context, which needs four GPUs.
abbrev long_job : QueuedJob
long_job = record {
  job_id = "j1";
  session_id = "s1";
  operation = "init_session";
  payload = 128 ∷ [];
  priority = 10;
  preferred_worker = none;
  required_model = some "m";
  estimated_duration_ms = none;
  user_id = some "u";
  enqueued_at = some 0;
  required_cp_degree = 4;
}

abbrev waiting : SqliteQueue
waiting = record { rows = new_row 1 long_job ∷ []; counter = 1; pins = []; max_attempts = 3 }

abbrev taken : SqliteQueue
taken = record waiting { rows = to_inflight "w" 300005 (new_row 1 long_job) ∷ [] }

enqueue-run : (enqueue 0 (λ q. q) long_job (init 3)).0 ≡ waiting
unfolding enqueue stamp
enqueue-run = refl

-- The column for the degree is missing, so the job comes out with the degree 1.
dequeue-run :
    dequeue "w" (some "m") 300 5 5 5 waiting
    ≡ (taken, some (record long_job { required_cp_degree = 1 }))
unfolding dequeue release_expired release_expired_pins candidates sort_by is_candidate before
    take_first name_eq get
dequeue-run = refl

-- Two calls draw their numbers, and the later one inserts its job first.
abbrev other_job : QueuedJob
other_job = record long_job { job_id = "j2"; session_id = "s2" }

abbrev both_drawn : SqliteQueue
both_drawn = (next_seq (next_seq (init 3)).0).0

abbrev both_stored : SqliteQueue
both_stored = (insert_job 1 long_job (insert_job 2 other_job both_drawn).0).0

both-Reach : Reach 3 [] both_stored
unfolding next_seq
both-Reach = insert [] 1 [] long_job (insert [] 2 (1 ∷ []) other_job (number (number here)))

reachable-Inv_example : Inv both_stored
reachable-Inv_example = reachable-Inv both-Reach

taken-Reach :
    Reach 3 [] (dequeue "w" (some "m") 300 5 5 5 (enqueue 0 (λ q. q) long_job (init 3)).0).0
unfolding enqueue next_seq
taken-Reach =
    move (dequeued "w" (some "m") 300 5 5 5) (insert [] 1 [] (stamp 0 long_job) (number here))

dequeue-IsBest_example :
    IsBest "w"
      (some "m")
      (release_expired_pins 5 (release_expired 5 waiting))
      (dequeue "w" (some "m") 300 5 5 5 waiting).1
dequeue-IsBest_example = dequeue-IsBest "w" (some "m") 300 5 5 5 waiting

-- The worker's answer to an operation that it does not know.
abbrev unknown : JobResult
unknown = record {
  job_id = "j1";
  status = JobStatus.failed;
  result = none;
  error = some "Unknown operation: init_session";
  metrics = none;
}

poll-ack_example :
    poll "j1" (ack 9 "j1" unknown taken)
    ≡ some (record {
      job_id = "j1";
      status = JobStatus.completed;
      result = none;
      error = none;
      metrics = none;
    })
unfolding find_row name_eq
poll-ack_example = poll-ack 9 "j1" unknown (to_inflight "w" 300005 (new_row 1 long_job)) taken refl

abbrev told : JobResult
told = record {
  job_id = "j1";
  status = JobStatus.completed;
  result = none;
  error = none;
  metrics = none;
}

abbrev settled_run : SqliteQueue
settled_run =
    ack 9 "j1" unknown (dequeue "w" (some "m") 300 5 5 5 (enqueue 0 (λ q. q) long_job (init 3)).0).0

settled-Inv : Inv settled_run
settled-Inv = reachable-Inv (move (acked 9 "j1" unknown) taken-Reach)

settled-poll : poll "j1" settled_run ≡ some told
unfolding enqueue stamp dequeue release_expired release_expired_pins candidates sort_by is_candidate
    before take_first ack poll name_eq get
settled-poll = refl

answer_stays_example :
    (poll "j1" (nack 10 "j1" "late" settled_run) ≡ some told)
    ⊎ ((now : ℕ) × (result : JobResult) × (nack 10 "j1" "late" settled_run
          ≡ ack now "j1" result settled_run))
answer_stays_example =
    answer_stays "j1" told (moved (nacked 10 "j1" "late")) settled-Inv settled-poll
