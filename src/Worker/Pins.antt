-- ===== src/Worker/Pins.antt =====
-- The gradients that a job leaves on a worker keep its session there: `_ack_completed_job` and
-- `_update_accum_pin` of hatchery/core/worker.py and `dequeue` of
-- hatchery/core/backends/queue/memory.py.
use hatchery_core.Common.{ℕ, ◌+◌, ◌≡◌, ◌⊎◌, String, List, [], ◌∷◌, Option, true, none, some}
use hatchery_core.Common.Dict.{get, get-insert_self}
use hatchery_core.Common.Errors.{Result, ok, raise}
use hatchery_core.Protocols.{QueuedJob, JobResult}
use hatchery_core.Queue.State.{JobQueue, Pin, member, set_accum_pin}
use hatchery_core.Queue.Invariant.{Inv}
use hatchery_core.Queue.Selection.{pins-Inv}
use hatchery_core.Worker.Jobs.{
  Runtime, WorkerState, accum_pinning_ops, update_accum_pin, answer_steps, process_one,
}

abbrev pin_of : ℕ → String → Pin
pin_of now worker_id = record { owner = worker_id; expires = now + 600000 }

-- The states that are met while the calls are run: at the start, after each call, and when the next
-- one begins.
unfoldable pub met : (JobQueue → JobQueue) → List (JobQueue → JobQueue) → JobQueue → List JobQueue
met between [] q = q ∷ []
met between (f ∷ []) q = q ∷ f q ∷ []
met between (f ∷ g ∷ fs) q = q ∷ f q ∷ met between (g ∷ fs) (between (f q))

given_of : Result (JobQueue × Option QueuedJob) → Option QueuedJob
given_of (ok (q, best)) = best
given_of (raise e) = none

pub update_accum_pin-pin :
    (now : ℕ) (worker : String) (job : QueuedJob) (q : JobQueue)
    → member job.operation accum_pinning_ops ≡ true
    → Inv q
    → Inv (update_accum_pin now worker job q)
      × (get job.session_id (update_accum_pin now worker job q).accum_pins
          ≡ some (pin_of now worker))
unfolding update_accum_pin set_accum_pin
update_accum_pin-pin now worker job q pinning v =
    rw pinning (pins-Inv q _ v, get-insert_self job.session_id (pin_of now worker) q.accum_pins)

-- A state of the invariant in which the session is locked by the job, or pinned to the worker.
abbrev IsGuarded : String → String → String → ℕ → JobQueue → Type 0
IsGuarded session id worker now q =
    Inv q
    × ((get session q.inflight_by_session ≡ some id)
        ⊎ (get session q.accum_pins ≡ some (pin_of now worker)))

module _ {W P : Type 0} (env : Runtime W P) (now handler_ms job_ms : ℕ)
    (later between : JobQueue → JobQueue) (job : QueuedJob) (w : WorkerState W)
    (result : JobResult) where
  -- The queue when the pin is set, and the states from the handler's end to the end of the answer.
  abbrev pub pinned_queue : JobQueue
  pinned_queue = update_accum_pin now w.worker_id job (later w.queue)

  abbrev pub answering : List JobQueue
  answering =
      (process_one env now handler_ms job_ms later between job w).queue
      ∷ met between (answer_steps now w.worker_id job result) (later w.queue)
