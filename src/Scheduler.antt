-- ===== src/Scheduler.antt =====
-- hatchery/core/scheduler.py: the record of a session's steps. The clock's reading is an argument;
-- durations are milliseconds, and a mean is rounded down.
use hatchery_core.Common.{
  ℕ, ◌+◌, ◌-◌, ◌/◌, String, List, [], ◌∷◌, ◌++◌, Option, none, some, length, drop, suc,
}
use hatchery_core.Common.Dict.{Dict, get, insert, get_or}

-- The tuple (time, operation, duration)
pub record Step : Type 0 where
  pub time : ℕ
  pub operation : String
  pub duration_ms : ℕ

pub record StepCadenceTracker : Type 0 where
  pub window_size : ℕ
  pub history : Dict (List Step)

-- `append` to a deque with a `maxlen`: the oldest goes.
abbrev pub push_bounded : ℕ → Step → List Step → List Step
push_bounded maxlen s l = drop (suc (length l) - maxlen) (l ++ s ∷ [])

unfoldable pub record_step : ℕ → String → String → ℕ → StepCadenceTracker → StepCadenceTracker
record_step now session_id operation duration_ms t = record t {
  history =
      insert session_id
        (push_bounded t.window_size
          (record { time = now; operation = operation; duration_ms = duration_ms })
          (get_or [] (get session_id t.history)))
        t.history;
}

unfoldable pub sum_durations : List Step → ℕ
sum_durations [] = 0
sum_durations (s ∷ l) = s.duration_ms + sum_durations l

unfoldable pub avg_duration_ms : String → StepCadenceTracker → Option ℕ
unfolding sum_durations
avg_duration_ms session_id t = elim (get session_id t.history) [
  | none ↦ none
  | some [] ↦ none
  | some (s ∷ l) ↦ some (sum_durations (s ∷ l) / length (s ∷ l))
]
