-- ===== src/Tinker/Examples.antt =====
-- A retried `forward_backward`, with a request of another session before it.
use hatchery_core.Common.{String, ℕ, [], none, some}
use hatchery_core.Tinker.Futures.{FutureEntry, Tables}
use hatchery_core.Tinker.Retries.{Call}

abbrev entry : String → FutureEntry (Unit {0}) (Unit {0})
entry job_id = record {
  job_id = job_id;
  user_id = "ann";
  operation = "forward_backward";
  inline_result = none;
  pre_op_contexts = none;
  session = none;
  created_at = 0;
}

abbrev call : ℕ → String → String → String → Call (Unit {0}) (Unit {0})
call now future_id session_id job_id = record {
  now = now;
  future_id = future_id;
  session_id = session_id;
  seq_id = some 3;
  entry = entry job_id;
}

abbrev tables : Tables (Unit {0}) (Unit {0})
tables = record {
  futures = record { entries = []; reg_count = 0 };
  tracker = record { seen = []; ts = []; check_count = 0 };
}

abbrev first : Call (Unit {0}) (Unit {0})
first = call 1000 "fut_1" "s1" "j1"

abbrev again : Call (Unit {0}) (Unit {0})
again = call 9000 "fut_3" "s1" "j3"

abbrev between : Call (Unit {0}) (Unit {0})
between = call 5000 "fut_2" "s2" "j2"
