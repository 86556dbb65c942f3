-- ===== src/Execution/Session.antt =====
-- run_execution.py: `execute_existing_run` as a whole.
use text.Mathlib.Text.{◌==◌ as str_eq}
use runscope.Prelude.{ℕ, List, Option, some, if◌then◌else◌}
use runscope.Models.{Uuid, Timestamp, Run, TrainingTemplate}
use runscope.Models.Store.{Db, ok, err, runtime_error}
use runscope.Templates.{External, Validated, iris, slow}
use runscope.Execution.{Begin, skipped, started, begin_execution, finish_classification}
use runscope.Execution.Slow.{Outcome, settle, go_on, execute_slow_run}

abbrev pub found : Outcome Run → Outcome (Option Run)
found (ok run, db) = (ok (some run), db)
found (err e, db) = (err e, db)

module _ (external : External) (encode : ℕ → List ℕ) (now : Timestamp) (others : ℕ → Db → Db) where
  -- isinstance(validated, SlowDemoParameters)
  unfoldable pub run_slow : Run → Validated → Db → Outcome Run
  run_slow run (iris values) db =
      (err (runtime_error "Slow template parameters were not validated"), db)
  run_slow run (slow parameters) db = execute_slow_run external encode now others parameters run db

  -- While the template runs in its thread, other transactions commit.
  unfoldable pub run_template : Run → TrainingTemplate → Validated → Db → Outcome Run
  unfolding run_slow
  run_template run template validated db =
      if str_eq template.key "slow-demonstration"
      then run_slow run validated db
      else settle (finish_classification external now run template validated (others 0 db))
          (others 0 db)

  unfoldable pub execute_begun : Begin → Db → Outcome (Option Run)
  unfolding run_template
  execute_begun (skipped run) db = (ok run, db)
  execute_begun (started run template validated) db = found (run_template run template validated db)

  unfoldable pub execute_existing_run : Uuid → Option Uuid → Option Uuid → Db → Outcome (Option Run)
  unfolding execute_begun
  execute_existing_run run_id expected_worker_id lease_token db =
      go_on (settle (begin_execution external now run_id expected_worker_id lease_token db) db)
        execute_begun
