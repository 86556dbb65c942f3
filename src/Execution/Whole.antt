-- ===== src/Execution/Whole.antt =====
-- run_execution.py: the whole execution, among other transactions.
use text.Mathlib.Text.{◌==◌ as str_eq}
use runscope.Prelude.{
  ℕ, zero, suc, ◌+◌, ◌≡◌, refl, List, Option, none, some, inl, inr, arith, Bool-cases,
}
use runscope.Models.{
  Uuid, Timestamp, cancelled, succeeded, failed, cancelling, Run, TrainingTemplate, status_eq,
}
use runscope.Models.Store.{Db, Result, ok, err, get_run}
use runscope.Models.Store.Done.{Holds, Holds-and_then}
use runscope.Platform.{IsConsistent}
use runscope.Templates.{
  SlowDemoParameters, External, Validated, iris, slow, PutOutcome, stored, unavailable, broken,
}
use runscope.Execution.{Begin, skipped, started, begin_execution, finish_classification, end_run}
use runscope.Execution.Slow.{
  Outcome, settle, go_on, total_steps, Checkpoint, stopped, continues, checkpoint_found, checkpoint,
  after_put, finish_slow, steps, execute_slow_run,
}
use runscope.Execution.Session.{found, run_slow, run_template, execute_begun, execute_existing_run}
use runscope.Execution.Consistency.{
  telemetry-IsConsistent, end_run-IsConsistent, begin_execution-IsConsistent,
  finish_classification-IsConsistent,
}

settle-IsConsistent :
    {A : Type 0} (r : Result (A × Db)) (db : Db)
    → IsConsistent db
    → Holds (λ _. IsConsistent) r
    → IsConsistent (settle r db).1
settle-IsConsistent (ok (a, db')) db h k = k
settle-IsConsistent (err e) db h k = h

pub go_on-IsConsistent :
    {A B : Type 0} (o : Outcome A) (f : A → Db → Outcome B)
    → IsConsistent o.1
    → ((a : A) (db : Db) → IsConsistent db → IsConsistent (f a db).1)
    → IsConsistent (go_on o f).1
go_on-IsConsistent (ok a, db) f h k = k a db h
go_on-IsConsistent (err e, db) f h k = h

module _ (external : External) (encode : ℕ → List ℕ) (now : Timestamp) where
  checkpoint_found-IsConsistent :
      (total step : ℕ) (o : Option Run) (db : Db)
      → IsConsistent db
      → Holds (λ _. IsConsistent) (checkpoint_found external encode now total step o db)
  unfolding checkpoint_found
  checkpoint_found-IsConsistent total step none db h = tt
  checkpoint_found-IsConsistent total step (some run) db h =
      elim (Bool-cases (status_eq run.status cancelling)) [
        | inl e ↦ rw e (
            Holds-and_then (λ _. IsConsistent) (λ _. IsConsistent)
              (end_run external now run cancelled "run.cancelled" _ _) _
              (end_run-IsConsistent external now run cancelled "run.cancelled" _ _ refl
                (telemetry-IsConsistent _ db.metrics db.artifacts db.next_id db (omega arith) h))
              (λ _ db' h'. h'))
        | inr e ↦ rw e (telemetry-IsConsistent _ _ db.artifacts db.next_id db (omega arith) h)
      ]

  pub checkpoint-IsConsistent :
      (total step : ℕ) (run_id : Uuid) (db : Db)
      → IsConsistent db
      → Holds (λ _. IsConsistent) (checkpoint external encode now total step run_id db)
  unfolding checkpoint
  checkpoint-IsConsistent total step run_id db h =
      checkpoint_found-IsConsistent total step (get_run run_id db) db h

  after_put-IsConsistent :
      (total : ℕ) (run : Run) (o : PutOutcome) (db : Db)
      → IsConsistent db
      → Holds (λ _. IsConsistent) (after_put external encode now total run o db)
  unfolding after_put
  after_put-IsConsistent total run broken db h = tt
  after_put-IsConsistent total run unavailable db h =
      end_run-IsConsistent external now _ failed _ _ db refl h
  after_put-IsConsistent total run stored db h =
      end_run-IsConsistent external now run succeeded _ _ _ refl
        (telemetry-IsConsistent db.logs db.metrics _ (db.next_id + 1) db (omega arith) h)

  pub finish_slow-IsConsistent :
      (parameters : SlowDemoParameters) (run : Run) (db : Db)
      → IsConsistent db
      → Holds (λ _. IsConsistent) (finish_slow external encode now parameters run db)
  unfolding finish_slow total_steps
  finish_slow-IsConsistent parameters run db h = elim (Bool-cases parameters.fail_intentionally) [
    | inl e ↦ rw e (end_run-IsConsistent external now _ failed _ _ db refl h)
    | inr e ↦ rw e (after_put-IsConsistent (total_steps parameters) run _ db h)
  ]

  module _ (others : ℕ → Db → Db)
      (keep : (k : ℕ) (db : Db) → IsConsistent db → IsConsistent (others k db)) where
    steps-IsConsistent :
        (parameters : SlowDemoParameters) (left step : ℕ) (run : Run) (db : Db)
        → IsConsistent db
        → IsConsistent (steps external encode now others parameters left step run db).1
    unfolding steps
    steps-IsConsistent parameters zero step run db h =
        settle-IsConsistent (finish_slow external encode now parameters run (others step db))
          (others step db) (keep step db h)
          (finish_slow-IsConsistent parameters run (others step db) (keep step db h))
    steps-IsConsistent parameters (suc left) step run db h =
        let db' = others step db in
        let r = checkpoint external encode now (total_steps parameters) step run.id db' in
        go_on-IsConsistent {A = Checkpoint} {B = Run} (settle r db')
          (λ c db''. elim c [
            | stopped run' ↦ (ok run', db'')
            | continues run' ↦ steps external encode now others parameters left (step + 1) run' db''
          ])
          (settle-IsConsistent r db' (keep step db h) (
            checkpoint_found-IsConsistent (total_steps parameters) step (get_run run.id db') db'
              (keep step db h)))
          (elim [
            | stopped run' ↦ λ db' h'. h'
            | continues run' ↦ λ db' h'. steps-IsConsistent parameters left (step + 1) run' db' h'
          ])

    execute_slow_run-IsConsistent :
        (parameters : SlowDemoParameters) (run : Run) (db : Db)
        → IsConsistent db
        → IsConsistent (execute_slow_run external encode now others parameters run db).1
    unfolding execute_slow_run
    execute_slow_run-IsConsistent parameters run db h =
        steps-IsConsistent parameters (total_steps parameters) 1 run _
          (telemetry-IsConsistent _ db.metrics db.artifacts db.next_id db (omega arith) h)

    run_slow-IsConsistent :
        (run : Run) (validated : Validated) (db : Db)
        → IsConsistent db
        → IsConsistent (run_slow external encode now others run validated db).1
    unfolding run_slow
    run_slow-IsConsistent run (iris values) db h = h
    run_slow-IsConsistent run (slow parameters) db h =
        execute_slow_run-IsConsistent parameters run db h

    run_template-IsConsistent :
        (run : Run) (template : TrainingTemplate) (validated : Validated) (db : Db)
        → IsConsistent db
        → IsConsistent (run_template external encode now others run template validated db).1
    unfolding run_template
    run_template-IsConsistent run template validated db h =
        elim (Bool-cases (str_eq template.key "slow-demonstration")) [
          | inl e ↦ rw e (run_slow-IsConsistent run validated db h)
          | inr e ↦ rw e (
              settle-IsConsistent
                (finish_classification external now run template validated (others 0 db))
                (others 0 db) (keep 0 db h)
                (finish_classification-IsConsistent external now run template validated
                  (others 0 db) (keep 0 db h)))
        ]

    found-db : (o : Outcome Run) → (found o).1 ≡ o.1
    found-db (ok run, db) = refl
    found-db (err e, db) = refl

    execute_begun-IsConsistent :
        (b : Begin) (db : Db)
        → IsConsistent db
        → IsConsistent (execute_begun external encode now others b db).1
    unfolding execute_begun
    execute_begun-IsConsistent (skipped run) db h = h
    execute_begun-IsConsistent (started run template validated) db h =
        rw (found-db (run_template external encode now others run template validated db))
          (run_template-IsConsistent run template validated db h)

    -- An execution keeps the platform consistent on every path: it returns, raises, is skipped,
    -- succeeds, fails or is cancelled, and whatever consistent changes other transactions commit
    -- between its own.
    pub execute-IsConsistent :
        (run_id : Uuid) (worker token : Option Uuid) (db : Db)
        → IsConsistent db
        → IsConsistent (execute_existing_run external encode now others run_id worker token db).1
    unfolding execute_existing_run
    execute-IsConsistent run_id worker token db h =
        go_on-IsConsistent {A = Begin} {B = Option Run}
          (settle (begin_execution external now run_id worker token db) db)
          (execute_begun external encode now others)
          (settle-IsConsistent (begin_execution external now run_id worker token db) db h
            (begin_execution-IsConsistent external now run_id worker token db h))
          execute_begun-IsConsistent
