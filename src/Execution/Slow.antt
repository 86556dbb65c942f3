-- ===== src/Execution/Slow.antt =====
-- run_execution.py: `execute_slow_run`, the bounded demonstration that can be cancelled.
use runscope.Prelude.{
  ℕ, zero, suc, ◌+◌, ◌-◌, ◌/◌, String, List, [], ◌∷◌, Option, none, some, true, ltb, if◌then◌else◌,
}
use runscope.Models.{
  Uuid, Timestamp, pos, number, text, flag, succeeded, failed, cancelling, cancelled, Run, Fraction,
  status_eq,
}
use runscope.Models.Store.{
  Db, runtime_error, Result, ok, err, Tx, ◌>>=◌, ◌>>◌, pure, modify, uuid4, get_run,
}
use runscope.Templates.{
  SlowDemoParameters, GeneratedArtifact, External, PutOutcome, stored, unavailable, broken,
}
use runscope.Execution.{artifact_row, end_run, with_failure}

-- max(1, ceil(duration / interval)); the interval is validated to be positive.
unfoldable pub total_steps : SlowDemoParameters → ℕ
total_steps p =
    let steps = (p.duration_seconds + p.interval_seconds - 1) / p.interval_seconds in
    if ltb steps 1 then 1 else steps

-- What a coroutine leaves: its result or exception, and the database with all that was committed.
abbrev pub Outcome : Type 0 → Type 0
Outcome A = Result A × Db

-- The commit or the rollback at the end of a transaction.
abbrev pub settle : {A : Type 0} → Result (A × Db) → Db → Outcome A
settle (ok (a, db)) before = (ok a, db)
settle (err e) before = (err e, before)

-- A coroutine that goes on after a commit, or ends by the exception.
abbrev pub go_on : {A B : Type 0} → Outcome A → (A → Db → Outcome B) → Outcome B
go_on (ok a, db) f = f a db
go_on (err e, db) f = (err e, db)

abbrev pub add_log : Uuid → ℕ → String → Tx (Unit {0})
add_log run_id sequence_number message = modify (λ db. record db {
  logs =
      record {
        run_id = run_id;
        sequence_number = sequence_number;
        level = "INFO";
        message = message;
      }
      ∷ db.logs;
})

abbrev pub add_metric : Uuid → Fraction → ℕ → Tx (Unit {0})
add_metric run_id value step = modify (λ db. record db {
  metrics = record { run_id = run_id; name = "progress"; value = value; step = step } ∷ db.metrics;
})

-- How a checkpoint leaves the loop: the run was cancelled there, or it goes on.
pub data Checkpoint : Type 0 where
  stopped : Run → Checkpoint
  continues : Run → Checkpoint

-- The artifact that the demonstration uploads: `encode` writes the number of steps as JSON.
module _ (external : External) (encode : ℕ → List ℕ) (now : Timestamp) where
  abbrev pub cancel_here : ℕ → Run → Tx Checkpoint
  cancel_here step run = do
    add_log run.id (step + 1) "Cancellation acknowledged at a safe checkpoint"
    run' ← end_run external now run cancelled "run.cancelled" []
    pure (stopped run')

  abbrev pub record_progress : ℕ → ℕ → Run → Tx Checkpoint
  record_progress total step run = do
    add_log run.id (step + 1) "Demonstration progress"
    add_metric run.id (record { numerator = pos step; denominator = total }) step
    pure (continues run)

  -- The transaction of one step, after `session.refresh(run)`.
  unfoldable pub checkpoint_found : ℕ → ℕ → Option Run → Tx Checkpoint
  checkpoint_found total step none db = err (runtime_error "refresh")
  checkpoint_found total step (some run) db =
      if status_eq run.status cancelling
      then cancel_here step run db
      else record_progress total step run db

  unfoldable pub checkpoint : ℕ → ℕ → Uuid → Tx Checkpoint
  unfolding checkpoint_found
  checkpoint total step run_id db = checkpoint_found total step (get_run run_id db) db

  -- The statements after the loop, with the run as the last refresh left it.
  abbrev pub progress_artifact : ℕ → GeneratedArtifact
  progress_artifact total = record {
    name = "progress.json";
    mime_type = "application/json";
    content = encode total;
  }

  unfoldable pub after_put : ℕ → Run → PutOutcome → Tx Run
  after_put total run broken = λ db. err (runtime_error "put")
  after_put total run unavailable =
      end_run external now
        (with_failure external now "artifact_upload_failed" "Artifact storage remained unavailable"
          run)
        failed "run.failed" (("retryable", flag true) ∷ ("reason", text "artifact_storage") ∷ [])
  after_put total run stored = do
    id ← uuid4
    modify (λ db. record db {
      artifacts = artifact_row external now run.id (progress_artifact total) id ∷ db.artifacts;
    })
    end_run external now run succeeded "run.succeeded"
        (("metric_count", number total) ∷ ("artifact_count", number 1) ∷ [])

  unfoldable pub finish_slow : SlowDemoParameters → Run → Tx Run
  unfolding after_put
  finish_slow parameters run =
      let total = total_steps parameters in
      if parameters.fail_intentionally
      then end_run external now
          (with_failure external now "intentional_demo_failure"
            "The slow demonstration was configured to fail" run)
          failed "run.failed" (("retryable", flag true) ∷ ("intentional", flag true) ∷ [])
      else after_put total run
          (external.put (run.id, "progress.json") (encode total) "application/json")

  -- What other transactions commit while this one sleeps before the step, or at the end waits for
  -- the artifact store.
  module _ (others : ℕ → Db → Db) where
    -- The loop, by the rounds left.
    unfoldable pub steps : SlowDemoParameters → ℕ → ℕ → Run → Db → Outcome Run
    unfolding checkpoint finish_slow
    steps parameters zero step run db =
        let db' = others step db in settle (finish_slow parameters run db') db'
    steps parameters (suc left) step run db =
        let db' = others step db in
        go_on (settle (checkpoint (total_steps parameters) step run.id db') db') λ c db''. elim c [
          | stopped run' ↦ (ok run', db'')
          | continues run' ↦ steps parameters left (step + 1) run' db''
        ]

    unfoldable pub execute_slow_run : SlowDemoParameters → Run → Db → Outcome Run
    unfolding steps
    execute_slow_run parameters run db =
        go_on (settle (add_log run.id 1 "Started bounded progress demonstration" db) db)
          λ _ db'. steps parameters (total_steps parameters) 1 run db'
