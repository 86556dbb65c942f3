-- ===== src/Execution/Success.antt =====
-- run_execution.py: a slow run that nobody disturbs runs to its end.
use runscope.Prelude.{ℕ, zero, suc, ◌+◌, ◌-◌, ◌≡◌, refl, ap, ◌∙◌, List, some, false, ==_refl}
use runscope.Models.{
  Timestamp, running, succeeded, cancelling, Run, ResourceAllocation, status_eq, status_in,
}
use runscope.Models.Store.{Db, Result, ok, err, get_run}
use runscope.Models.Store.Done.{Done}
use runscope.StateMachine.{enter, valid_transitions}
use runscope.Registry.Leases.{run_count}
use runscope.Templates.{SlowDemoParameters, External, stored}
use runscope.Execution.{end_run}
use runscope.Execution.Slow.{
  total_steps, Outcome, settle, checkpoint, checkpoint_found, after_put, finish_slow, steps,
  execute_slow_run,
}
use runscope.Execution.Ending.{Ended, end_run-Ended}

-- Nobody else commits.
abbrev pub alone : ℕ → Db → Db
alone k db = db

-- The coroutine returns the run as its row is then: SUCCEEDED, with its lease given back.
abbrev pub Finished : Run → List ResourceAllocation → Outcome Run → Type 0
Finished run before (ok run', db) =
    (run'.status ≡ succeeded)
    × (get_run run.id db ≡ some run')
    × (run_count run.id db.allocations ≡ run_count run.id before - 1)
Finished run before (err e, db) = ⊥

module _ (external : External) (encode : ℕ → List ℕ) (now : Timestamp) where
  settle-Finished :
      (run : Run) (before : Db) (r : Result (Run × Db)) (db : Db)
      → Done (Ended now succeeded run before) r
      → Finished run before.allocations (settle r db)
  unfolding enter
  settle-Finished run before (ok (run', db')) db e =
      (ap (λ (r : Run). r.status) e.result, e.stored, e.leases run.id ∙ rw (==_refl run.id) refl)
  settle-Finished run before (err x) db e = absurd e

  moved :
      (run : Run) (before after : Db) (r : Result (Run × Db))
      → after.allocations ≡ before.allocations
      → Done (Ended now succeeded run after) r
      → Done (Ended now succeeded run before) r
  moved run before after (ok (run', db')) same e = record {
    result = e.result;
    stored = e.stored;
    leases = λ j. e.leases j ∙ rw same refl;
  }
  moved run before after (err x) same e = e

  module _ (parameters : SlowDemoParameters) (run : Run) (executes : run.status ≡ running)
      (honest : parameters.fail_intentionally ≡ false)
      (accepts : external.put
          (run.id, "progress.json")
          (encode (total_steps parameters))
          "application/json"
        ≡ stored) where
    finish-Ended :
        (db : Db)
        → get_run run.id db ≡ some run
        → Done (Ended now succeeded run db) (finish_slow external encode now parameters run db)
    unfolding finish_slow after_put total_steps
    finish-Ended db found =
        rw (honest, accepts)
          (moved run db _ (end_run external now run succeeded "run.succeeded" _ _) refl (
            end_run-Ended external now run run succeeded "run.succeeded" _ _ found refl
              (ap (λ s. status_in succeeded (valid_transitions s)) executes)))

    steps-Finished :
        (left step : ℕ) (db : Db)
        → get_run run.id db ≡ some run
        → Finished run db.allocations (steps external encode now alone parameters left step run db)
    unfolding steps checkpoint checkpoint_found
    steps-Finished zero step db found =
        settle-Finished run db (finish_slow external encode now parameters run db) db
          (finish-Ended db found)
    steps-Finished (suc left) step db found =
        let going : status_eq run.status cancelling ≡ false = rw executes in
        rw (found, going) (steps-Finished left (step + 1) _ found)

    -- A slow run that is RUNNING, is not configured to fail and whose artifact is stored ends
    -- SUCCEEDED, with its lease given back, where no other transaction commits meanwhile: the loop
    -- over its steps terminates and nothing raises.
    pub execute_slow_run-Finished :
        (db : Db)
        → get_run run.id db ≡ some run
        → Finished run db.allocations (execute_slow_run external encode now alone parameters run db)
    unfolding execute_slow_run
    execute_slow_run-Finished db found = steps-Finished (total_steps parameters) 1 _ found
