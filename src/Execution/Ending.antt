-- ===== src/Execution/Ending.antt =====
-- run_execution.py: what the end of a run leaves, and the cancellation of a slow run.
use runscope.Prelude.{
  ℕ, ◌+◌, ◌-◌, ◌≡◌, refl, ap, ◌∙◌, String, List, [], ◌∷◌, some, true, ◌==◌, ==_refl, find, save,
  find-save, find-key, arith, if◌then◌else◌,
}
use runscope.Models.{
  Uuid, Timestamp, Dict, RunStatus, cancelling, cancelled, Run, status_eq, status_in,
}
use runscope.Models.Store.{Db, get_run, flush_run, current_version, add_event, save_run}
use runscope.Models.Store.Done.{Done, Done-and_then}
use runscope.StateMachine.{enter, transition_event, valid_transitions}
use runscope.StateMachine.Lifecycle.{transition_run-ok}
use runscope.Registry.Leases.{run_count, release-runs, release-run_count}
use runscope.Templates.{External}
use runscope.Execution.{end_run}
use runscope.Execution.Slow.{stopped, checkpoint_found, checkpoint}

-- The run in its new status, its row, and its lease, which is given back while others stay.
pub record Ended (now : Timestamp) (target : RunStatus) (run : Run) (before : Db) (run' : Run)
    (after : Db) : Type 0 where
  pub result : run' ≡ record (enter now target run) { version = run.version + 1 }
  pub stored : get_run run.id after ≡ some run'
  pub leases :
      (j : Uuid)
      → run_count j after.allocations ≡ (
          if run.id == j
          then run_count j before.allocations - 1
          else run_count j before.allocations)

saved_here :
    (row old : Run) (rows : List Run)
    → find (λ (r : Run). r.id) row.id rows ≡ some old
    → find (λ (r : Run). r.id) row.id (save (λ (r : Run). r.id) row rows) ≡ some row
saved_here row old rows h = ground (arith, find-save (λ (r : Run). r.id) row.id row rows)

module _ (external : External) (now : Timestamp) where
  -- A run whose row has not changed since it was read ends in every status that its own has an
  -- edge to, and gives its lease back.
  pub end_run-Ended :
      (run row : Run) (target : RunStatus) (event_type : String) (metadata : Dict) (db : Db)
      → get_run run.id db ≡ some row
      → row.version ≡ run.version
      → status_in target (valid_transitions run.status) ≡ true
      → Done (Ended now target run db) (end_run external now run target event_type metadata db)
  unfolding end_run flush_run enter
  end_run-Ended run row target event_type metadata db found same edge =
      let db' = add_event (transition_event run target event_type metadata) db in
      let current : current_version (enter now target run) (get_run run.id db') ≡ true =
        rw (found, same) (==_refl run.version) in
      rw (transition_run-ok now run target event_type metadata db edge, current)
        (record {
          result = refl;
          stored =
              ap (find (λ (r : Run). r.id) run.id)
                (release-runs now run.id (save_run (enter now target run) db'))
              ∙ saved_here (record (enter now target run) { version = run.version + 1 }) row db.runs
                  found;
          leases = λ j. release-run_count now run.id j (save_run (enter now target run) db');
        })

  module _ (encode : ℕ → List ℕ) where
    abbrev with_log : ℕ → Run → Db → Db
    with_log step run db = record db {
      logs =
          record {
            run_id = run.id;
            sequence_number = step + 1;
            level = "INFO";
            message = "Cancellation acknowledged at a safe checkpoint";
          }
          ∷ db.logs;
    }

    -- A slow run that is marked CANCELLING is cancelled at its next checkpoint, and gives its lease
    -- back.
    pub checkpoint-cancels :
        (total step : ℕ) (run_id : Uuid) (row : Run) (db : Db)
        → get_run run_id db ≡ some row
        → row.status ≡ cancelling
        → Done
            (λ c db'.
              (run' : Run) × (c ≡ stopped run')
              × (run'.status ≡ cancelled)
              × Ended now cancelled row db run' db')
            (checkpoint external encode now total step run_id db)
    unfolding checkpoint checkpoint_found enter
    checkpoint-cancels total step run_id row db found marked =
        let test : status_eq row.status cancelling ≡ true = rw marked in
        let same : row.id ≡ run_id = find-key (λ (r : Run). r.id) run_id db.runs {x = row} found in
        let logged = with_log step row db in
        rw (found, test)
          (Done-and_then (Ended now cancelled row logged)
            (λ c db'.
              (run' : Run) × (c ≡ stopped run')
              × (run'.status ≡ cancelled)
              × Ended now cancelled row db run' db')
            (end_run external now row cancelled "run.cancelled" [] logged) _
            (end_run-Ended row row cancelled "run.cancelled" [] logged
              (ap (λ k. get_run k db) same ∙ found) refl
              (ap (λ s. status_in cancelled (valid_transitions s)) marked))
            (λ run' db' e. (
              run',
              refl,
              ap (λ (r : Run). r.status) e.result,
              record { result = e.result; stored = e.stored; leases = e.leases },
            )))
