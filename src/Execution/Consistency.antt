-- ===== src/Execution/Consistency.antt =====
-- run_execution.py: every transaction of an execution keeps the platform consistent.
use runscope.Prelude.{
  Bool, true, false, ℕ, ◌+◌, ◌≤◌, ◌≡◌, refl, ap, ◌∙◌, String, List, [], ◌∷◌, Option, none, some,
  true, false, inl, inr, find-key, arith, Bool-cases,
}
use runscope.Models.{
  Uuid, Timestamp, Dict, RunStatus, scheduling, running, succeeded, failed, cancelling, Run,
  Artifact, RunLog, RunMetric, ResourceAllocation, TrainingTemplate, uuid, status_in, status_eq,
}
use runscope.Models.Store.{
  Db, Result, ok, err, ◌>>=◌, for_each, get_run, get_template, add_event, flush_run,
  current_version,
}
use runscope.Models.Store.Done.{Holds, Holds-and_then, Holds-lift, Holds-for_each}
use runscope.StateMachine.{enter, transition_run, transition_event}
use runscope.StateMachine.Lifecycle.{transition_run_follows, transition_run-ok}
use runscope.Registry.Leases.{settle-IsConsistent, save_run-IsConsistent}
use runscope.Platform.{IsConsistent, keep_IsConsistent, add_event-IsConsistent}
use runscope.Templates.{Validated, External, GeneratedArtifact, registry_get, validate_parameters}
use runscope.Execution.{
  started, lease_denied, start_run, begin_with, begin_found, begin_execution, end_run, upload,
  put_result, result_or_raise, template_or_raise, run_parameters, attempt_classification, blame,
  fail_found, or_fail, finish_classification,
}

-- Rows of other tables are outside the invariant.
abbrev with_telemetry : List RunLog → List RunMetric → List Artifact → ℕ → Db → Db
with_telemetry logs metrics artifacts n db = record db {
  logs = logs;
  metrics = metrics;
  artifacts = artifacts;
  next_id = n;
}

pub telemetry-IsConsistent :
    (logs : List RunLog) (metrics : List RunMetric) (artifacts : List Artifact) (n : ℕ) (db : Db)
    → db.next_id ≤ n
    → IsConsistent db
    → IsConsistent
        (record db { logs = logs; metrics = metrics; artifacts = artifacts; next_id = n })
telemetry-IsConsistent logs metrics artifacts n db q h =
    keep_IsConsistent db (with_telemetry logs metrics artifacts n db) q refl refl h.leased
      h.balanced h

scheduling_of_rank : (s : RunStatus) → status_eq s scheduling ≡ true → s ≡ scheduling
scheduling_of_rank s h = ground arith

found_id : (db : Db) (j : Uuid) {run : Run} → get_run j db ≡ some run → run.id ≡ j
found_id db j e = find-key (λ (r : Run). r.id) j db.runs e

module _ (external : External) (now : Timestamp) where
  -- A run that ends gives its lease back, whatever changed since it was read: where its row is not
  -- the one that was read, nothing is committed.
  pub end_run-IsConsistent :
      (run : Run) (target : RunStatus) (event_type : String) (metadata : Dict) (db : Db)
      → status_in target (scheduling ∷ running ∷ cancelling ∷ []) ≡ false
      → IsConsistent db
      → Holds (λ _. IsConsistent) (end_run external now run target event_type metadata db)
  unfolding end_run flush_run enter
  end_run-IsConsistent run target event_type metadata db ended h =
      elim (transition_run_follows now run target event_type metadata db) [
        | inl (edge, e) ↦
            let db' = add_event (transition_event run target event_type metadata) db in
            rw e (elim (Bool-cases (current_version (enter now target run) (get_run run.id db'))) [
              | inl current ↦ rw current (
                  settle-IsConsistent now (enter now target run) db' (rw ended)
                    (add_event-IsConsistent _ db h))
              | inr changed ↦ rw changed tt
            ])
        | inr (_, e) ↦ rw e tt
      ]

  start_flush-IsConsistent :
      (run : Run) (metadata : Dict) (template : TrainingTemplate) (validated : Validated) (db : Db)
      → get_run run.id db ≡ some run
      → run.status ≡ scheduling
      → IsConsistent db
      → Holds
          (λ _. IsConsistent)
          ((transition_run now run running "run.started" metadata >>= λ run'.
              flush_run run' >>= λ run''. λ db. ok (started run'' template validated, db))
            db)
  unfolding flush_run enter
  start_flush-IsConsistent run metadata template validated db found waiting h =
      let event = transition_event run running "run.started" metadata in
      rw (transition_run-ok now run running "run.started" metadata db (rw waiting))
        (elim (Bool-cases (current_version (enter now running run) (get_run run.id db))) [
          | inl current ↦ rw current (
              save_run-IsConsistent (enter now running run) run (add_event event db) found
                (rw waiting) (add_event-IsConsistent event db h))
          | inr changed ↦ rw changed tt
        ])

  start_run-IsConsistent :
      (run : Run) (a : ResourceAllocation) (db : Db)
      → get_run run.id db ≡ some run
      → run.status ≡ scheduling
      → IsConsistent db
      → Holds (λ _. IsConsistent) (start_run external now run a db)
  unfolding start_run
  start_run-IsConsistent run a db found waiting h =
      Holds-lift (λ _. IsConsistent) (template_or_raise (get_template run.template_id db)) _ db
        λ template _.
          Holds-lift (λ _. IsConsistent)
            (validate_parameters external template (run_parameters run.id db)) _ db
            λ validated _.
              start_flush-IsConsistent run
                (("worker_id", uuid a.worker_id) ∷ ("lease_id", uuid a.id) ∷ []) template
                validated.0 db found waiting h

  begin_with-IsConsistent :
      (run : Run) (worker token : Option Uuid) (o : Option ResourceAllocation) (db : Db)
      → get_run run.id db ≡ some run
      → run.status ≡ scheduling
      → IsConsistent db
      → Holds (λ _. IsConsistent) (begin_with external now run worker token o db)
  unfolding begin_with
  begin_with-IsConsistent run worker token none db found waiting h = h
  begin_with-IsConsistent run worker token (some a) db found waiting h =
      elim (Bool-cases (lease_denied worker token (some a))) [
        | inl denied ↦ rw denied h
        | inr granted ↦ rw granted (start_run-IsConsistent run a db found waiting h)
      ]

  begin_found-IsConsistent :
      (o : Option Run) (worker token : Option Uuid) (db : Db)
      → ((run : Run) → o ≡ some run → get_run run.id db ≡ some run)
      → IsConsistent db
      → Holds (λ _. IsConsistent) (begin_found external now o worker token db)
  unfolding begin_found
  begin_found-IsConsistent none worker token db found h = h
  begin_found-IsConsistent (some run) worker token db found h =
      elim (Bool-cases (status_eq run.status scheduling)) [
        | inl e ↦ rw e (
            begin_with-IsConsistent run worker token _ db (found run refl)
              (scheduling_of_rank run.status e) h)
        | inr e ↦ rw e h
      ]

  pub begin_execution-IsConsistent :
      (run_id : Uuid) (worker token : Option Uuid) (db : Db)
      → IsConsistent db
      → Holds (λ _. IsConsistent) (begin_execution external now run_id worker token db)
  unfolding begin_execution
  begin_execution-IsConsistent run_id worker token db h =
      begin_found-IsConsistent (get_run run_id db) worker token db
        (λ run e. ap (λ k. get_run k db) (found_id db run_id e) ∙ e) h

  upload-IsConsistent :
      (run_id : Uuid) (g : GeneratedArtifact) (db : Db)
      → IsConsistent db
      → Holds (λ _. IsConsistent) (upload external now run_id g db)
  upload-IsConsistent run_id g db h =
      Holds-lift (λ _. IsConsistent)
        (put_result external now (external.put (run_id, g.name) g.content g.mime_type)) _ db
        λ _ _. telemetry-IsConsistent db.logs db.metrics _ (db.next_id + 1) db (omega arith) h

  attempt-IsConsistent :
      (run : Run) (template : TrainingTemplate) (validated : Validated) (db : Db)
      → IsConsistent db
      → Holds (λ _. IsConsistent) (attempt_classification external now run template validated db)
  unfolding attempt_classification
  attempt-IsConsistent run template validated db h =
      Holds-lift (λ _. IsConsistent)
        (result_or_raise external now (registry_get template.key template.version) validated) _ db
        λ result _.
          Holds-and_then (λ _. IsConsistent) (λ _. IsConsistent)
            (for_each result.artifacts (upload external now run.id) _) _
            (Holds-for_each IsConsistent result.artifacts (upload external now run.id) _
              (λ g db. upload-IsConsistent run.id g db)
              (telemetry-IsConsistent _ _ db.artifacts db.next_id db (omega arith) h))
            (λ _ db' h'. end_run-IsConsistent run succeeded _ _ db' refl h')

  or_fail-IsConsistent :
      (run : Run) (db : Db) (begun : Bool) (r : Result (Run × Db))
      → IsConsistent db
      → Holds (λ _. IsConsistent) r
      → Holds (λ _. IsConsistent) (or_fail external now run db begun r)
  unfolding fail_found
  or_fail-IsConsistent run db begun (ok done) h k = k
  or_fail-IsConsistent run db true (err error) h k = tt
  or_fail-IsConsistent run db false (err error) h k =
      end_run-IsConsistent (blame external now error run) failed "run.failed" [] db refl h

  pub finish_classification-IsConsistent :
      (run : Run) (template : TrainingTemplate) (validated : Validated) (db : Db)
      → IsConsistent db
      → Holds (λ _. IsConsistent) (finish_classification external now run template validated db)
  unfolding finish_classification
  finish_classification-IsConsistent run template validated db h =
      or_fail-IsConsistent run db _ (attempt_classification external now run template validated db)
        h (attempt-IsConsistent run template validated db h)
