-- ===== src/Commands/Controls.antt =====
-- api/runs.py: the commands on a run that exists keep the platform consistent.
use runscope.Prelude.{
  ◌+◌, ◌≡◌, refl, ap, ◌∙◌, String, [], Option, none, some, true, inl, inr, find-key, arith,
  Bool-cases, if◌then◌else◌,
}
use runscope.Models.{
  Uuid, Timestamp, Dict, Run, RunStatus, running, cancelling, failed, User, status_eq,
}
use runscope.Models.Store.{
  Db, Settings, ok, app, ◌>>=◌, ◌>>◌, lift, or_raise, get_run, get_template, save_run, add_event,
}
use runscope.Models.Store.Done.{Holds, Holds-and_then, Holds-lift}
use runscope.StateMachine.{enter, transition_event}
use runscope.StateMachine.Lifecycle.{transition_run-ok}
use runscope.Security.{researcher_user, ensure_run_control}
use runscope.Platform.{IsConsistent, add_event-IsConsistent}
use runscope.Registry.Leases.{save_run-IsConsistent}
use runscope.Templates.{External, validate_parameters}
use runscope.Execution.{run_parameters}
use runscope.Tags.{StrMethods, stripped, any_long, from_keys}
use runscope.Commands.{
  RunMetadataUpdate, add_outbox_event, must_be, controlled_run, cancel_run, child_run, retry_run,
  metadata_event, update_run_metadata, update,
}
use runscope.Commands.Keeps.{outbox-IsConsistent, submit-IsConsistent}

module _ (settings : Settings) (correlation_id : String) (now : Timestamp) where
  pub controlled_run-found :
      (run_id : Uuid) (caller : User) (db : Db)
      → Holds
          (λ run db'. (db' ≡ db) × (get_run run_id db ≡ some run))
          (controlled_run settings correlation_id now run_id caller db)
  controlled_run-found run_id caller db =
      Holds-lift _ (researcher_user caller) _ db λ user _. with_row user (get_run run_id db) refl
    where
      with_row :
          (user : User) (o : Option Run)
          → get_run run_id db ≡ o
          → Holds
              (λ run db'. (db' ≡ db) × (get_run run_id db ≡ some run))
              ((lift (or_raise o "run_not_found" 404) >>= λ run.
                  lift (ensure_run_control user run) >> λ db. ok (run, db))
                db)
      with_row user none e = tt
      with_row user (some run) e = Holds-lift _ (ensure_run_control user run) _ db λ _ _. (refl, e)

  marked-IsConsistent :
      (event_type : String) (run : Run) (status : RunStatus) (db : Db)
      → get_run run.id db ≡ some run
      → run.status ≡ running
      → IsConsistent db
      → IsConsistent (
          save_run
            (enter now cancelling run)
            (add_event (transition_event run cancelling event_type []) db))
  unfolding enter
  marked-IsConsistent event_type run status db found executes h =
      save_run-IsConsistent (enter now cancelling run) run _ found (rw executes)
        (add_event-IsConsistent _ db h)

  own_row :
      (run_id : Uuid) (db : Db) {run : Run}
      → get_run run_id db ≡ some run
      → get_run run.id db ≡ some run
  own_row run_id db {run = run} e =
      ap (λ k. get_run k db) (find-key (λ (r : Run). r.id) run_id db.runs {x = run} e) ∙ e

  -- Where a request to cancel a run commits, the platform stays consistent: the run holds its lease
  -- until the worker acknowledges.
  pub cancel_run-IsConsistent :
      (run_id : Uuid) (caller : User) (db : Db)
      → IsConsistent db
      → Holds (λ _. IsConsistent) (cancel_run settings correlation_id now run_id caller db)
  unfolding cancel_run add_outbox_event
  cancel_run-IsConsistent run_id caller db h =
      Holds-and_then (λ run db'. (db' ≡ db) × (get_run run_id db ≡ some run)) (λ _. IsConsistent)
        (controlled_run settings correlation_id now run_id caller db) _
        (controlled_run-found run_id caller db)
        λ run db' (same, found). rw same (elim (Bool-cases (status_eq run.status running)) [
          | inl e ↦
              let executes : run.status ≡ running = running_of_rank run.status e in
              rw
                (e, transition_run-ok now run cancelling "run.cancel.requested" [] db (rw executes))
                (outbox-IsConsistent _ (db.next_id + 1 + 1) _ (omega arith) (
                  marked-IsConsistent "run.cancel.requested" run cancelling db
                    (own_row run_id db found) executes h))
          | inr e ↦ rw e tt
        ])
    where
      running_of_rank : (s : RunStatus) → status_eq s running ≡ true → s ≡ running
      running_of_rank s e = ground arith

  -- Where a retry commits, the platform stays consistent.
  pub retry_run-IsConsistent :
      (external : External) (run_id : Uuid) (overrides : Dict) (caller : User) (db : Db)
      → IsConsistent db
      → Holds
          (λ _. IsConsistent)
          (retry_run settings correlation_id now external run_id overrides caller db)
  unfolding retry_run
  retry_run-IsConsistent external run_id overrides caller db h =
      Holds-and_then (λ run db'. (db' ≡ db) × (get_run run_id db ≡ some run)) (λ _. IsConsistent)
        (controlled_run settings correlation_id now run_id caller db) _
        (controlled_run-found run_id caller db)
        λ parent db' (same, found). rw same (
          Holds-lift (λ _. IsConsistent)
            (must_be settings correlation_id now failed "run_not_retryable" parent) _ db
            λ _ _.
              Holds-lift (λ _. IsConsistent)
                (or_raise (get_template parent.template_id db) "template_not_found" 404) _ db
                λ template _.
                  Holds-lift (λ _. IsConsistent)
                    (validate_parameters external template
                      (update (run_parameters parent.id db) overrides))
                    _ db
                    λ validated _.
                      submit-IsConsistent settings correlation_id now
                        (child_run settings correlation_id now parent caller.id) _ _ _ db refl refl
                        h)

  -- Where new notes and tags are committed, the platform stays consistent.
  pub update_run_metadata-IsConsistent :
      (str : StrMethods) (run_id : Uuid) (body : RunMetadataUpdate) (caller : User) (db : Db)
      → IsConsistent db
      → Holds
          (λ _. IsConsistent)
          (update_run_metadata settings correlation_id now str run_id body caller db)
  unfolding update_run_metadata
  update_run_metadata-IsConsistent str run_id body caller db h =
      Holds-and_then (λ run db'. (db' ≡ db) × (get_run run_id db ≡ some run)) (λ _. IsConsistent)
        (controlled_run settings correlation_id now run_id caller db) _
        (controlled_run-found run_id caller db)
        λ run db' (same, found). rw same (
          Holds-lift (λ _. IsConsistent)
            (if any_long str (stripped str body.tags) then app "invalid_tags" 422 else ok tt) _ db
            λ _ _.
              add_event-IsConsistent (metadata_event settings correlation_id now run caller) _ (
                save_run-IsConsistent
                  (record run { notes = body.notes; tags = from_keys [] (stripped str body.tags) })
                  run db (own_row run_id db found) refl h))
