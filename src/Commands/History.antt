-- ===== src/Commands/History.antt =====
-- api/runs.py: the commands move runs along the lifecycle only.
use runscope.Prelude.{◌≡◌, refl, ap, ◌∙◌, String, [], none, some, find, ==_refl, if◌then◌else◌}
use runscope.Models.{
  Experiment, Uuid, Timestamp, Dict, Run, queued, running, cancelling, failed, User,
}
use runscope.Models.Store.{
  Db, Settings, ok, app, or_raise, get_run, get_template, get_experiment, add_run,
}
use runscope.Models.Store.Done.{Holds, Holds-and_then, Holds-lift, Holds-or_raise}
use runscope.StateMachine.{enter}
use runscope.StateMachine.Lifecycle.{here, next, Holds-transition_run}
use runscope.Security.{researcher_user}
use runscope.Platform.History.{Evolves, Evolves-trans, moved-Evolves, add_run-Evolves, get_run-own}
use runscope.Templates.{External, find_template, validate_parameters}
use runscope.Execution.{run_parameters}
use runscope.Tags.{StrMethods, stripped, any_long, from_keys}
use runscope.Commands.{
  RunCreate, RunMetadataUpdate, add_outbox_event, submit, draft_run, create_queued_run, create_run,
  must_be, controlled_run, cancel_run, child_run, retry_run, update_run_metadata, update,
}
use runscope.Commands.Controls.{controlled_run-found}

module _ (Exists : Uuid → Type 0) where
  -- The identifier that is drawn next names no run.
  abbrev pub Fresh : Db → Type 0
  Fresh db = get_run db.next_id db ≡ none

  module _ (settings : Settings) (correlation_id : String) (now : Timestamp) where
    submit-Evolves :
        (new_run : Uuid → Run) (parameters metadata payload : Dict) (db : Db)
        → (new_run db.next_id).id ≡ db.next_id
        → Exists (new_run db.next_id).experiment_id
        → Fresh db
        → Holds
            (λ _. Evolves Exists db)
            (submit settings correlation_id now new_run parameters metadata payload db)
    unfolding submit find enter add_outbox_event
    submit-Evolves new_run parameters metadata payload db same there fresh =
        let run = new_run db.next_id in
        let added = add_run run db in
        Holds-transition_run (λ _. Evolves Exists db) now run queued "run.queued" metadata _ _
          λ edge.
            Evolves-trans Exists db added _
              (add_run-Evolves Exists run db (ap (λ k. get_run k db) same ∙ fresh) there)
              (moved-Evolves Exists run (enter now queued run) added _ refl
                (rw (==_refl run.id) refl) refl refl refl (next edge here))

    create_queued_run-Evolves :
        (external : External) (str : StrMethods) (body : RunCreate) (created_by : Uuid) (db : Db)
        → Exists body.experiment_id
        → Fresh db
        → Holds
            (λ _. Evolves Exists db)
            (create_queued_run settings correlation_id now external str body created_by db)
    unfolding create_queued_run
    create_queued_run-Evolves external str body created_by db there fresh =
        Holds-lift (λ _. Evolves Exists db)
          (find_template body.template_key body.template_version db) _ db
          λ template _.
            Holds-lift (λ _. Evolves Exists db)
              (validate_parameters external template body.parameters) _ db
              λ validated _.
                submit-Evolves
                  (draft_run settings correlation_id now str body template.id created_by) _ _ _ db
                  refl there fresh

    pub create_run-Evolves :
        (external : External) (str : StrMethods) (body : RunCreate) (caller : User) (db : Db)
        → ((e : Experiment)
            → get_experiment body.experiment_id db ≡ some e
            → Exists body.experiment_id)
        → Fresh db
        → Holds
            (λ _. Evolves Exists db)
            (create_run settings correlation_id now external str body caller db)
    unfolding create_run
    create_run-Evolves external str body caller db there fresh =
        Holds-lift (λ _. Evolves Exists db) (researcher_user caller) _ db
          λ user _.
            Holds-or_raise (λ _. Evolves Exists db) (get_experiment body.experiment_id db)
              "experiment_not_found" 404 _ db
              λ e found.
                create_queued_run-Evolves external str body user.id db (there e found) fresh

    pub cancel_run-Evolves :
        (run_id : Uuid) (caller : User) (db : Db)
        → Holds (λ _. Evolves Exists db) (cancel_run settings correlation_id now run_id caller db)
    unfolding cancel_run add_outbox_event enter
    cancel_run-Evolves run_id caller db =
        Holds-and_then (λ run db'. (db' ≡ db) × (get_run run_id db ≡ some run))
          (λ _. Evolves Exists db) (controlled_run settings correlation_id now run_id caller db) _
          (controlled_run-found settings correlation_id now run_id caller db)
          λ run db' (same, found). rw same (
            Holds-lift (λ _. Evolves Exists db)
              (must_be settings correlation_id now running "run_not_cancellable" run) _ db
              λ _ _.
                Holds-transition_run (λ _. Evolves Exists db) now run cancelling
                  "run.cancel.requested" [] _ db
                  λ edge.
                    moved-Evolves Exists run (enter now cancelling run) db _ refl
                      (get_run-own run_id run db found) refl refl refl (next edge here))

    pub retry_run-Evolves :
        (external : External) (run_id : Uuid) (overrides : Dict) (caller : User) (db : Db)
        → ((run : Run) → get_run run_id db ≡ some run → Exists run.experiment_id)
        → Fresh db
        → Holds
            (λ _. Evolves Exists db)
            (retry_run settings correlation_id now external run_id overrides caller db)
    unfolding retry_run
    retry_run-Evolves external run_id overrides caller db there fresh =
        Holds-and_then (λ run db'. (db' ≡ db) × (get_run run_id db ≡ some run))
          (λ _. Evolves Exists db) (controlled_run settings correlation_id now run_id caller db) _
          (controlled_run-found settings correlation_id now run_id caller db)
          λ parent db' (same, found). rw same (
            Holds-lift (λ _. Evolves Exists db)
              (must_be settings correlation_id now failed "run_not_retryable" parent) _ db
              λ _ _.
                Holds-lift (λ _. Evolves Exists db)
                  (or_raise (get_template parent.template_id db) "template_not_found" 404) _ db
                  λ template _.
                    Holds-lift (λ _. Evolves Exists db)
                      (validate_parameters external template
                        (update (run_parameters parent.id db) overrides))
                      _ db
                      λ validated _.
                        submit-Evolves (child_run settings correlation_id now parent caller.id) _ _
                          _ db refl (there parent found) fresh)

    pub update_run_metadata-Evolves :
        (str : StrMethods) (run_id : Uuid) (body : RunMetadataUpdate) (caller : User) (db : Db)
        → Holds
            (λ _. Evolves Exists db)
            (update_run_metadata settings correlation_id now str run_id body caller db)
    unfolding update_run_metadata
    update_run_metadata-Evolves str run_id body caller db =
        Holds-and_then (λ run db'. (db' ≡ db) × (get_run run_id db ≡ some run))
          (λ _. Evolves Exists db) (controlled_run settings correlation_id now run_id caller db) _
          (controlled_run-found settings correlation_id now run_id caller db)
          λ run db' (same, found). rw same (
            Holds-lift (λ _. Evolves Exists db)
              (if any_long str (stripped str body.tags) then app "invalid_tags" 422 else ok tt) _ db
              λ _ _.
                moved-Evolves Exists run
                  (record run { notes = body.notes; tags = from_keys [] (stripped str body.tags) })
                  db _ refl (get_run-own run_id run db found) refl refl refl here)
