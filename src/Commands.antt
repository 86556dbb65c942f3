-- ===== src/Commands.antt =====
-- api/runs.py and `create_queued_run` of run_execution.py: the commands on runs. A command is one
-- transaction: where it raises, nothing is committed.
pub mod Keeps
pub mod Controls
pub mod Effects
pub mod Retries
pub mod History
use package.text.Mathlib.Text.{◌==◌ as str_eq}
use runscope.Prelude.{
  ℕ, ◌+◌, String, List, [], ◌∷◌, ◌++◌, map, Option, none, some, Bool, true, false, if◌then◌else◌,
}
use runscope.Models.{
  Uuid, Timestamp, ℤ, Dict, Json, uuid, number, integer, text, CorrelationId, of_request, RunStatus,
  draft, queued, running, failed, cancelling, Run, RunParameter, TrainingTemplate, User,
  EventEnvelope, RunEvent, status_eq,
}
use runscope.Models.Store.{
  Db, Settings, Result, ok, app, Tx, ◌>>=◌, ◌>>◌, pure, raise, lift, gets, modify, uuid4, or_raise,
  get_run, get_template, get_experiment, save_run, add_run, add_event, add_message,
}
use runscope.StateMachine.{transition_run}
use runscope.Security.{researcher_user, ensure_run_control}
use runscope.Templates.{External, find_template, validate_parameters}
use runscope.Execution.{run_parameters}
use runscope.Tags.{StrMethods, normalize_tags, stripped, from_keys, any_long}

-- schemas/runs.py, with the bounds on its fields checked before the handler
pub record RunCreate : Type 0 where
  pub experiment_id : Uuid
  pub template_key : String
  pub template_version : String
  pub parameters : Dict
  pub requested_cpu : ℕ
  pub requested_memory_mb : ℕ
  pub priority : ℤ
  pub notes : String
  pub tags : List String

pub record RunMetadataUpdate : Type 0 where
  pub notes : String
  pub tags : List String

abbrev pub parameter_rows : Uuid → Dict → List RunParameter
parameter_rows run_id =
    map (λ (name, value). record { run_id = run_id; name = name; value = value })

abbrev pub add_parameters : Uuid → Dict → Tx (Unit {0})
add_parameters run_id values =
    modify (λ db. record db { parameters = parameter_rows run_id values ++ db.parameters })

-- dict.update: an override replaces the value of its key, or stands at the end.
abbrev pub set_item : String → Json → Dict → Dict
set_item name value [] = (name, value) ∷ []
set_item name value ((key, old) ∷ rest) =
    if str_eq key name then (key, value) ∷ rest else (key, old) ∷ set_item name value rest

abbrev pub update : Dict → Dict → Dict
update values [] = values
update values ((name, value) ∷ rest) = update (set_item name value values) rest

module _ (settings : Settings) (correlation_id : String) (now : Timestamp) where
  unfoldable pub add_outbox_event : Uuid → String → Dict → Tx (Unit {0})
  add_outbox_event run_id event_type payload = do
    event_id ← uuid4
    message_id ← uuid4
    modify (
        add_message (record {
          id = message_id;
          topic = settings.broker_topic;
          partition_key = run_id;
          envelope = record {
            event_id = event_id;
            event_version = 1;
            event_type = event_type;
            occurred_at = now;
            correlation_id = of_request correlation_id;
            run_id = some run_id;
            worker_id = none;
            payload = payload;
          };
          created_at = now;
          published_at = none;
          publish_attempts = 0;
          last_error = none;
        }))

  -- What both ways to a new run share: the DRAFT row, its parameters, the transition to QUEUED and
  -- the message in the outbox.
  unfoldable pub submit : (Uuid → Run) → Dict → Dict → Dict → Tx Run
  unfolding add_outbox_event
  submit new_run parameters metadata payload = do
    id ← uuid4
    let run = new_run id
    modify (add_run run)
    add_parameters id parameters
    run' ← transition_run now run queued "run.queued" metadata
    modify (save_run run')
    add_outbox_event id "run.submitted" payload
    pure run'

  abbrev pub draft_run : StrMethods → RunCreate → Uuid → Uuid → Uuid → Run
  draft_run str body template_id created_by id = record {
    id = id;
    experiment_id = body.experiment_id;
    template_id = template_id;
    status = draft;
    priority = body.priority;
    requested_cpu = body.requested_cpu;
    requested_memory_mb = body.requested_memory_mb;
    assigned_worker_id = none;
    attempt_number = 1;
    parent_run_id = none;
    created_by = created_by;
    created_at = now;
    queued_at = none;
    started_at = none;
    completed_at = none;
    failure_code = none;
    failure_message = none;
    notes = body.notes;
    tags = normalize_tags str body.tags;
    version = 1;
  }

  unfoldable pub create_queued_run : External → StrMethods → RunCreate → Uuid → Tx Run
  unfolding submit
  create_queued_run external str body created_by = do
    found ← gets (find_template body.template_key body.template_version)
    template ← lift found
    validated ← lift (validate_parameters external template body.parameters)
    submit (draft_run str body template.id created_by) validated.1 [] (
        ("template_key", text template.key)
        ∷ ("template_version", text template.version)
        ∷ ("requested_cpu", number body.requested_cpu)
        ∷ ("requested_memory_mb", number body.requested_memory_mb)
        ∷ ("priority", integer body.priority)
        ∷ [])

  unfoldable pub create_run : External → StrMethods → RunCreate → User → Tx Run
  unfolding create_queued_run
  create_run external str body caller = do
    user ← lift (researcher_user caller)
    experiment ← gets (get_experiment body.experiment_id)
    _ ← lift (or_raise experiment "experiment_not_found" 404)
    create_queued_run external str body user.id

  abbrev pub must_be : RunStatus → String → Run → Result (Unit {0})
  must_be status code run = if status_eq run.status status then ok tt else app code 409

  -- The guards that cancelling and retrying share.
  abbrev pub controlled_run : Uuid → User → Tx Run
  controlled_run run_id caller = do
    user ← lift (researcher_user caller)
    found ← gets (get_run run_id)
    run ← lift (or_raise found "run_not_found" 404)
    lift (ensure_run_control user run)
    pure run

  unfoldable pub cancel_run : Uuid → User → Tx Run
  unfolding add_outbox_event
  cancel_run run_id caller = do
    run ← controlled_run run_id caller
    lift (must_be running "run_not_cancellable" run)
    run' ← transition_run now run cancelling "run.cancel.requested" []
    modify (save_run run')
    add_outbox_event run.id "run.cancel.requested" (("requested_by", uuid caller.id) ∷ [])
    pure run'

  abbrev pub child_run : Run → Uuid → Uuid → Run
  child_run parent created_by id = record {
    id = id;
    experiment_id = parent.experiment_id;
    template_id = parent.template_id;
    status = draft;
    priority = parent.priority;
    requested_cpu = parent.requested_cpu;
    requested_memory_mb = parent.requested_memory_mb;
    assigned_worker_id = none;
    attempt_number = parent.attempt_number + 1;
    parent_run_id = some parent.id;
    created_by = created_by;
    created_at = now;
    queued_at = none;
    started_at = none;
    completed_at = none;
    failure_code = none;
    failure_message = none;
    notes = parent.notes;
    tags = parent.tags;
    version = 1;
  }

  unfoldable pub retry_run : External → Uuid → Dict → User → Tx Run
  unfolding submit
  retry_run external run_id parameter_overrides caller = do
    parent ← controlled_run run_id caller
    lift (must_be failed "run_not_retryable" parent)
    found ← gets (get_template parent.template_id)
    template ← lift (or_raise found "template_not_found" 404)
    own ← gets (run_parameters parent.id)
    validated ← lift (validate_parameters external template (update own parameter_overrides))
    submit (child_run parent caller.id) validated.1 (("retry_of", uuid parent.id) ∷ []) (
        ("template_key", text template.key)
        ∷ ("template_version", text template.version)
        ∷ ("retry_of", uuid parent.id)
        ∷ ("attempt_number", number (parent.attempt_number + 1))
        ∷ [])

  abbrev pub metadata_event : Run → User → RunEvent
  metadata_event run user = record {
    run_id = run.id;
    event_type = "run.metadata.updated";
    previous_status = none;
    new_status = none;
    event_metadata = ("updated_by", uuid user.id) ∷ [];
  }

  unfoldable pub update_run_metadata : StrMethods → Uuid → RunMetadataUpdate → User → Tx Run
  update_run_metadata str run_id body caller = do
    run ← controlled_run run_id caller
    let normalized = stripped str body.tags
    lift (if any_long str normalized then app "invalid_tags" 422 else ok tt)
    let run' = record run { notes = body.notes; tags = from_keys [] normalized }
    modify (save_run run')
    modify (add_event (metadata_event run caller))
    pure run'
