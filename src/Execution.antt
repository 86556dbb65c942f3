-- ===== src/Execution.antt =====
-- run_execution.py: the execution of an assigned run by a worker. Each commit ends a transaction;
-- what other transactions commit meanwhile is the parameter `others`. Live notifications are left
-- out: the worker drops their errors, and they write nothing durable.
pub mod Slow
pub mod Session
pub mod Consistency
pub mod Whole
pub mod Cancellation
pub mod Fencing
pub mod Ending
pub mod Success
pub mod History
pub mod SlowHistory
use runscope.Prelude.{
  ℕ, zero, suc, ◌+◌, ◌-◌, ◌/◌, String, List, [], ◌∷◌, ◌++◌, map, Option, none, some, Bool, true,
  false, not, ◌&&◌, ◌||◌, ◌==◌, first_row, where_rows, length, if◌then◌else◌,
}
use runscope.Models.{
  Uuid, Timestamp, Dict, Json, pos, number, integer, text, flag, uuid, RunStatus, scheduling,
  running, succeeded, failed, cancelling, cancelled, Run, RunLog, RunMetric, Fraction, Artifact,
  RunParameter, ResourceAllocation, TrainingTemplate, status_eq, status_in,
}
use runscope.Models.Store.{
  Db, Error, runtime_error, artifact_storage_error, Result, ok, err, Tx, ◌>>=◌, ◌>>◌, pure, lift,
  gets, modify, uuid4, for_each, get_run, get_template, save_run, flush_run,
}
use runscope.StateMachine.{valid_transitions, transition_run}
use runscope.Registry.{active_of_run, release_allocation}
use runscope.Templates.{
  SlowDemoParameters, Validated, iris, slow, GeneratedArtifact, TemplateResult, External,
  PutOutcome, stored, unavailable, broken, registry_get, TemplateDefinition, validate_parameters,
}

-- What the first transaction comes to: nothing to do, or a run that has started.
pub data Begin : Type 0 where
  skipped : Option Run → Begin
  started : Run → TrainingTemplate → Validated → Begin

-- `expected is not None and actual != expected`
abbrev pub differs : Uuid → Option Uuid → Bool
differs actual none = false
differs actual (some expected) = not (actual == expected)

-- The test on the allocation found for the run.
abbrev pub lease_denied : Option Uuid → Option Uuid → Option ResourceAllocation → Bool
lease_denied expected_worker_id lease_token none = true
lease_denied expected_worker_id lease_token (some a) =
    differs a.worker_id expected_worker_id || differs a.lease_token lease_token

abbrev pub run_parameters : Uuid → Db → Dict
run_parameters run_id db =
    map (λ (p : RunParameter). (p.name, p.value))
      (where_rows (λ (p : RunParameter). p.run_id == run_id) db.parameters)

abbrev pub template_or_raise : Option TrainingTemplate → Result TrainingTemplate
template_or_raise none = err (runtime_error "Run references a missing training template")
template_or_raise (some t) = ok t

module _ (external : External) (now : Timestamp) where
  -- From the lookup of the template to the first commit.
  unfoldable pub start_run : Run → ResourceAllocation → Tx Begin
  start_run run allocation = do
    found ← gets (get_template run.template_id)
    template ← lift (template_or_raise found)
    parameters ← gets (run_parameters run.id)
    validated ← lift (validate_parameters external template parameters)
    run' ←
        transition_run now run running "run.started"
          (("worker_id", uuid allocation.worker_id) ∷ ("lease_id", uuid allocation.id) ∷ [])
    run'' ← flush_run run'
    pure (started run'' template validated.0)

  unfoldable pub begin_with : Run → Option Uuid → Option Uuid → Option ResourceAllocation → Tx Begin
  unfolding start_run
  begin_with run expected_worker_id lease_token none = pure (skipped (some run))
  begin_with run expected_worker_id lease_token (some a) =
      if lease_denied expected_worker_id lease_token (some a)
      then pure (skipped (some run))
      else start_run run a

  unfoldable pub begin_found : Option Run → Option Uuid → Option Uuid → Tx Begin
  unfolding begin_with
  begin_found none expected_worker_id lease_token = pure (skipped none)
  begin_found (some run) expected_worker_id lease_token =
      if status_eq run.status scheduling
      then (do
        allocation ← gets (λ db. first_row (active_of_run run.id) db.allocations)
        begin_with run expected_worker_id lease_token allocation)
      else pure (skipped (some run))

  unfoldable pub begin_execution : Uuid → Option Uuid → Option Uuid → Tx Begin
  unfolding begin_found
  begin_execution run_id expected_worker_id lease_token = do
    run ← gets (get_run run_id)
    begin_found run expected_worker_id lease_token

  -- Transition, flush with the test of the version, release of the lease.
  unfoldable pub end_run : Run → RunStatus → String → Dict → Tx Run
  end_run run target event_type metadata = do
    run' ← transition_run now run target event_type metadata
    run'' ← flush_run run'
    modify (λ db. (release_allocation now run.id db).1)
    pure run''

  -- enumerate(result.logs, start=sequence)
  abbrev pub log_rows : Uuid → ℕ → List (String × String) → List RunLog
  log_rows run_id sequence [] = []
  log_rows run_id sequence ((level, message) ∷ rest) =
      record { run_id = run_id; sequence_number = sequence; level = level; message = message }
      ∷ log_rows run_id (sequence + 1) rest

  abbrev pub metric_rows : Uuid → List (String × Fraction) → List RunMetric
  metric_rows run_id =
      map (λ (name, value). record { run_id = run_id; name = name; value = value; step = 1 })

  abbrev pub artifact_row : Uuid → GeneratedArtifact → Uuid → Artifact
  artifact_row run_id generated id = record {
    id = id;
    run_id = run_id;
    name = generated.name;
    storage_key = (run_id, generated.name);
    mime_type = generated.mime_type;
    size_bytes = length generated.content;
    checksum = external.sha256 generated.content;
  }

  abbrev pub put_result : PutOutcome → Result (Unit {0})
  put_result stored = ok tt
  put_result unavailable = err artifact_storage_error
  put_result broken = err (runtime_error "put")

  abbrev pub upload : Uuid → GeneratedArtifact → Tx (Unit {0})
  upload run_id generated = do
    lift (put_result (external.put (run_id, generated.name) generated.content generated.mime_type))
    id ← uuid4
    modify (λ db. record db { artifacts = artifact_row run_id generated id ∷ db.artifacts })

  abbrev pub result_or_raise : Option TemplateDefinition → Validated → Result TemplateResult
  result_or_raise none validated = err (runtime_error "Template has no registered executor")
  result_or_raise (some d) validated =
      if d.has_executor
      then (elim (external.execute validated) [
        | none ↦ err (runtime_error "execute")
        | some result ↦ ok result
      ])
      else err (runtime_error "Template has no registered executor")

  -- The `try` block.
  unfoldable pub attempt_classification : Run → TrainingTemplate → Validated → Tx Run
  unfolding end_run
  attempt_classification run template validated = do
    result ← lift (result_or_raise (registry_get template.key template.version) validated)
    modify (λ db. record db { logs = log_rows run.id 1 result.logs ++ db.logs })
    modify (λ db. record db { metrics = metric_rows run.id result.metrics ++ db.metrics })
    for_each result.artifacts (upload run.id)
    end_run run succeeded "run.succeeded" (
        ("metric_count", number (length result.metrics))
        ∷ ("artifact_count", number (length result.artifacts))
        ∷ [])

  abbrev pub with_failure : String → String → Run → Run
  with_failure code message run = record run {
    failure_code = some code;
    failure_message = some message;
  }

  abbrev pub blame : Error → Run → Run
  blame artifact_storage_error run =
      with_failure "artifact_upload_failed" "Artifact storage remained unavailable" run
  blame _ run = with_failure "template_execution_failed" "Trusted template execution failed" run

  -- The `except` block where the rollback had nothing to end: `session.get` returns the run that the
  -- session still holds, and the flush tests its version.
  unfoldable pub fail_found : Error → Run → Tx Run
  unfolding end_run
  fail_found error failed_run = end_run (blame error failed_run) failed "run.failed" []

  -- The uploads leave the session with a transaction: by the first row that they add, or, where
  -- there is none, by the change of the run.
  abbrev pub uploads_begin : Run → List GeneratedArtifact → Bool
  uploads_begin run [] = status_in succeeded (valid_transitions run.status)
  uploads_begin run (g ∷ gs) =
      (elim (put_result (external.put (run.id, g.name) g.content g.mime_type)) [
        | ok _ ↦ true
        | err _ ↦ false
      ])

  -- Whether the session has begun a transaction when the `try` block raises: with the first row that
  -- is added to it or the first change of the run.
  abbrev pub in_transaction : Run → Result TemplateResult → Bool
  in_transaction run (err error) = false
  in_transaction run (ok result) =
      not (length result.logs == 0)
      || (not (length result.metrics == 0) || uploads_begin run result.artifacts)

  -- The rollback of a transaction, or a flush that failed, expires the run: reading `run.id` then
  -- needs a query, which is an error outside of an awaited call. Nothing is committed.
  abbrev pub or_fail : Run → Db → Bool → Result (Run × Db) → Result (Run × Db)
  or_fail run before begun (ok done) = ok done
  or_fail run before true (err error) = err (runtime_error "MissingGreenlet")
  or_fail run before false (err error) = fail_found error run before

  unfoldable pub finish_classification : Run → TrainingTemplate → Validated → Tx Run
  unfolding attempt_classification fail_found
  finish_classification run template validated db =
      or_fail run db
        (in_transaction run
          (result_or_raise (registry_get template.key template.version) validated))
        (attempt_classification run template validated db)
