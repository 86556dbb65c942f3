-- ===== src/StateMachine.antt =====
-- state_machine.py: the lifecycle of a run.
pub mod Lifecycle
use runscope.Prelude.{String, List, [], ◌∷◌, Option, none, some, Bool, ◌&&◌, is_none, if◌then◌else◌}
use runscope.Models.{
  Timestamp, Dict, RunStatus, Run, RunEvent, draft, queued, scheduling, running, succeeded, failed,
  cancelling, cancelled, retrying, status_eq, status_in,
}
use runscope.Models.Store.{Result, ok, app, Tx, ◌>>=◌, ◌>>◌, pure, lift, modify, add_event}

abbrev pub valid_transitions : RunStatus → List RunStatus
valid_transitions draft = queued ∷ []
valid_transitions queued = scheduling ∷ []
valid_transitions scheduling = running ∷ queued ∷ []
valid_transitions running = succeeded ∷ failed ∷ cancelling ∷ []
valid_transitions cancelling = cancelled ∷ []
valid_transitions failed = retrying ∷ []
valid_transitions retrying = queued ∷ []
valid_transitions succeeded = []
valid_transitions cancelled = []

abbrev pub terminal_statuses : List RunStatus
terminal_statuses = succeeded ∷ cancelled ∷ []

unfoldable pub validate_transition : RunStatus → RunStatus → Result (Unit {0})
validate_transition previous target =
    if status_in target (valid_transitions previous)
    then ok tt
    else app "run_invalid_transition" 409

-- The assignments to the run, in the order of the source.
unfoldable pub enter : Timestamp → RunStatus → Run → Run
enter now target run =
    let r1 = record run { status = target } in
    let r2 = record r1 {
      queued_at =
          if status_eq target queued && is_none run.queued_at then some now else run.queued_at;
    } in
    let r3 = record r2 {
      started_at = if status_eq target running then some now else run.started_at;
    } in
    record r3 {
      completed_at =
          if status_in target (succeeded ∷ failed ∷ cancelled ∷ [])
          then some now
          else run.completed_at;
    }

abbrev pub transition_event : Run → RunStatus → String → Dict → RunEvent
transition_event run target event_type metadata = record {
  run_id = run.id;
  event_type = event_type;
  previous_status = some run.status;
  new_status = some target;
  event_metadata = metadata;
}

-- The run as the call leaves it; the event is added to the session. The run's row is written when
-- the session is flushed, by the caller's `save_run` or `flush_run`.
unfoldable pub transition_run : Timestamp → Run → RunStatus → String → Dict → Tx Run
unfolding validate_transition enter
transition_run now run target event_type metadata = do
  lift (validate_transition run.status target)
  modify (add_event (transition_event run target event_type metadata))
  pure (enter now target run)
