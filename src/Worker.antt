-- ===== src/Worker.antt =====
-- services/worker/runscope_worker/main.py: the consumption of assignment events.
pub mod Delivery
use package.text.Mathlib.Text.{◌==◌ as str_eq}
use runscope.Prelude.{
  ℕ, zero, suc, String, List, [], ◌∷◌, Option, none, some, Bool, true, false, not, ◌&&◌, ◌||◌, ◌==◌,
  is_none, is_some, first_row, if◌then◌else◌,
}
use runscope.Models.{
  Uuid, Timestamp, Dict, Json, uuid, number, integer, text, flag, pos, negsuc, EventEnvelope,
  ProcessedMessage, Run,
}
use runscope.Models.Store.{Db, Error, runtime_error, Result, ok, err}
use runscope.Templates.{External}
use runscope.Execution.Slow.{Outcome, go_on}
use runscope.Execution.Session.{execute_existing_run}

abbrev pub consumer_name_prefix : String
consumer_name_prefix = "trusted-template-worker-v2"

-- f"{CONSUMER_NAME_PREFIX}:{active_worker_id}", as a pair
abbrev pub consumer_name : Uuid → String × Uuid
consumer_name active_worker_id = (consumer_name_prefix, active_worker_id)

abbrev pub is_processed : Uuid → Uuid → ProcessedMessage → Bool
is_processed event_id active_worker_id m =
    m.event_id == event_id
    && (str_eq m.consumer_name.0 consumer_name_prefix && m.consumer_name.1 == active_worker_id)

abbrev pub item : String → Dict → Option Json
item name [] = none
item name ((key, value) ∷ rest) = if str_eq key name then some value else item name rest

-- UUID(str(value)) if value else None
abbrev pub token_of : Option Json → Result (Option Uuid)
token_of none = ok none
token_of (some (uuid u)) = ok (some u)
token_of (some (text s)) = if str_eq s "" then ok none else err (runtime_error "UUID")
token_of (some (flag false)) = ok none
token_of (some (number zero)) = ok none
token_of (some (integer (pos zero))) = ok none
token_of (some _) = err (runtime_error "UUID")

abbrev pub or_else : Option Uuid → Uuid → Uuid
or_else none default = default
or_else (some id) default = id

abbrev pub with_processed : Uuid → Uuid → Db → Db
with_processed event_id active_worker_id db = record db {
  processed =
      record { event_id = event_id; consumer_name = consumer_name active_worker_id } ∷ db.processed;
}

-- worker_id is not None and event.worker_id != worker_id
abbrev pub for_another : Option Uuid → Option Uuid → Bool
for_another none event_worker_id = false
for_another (some id) none = true
for_another (some id) (some event_worker_id) = not (event_worker_id == id)

-- The test at the head of `process_event`.
abbrev pub ignored : EventEnvelope → Option Uuid → Bool
ignored event worker_id =
    not (str_eq event.event_type "run.assigned")
    || (is_none event.run_id || (is_none event.worker_id || for_another worker_id event.worker_id))

module _ (external : External) (encode : ℕ → List ℕ) (now : Timestamp) (others : ℕ → Db → Db) where
  -- The execution, then the ProcessedMessage in its own commit.
  unfoldable pub process_new :
      EventEnvelope → Uuid → Uuid → Result (Option Uuid) → Db → Outcome Bool
  process_new event run_id active_worker_id (err e) db = (err e, db)
  process_new event run_id active_worker_id (ok lease_token) db =
      go_on
        (execute_existing_run external encode now others run_id (some active_worker_id) lease_token
          db)
        λ _ db'. (ok true, with_processed event.event_id active_worker_id db')

  unfoldable pub process_for : EventEnvelope → Uuid → Uuid → Db → Outcome Bool
  unfolding process_new
  process_for event run_id active_worker_id db =
      if is_some (first_row (is_processed event.event_id active_worker_id) db.processed)
      then (ok false, db)
      else process_new event run_id active_worker_id (token_of (item "lease_token" event.payload))
          db

  -- process_assignment, on the optional identifiers of the event
  unfoldable pub process_assignment :
      EventEnvelope → Option Uuid → Option Uuid → Option Uuid → Db → Outcome Bool
  unfolding process_for
  process_assignment event worker_id (some run_id) (some event_worker_id) db =
      process_for event run_id (or_else worker_id event_worker_id) db
  process_assignment event worker_id _ _ db = (ok false, db)

  unfoldable pub process_event : EventEnvelope → Option Uuid → Db → Outcome Bool
  unfolding process_assignment
  process_event event worker_id db =
      if ignored event worker_id
      then (ok false, db)
      else process_assignment event worker_id event.run_id event.worker_id db

  -- The consumer: an exception is logged, and the next event is processed.
  unfoldable pub consume : Uuid → List EventEnvelope → Db → Db
  consume worker_id [] db = db
  consume worker_id (event ∷ events) db =
      consume worker_id events (process_event event (some worker_id) db).1
