-- ===== src/Worker/Delivery.antt =====
-- worker/main.py: repeated delivery is harmless, and consumption keeps the platform consistent.
use package.text.Mathlib.Text.{◌==◌ as str_eq}
use runscope.Prelude.{
  ℕ, ◌≡◌, refl, List, [], ◌∷◌, Option, none, some, Bool, true, false, ◌==◌, ==_refl, is_some,
  first_row, arith, ◌⊎◌, inl, inr, Bool-cases,
}
use runscope.Models.{Uuid, Timestamp, EventEnvelope, Run}
use runscope.Models.Store.{Db, Result, ok, err}
use runscope.Platform.{IsConsistent, keep_IsConsistent}
use runscope.Templates.{External}
use runscope.Execution.Slow.{Outcome, go_on}
use runscope.Execution.Session.{execute_existing_run}
use runscope.Execution.Whole.{go_on-IsConsistent, execute-IsConsistent}
use runscope.Worker.{
  is_processed, token_of, item, or_else, with_processed, process_new, process_for,
  process_assignment, ignored, process_event, consume,
}

module _ (external : External) (encode : ℕ → List ℕ) (now : Timestamp) (others : ℕ → Db → Db) where
  abbrev Marked : EventEnvelope → Uuid → Db → Type 0
  Marked event id db = is_some (first_row (is_processed event.event_id id) db.processed) ≡ true

  marks :
      (event : EventEnvelope) (id : Uuid) (db : Db)
      → Marked event id (with_processed event.event_id id db)
  unfolding first_row
  marks event id db = rw (==_refl event.event_id, ==_refl id)

  go_on-Marked :
      (event : EventEnvelope) (id : Uuid) (o : Outcome (Option Run))
      → let r = go_on {B = Bool} o (λ _ db'. (ok true, with_processed event.event_id id db')) in
        r.0 ≡ ok true → Marked event id r.1
  go_on-Marked event id (ok run, db) e = marks event id db
  go_on-Marked event id (err x, db) e = cc

  process_new-Marked :
      (event : EventEnvelope) (run_id id : Uuid) (token : Result (Option Uuid)) (db : Db)
      → (process_new external encode now others event run_id id token db).0 ≡ ok true
      → Marked event id (process_new external encode now others event run_id id token db).1
  unfolding process_new
  process_new-Marked event run_id id (err x) db e = cc
  process_new-Marked event run_id id (ok token) db e =
      go_on-Marked event id
        (execute_existing_run external encode now others run_id (some id) token db) e

  process_for-Marked :
      (event : EventEnvelope) (run_id id : Uuid) (db : Db)
      → (process_for external encode now others event run_id id db).0 ≡ ok true
      → Marked event id (process_for external encode now others event run_id id db).1
  unfolding process_for
  process_for-Marked event run_id id db =
      elim (Bool-cases (is_some (first_row (is_processed event.event_id id) db.processed))) [
        | inl e ↦ rw e (λ q. cc)
        | inr e ↦
            rw e
              (process_new-Marked event run_id id (token_of (item "lease_token" event.payload)) db)
      ]

  process_for-repeated :
      (event : EventEnvelope) (run_id id : Uuid) (db : Db)
      → Marked event id db
      → process_for external encode now others event run_id id db ≡ (ok false, db)
  unfolding process_for
  process_for-repeated event run_id id db e = rw e

  assignment-repeated :
      (event : EventEnvelope) (worker run event_worker : Option Uuid) (db : Db)
      → (process_assignment external encode now others event worker run event_worker db).0 ≡ ok true
      → process_assignment external encode now others event worker run event_worker
          (process_assignment external encode now others event worker run event_worker db).1
        ≡ (
          ok false,
          (process_assignment external encode now others event worker run event_worker db).1,
        )
  unfolding process_assignment
  assignment-repeated event worker (some run) (some w) db e =
      process_for-repeated event run (or_else worker w) _
        (process_for-Marked event run (or_else worker w) db e)
  assignment-repeated event worker none w db e = refl
  assignment-repeated event worker (some run) none db e = refl

  -- An event that was processed is not processed again: where the first delivery reports True, a
  -- second one reports False and changes nothing.
  pub process_event-repeated :
      (event : EventEnvelope) (worker : Option Uuid) (db : Db)
      → (process_event external encode now others event worker db).0 ≡ ok true
      → process_event external encode now others event worker
          (process_event external encode now others event worker db).1
        ≡ (ok false, (process_event external encode now others event worker db).1)
  unfolding process_event
  process_event-repeated event worker db = elim (Bool-cases (ignored event worker)) [
    | inl e ↦ rw e (λ q. refl)
    | inr e ↦ rw e (assignment-repeated event worker event.run_id event.worker_id db)
  ]

  -- An event for another worker, of another type or without its identifiers changes nothing.
  pub process_event-ignored :
      (event : EventEnvelope) (worker_id : Uuid) (db : Db)
      → (str_eq event.event_type "run.assigned" ≡ false)
        ⊎ ((event.run_id ≡ none)
            ⊎ ((event.worker_id ≡ none)
                ⊎ ((other : Uuid) × (event.worker_id ≡ some other)
                    × ((other == worker_id) ≡ false))))
      → process_event external encode now others event (some worker_id) db ≡ (ok false, db)
  unfolding process_event
  process_event-ignored event worker_id db h = ground arith

  module _ (keep : (k : ℕ) (db : Db) → IsConsistent db → IsConsistent (others k db)) where
    with_processed-IsConsistent :
        (event_id id : Uuid) (db : Db)
        → IsConsistent db
        → IsConsistent (with_processed event_id id db)
    with_processed-IsConsistent event_id id db h =
        keep_IsConsistent db (with_processed event_id id db) (omega arith) refl refl h.leased
          h.balanced h

    process_new-IsConsistent :
        (event : EventEnvelope) (run_id id : Uuid) (token : Result (Option Uuid)) (db : Db)
        → IsConsistent db
        → IsConsistent (process_new external encode now others event run_id id token db).1
    unfolding process_new
    process_new-IsConsistent event run_id id (err x) db h = h
    process_new-IsConsistent event run_id id (ok token) db h =
        go_on-IsConsistent {A = Option Run} {B = Bool}
          (execute_existing_run external encode now others run_id (some id) token db)
          (λ _ db'. (ok true, with_processed event.event_id id db'))
          (execute-IsConsistent external encode now others keep run_id (some id) token db h)
          (λ _ db' h'. with_processed-IsConsistent event.event_id id db' h')

    process_for-IsConsistent :
        (event : EventEnvelope) (run_id id : Uuid) (db : Db)
        → IsConsistent db
        → IsConsistent (process_for external encode now others event run_id id db).1
    unfolding process_for
    process_for-IsConsistent event run_id id db h =
        elim (Bool-cases (is_some (first_row (is_processed event.event_id id) db.processed))) [
          | inl e ↦ rw e h
          | inr e ↦ rw e (
              process_new-IsConsistent event run_id id (token_of (item "lease_token" event.payload))
                db h)
        ]

    assignment-IsConsistent :
        (event : EventEnvelope) (worker run event_worker : Option Uuid) (db : Db)
        → IsConsistent db
        → IsConsistent
            (process_assignment external encode now others event worker run event_worker db).1
    unfolding process_assignment
    assignment-IsConsistent event worker (some run) (some w) db h =
        process_for-IsConsistent event run (or_else worker w) db h
    assignment-IsConsistent event worker none w db h = h
    assignment-IsConsistent event worker (some run) none db h = h

    process_event-IsConsistent :
        (event : EventEnvelope) (worker : Option Uuid) (db : Db)
        → IsConsistent db
        → IsConsistent (process_event external encode now others event worker db).1
    unfolding process_event
    process_event-IsConsistent event worker db h = elim (Bool-cases (ignored event worker)) [
      | inl e ↦ rw e h
      | inr e ↦ rw e (assignment-IsConsistent event worker event.run_id event.worker_id db h)
    ]

    -- Each event is processed on what the one before it left, whether that returned or raised.
    abbrev pub EachProcessed : Uuid → List EventEnvelope → Db → Db → Type 0
    EachProcessed worker_id [] db last = last ≡ db
    EachProcessed worker_id (event ∷ events) db last =
        (r : Result Bool) × (after : Db) × (process_event external encode now others event
            (some worker_id) db
          ≡ (r, after))
        × IsConsistent after
        × EachProcessed worker_id events after last

    -- A worker that consumes any events, in any order and as often as they are delivered, with
    -- consistent transactions of others in between, processes each of them on what the one before it
    -- left, also where that ended in an exception, and leaves a consistent platform after each.
    pub consume-IsConsistent :
        (worker_id : Uuid) (events : List EventEnvelope) (db : Db)
        → IsConsistent db
        → let last = consume external encode now others worker_id events db in
          IsConsistent last × EachProcessed worker_id events db last
    unfolding consume
    consume-IsConsistent worker_id [] db h = (h, refl)
    consume-IsConsistent worker_id (event ∷ events) db h =
        let done = process_event external encode now others event (some worker_id) db in
        let kept = process_event-IsConsistent event (some worker_id) db h in
        let (end, rest) = consume-IsConsistent worker_id events done.1 kept in
        (end, (done.0, done.1, refl, kept, rest))
