-- ===== src/Commands/Keeps.antt =====
-- api/runs.py and run_execution.py: a new run keeps the platform consistent.
use runscope.Prelude.{
  ℕ, ◌+◌, ◌≤◌, ◌≡◌, refl, ap, ◌∙◌, String, List, ◌∷◌, ◌++◌, some, inl, inr, ◌==◌, ==_refl, find,
  key_in, arith, Bool-cases,
}
use runscope.Models.{Uuid, Timestamp, Dict, Run, RunParameter, draft, queued, User, OutboxMessage}
use runscope.Models.Store.{Db, Settings, or_raise, get_run, get_experiment, save_run, add_event}
use runscope.Models.Store.Done.{Holds, Holds-lift}
use runscope.StateMachine.{enter, transition_event}
use runscope.StateMachine.Lifecycle.{transition_run-ok}
use runscope.Security.{researcher_user}
use runscope.Platform.{
  lease_slots, run_ids, Leased, IsConsistent, keep_IsConsistent, undrawn_run,
  add_event-IsConsistent,
}
use runscope.Registry.Leases.{save_run-IsConsistent}
use runscope.Templates.{External, find_template, validate_parameters}
use runscope.Tags.{StrMethods}
use runscope.Commands.{
  RunCreate, parameter_rows, add_outbox_event, submit, draft_run, create_queued_run, create_run,
}

-- A row with a fresh identifier, for a run that holds no lease.
abbrev with_run : Run → List RunParameter → Db → Db
with_run run parameters db = record db {
  runs = run ∷ db.runs;
  parameters = parameters;
  next_id = db.next_id + 1;
}

with_run-Leased :
    (run : Run) (parameters : List RunParameter) (db : Db)
    → run.id ≡ db.next_id
    → lease_slots (some run) ≡ 0
    → IsConsistent db
    → Leased (with_run run parameters db)
unfolding find
with_run-Leased run parameters db fresh idle h j = elim (Bool-cases (run.id == j)) [
  | inl e ↦
      let missing : lease_slots (get_run j db) ≡ 0 =
        ap lease_slots (undrawn_run db j (ground arith) h) in
      rw e (omega (arith, h.leased j, missing, idle))
  | inr e ↦ rw e (h.leased j)
]

pub with_run-IsConsistent :
    (run : Run) (parameters : List RunParameter) (db : Db)
    → run.id ≡ db.next_id
    → lease_slots (some run) ≡ 0
    → IsConsistent db
    → IsConsistent
        (record db { runs = run ∷ db.runs; parameters = parameters; next_id = db.next_id + 1 })
with_run-IsConsistent run parameters db fresh idle h = record {
  leased = with_run-Leased run parameters db fresh idle h;
  balanced = h.balanced;
  unique_runs = (
    ap (λ k. key_in k (run_ids db)) fresh ∙ h.fresh_runs db.next_id (omega arith),
    h.unique_runs,
  );
  unique_workers = h.unique_workers;
  fresh_runs = λ j q. ground (arith, h.fresh_runs j);
  fresh_workers = λ j q. h.fresh_workers j (omega arith);
}

-- Messages are outside the invariant.
pub outbox-IsConsistent :
    (messages : List OutboxMessage) (n : ℕ) (db : Db)
    → db.next_id ≤ n
    → IsConsistent db
    → IsConsistent (record db { outbox = messages; next_id = n })
outbox-IsConsistent messages n db q h =
    keep_IsConsistent db (record db { outbox = messages; next_id = n }) q refl refl h.leased
      h.balanced h

module _ (settings : Settings) (correlation_id : String) (now : Timestamp) where
  pub add_outbox_event-IsConsistent :
      (run_id : Uuid) (event_type : String) (payload : Dict) (db : Db)
      → IsConsistent db
      → Holds
          (λ _. IsConsistent)
          (add_outbox_event settings correlation_id now run_id event_type payload db)
  unfolding add_outbox_event
  add_outbox_event-IsConsistent run_id event_type payload db h =
      outbox-IsConsistent _ (db.next_id + 1 + 1) db (omega arith) h

  pub submit-IsConsistent :
      (new_run : Uuid → Run) (parameters metadata payload : Dict) (db : Db)
      → (new_run db.next_id).id ≡ db.next_id
      → (new_run db.next_id).status ≡ draft
      → IsConsistent db
      → Holds
          (λ _. IsConsistent)
          (submit settings correlation_id now new_run parameters metadata payload db)
  unfolding submit find enter add_outbox_event
  submit-IsConsistent new_run parameters metadata payload db fresh new h =
      let run = new_run db.next_id in
      let db1 = with_run run (parameter_rows db.next_id parameters ++ db.parameters) db in
      let db2 = add_event (transition_event run queued "run.queued" metadata) db1 in
      rw (transition_run-ok now run queued "run.queued" metadata db1 (rw new)) (
        outbox-IsConsistent _ (db.next_id + 1 + 1 + 1) (save_run (enter now queued run) db2)
          (omega arith)
          (save_run-IsConsistent (enter now queued run) run db2 (rw (==_refl run.id) refl) (rw new)
            (add_event-IsConsistent _ db1 (with_run-IsConsistent run _ db fresh (rw new) h))))

  create_queued_run-IsConsistent :
      (external : External) (str : StrMethods) (body : RunCreate) (created_by : Uuid) (db : Db)
      → IsConsistent db
      → Holds
          (λ _. IsConsistent)
          (create_queued_run settings correlation_id now external str body created_by db)
  unfolding create_queued_run
  create_queued_run-IsConsistent external str body created_by db h =
      Holds-lift (λ _. IsConsistent) (find_template body.template_key body.template_version db) _ db
        λ template _.
          Holds-lift (λ _. IsConsistent) (validate_parameters external template body.parameters) _
            db
            λ validated _.
              submit-IsConsistent
                (draft_run settings correlation_id now str body template.id created_by) _ _ _ db
                refl refl h

  -- Where the creation of a run commits, the platform stays consistent.
  pub create_run-IsConsistent :
      (external : External) (str : StrMethods) (body : RunCreate) (caller : User) (db : Db)
      → IsConsistent db
      → Holds
          (λ _. IsConsistent)
          (create_run settings correlation_id now external str body caller db)
  unfolding create_run
  create_run-IsConsistent external str body caller db h =
      Holds-lift (λ _. IsConsistent) (researcher_user caller) _ db
        λ user _.
          Holds-lift (λ _. IsConsistent)
            (or_raise (get_experiment body.experiment_id db) "experiment_not_found" 404) _ db
            λ _ _. create_queued_run-IsConsistent external str body user.id db h
