-- ===== src/Commands/Retries.antt =====
-- api/runs.py: what a retry makes.
use runscope.Prelude.{
  ◌+◌, ◌≡◌, refl, sym, ap, ◌∙◌, String, List, [], ◌∷◌, ◌++◌, map, where_rows, none, some, true,
  false, inl, inr, ◌==◌, ==_refl, ==→≡, find, find-key, length, arith, Bool-cases,
}
use runscope.Models.{
  Uuid, Timestamp, Dict, Json, Run, RunParameter, queued, failed, User, status_eq, TrainingTemplate,
}
use runscope.Models.Store.{Db, Settings, ok, get_run, get_template}
use runscope.Models.Store.Done.{Done}
use runscope.StateMachine.{enter, transition_run}
use runscope.Templates.{External, Validated, validate_parameters}
use runscope.Execution.{run_parameters}
use runscope.Platform.{IsConsistent, undrawn_run}
use runscope.Commands.{
  parameter_rows, add_outbox_event, submit, controlled_run, child_run, retry_run, update,
}
use runscope.Commands.Effects.{May, saved_here, saved_other, granted_of}

-- A new queued run beside the failed one.
pub record Retried (parent child : Run) (caller : Uuid) (parameters : Dict) (db db' : Db)
    : Type 0 where
  pub stored : get_run child.id db' ≡ some (record child { version = child.version + 1 })
  pub fresh : child.id ≡ db.next_id
  pub waits : child.status ≡ queued
  pub parent_stays : get_run parent.id db' ≡ some parent
  pub lineage :
      (child.parent_run_id ≡ some parent.id) × (child.attempt_number ≡ parent.attempt_number + 1)
  pub by_caller : child.created_by ≡ caller
  pub stored_parameters : run_parameters child.id db' ≡ parameters
  pub request :
      (child.experiment_id ≡ parent.experiment_id)
      × (child.priority ≡ parent.priority)
      × (child.notes ≡ parent.notes)
      × (child.tags ≡ parent.tags)
      × (child.requested_cpu ≡ parent.requested_cpu)
      × (child.requested_memory_mb ≡ parent.requested_memory_mb)
      × (child.template_id ≡ parent.template_id)
  pub others : (j : Uuid) → (child.id == j) ≡ false → get_run j db' ≡ get_run j db
  pub one_message : length db'.outbox ≡ length db.outbox + 1

abbrev entry : RunParameter → String × Json
entry p = (p.name, p.value)

new_parameters :
    (id : Uuid) (values : Dict) (rows : List RunParameter)
    → map entry (where_rows (λ (p : RunParameter). p.run_id == id) rows) ≡ []
    → map entry
        (where_rows (λ (p : RunParameter). p.run_id == id) (parameter_rows id values ++ rows))
      ≡ values
unfolding where_rows
new_parameters id [] rows unused = unused
new_parameters id ((name, value) ∷ values) rows unused =
    rw (==_refl id) (ap (add (name, value)) (new_parameters id values rows unused))
  where
    add : String × Json → Dict → Dict
    add e rest = e ∷ rest

module _ (settings : Settings) (correlation_id : String) (now : Timestamp) where
  parent_apart :
      (run_id : Uuid) (parent : Run) (db : Db)
      → IsConsistent db
      → get_run run_id db ≡ some parent
      → (db.next_id == parent.id) ≡ false
  parent_apart run_id parent db h found =
      let same : parent.id ≡ run_id =
        find-key (λ (r : Run). r.id) run_id db.runs {x = parent} found in
      let missing : get_run db.next_id db ≡ none = undrawn_run db db.next_id (omega arith) h in
      elim (Bool-cases (db.next_id == parent.id)) [
        | inl e ↦
            cc (sym missing ∙ ap (λ k. get_run k db) (==→≡ db.next_id parent.id e ∙ same) ∙ found)
        | inr e ↦ e
      ]

  submit-Retried :
      (parent : Run) (caller : Uuid) (parameters metadata payload : Dict) (db : Db)
      → IsConsistent db
      → get_run parent.id db ≡ some parent
      → run_parameters db.next_id db ≡ []
      → Done
          (λ child. Retried parent child caller parameters db)
          (submit settings correlation_id now
            (child_run settings correlation_id now parent caller)
            parameters
            metadata
            payload
            db)
  unfolding submit add_outbox_event find enter transition_run
  submit-Retried parent caller parameters metadata payload db h own unused =
      let child = child_run settings correlation_id now parent caller db.next_id in
      let here : (db.next_id == db.next_id) ≡ true = ==_refl db.next_id in
      record {
        stored = saved_here db.next_id _ child (child ∷ db.runs) refl (rw here refl);
        fresh = refl;
        waits = refl;
        parent_stays =
            saved_other db.next_id parent.id _ (child ∷ db.runs) refl
              (parent_apart parent.id parent db h own)
            ∙ rw (parent_apart parent.id parent db h own) own;
        lineage = (refl, refl);
        by_caller = refl;
        stored_parameters = new_parameters db.next_id parameters db.parameters unused;
        request = (refl, refl, refl, refl, refl, refl, refl);
        others = λ j e. saved_other db.next_id j _ (child ∷ db.runs) refl e ∙ rw e refl;
        one_message = omega arith;
      }

  -- On a consistent platform, where no parameters stand under an identifier that is still to come, a
  -- caller who may change a failed run retries it, if its template exists and accepts the parent's
  -- parameters with the overrides: a queued run of the caller is added under a fresh identifier, with
  -- the parent's experiment, template, priority, CPU, memory, notes and tags, the parameters that the
  -- template accepted, the next attempt number and a link to the parent, whose row stays as it is,
  -- like every other; and one message goes to the outbox.
  pub retry_run-Retried :
      (external : External) (run_id : Uuid) (overrides : Dict) (caller : User) (db : Db)
      (parent : Run) (template : TrainingTemplate) (validated : Validated × Dict)
      → IsConsistent db
      → get_run run_id db ≡ some parent
      → May caller parent
      → parent.status ≡ failed
      → get_template parent.template_id db ≡ some template
      → validate_parameters external template (update (run_parameters parent.id db) overrides)
        ≡ ok validated
      → run_parameters db.next_id db ≡ []
      → Done
          (λ child. Retried parent child caller.id validated.1 db)
          (retry_run settings correlation_id now external run_id overrides caller db)
  unfolding retry_run
  retry_run-Retried external run_id overrides caller db parent template validated h found may ended
        has_template accepts unused =
      let test : status_eq parent.status failed ≡ true = rw ended in
      let own : get_run parent.id db ≡ some parent =
        ap (λ k. get_run k db) (find-key (λ (r : Run). r.id) run_id db.runs {x = parent} found)
        ∙ found in
      let granted : controlled_run settings correlation_id now run_id caller db ≡ ok (parent, db) =
        granted_of settings correlation_id now run_id caller parent db found may in
      rw (granted, test, has_template, accepts)
        (submit-Retried parent caller.id validated.1 _ _ db h own unused)
