-- ===== src/Execution/SlowHistory.antt =====
-- run_execution.py: the checkpoints and the end of the slow demonstration move runs along the
-- lifecycle only.
use runscope.Prelude.{ℕ, ◌≡◌, refl, List, [], Option, none, some, inl, inr, Bool-cases}
use runscope.Models.{Uuid, Timestamp, succeeded, failed, cancelling, cancelled, Run, status_eq}
use runscope.Models.Store.{Db, get_run}
use runscope.Models.Store.Done.{Holds, Holds-map, Holds-and_then}
use runscope.Platform.History.{Known, Known-found, Evolves, Evolves-same, Evolves-trans}
use runscope.Templates.{SlowDemoParameters, External, PutOutcome, stored, unavailable, broken}
use runscope.Execution.{end_run}
use runscope.Execution.History.{Steps, Known-same, end_run-Evolves}
use runscope.Execution.Slow.{
  total_steps, Checkpoint, stopped, continues, checkpoint_found, checkpoint, after_put, finish_slow,
}

module _ (Exists : Uuid → Type 0) (external : External) (now : Timestamp)
    (encode : ℕ → List ℕ) where
  abbrev pub KeepsRun : Db → Checkpoint → Db → Type 0
  KeepsRun before (stopped run) after = Evolves Exists before after
  KeepsRun before (continues run) after = Steps Exists before run after

  checkpoint_found-Steps :
      (total step : ℕ) (o : Option Run) (db : Db)
      → ((run : Run) → o ≡ some run → Known Exists run db)
      → Holds (KeepsRun db) (checkpoint_found external encode now total step o db)
  unfolding checkpoint_found
  checkpoint_found-Steps total step none db known = tt
  checkpoint_found-Steps total step (some run) db known =
      elim (Bool-cases (status_eq run.status cancelling)) [
        | inl e ↦ rw e (
            Holds-and_then (λ _. Evolves Exists db) (KeepsRun db)
              (end_run external now run cancelled "run.cancelled" [] _) _
              (Holds-map (Evolves Exists _) (Evolves Exists db)
                (end_run external now run cancelled "run.cancelled" [] _)
                (λ db''. Evolves-trans Exists db _ db'' (Evolves-same Exists db _ refl))
                (end_run-Evolves Exists external now run run cancelled "run.cancelled" [] _
                  (Known-same Exists run db _ refl (known run refl)) refl refl refl refl))
              (λ run' db' h. h))
        | inr e ↦
            rw e (Evolves-same Exists db _ refl, Known-same Exists run db _ refl (known run refl))
      ]

  pub checkpoint-Steps :
      (total step : ℕ) (run_id : Uuid) (db : Db)
      → Holds (KeepsRun db) (checkpoint external encode now total step run_id db)
  unfolding checkpoint
  checkpoint-Steps total step run_id db =
      checkpoint_found-Steps total step (get_run run_id db) db
        λ run e. Known-found Exists run_id run db e

  after_put-Evolves :
      (total : ℕ) (run : Run) (o : PutOutcome) (db : Db)
      → Known Exists run db
      → Holds (λ _. Evolves Exists db) (after_put external encode now total run o db)
  unfolding after_put
  after_put-Evolves total run broken db known = tt
  after_put-Evolves total run unavailable db known =
      end_run-Evolves Exists external now run _ failed _ _ db known refl refl refl refl
  after_put-Evolves total run stored db known =
      Holds-map (Evolves Exists _) (Evolves Exists db) (end_run external now run succeeded _ _ _)
        (λ db'. Evolves-trans Exists db _ db' (Evolves-same Exists db _ refl))
        (end_run-Evolves Exists external now run run succeeded _ _ _
          (Known-same Exists run db _ refl known) refl refl refl refl)

  pub finish_slow-Evolves :
      (parameters : SlowDemoParameters) (run : Run) (db : Db)
      → Known Exists run db
      → Holds (λ _. Evolves Exists db) (finish_slow external encode now parameters run db)
  unfolding finish_slow total_steps
  finish_slow-Evolves parameters run db known = elim (Bool-cases parameters.fail_intentionally) [
    | inl e ↦
        rw e (end_run-Evolves Exists external now run _ failed _ _ db known refl refl refl refl)
    | inr e ↦ rw e (after_put-Evolves (total_steps parameters) run _ db known)
  ]
