-- ===== src/System.antt =====
-- The platform as a whole: the API, the scheduler, the workers and the dispatcher share one database,
-- and each action is one of their transactions, in any order. A transaction that raises is rolled
-- back. Between its transactions a worker holds the run that it read; `held` lists these objects.
pub mod References
pub mod Sound
pub mod Actions
pub mod Play
use runscope.Prelude.{ℕ, zero, suc, String, List, [], ◌∷◌, Option, none, some, Bool}
use runscope.Models.{Uuid, Timestamp, Dict, Run, User, TrainingTemplate, OutboxMessage}
use runscope.Models.Store.{Db, Settings, Result, ok, err, Tx}
use runscope.Scheduler.{Locks, schedule_once}
use runscope.Templates.{External, Validated, SlowDemoParameters}
use runscope.Execution.{Begin, skipped, started, begin_execution, finish_classification}
use runscope.Execution.Slow.{Checkpoint, stopped, continues, add_log, checkpoint, finish_slow}
use runscope.Worker.{with_processed}
use runscope.Workers.{WorkerRegister, register, heartbeat}
use runscope.Tags.{StrMethods}
use runscope.Commands.{
  RunCreate, RunMetadataUpdate, create_run, cancel_run, retry_run, update_run_metadata,
}
use runscope.Catalog.{
  ProjectCreate, ExperimentCreate, create_project, delete_project, create_experiment,
  delete_experiment,
}
use runscope.Catalog.Updates.{ProjectUpdate, ExperimentUpdate, update_project, update_experiment}
use runscope.Outbox.{dispatch_batch}

pub record System : Type 0 where
  pub db : Db
  pub held : List Run

pub data Action : Type 0 where
  project_created : ProjectCreate → User → Action
  project_updated : Uuid → ProjectUpdate → User → Action
  project_deleted : Uuid → User → Action
  experiment_created : ExperimentCreate → User → Action
  experiment_updated : Uuid → ExperimentUpdate → User → Action
  experiment_deleted : Uuid → User → Action
  run_created : String → RunCreate → User → Action
  run_cancelled : String → Uuid → User → Action
  run_retried : String → Uuid → Dict → User → Action
  metadata_updated : Uuid → RunMetadataUpdate → User → Action
  worker_registered : WorkerRegister → User → Action
  worker_seen : Uuid → User → Action
  -- the locks of others, and the clock of the recovery
  round_scheduled : Locks → Timestamp → Action
  execution_begun : Uuid → Option Uuid → Option Uuid → Action
  -- by the place of the run among the held ones
  demonstration_started : ℕ → Action
  checkpoint_reached : ℕ → ℕ → ℕ → Action
  demonstration_finished : SlowDemoParameters → ℕ → Action
  classification_finished : TrainingTemplate → Validated → ℕ → Action
  message_processed : Uuid → Uuid → Action
  batch_dispatched : (ℕ → OutboxMessage → Option String) → (Uuid → Bool) → ℕ → ℕ → Action

abbrev pub committed : {A : Type 0} → Result (A × Db) → Db → Db
committed (ok (a, db)) before = db
committed (err e) before = before

abbrev pub writes : {A : Type 0} → Tx A → System → System
writes tx s = record s { db = committed (tx s.db) s.db }

-- The run that the first transaction of an execution hands on.
abbrev pub begun : Result (Begin × Db) → System → System
begun (ok (skipped run, db)) s = record s { db = db }
begun (ok (started run template validated, db)) s = record { db = db; held = run ∷ s.held }
begun (err e) s = s

-- The run as a checkpoint has refreshed it.
abbrev pub checked : Result (Checkpoint × Db) → System → System
checked (ok (stopped run, db)) s = record s { db = db }
checked (ok (continues run, db)) s = record { db = db; held = run ∷ s.held }
checked (err e) s = s

abbrev pub held_run : ℕ → List Run → Option Run
held_run n [] = none
held_run zero (run ∷ runs) = some run
held_run (suc n) (run ∷ runs) = held_run n runs

abbrev pub for_held : Option Run → (Run → System → System) → System → System
for_held none f s = s
for_held (some run) f s = f run s

module _ (settings : Settings) (external : External) (encode : ℕ → List ℕ) (str : StrMethods)
    (sql_lower : String → String) (name_le : String → String → Bool) where
  open str use {strip}

  -- An action at the given time.
  unfoldable pub act : Timestamp → Action → System → System
  act now (project_created body caller) = writes (create_project now body caller)
  act now (project_updated id body caller) = writes (update_project now id body caller)
  act now (project_deleted id caller) = writes (delete_project id caller)
  act now (experiment_created body caller) =
      writes (create_experiment str sql_lower now body caller)
  act now (experiment_updated id body caller) =
      writes (update_experiment now str sql_lower id body caller)
  act now (experiment_deleted id caller) = writes (delete_experiment id caller)
  act now (run_created correlation body caller) =
      writes (create_run settings correlation now external str body caller)
  act now (run_cancelled correlation id caller) =
      writes (cancel_run settings correlation now id caller)
  act now (run_retried correlation id overrides caller) =
      writes (retry_run settings correlation now external id overrides caller)
  act now (metadata_updated id body caller) =
      writes (update_run_metadata settings "" now str id body caller)
  act now (worker_registered body caller) = writes (register settings now strip body caller)
  act now (worker_seen id caller) = writes (heartbeat settings now strip id caller)
  act now (round_scheduled locks recovery) =
      writes (schedule_once name_le settings locks now recovery)
  act now (execution_begun id worker token) =
      λ s. begun (begin_execution external now id worker token s.db) s
  act now (demonstration_started i) = λ s.
      for_held (held_run i s.held)
        (λ run. writes (add_log run.id 1 "Started bounded progress demonstration")) s
  act now (checkpoint_reached total step i) = λ s.
      for_held (held_run i s.held)
        (λ run s. checked (checkpoint external encode now total step run.id s.db) s) s
  act now (demonstration_finished parameters i) = λ s.
      for_held (held_run i s.held) (λ run. writes (finish_slow external encode now parameters run))
        s
  act now (classification_finished template validated i) = λ s.
      for_held (held_run i s.held)
        (λ run. writes (finish_classification external now run template validated)) s
  act now (message_processed event_id worker_id) =
      λ s. record s { db = with_processed event_id worker_id s.db }
  act now (batch_dispatched publish locked limit max_attempts) =
      λ s. record s { db = (dispatch_batch publish now locked limit max_attempts s.db).1 }

  unfoldable pub play : List (Timestamp × Action) → System → System
  unfolding act
  play [] s = s
  play ((now, action) ∷ rest) s = play rest (act now action s)
