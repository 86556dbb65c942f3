-- ===== src/System/Play.antt =====
-- The platform over any sequence of actions.
use runscope.Prelude.{
  ℕ, ◌≡◌, refl, sym, ap, subst, String, List, [], ◌∷◌, Bool, Option, none, some, inl, inr, true,
  is_some, arith,
}
use runscope.Models.{Uuid, Timestamp, Run}
use runscope.Models.Store.{Settings, get_run}
use runscope.Models.Store.Done.{Done-Holds}
use runscope.Platform.{IsConsistent, undrawn_run}
use runscope.Platform.History.{Later, Evolves, Evolves-same, Known-any}
use runscope.Catalog.Changes.{All-find}
use runscope.Scheduler.Loop.{schedule_once-IsConsistent}
use runscope.Scheduler.History.{schedule_once-Evolves}
use runscope.Templates.{External}
use runscope.Tags.{StrMethods}
use runscope.Workers.{register, heartbeat}
use runscope.Execution.{begin_execution, finish_classification}
use runscope.Execution.Slow.{add_log, checkpoint, finish_slow}
use runscope.Execution.Consistency.{
  telemetry-IsConsistent, begin_execution-IsConsistent, finish_classification-IsConsistent,
}
use runscope.Execution.Whole.{checkpoint-IsConsistent, finish_slow-IsConsistent}
use runscope.Execution.History.{begin_execution-Steps, finish_classification-Evolves}
use runscope.Execution.SlowHistory.{checkpoint-Steps, finish_slow-Evolves}
use runscope.Scheduler.{schedule_once}
use runscope.Commands.{create_run, cancel_run, retry_run, update_run_metadata}
use runscope.Commands.Keeps.{create_run-IsConsistent}
use runscope.Commands.Controls.{
  cancel_run-IsConsistent, retry_run-IsConsistent, update_run_metadata-IsConsistent,
}
use runscope.Commands.History.{
  create_run-Evolves, cancel_run-Evolves, retry_run-Evolves, update_run_metadata-Evolves,
}
use runscope.Catalog.{create_project, delete_project, create_experiment, delete_experiment}
use runscope.Catalog.Updates.{update_project, update_experiment}
use runscope.Catalog.References.{
  create_project-IsReferenced, delete_project-IsReferenced, create_experiment-IsReferenced,
  delete_experiment-IsReferenced,
}
use runscope.Catalog.Changes.{update_project-IsReferenced, update_experiment-IsReferenced}
use runscope.Catalog.Apart.{
  create_project-Apart, update_project-Apart, delete_project-Apart, create_experiment-Apart,
  update_experiment-Apart, delete_experiment-Apart,
}
use runscope.Outbox.Footprint.{dispatch_batch-outbox}
use runscope.Models.{status_in}
use runscope.StateMachine.{terminal_statuses}
use runscope.StateMachine.Lifecycle.{⟶*-terminal}
use runscope.System.Actions.{
  message-Advances, begun-Advances, checked-Advances, Holds-both, register-Steps, heartbeat-Steps,
}
use runscope.System.{
  System, Action, project_created, project_updated, project_deleted, experiment_created,
  experiment_updated, experiment_deleted, run_created, run_cancelled, run_retried, metadata_updated,
  worker_registered, worker_seen, round_scheduled, execution_begun, demonstration_started,
  checkpoint_reached, demonstration_finished, classification_finished, message_processed,
  batch_dispatched, act, play,
}
use runscope.System.References.{In}
use runscope.System.Sound.{
  Any, IsSound, Forward, Advances, Advances-refl, Advances-trans, writes_runs, writes_catalog,
  for_held-Advances,
}

module _ (settings : Settings) (external : External) (encode : ℕ → List ℕ) (str : StrMethods)
    (sql_lower : String → String) (name_le : String → String → Bool) where
  open str use {strip}

  pub act-Advances :
      (now : Timestamp) (action : Action) (s : System)
      → IsSound s
      → Advances s (act settings external encode str sql_lower name_le now action s)
  unfolding act
  act-Advances now (project_created body caller) s h =
      writes_catalog s (create_project now body caller s.db) h
        (create_project-IsReferenced now body caller s.db h.referenced)
        (create_project-Apart now body caller s.db)
  act-Advances now (project_updated id body caller) s h =
      writes_catalog s (update_project now id body caller s.db) h
        (update_project-IsReferenced now id body caller s.db h.referenced)
        (update_project-Apart now id body caller s.db)
  act-Advances now (project_deleted id caller) s h =
      writes_catalog s (delete_project id caller s.db) h
        (delete_project-IsReferenced id caller s.db h.referenced)
        (delete_project-Apart id caller s.db)
  act-Advances now (experiment_created body caller) s h =
      writes_catalog s (create_experiment str sql_lower now body caller s.db) h
        (create_experiment-IsReferenced str sql_lower now body caller s.db h.referenced)
        (create_experiment-Apart now str sql_lower body caller s.db)
  act-Advances now (experiment_updated id body caller) s h =
      writes_catalog s (update_experiment now str sql_lower id body caller s.db) h
        (update_experiment-IsReferenced now str sql_lower id body caller s.db h.referenced)
        (update_experiment-Apart now str sql_lower id body caller s.db)
  act-Advances now (experiment_deleted id caller) s h =
      writes_catalog s (delete_experiment id caller s.db) h
        (delete_experiment-IsReferenced id caller s.db h.referenced)
        (delete_experiment-Apart id caller s.db)
  act-Advances now (run_created correlation body caller) s h =
      writes_runs s (create_run settings correlation now external str body caller s.db) h
        (create_run-IsConsistent settings correlation now external str body caller s.db
          h.consistent)
        (create_run-Evolves (In s.db) settings correlation now external str body caller s.db
          (λ e found. ap is_some found) (undrawn_run s.db s.db.next_id (omega arith) h.consistent))
  act-Advances now (run_cancelled correlation id caller) s h =
      writes_runs s (cancel_run settings correlation now id caller s.db) h
        (cancel_run-IsConsistent settings correlation now id caller s.db h.consistent)
        (cancel_run-Evolves (In s.db) settings correlation now id caller s.db)
  act-Advances now (run_retried correlation id overrides caller) s h =
      writes_runs s (retry_run settings correlation now external id overrides caller s.db) h
        (retry_run-IsConsistent settings correlation now external id overrides caller s.db
          h.consistent)
        (retry_run-Evolves (In s.db) settings correlation now external id overrides caller s.db
          (λ run found.
            All-find (λ (r : Run). r.id) (λ (r : Run). In s.db r.experiment_id) id s.db.runs found
              h.referenced.experiments)
          (undrawn_run s.db s.db.next_id (omega arith) h.consistent))
  act-Advances now (metadata_updated id body caller) s h =
      writes_runs s (update_run_metadata settings "" now str id body caller s.db) h
        (update_run_metadata-IsConsistent settings "" now str id body caller s.db h.consistent)
        (update_run_metadata-Evolves (In s.db) settings "" now str id body caller s.db)
  act-Advances now (worker_registered body caller) s h =
      let r = register settings now strip body caller s.db in
      let (c, e) =
        Holds-both IsConsistent (Evolves (In s.db) s.db) r
          (register-Steps settings now strip body caller s.db h.consistent) in
      writes_runs s r h c e
  act-Advances now (worker_seen id caller) s h =
      let r = heartbeat settings now strip id caller s.db in
      let (c, e) =
        Holds-both IsConsistent (Evolves (In s.db) s.db) r
          (heartbeat-Steps settings now strip id caller s.db h.consistent) in
      writes_runs s r h c e
  act-Advances now (round_scheduled locks recovery) s h =
      writes_runs s (schedule_once name_le settings locks now recovery s.db) h
        (Done-Holds (λ _. IsConsistent) (schedule_once name_le settings locks now recovery s.db)
          (schedule_once-IsConsistent name_le settings locks now recovery s.db h.consistent))
        (schedule_once-Evolves (In s.db) name_le settings locks now recovery s.db)
  act-Advances now (execution_begun id worker token) s h =
      begun-Advances external now s (begin_execution external now id worker token s.db) h
        (begin_execution-IsConsistent external now id worker token s.db h.consistent)
        (begin_execution-Steps (In s.db) external now id worker token s.db)
  act-Advances now (demonstration_started i) s h = for_held-Advances s i _ h λ run known.
      writes_runs s (add_log run.id 1 "Started bounded progress demonstration" s.db) h
        (telemetry-IsConsistent _ s.db.metrics s.db.artifacts s.db.next_id s.db (omega arith)
          h.consistent)
        (Evolves-same (In s.db) s.db _ refl)
  act-Advances now (checkpoint_reached total step i) s h = for_held-Advances s i _ h λ run known.
      checked-Advances external encode now s (checkpoint external encode now total step run.id s.db)
        h (checkpoint-IsConsistent external encode now total step run.id s.db h.consistent)
        (checkpoint-Steps (In s.db) external now encode total step run.id s.db)
  act-Advances now (demonstration_finished parameters i) s h =
      for_held-Advances s i _ h λ run known.
        writes_runs s (finish_slow external encode now parameters run s.db) h
          (finish_slow-IsConsistent external encode now parameters run s.db h.consistent)
          (finish_slow-Evolves (In s.db) external now encode parameters run s.db
            (Known-any Any (In s.db) run s.db known))
  act-Advances now (classification_finished template validated i) s h =
      for_held-Advances s i _ h λ run known.
        writes_runs s (finish_classification external now run template validated s.db) h
          (finish_classification-IsConsistent external now run template validated s.db h.consistent)
          (finish_classification-Evolves (In s.db) external now run template validated s.db
            (Known-any Any (In s.db) run s.db known))
  act-Advances now (message_processed event_id worker_id) s h = message-Advances s s.db.outbox _ h
  act-Advances now (batch_dispatched publish locked limit max_attempts) s h =
      let (outbox, same) = dispatch_batch-outbox publish now locked limit max_attempts s.db in
      subst (λ db'. Advances s (record s { db = db' })) (sym same)
        (message-Advances s outbox s.db.processed h)

  play-Advances :
      (history : List (Timestamp × Action)) (s : System)
      → IsSound s
      → Advances s (play settings external encode str sql_lower name_le history s)
  unfolding play
  play-Advances [] s h = Advances-refl s h
  play-Advances ((now, action) ∷ rest) s h = Advances-trans s _ _ (act-Advances now action s h) (
      play-Advances rest (act settings external encode str sql_lower name_le now action s)
        (act-Advances now action s h).sound)

  -- From a sound platform every sequence of transactions of the API, the scheduler, the workers and
  -- the dispatcher, whatever the times, the callers, the locks, the template results, the artifact
  -- store and the broker, leaves it sound: capacity and leases in balance, and every experiment with its
  -- project, every run with its experiment.
  pub play-IsSound :
      (history : List (Timestamp × Action)) (s : System)
      → IsSound s
      → IsSound (play settings external encode str sql_lower name_le history s)
  play-IsSound history s h = (play-Advances history s h).sound

  -- From a sound platform, over any sequence of these transactions, a run never disappears; its row
  -- either stays as it was, or has a higher version, the request it was created with, and a status
  -- that the state diagram leads to from the one it had.
  pub play-Forward :
      (history : List (Timestamp × Action)) (s : System)
      → IsSound s
      → Forward s.db (play settings external encode str sql_lower name_le history s).db
  play-Forward history s h = (play-Advances history s h).forward

  -- From a sound platform, a run that is SUCCEEDED or CANCELLED is still there with the same status
  -- after any sequence of these transactions.
  pub play-terminal :
      (history : List (Timestamp × Action)) (s : System) (id : Uuid) (run : Run)
      → IsSound s
      → get_run id s.db ≡ some run
      → status_in run.status terminal_statuses ≡ true
      → (later : Run) × (get_run id
            (play settings external encode str sql_lower name_le history s).db
          ≡ some later)
        × (later.status ≡ run.status)
  play-terminal history s id run h found ended =
      let after = play settings external encode str sql_lower name_le history s in
      ends (get_run id after.db) refl
        (subst (λ o. Later Any o (get_run id after.db)) found (play-Forward history s h id))
    where
      ends :
          (o : Option Run)
          → get_run id (play settings external encode str sql_lower name_le history s).db ≡ o
          → Later Any (some run) o
          → (later : Run) × (get_run id
                (play settings external encode str sql_lower name_le history s).db
              ≡ some later)
            × (later.status ≡ run.status)
      ends none e k = absurd k
      ends (some later) e (inl same) = (later, e, ap (λ (r : Run). r.status) same)
      ends (some later) e (inr k) = (later, e, ⟶*-terminal ended k.1)
