-- ===== src/Scheduler/History.antt =====
-- service.py: recovery and assignment move runs along the lifecycle only.
use runscope.Prelude.{◌≡◌, refl, String, List, [], ◌∷◌, map, Option, none, some, Bool, where_rows}
use runscope.Models.{
  Uuid, Timestamp, RunStatus, draft, queued, scheduling, running, failed, cancelling, cancelled,
  Run, Worker, ResourceAllocation,
}
use runscope.Models.Store.{Db, Settings, Result, ok, for_each, get_run, get_worker}
use runscope.Models.Store.Done.{Holds, Holds-and_then, Holds-map, Holds-for_each}
use runscope.StateMachine.{enter}
use runscope.StateMachine.Lifecycle.{here, next, Holds-transition_run}
use runscope.Registry.{release_allocation}
use runscope.Platform.History.{
  release-tables, refresh_if_found-tables, Evolves, Evolves-same, Evolves-trans, moved-Evolves,
  get_run-own,
}
use runscope.Scheduler.{
  Locks, is_stale, is_expired, mark_stale, lease_lost, recover_status, recover_found, recover_one,
  refresh_one, recover_expired_allocations, select_worker, assign, assign_if_found, schedule_found,
  schedule_runs, schedule_once,
}

module _ (Exists : Uuid → Type 0) where
  recover_status-Evolves :
      (now : Timestamp) (a : ResourceAllocation) (run : Run) (s : RunStatus) (db : Db)
      → get_run run.id db ≡ some run
      → Holds (λ _. Evolves Exists db) (recover_status now a run s db)
  unfolding recover_status enter
  recover_status-Evolves now a run scheduling db found =
      Holds-transition_run (λ _. Evolves Exists db) now run queued _ _ _ db
        λ edge.
          moved-Evolves Exists run (record (enter now queued run) { assigned_worker_id = none }) db
            _ refl found refl refl refl (next edge here)
  recover_status-Evolves now a run running db found =
      Holds-transition_run (λ _. Evolves Exists db) now (lease_lost run) failed _ _ _ db
        λ edge.
          moved-Evolves Exists run (enter now failed (lease_lost run)) db _ refl found refl refl
            refl (next edge here)
  recover_status-Evolves now a run cancelling db found =
      Holds-transition_run (λ _. Evolves Exists db) now run cancelled _ _ _ db
        λ edge.
          moved-Evolves Exists run (enter now cancelled run) db _ refl found refl refl refl
            (next edge here)
  recover_status-Evolves now a run draft db found = Evolves-same Exists db db refl
  recover_status-Evolves now a run _ db found = Evolves-same Exists db db refl

  recover_found-Evolves :
      (now : Timestamp) (a : ResourceAllocation) (o : Option Run) (db : Db)
      → ((run : Run) → o ≡ some run → get_run run.id db ≡ some run)
      → Holds (λ _. Evolves Exists db) (recover_found now a o db)
  unfolding recover_found
  recover_found-Evolves now a none db found = Evolves-same Exists db db refl
  recover_found-Evolves now a (some run) db found =
      recover_status-Evolves now a run run.status db (found run refl)

  recover_one-Evolves :
      (now : Timestamp) (a : ResourceAllocation) (db : Db)
      → Holds (λ _. Evolves Exists db) (recover_one now a db)
  unfolding recover_one
  recover_one-Evolves now a db =
      Holds-and_then (λ _. Evolves Exists db) (λ _. Evolves Exists db)
        (recover_found now a (get_run a.run_id db) db)
        (λ _ db. ok (tt, (release_allocation now a.run_id db).1))
        (recover_found-Evolves now a (get_run a.run_id db) db
          λ run e. get_run-own a.run_id run db e)
        (λ _ db' h.
          Evolves-trans Exists db db' _ h
            (Evolves-same Exists db' _ (release-tables now a.run_id db')))

  refresh_one-Evolves : (id : Uuid) (db : Db) → Holds (λ _. Evolves Exists db) (refresh_one id db)
  unfolding refresh_one
  refresh_one-Evolves id db =
      Evolves-same Exists db _ (refresh_if_found-tables (get_worker id db) db)

  -- A loop whose body moves runs along the lifecycle does so as a whole.
  for_each-Evolves :
      {A : Type 0} (before : Db) (xs : List A) (body : A → Db → Result (Unit {0} × Db)) (db : Db)
      → ((x : A) (db : Db) → Holds (λ _. Evolves Exists db) (body x db))
      → Evolves Exists before db
      → Holds (λ _. Evolves Exists before) (for_each xs body db)
  for_each-Evolves before xs body db step h =
      Holds-for_each (Evolves Exists before) xs body db
        (λ x db k.
          Holds-map (Evolves Exists db) (Evolves Exists before) (body x db)
            (λ db'. Evolves-trans Exists before db db' k) (step x db))
        h

  recover-Evolves :
      (settings : Settings) (locks : Locks) (current_time now : Timestamp) (db : Db)
      → Holds
          (λ _. Evolves Exists db)
          (recover_expired_allocations settings locks current_time now db)
  unfolding recover_expired_allocations
  recover-Evolves settings locks current_time now db =
      let stale_ids =
        map (λ (w : Worker). w.id) (where_rows (is_stale settings locks current_time) db.workers) in
      let expired = where_rows (is_expired locks current_time stale_ids) db.allocations in
      let marked = record db {
        workers = map (mark_stale settings locks current_time) db.workers;
      } in
      Holds-and_then (λ _. Evolves Exists db) (λ _. Evolves Exists db)
        (for_each expired (recover_one now) marked) _
        (for_each-Evolves db expired (recover_one now) marked (recover_one-Evolves now)
          (Evolves-same Exists db marked refl))
        (λ _ db' h'.
          Holds-and_then (λ _. Evolves Exists db) (λ _. Evolves Exists db)
            (for_each stale_ids refresh_one db') _
            (for_each-Evolves db stale_ids refresh_one db' refresh_one-Evolves h')
            (λ _ db'' h''. h''))

  module _ (name_le : String → String → Bool) (settings : Settings) (locks : Locks)
      (now : Timestamp) where
    assign-Evolves :
        (run : Run) (worker : Worker) (db : Db)
        → get_run run.id db ≡ some run
        → Holds (λ _. Evolves Exists db) (assign name_le settings locks now run worker db)
    unfolding assign enter
    assign-Evolves run worker db found =
        Holds-transition_run (λ _. Evolves Exists db) now
          (record run { assigned_worker_id = some worker.id }) scheduling _ _ _ _
          λ edge.
            moved-Evolves Exists run
              (enter now scheduling (record run { assigned_worker_id = some worker.id })) db _ refl
              found refl refl refl (next edge here)

    assign_if_found-Evolves :
        (run : Run) (o : Option Worker) (db : Db)
        → get_run run.id db ≡ some run
        → Holds (λ _. Evolves Exists db) (assign_if_found name_le settings locks now run o db)
    unfolding assign_if_found
    assign_if_found-Evolves run none db found = Evolves-same Exists db db refl
    assign_if_found-Evolves run (some worker) db found = assign-Evolves run worker db found

    schedule_found-Evolves :
        (o : Option Run) (db : Db)
        → ((run : Run) → o ≡ some run → get_run run.id db ≡ some run)
        → Holds (λ _. Evolves Exists db) (schedule_found name_le settings locks now o db)
    unfolding schedule_found
    schedule_found-Evolves none db found = Evolves-same Exists db db refl
    schedule_found-Evolves (some run) db found =
        assign_if_found-Evolves run (select_worker name_le settings locks now run db) db
          (found run refl)

    schedule_runs-Evolves :
        (ids : List Uuid) (db : Db)
        → Holds (λ _. Evolves Exists db) (schedule_runs name_le settings locks now ids db)
    unfolding schedule_runs
    schedule_runs-Evolves [] db = Evolves-same Exists db db refl
    schedule_runs-Evolves (id ∷ ids) db =
        Holds-and_then (λ _. Evolves Exists db) (λ _. Evolves Exists db)
          (schedule_found name_le settings locks now (get_run id db) db) _
          (schedule_found-Evolves (get_run id db) db λ run e. get_run-own id run db e)
          (λ n db' h.
            Holds-and_then (λ _. Evolves Exists db') (λ _. Evolves Exists db)
              (schedule_runs name_le settings locks now ids db') _ (schedule_runs-Evolves ids db')
              (λ m db'' k. Evolves-trans Exists db db' db'' h k))

    pub schedule_once-Evolves :
        (recovery : Timestamp) (db : Db)
        → Holds (λ _. Evolves Exists db) (schedule_once name_le settings locks now recovery db)
    unfolding schedule_once
    schedule_once-Evolves recovery db =
        Holds-and_then (λ _. Evolves Exists db) (λ _. Evolves Exists db)
          (recover_expired_allocations settings locks recovery recovery db) _
          (recover-Evolves settings locks recovery recovery db)
          (λ n db' h.
            Holds-map (Evolves Exists db') (Evolves Exists db)
              (schedule_runs name_le settings locks now _ db')
              (λ db''. Evolves-trans Exists db db' db'' h) (schedule_runs-Evolves _ db'))
