-- ===== src/Scheduler/Progress.antt =====
-- service.py: a run at the head of the queue is assigned where a worker is found for it.
use runscope.Prelude.{
  ℕ, ◌+◌, ◌≡◌, refl, ap, subst, ◌∙◌, String, List, [], ◌∷◌, map, some, Bool, true, false, ==_refl,
  key_in, Unique, All, find-key, find-save, arith,
}
use runscope.Models.{Uuid, Timestamp, queued, scheduling, Run, Worker}
use runscope.Models.Store.{Db, Settings, ok, get_run}
use runscope.Models.Store.Done.{Done, Done-both, Done-and_then}
use runscope.StateMachine.{enter}
use runscope.StateMachine.Lifecycle.{transition_run-ok}
use runscope.Platform.{IsConsistent}
use runscope.Scheduler.{
  Locks, is_queued, select_worker, assign, assign_if_found, schedule_found, schedule_runs,
  queued_runs, recover_expired_allocations, schedule_once,
}
use runscope.Scheduler.Assignment.{assign-IsConsistent}
use runscope.Scheduler.Recovery.{recover-IsConsistent}
use runscope.Scheduler.Loop.{
  Waits, queued_of_rank, is_queued-status, queued_runs-rows, Others, still_waiting,
  schedule_found-Others, queued_runs-waiting, select_worker-fits,
}

-- The run is SCHEDULING on the worker.
abbrev pub AssignedTo : Uuid → Uuid → Db → Type 0
AssignedTo id worker_id db =
    (run : Run) × (get_run id db ≡ some run)
    × (run.status ≡ scheduling)
    × (run.assigned_worker_id ≡ some worker_id)

module _ (name_le : String → String → Bool) (settings : Settings) (locks : Locks)
    (now : Timestamp) where
  -- Runs that are not in the list keep their rows.
  schedule_runs-others :
      (ids : List Uuid) (db : Db) (j : Uuid)
      → Unique ids
      → All (Waits db) ids
      → IsConsistent db
      → key_in j ids ≡ false
      → Done
          (λ _ db'. get_run j db' ≡ get_run j db)
          (schedule_runs name_le settings locks now ids db)
  unfolding schedule_runs Others
  schedule_runs-others [] db j u w h apart = refl
  schedule_runs-others (id ∷ ids) db j u w h apart =
      Done-and_then (λ _. Others name_le settings locks now id db)
        (λ _ db'. get_run j db' ≡ get_run j db)
        (schedule_found name_le settings locks now (get_run id db) db) _
        (schedule_found-Others name_le settings locks now id db w.0 h)
        (λ n db' o.
          Done-and_then (λ _ db''. get_run j db'' ≡ get_run j db')
            (λ _ db''. get_run j db'' ≡ get_run j db)
            (schedule_runs name_le settings locks now ids db') _
            (schedule_runs-others ids db' j u.1 (still_waiting id db db' ids o.1 u.0 w.1) o.0
              (ground arith))
            (λ m db'' same. same ∙ o.1 j (ground arith)))

  assign-AssignedTo :
      (run : Run) (worker : Worker) (db : Db)
      → get_run run.id db ≡ some run
      → run.status ≡ queued
      → Done (λ _. AssignedTo run.id worker.id) (assign name_le settings locks now run worker db)
  unfolding assign enter
  assign-AssignedTo run worker db found waiting =
      rw
        (transition_run-ok now (record run { assigned_worker_id = some worker.id }) scheduling _ _ _
          (rw waiting))
        (
          record (enter now scheduling (record run { assigned_worker_id = some worker.id })) {
            version = run.version + 1;
          },
          rw (find-save (λ (r : Run). r.id) run.id _ db.runs, found, ==_refl run.id) refl,
          refl,
          refl,
        )

  head-AssignedTo :
      (id : Uuid) (ids : List Uuid) (db : Db) (run : Run) (worker : Worker)
      → Unique (id ∷ ids)
      → All (Waits db) (id ∷ ids)
      → IsConsistent db
      → get_run id db ≡ some run
      → run.status ≡ queued
      → select_worker name_le settings locks now run db ≡ some worker
      → Done (λ _. AssignedTo id worker.id) (schedule_runs name_le settings locks now (id ∷ ids) db)
  unfolding schedule_runs schedule_found assign_if_found Others
  head-AssignedTo id ids db run worker u w h found waiting chosen =
      let same : run.id ≡ id = find-key (λ (r : Run). r.id) id db.runs {x = run} found in
      let own : get_run run.id db ≡ some run = ap (λ k. get_run k db) same ∙ found in
      let first =
        assign-IsConsistent name_le settings locks now run worker db h waiting own
          (select_worker-fits name_le settings locks now run db h chosen).0 in
      rw (found, chosen)
        (Done-and_then
          (λ _ db'. AssignedTo id worker.id db' × Others name_le settings locks now id db db')
          (λ _. AssignedTo id worker.id) (assign name_le settings locks now run worker db) _
          (Done-both (λ _. AssignedTo id worker.id) (λ _. Others name_le settings locks now id db)
            (assign name_le settings locks now run worker db)
            (subst
              (λ k.
                Done (λ _. AssignedTo k worker.id)
                  (assign name_le settings locks now run worker db))
              same (assign-AssignedTo run worker db own waiting))
            (subst
              (λ k.
                Done (λ _. Others name_le settings locks now k db)
                  (assign name_le settings locks now run worker db))
              same first))
          (λ n db' (there, o).
            Done-and_then (λ _ db''. get_run id db'' ≡ get_run id db')
              (λ _. AssignedTo id worker.id) (schedule_runs name_le settings locks now ids db') _
              (schedule_runs-others ids db' id u.1 (still_waiting id db db' ids o.1 u.0 w.1) o.0
                u.0)
              (λ m db'' kept. (there.0, kept ∙ there.1, there.2, there.3))))

  -- On a consistent platform, where recovery leaves a run at the head of the queue and a worker is
  -- found for it, the round commits, and the run is SCHEDULING on that worker.
  pub schedule_once-AssignedTo :
      (recovery : Timestamp) (db db1 : Db) (n : ℕ) (run : Run) (rest : List Run) (worker : Worker)
      → IsConsistent db
      → recover_expired_allocations settings locks recovery recovery db ≡ ok (n, db1)
      → queued_runs name_le settings locks now db1 ≡ run ∷ rest
      → select_worker name_le settings locks now run db1 ≡ some worker
      → Done
          (λ _. AssignedTo run.id worker.id)
          (schedule_once name_le settings locks now recovery db)
  unfolding schedule_once
  schedule_once-AssignedTo recovery db db1 n run rest worker h recovered front chosen =
      let h1 : IsConsistent db1 =
        subst (Done (λ _. IsConsistent)) recovered
          (recover-IsConsistent settings locks recovery recovery db h) in
      let (unique, waiting) = queued_runs-waiting name_le settings locks now db1 h1 in
      rw (recovered, front)
        (let row =
            subst (All (λ (r : Run). (get_run r.id db1 ≡ some r) × (is_queued locks r ≡ true)))
              front (queued_runs-rows name_le settings locks now db1 h1) in
          let u = subst (λ rows. Unique (map (λ (r : Run). r.id) rows)) front unique in
          let w = subst (λ rows. All (Waits db1) (map (λ (r : Run). r.id) rows)) front waiting in
          head-AssignedTo run.id (map (λ (r : Run). r.id) rest) db1 run worker u w h1 row.0.0
            (queued_of_rank run.status (is_queued-status locks run row.0.1)) chosen)
