-- ===== src/Scheduler/Loop.antt =====
-- service.py: `schedule_once` commits, and keeps the platform consistent.
use mathlib.Core.Option.{some-injective}
use runscope.Prelude.{
  ◌≡◌, refl, subst, ap, ◌∙◌, String, List, [], ◌∷◌, map, Option, none, some, Bool, true, false,
  ◌==◌, key_in, Unique, All, All-order_by, All-take, where_rows-found, Unique-where_rows,
  Unique-order_by, Unique-take, order_by, take, head, where_rows, find-key, arith,
}
use runscope.Models.{Uuid, Timestamp, RunStatus, queued, Run, Worker, status_eq}
use runscope.Models.Store.{Db, Settings, get_run, get_worker}
use runscope.Models.Store.Done.{Done, Done-and_then}
use runscope.Platform.{IsConsistent}
use runscope.Scheduler.{
  Locks, run_before, worker_before, is_queued, fits, select_worker, assign_if_found, schedule_found,
  schedule_runs, queued_runs, recover_expired_allocations, schedule_once,
}
use runscope.Scheduler.Recovery.{recover-IsConsistent}
use runscope.Scheduler.Assignment.{assign-IsConsistent}

-- The identifier names a run that waits in the queue.
abbrev pub Waits : Db → Uuid → Type 0
Waits db id = (run : Run) × (get_run id db ≡ some run) × (run.status ≡ queued)

head-All : {A : Type 0} (P : A → Type 0) (xs : List A) {x : A} → head xs ≡ some x → All P xs → P x
head-All P [] e h = cc
head-All P (y ∷ ys) e h = subst P (some-injective y _ e) h.0

pub queued_of_rank : (s : RunStatus) → status_eq s queued ≡ true → s ≡ queued
queued_of_rank s h = ground arith

-- A change of one run leaves the others waiting.
pub still_waiting :
    (id : Uuid) (db db' : Db) (ids : List Uuid)
    → ((j : Uuid) → (id == j) ≡ false → get_run j db' ≡ get_run j db)
    → key_in id ids ≡ false
    → All (Waits db) ids
    → All (Waits db') ids
still_waiting id db db' [] same fresh w = tt
still_waiting id db db' (k ∷ ks) same fresh w = (
  (w.0.0, same k (ground arith) ∙ w.0.1, w.0.2),
  still_waiting id db db' ks same (ground arith) w.1,
)

pub is_queued-status :
    (locks : Locks) (r : Run) → is_queued locks r ≡ true → status_eq r.status queued ≡ true
unfolding is_queued
is_queued-status locks r h = ground arith

Waits-of_rows :
    (db : Db) (locks : Locks) (rows : List Run)
    → All (λ (r : Run). (get_run r.id db ≡ some r) × (is_queued locks r ≡ true)) rows
    → All (Waits db) (map (λ (r : Run). r.id) rows)
Waits-of_rows db locks [] h = tt
Waits-of_rows db locks (r ∷ rs) h = (
  (r, h.0.0, queued_of_rank r.status (is_queued-status locks r h.0.1)),
  Waits-of_rows db locks rs h.1,
)

module _ (name_le : String → String → Bool) (settings : Settings) (locks : Locks)
    (now : Timestamp) where
  -- The chosen worker is the row of its identifier, and fits the run.
  pub select_worker-fits :
      (run : Run) (db : Db) {worker : Worker}
      → IsConsistent db
      → select_worker name_le settings locks now run db ≡ some worker
      → (get_worker worker.id db ≡ some worker) × (fits settings locks now run worker ≡ true)
  unfolding select_worker
  select_worker-fits run db h e =
      head-All _
        (order_by (worker_before name_le) (where_rows (fits settings locks now run) db.workers)) e
        (All-order_by _ (worker_before name_le)
          (where_rows (fits settings locks now run) db.workers)
          (where_rows-found (λ (w : Worker). w.id) (fits settings locks now run) db.workers
            h.unique_workers))

  unfoldable pub Others : Uuid → Db → Db → Type 0
  Others id db db' =
      IsConsistent db' × ((j : Uuid) → (id == j) ≡ false → get_run j db' ≡ get_run j db)

  assign_if_found-Others :
      (run : Run) (o : Option Worker) (db : Db)
      → select_worker name_le settings locks now run db ≡ o
      → IsConsistent db
      → get_run run.id db ≡ some run
      → run.status ≡ queued
      → Done (λ _. Others run.id db) (assign_if_found name_le settings locks now run o db)
  unfolding assign_if_found Others
  assign_if_found-Others run none db chosen h found waiting = (h, λ j e. refl)
  assign_if_found-Others run (some w) db chosen h found waiting =
      assign-IsConsistent name_le settings locks now run w db h waiting found
        (select_worker-fits run db h chosen).0

  pub schedule_found-Others :
      (id : Uuid) (db : Db)
      → Waits db id
      → IsConsistent db
      → Done (λ _. Others id db) (schedule_found name_le settings locks now (get_run id db) db)
  unfolding schedule_found
  schedule_found-Others id db (run, found, waiting) h =
      let same : run.id ≡ id = find-key (λ (r : Run). r.id) id db.runs found in
      rw found (
        subst
          (λ k.
            Done (λ _. Others k db)
              (assign_if_found name_le settings locks now run
                (select_worker name_le settings locks now run db) db))
          same
          (assign_if_found-Others run (select_worker name_le settings locks now run db) db refl h
            (ap (λ k. get_run k db) same ∙ found) waiting))

  schedule_runs-IsConsistent :
      (ids : List Uuid) (db : Db)
      → Unique ids
      → All (Waits db) ids
      → IsConsistent db
      → Done (λ _. IsConsistent) (schedule_runs name_le settings locks now ids db)
  unfolding schedule_runs
  schedule_runs-IsConsistent [] db u w h = h
  schedule_runs-IsConsistent (id ∷ ids) db u w h =
      Done-and_then (λ _. Others id db) (λ _. IsConsistent)
        (schedule_found name_le settings locks now (get_run id db) db) _
        (schedule_found-Others id db w.0 h)
        (λ n db' o.
          Done-and_then (λ _. IsConsistent) (λ _. IsConsistent)
            (schedule_runs name_le settings locks now ids db') _
            (schedule_runs-IsConsistent ids db' u.1
              (still_waiting id db db' ids (unfold Others in o.1) u.0 w.1) (unfold Others in o.0))
            (λ m db'' h''. h''))

  -- The rows that the query returns are rows of the table, and wait.
  pub queued_runs-rows :
      (db : Db)
      → IsConsistent db
      → All
          (λ (r : Run). (get_run r.id db ≡ some r) × (is_queued locks r ≡ true))
          (queued_runs name_le settings locks now db)
  unfolding queued_runs
  queued_runs-rows db h =
      let rows = where_rows (is_queued locks) db.runs in
      All-take _ 100 (order_by run_before rows) (
        All-order_by _ run_before rows
          (where_rows-found (λ (r : Run). r.id) (is_queued locks) db.runs h.unique_runs))

  pub queued_runs-waiting :
      (db : Db)
      → IsConsistent db
      → Unique (map (λ (r : Run). r.id) (queued_runs name_le settings locks now db))
        × All (Waits db) (map (λ (r : Run). r.id) (queued_runs name_le settings locks now db))
  unfolding queued_runs
  queued_runs-waiting db h =
      let rows = where_rows (is_queued locks) db.runs in
      (
        Unique-take (λ (r : Run). r.id) 100 (order_by run_before rows)
            (Unique-order_by (λ (r : Run). r.id) run_before rows
              (Unique-where_rows (λ (r : Run). r.id) (is_queued locks) db.runs h.unique_runs)),
        Waits-of_rows db locks (take 100 (order_by run_before rows)) (queued_runs-rows db h),
      )

  -- A scheduling round always commits, whatever the clocks and the locks, and keeps the platform
  -- consistent.
  pub schedule_once-IsConsistent :
      (recovery : Timestamp) (db : Db)
      → IsConsistent db
      → Done (λ _. IsConsistent) (schedule_once name_le settings locks now recovery db)
  unfolding schedule_once
  schedule_once-IsConsistent recovery db h =
      Done-and_then (λ _. IsConsistent) (λ _. IsConsistent)
        (recover_expired_allocations settings locks recovery recovery db) _
        (recover-IsConsistent settings locks recovery recovery db h)
        (λ n db' h'.
          let (unique, waiting) = queued_runs-waiting db' h' in
          schedule_runs-IsConsistent
            (map (λ (r : Run). r.id) (queued_runs name_le settings locks now db')) db' unique
            waiting h')
