-- ===== src/Scheduler/Choice.antt =====
-- service.py: in which order runs are taken, and which worker is chosen.
use runscope.Prelude.{
  ◌+◌, ◌≤◌, ◌<◌, ◌≡◌, ◌⊎◌, inl, inr, refl, ap, All-map, Bool-cases, ltb, String, Option, none, some,
  Bool, true, false, not, All, Sorted, Sorted-map, IsOrder, order_by-Sorted, take-Sorted,
  head-least, head-none, where_rows-All, where_rows-none, where_rows, order_by, head, arith,
}
use runscope.Models.{Timestamp, Run, Worker, WorkerStatus, online, offline, stale, is_online}
use runscope.Models.Integers.{ltb_ℤ}
use runscope.Models.Store.{Db, Settings, get_worker}
use runscope.Platform.{IsConsistent}
use runscope.Scheduler.Loop.{select_worker-fits}
use runscope.Scheduler.{
  Locks, run_before, worker_before, is_queued, fits, select_worker, queued_runs,
}

run_before-IsOrder : IsOrder run_before
unfolding run_before
run_before-IsOrder = record {
  total = λ a b h. ground arith;
  transitive = λ a b c h k. ground arith;
}

worker_before-IsOrder :
    (name_le : String → String → Bool) → IsOrder name_le → IsOrder (worker_before name_le)
unfolding worker_before
worker_before-IsOrder name_le names = record {
  total = λ a b h. ground (arith, names.total a.name b.name);
  transitive = λ a b c h k. ground (arith, names.transitive a.name b.name c.name);
}

-- No run of a lower priority stands before one of a higher.
abbrev pub not_lower : Run → Run → Bool
not_lower a b = not (ltb_ℤ a.priority b.priority)

run_before-not_lower : (a b : Run) → run_before a b ≡ true → not_lower a b ≡ true
unfolding run_before
run_before-not_lower a b h = ground arith

module _ (name_le : String → String → Bool) (settings : Settings) (locks : Locks)
    (now : Timestamp) where
  -- The queued runs are taken in the order of the scheduler: by falling priority, then by age and
  -- identifier, so that no run stands before one of a higher priority.
  pub queued_runs-Sorted :
      (db : Db)
      → Sorted run_before (queued_runs name_le settings locks now db)
        × Sorted not_lower (queued_runs name_le settings locks now db)
  unfolding queued_runs
  queued_runs-Sorted db =
      let sorted =
        take-Sorted run_before run_before-IsOrder 100
          (order_by run_before (where_rows (is_queued locks) db.runs))
          (order_by-Sorted run_before run_before-IsOrder (where_rows (is_queued locks) db.runs)) in
      (sorted, Sorted-map run_before not_lower _ run_before-not_lower sorted)

  -- What the choice of a worker means for the table of workers.
  abbrev BeforeAll : Run → Option Worker → Db → Type 0
  BeforeAll run none db = All (λ (w : Worker). fits settings locks now run w ≡ false) db.workers
  BeforeAll run (some chosen) db =
      All
        (λ (w : Worker).
          fits settings locks now run w ≡ true → worker_before name_le chosen w ≡ true)
        db.workers

  select_worker-BeforeAll :
      (run : Run) (db : Db)
      → IsOrder name_le
      → BeforeAll run (select_worker name_le settings locks now run db) db
  unfolding select_worker
  select_worker-BeforeAll run db names =
      by_head
        (head
          (order_by (worker_before name_le) (where_rows (fits settings locks now run) db.workers)))
        refl
    where
      by_head :
          (o : Option Worker)
          → head (
              order_by
                (worker_before name_le)
                (where_rows (fits settings locks now run) db.workers))
            ≡ o
          → BeforeAll run o db
      by_head none e = where_rows-none (fits settings locks now run) db.workers (
          head-none (worker_before name_le) (where_rows (fits settings locks now run) db.workers) e)
      by_head (some chosen) e =
          where_rows-All (fits settings locks now run) (λ w. worker_before name_le chosen w ≡ true)
            db.workers
            (head-least (worker_before name_le) (worker_before-IsOrder name_le names)
              (where_rows (fits settings locks now run) db.workers) {x = chosen} e)

  -- The worker is online, was seen lately, has room for the run, and is not locked.
  abbrev pub Suitable : Run → Worker → Type 0
  Suitable run w =
      (w.status ≡ online)
      × (now ≤ w.last_heartbeat_at + settings.worker_stale_seconds)
      × (run.requested_cpu ≤ w.available_cpu)
      × (run.requested_memory_mb ≤ w.available_memory_mb)
      × (locks.worker w.id ≡ false)

  fits-Suitable : (run : Run) (w : Worker) → fits settings locks now run w ≡ true → Suitable run w
  unfolding fits
  fits-Suitable run w h = (
    online_of w.status (ground (arith, h)),
    ground (arith, h),
    ground (arith, h),
    ground (arith, h),
    ground (arith, h),
  )
    where
      online_of : (s : WorkerStatus) → is_online s ≡ true → s ≡ online
      online_of online e = refl
      online_of offline e = cc
      online_of stale e = cc

  misfit : (run : Run) (w : Worker) → fits settings locks now run w ≡ false → ¬ Suitable run w
  unfolding fits
  misfit run w h (status, seen, cpu, memory, unlocked) =
      ground (arith, h, ap is_online status, seen, cpu, memory, unlocked)

  -- Fewer runs, or as many and a name that is not behind.
  abbrev pub Before : Worker → Worker → Type 0
  Before a b =
      (a.current_run_count < b.current_run_count)
      ⊎ ((a.current_run_count ≡ b.current_run_count) × (name_le a.name b.name ≡ true))

  worker_before-Before : (a b : Worker) → worker_before name_le a b ≡ true → Before a b
  unfolding worker_before
  worker_before-Before a b h = elim (Bool-cases (ltb a.current_run_count b.current_run_count)) [
    | inl e ↦ inl (ground (arith, e))
    | inr e ↦ inr (ground (arith, h, e), ground (arith, h, e))
  ]

  -- What the choice of a worker means for the table of workers.
  abbrev pub Chosen : Run → Option Worker → Db → Type 0
  Chosen run none db = All (λ w. ¬ Suitable run w) db.workers
  Chosen run (some chosen) db =
      (get_worker chosen.id db ≡ some chosen)
      × Suitable run chosen
      × All (λ w. (¬ Suitable run w) ⊎ Before chosen w) db.workers

  -- On a consistent platform, where names are ordered, the chosen worker is one of the table that is
  -- online, was seen within worker_stale_seconds, has the CPU and the memory that the run asks for and
  -- is not locked; among all such workers it has the fewest runs and, of those with as many, the first
  -- name. No worker is chosen only where there is none such.
  pub select_worker-Chosen :
      (run : Run) (db : Db)
      → IsConsistent db
      → IsOrder name_le
      → Chosen run (select_worker name_le settings locks now run db) db
  select_worker-Chosen run db h names =
      by_choice (select_worker name_le settings locks now run db) refl
        (select_worker-BeforeAll run db names)
    where
      by_choice :
          (o : Option Worker)
          → select_worker name_le settings locks now run db ≡ o
          → BeforeAll run o db
          → Chosen run o db
      by_choice none e all = All-map _ _ db.workers (λ w. misfit run w) all
      by_choice (some chosen) e all =
          let (row, room) =
            select_worker-fits name_le settings locks now run db {worker = chosen} h e in
          (
            row,
            fits-Suitable run chosen room,
            All-map _ _ db.workers (λ w first. place w first) all,
          )
        where
          place :
              (w : Worker)
              → (fits settings locks now run w ≡ true → worker_before name_le chosen w ≡ true)
              → (¬ Suitable run w) ⊎ Before chosen w
          place w first = elim (Bool-cases (fits settings locks now run w)) [
            | inl e' ↦ inr (worker_before-Before chosen w (first e'))
            | inr e' ↦ inl (misfit run w e')
          ]
