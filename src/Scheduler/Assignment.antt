-- ===== src/Scheduler/Assignment.antt =====
-- service.py: one assignment, from the chosen worker to the outbox, keeps the platform consistent.
use runscope.Prelude.{
  ℕ, ◌+◌, ◌≤◌, ◌≡◌, subst, String, List, ◌∷◌, some, Bool, true, false, ◌==◌, ==→≡, inl, inr,
  find-save, save, keys-save, sum_where, arith, Bool-cases,
}
use runscope.Models.{
  Uuid, Timestamp, queued, scheduling, Run, RunEvent, Worker, ResourceAllocation, OutboxMessage,
}
use runscope.Models.Store.{Db, Settings, get_run, get_worker}
use runscope.Models.Store.Done.{Done}
use runscope.StateMachine.{enter}
use runscope.StateMachine.Lifecycle.{transition_run-ok}
use runscope.Registry.{active_cpu, active_memory, active_count}
use runscope.Platform.{
  lease_slots, IsConsistent, keep_IsConsistent, Leased, Balanced, Accounted, Accounted-of_sums,
}
use runscope.Scheduler.{Locks, new_allocation, taken, assign}

module _ (name_le : String → String → Bool) (settings : Settings) (locks : Locks) (now : Timestamp)
    (run : Run) (worker : Worker) (db : Db) where
  abbrev allocation : ResourceAllocation
  allocation = new_allocation name_le settings locks now run worker db.next_id (db.next_id + 1)

  abbrev started : Run
  started = enter now scheduling (record run { assigned_worker_id = some worker.id })

  -- The parts of the database that the invariant reads, after the assignment.
  abbrev assigned : List RunEvent → List OutboxMessage → ℕ → Db
  assigned events outbox next_id = record db {
    allocations = allocation ∷ db.allocations;
    runs = save (λ (r : Run). r.id) (record started { version = started.version + 1 }) db.runs;
    workers = save (λ (w : Worker). w.id) (taken name_le settings locks now run worker) db.workers;
    events = events;
    outbox = outbox;
    next_id = next_id;
  }

  module _ (h : IsConsistent db) (waiting : run.status ≡ queued)
      (found_run : get_run run.id db ≡ some run)
      (found_worker : get_worker worker.id db ≡ some worker) where
    assigned-Leased :
        (events : List RunEvent) (outbox : List OutboxMessage) (n : ℕ)
        → Leased (assigned events outbox n)
    unfolding enter sum_where
    assigned-Leased events outbox n j =
        rw
          (find-save (λ (r : Run). r.id) j (record started { version = started.version + 1 })
            db.runs)
          (elim (Bool-cases (run.id == j)) [
            | inl e ↦
                let here : get_run j db ≡ some run =
                  subst (λ k. get_run k db ≡ some run) (==→≡ run.id j e) found_run in
                let idle : lease_slots (get_run j db) ≡ 0 = rw (here, waiting) in
                rw (e, here) (omega (arith, h.leased j, idle))
            | inr e ↦ rw e (h.leased j)
          ])

    taken_row :
        (j : Uuid)
        → (worker.id == j) ≡ true
        → Accounted db.allocations j (some worker)
        → Accounted
            (allocation ∷ db.allocations)
            j
            (some (taken name_le settings locks now run worker))
    unfolding sum_where
    taken_row j e before =
        let cpu : active_cpu j (allocation ∷ db.allocations)
            ≡ run.requested_cpu + active_cpu j db.allocations =
          rw e in
        let memory : active_memory j (allocation ∷ db.allocations)
            ≡ run.requested_memory_mb + active_memory j db.allocations =
          rw e in
        let number : active_count j (allocation ∷ db.allocations)
            ≡ 1 + active_count j db.allocations =
          rw e in
        (
          rw cpu (omega (arith, before)),
          rw memory (omega (arith, before)),
          rw number (omega (arith, before)),
        )

    assigned-Balanced :
        (events : List RunEvent) (outbox : List OutboxMessage) (n : ℕ)
        → Balanced (assigned events outbox n)
    unfolding sum_where
    assigned-Balanced events outbox n j =
        rw
          (find-save (λ (w : Worker). w.id) j (taken name_le settings locks now run worker)
            db.workers)
          (elim (Bool-cases (worker.id == j)) [
            | inl e ↦
                let here : get_worker j db ≡ some worker =
                  subst (λ k. get_worker k db ≡ some worker) (==→≡ worker.id j e) found_worker in
                let before : Accounted db.allocations j (some worker) =
                  subst (Accounted db.allocations j) here (h.balanced j) in
                rw (e, here) (taken_row j e before)
            | inr e ↦ rw e (
                Accounted-of_sums j db.allocations (allocation ∷ db.allocations) (get_worker j db)
                  (rw e) (rw e) (rw e) (h.balanced j))
          ])

    assigned-IsConsistent :
        (events : List RunEvent) (outbox : List OutboxMessage) (n : ℕ)
        → db.next_id ≤ n
        → IsConsistent (assigned events outbox n)
    unfolding enter
    assigned-IsConsistent events outbox n q =
        keep_IsConsistent db (assigned events outbox n) q (keys-save (λ (r : Run). r.id) _ db.runs)
          (keys-save (λ (w : Worker). w.id) _ db.workers) (assigned-Leased events outbox n)
          (assigned-Balanced events outbox n) h

    -- The assignment commits, the platform stays consistent, and no other run changes.
    pub assign-IsConsistent :
        Done
          (λ _ db'.
            IsConsistent db' × ((j : Uuid) → (run.id == j) ≡ false → get_run j db' ≡ get_run j db))
          (assign name_le settings locks now run worker db)
    unfolding assign enter
    assign-IsConsistent =
        rw
          (transition_run-ok now (record run { assigned_worker_id = some worker.id }) scheduling _ _
            _ (rw waiting))
          (
            assigned-IsConsistent _ _ _ (omega arith),
            λ j e. rw (find-save (λ (r : Run). r.id) j _ db.runs) (rw e),
          )
