-- ===== src/Scheduler/Capacity.antt =====
-- service.py: an assignment never gives away more than the worker has.
use runscope.Prelude.{
  ◌+◌, ◌≤◌, ◌≡◌, ◌⊎◌, subst, String, List, ◌∷◌, Option, none, some, Bool, true, false, ◌==◌, ==→≡,
  inl, inr, find-save, sum_where, arith, Bool-cases,
}
use runscope.Models.{Uuid, Timestamp, queued, scheduling, Run, Worker, ResourceAllocation}
use runscope.Models.Store.{Db, Settings, get_worker}
use runscope.Models.Store.Done.{Done}
use runscope.StateMachine.{enter}
use runscope.StateMachine.Lifecycle.{transition_run-ok}
use runscope.Registry.{active_cpu, active_memory}
use runscope.Platform.{IsConsistent, Accounted}
use runscope.Scheduler.{Locks, fits, new_allocation, taken, assign, select_worker}
use runscope.Scheduler.Loop.{select_worker-fits}

-- The active allocations of a worker take no more than it has.
abbrev pub FitsIn : List ResourceAllocation → Uuid → Option Worker → Type 0
FitsIn allocations j none = Unit
FitsIn allocations j (some w) =
    (active_cpu j allocations ≤ w.total_cpu) × (active_memory j allocations ≤ w.total_memory_mb)

abbrev pub Within : Uuid → Db → Type 0
Within j db = FitsIn db.allocations j (get_worker j db)

module _ (name_le : String → String → Bool) (settings : Settings) (locks : Locks)
    (now : Timestamp) where
  fits-room :
      (run : Run) (w : Worker)
      → fits settings locks now run w ≡ true
      → (run.requested_cpu ≤ w.available_cpu) × (run.requested_memory_mb ≤ w.available_memory_mb)
  unfolding fits
  fits-room run w h = ground arith

  -- With the new allocation, on the worker that it is for.
  added-FitsIn :
      (run : Run) (w : Worker) (id token j : Uuid) (allocations : List ResourceAllocation)
      → (w.id == j) ≡ true
      → 1 ≤ run.requested_cpu
      → 1 ≤ run.requested_memory_mb
      → fits settings locks now run w ≡ true
      → Accounted allocations j (some w)
      → FitsIn (new_allocation name_le settings locks now run w id token ∷ allocations) j (some w)
  unfolding sum_where
  added-FitsIn run w id token j allocations e cpu memory room before =
      rw e
        (omega (arith, fits-room run w room, before), omega (arith, fits-room run w room, before))

  other-FitsIn :
      (run : Run) (w : Worker) (id token j : Uuid) (allocations : List ResourceAllocation)
      (o : Option Worker)
      → (w.id == j) ≡ false
      → FitsIn allocations j o
      → FitsIn (new_allocation name_le settings locks now run w id token ∷ allocations) j o
  unfolding sum_where
  other-FitsIn run w id token j allocations none e h = tt
  other-FitsIn run w id token j allocations (some v) e h = rw e h

  apart : (i j : Uuid) → i ≡ j → (i == j) ≡ false → ⊥
  apart i j same e = ground arith

  -- What an assignment must show of its worker and of the others.
  assign-FitsIn :
      (run : Run) (worker : Worker) (db : Db) (j : Uuid)
      → run.status ≡ queued
      → get_worker worker.id db ≡ some worker
      → ((worker.id == j) ≡ true
          → get_worker j db ≡ some worker
          → FitsIn
              (new_allocation name_le settings locks now run worker db.next_id (db.next_id + 1)
                ∷ db.allocations)
              j
              (some worker))
      → ((worker.id == j) ≡ false → Within j db)
      → Done (λ _. Within j) (assign name_le settings locks now run worker db)
  unfolding assign enter
  assign-FitsIn run worker db j waiting row own other =
      rw
        (transition_run-ok now (record run { assigned_worker_id = some worker.id }) scheduling _ _ _
          (rw waiting))
        (rw
          (find-save (λ (w : Worker). w.id) j (taken name_le settings locks now run worker)
            db.workers)
          (elim (Bool-cases (worker.id == j)) [
            | inl e ↦
                let here : get_worker j db ≡ some worker =
                  subst (λ i. get_worker i db ≡ some worker) (==→≡ worker.id j e) row in
                rw (e, here) (own e here)
            | inr e ↦ rw e (
                other-FitsIn run worker db.next_id (db.next_id + 1) j db.allocations
                  (get_worker j db) e (other e))
          ]))

  -- On a consistent platform, the scheduler's assignment of a run that asks for something leaves its
  -- worker with no more given away than it has, even if its capacity was exceeded before, and keeps
  -- every other worker within its capacity.
  pub assign-Within :
      (run : Run) (worker : Worker) (db : Db) (j : Uuid)
      → IsConsistent db
      → run.status ≡ queued
      → select_worker name_le settings locks now run db ≡ some worker
      → 1 ≤ run.requested_cpu
      → 1 ≤ run.requested_memory_mb
      → (worker.id ≡ j) ⊎ Within j db
      → Done (λ _. Within j) (assign name_le settings locks now run worker db)
  assign-Within run worker db j h waiting chosen cpu memory k =
      let (row, room) =
        select_worker-fits name_le settings locks now run db {worker = worker} h chosen in
      assign-FitsIn run worker db j waiting row
        (λ e here.
          added-FitsIn run worker db.next_id (db.next_id + 1) j db.allocations e cpu memory room
            (subst (Accounted db.allocations j) here (h.balanced j)))
        (λ e. elim k [ inl t ↦ absurd (apart worker.id j t e) | inr w ↦ w ])

  kept-FitsIn :
      (run : Run) (w : Worker) (id token j : Uuid) (allocations : List ResourceAllocation)
      → (w.id == j) ≡ true
      → fits settings locks now run w ≡ true
      → Accounted allocations j (some w)
      → FitsIn allocations j (some w)
      → FitsIn (new_allocation name_le settings locks now run w id token ∷ allocations) j (some w)
  unfolding sum_where
  kept-FitsIn run w id token j allocations e room before within = rw e (
    omega (arith, fits-room run w room, before, within),
    omega (arith, fits-room run w room, before, within),
  )

  -- Whatever the run asks for, a worker within its capacity stays within it.
  pub assign-kept :
      (run : Run) (worker : Worker) (db : Db) (j : Uuid)
      → IsConsistent db
      → run.status ≡ queued
      → select_worker name_le settings locks now run db ≡ some worker
      → Within j db
      → Done (λ _. Within j) (assign name_le settings locks now run worker db)
  assign-kept run worker db j h waiting chosen within =
      let (row, room) =
        select_worker-fits name_le settings locks now run db {worker = worker} h chosen in
      assign-FitsIn run worker db j waiting row
        (λ e here.
          kept-FitsIn run worker db.next_id (db.next_id + 1) j db.allocations e room
            (subst (Accounted db.allocations j) here (h.balanced j))
            (subst (FitsIn db.allocations j) here within))
        (λ e. within)
