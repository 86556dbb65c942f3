-- ===== src/Registry/Capacity.antt =====
-- worker_registry.py: what refreshing a worker and releasing a lease do to the free capacity.
use runscope.Prelude.{
  ℕ, ◌+◌, ◌-◌, ◌≡◌, refl, sym, ap, subst, List, Option, none, some, false, ◌==◌, ==→≡, inl, inr,
  find-save, find-key, replaced, first_row, first_row-holds, update_first, sum_where,
  sum_where-update_first, arith, Bool-cases, if◌then◌else◌,
}
use runscope.Models.{Uuid, Timestamp, Worker, ResourceAllocation}
use runscope.Models.Store.{Db, get_worker}
use runscope.Registry.{
  active_of_run, active_on, active_cpu, active_memory, active_count, close, refreshed,
  refresh_worker_capacity, refresh_if_found, with_closed, release_found, release_allocation,
}
use runscope.Platform.{Accounted, Balanced, Accounted-of_sums}

-- The row of the refreshed worker, where the identifier has a row.
refreshed_row :
    (w : Worker) (allocations : List ResourceAllocation) (j : Uuid) (o : Option Worker)
    → w.id ≡ j
    → (o ≡ none → Accounted allocations j none)
    → Accounted allocations j (replaced (refreshed allocations w) o)
unfolding refreshed
refreshed_row w allocations j none e missing = missing refl
refreshed_row w allocations j (some _) e missing = (
  ap (λ k. w.total_cpu - active_cpu k allocations) e,
  ap (λ k. w.total_memory_mb - active_memory k allocations) e,
  ap (λ k. active_count k allocations) e,
)

-- Refreshing one worker balances it, whatever its free capacity was, and leaves the others alone.
pub refresh-Balanced :
    (w : Worker) (db : Db)
    → ((j : Uuid) → (w.id == j) ≡ false → Accounted db.allocations j (get_worker j db))
    → ((j : Uuid) → get_worker j db ≡ none → Accounted db.allocations j none)
    → Balanced (refresh_worker_capacity w db)
unfolding refresh_worker_capacity
refresh-Balanced w db others missing j =
    subst (Accounted db.allocations j)
      (sym (find-save (λ (w : Worker). w.id) j (refreshed db.allocations w) db.workers))
      (elim (Bool-cases (w.id == j)) [
        | inl e ↦
            unfold refreshed in
            rw e (refreshed_row w db.allocations j (get_worker j db) (==→≡ w.id j e) (missing j))
        | inr e ↦ unfold refreshed in rw e (others j e)
      ])

module _ (now : Timestamp) (run_id : Uuid) (allocations : List ResourceAllocation)
    (a : ResourceAllocation) (found : first_row (active_of_run run_id) allocations ≡ some a) where
  abbrev closed : List ResourceAllocation
  closed = update_first (active_of_run run_id) (close now) allocations

  -- A released allocation leaves the sums of its worker, and no other worker's sums change.
  closed_sums :
      (j : Uuid) (f : ResourceAllocation → ℕ)
      → sum_where (active_on j) f closed + (if a.worker_id == j then f a else 0)
        ≡ sum_where (active_on j) f allocations
  closed_sums j f = ground (
    arith,
    first_row-holds (active_of_run run_id) allocations {x = a},
    sum_where-update_first (active_of_run run_id) (close now) (active_on j) f allocations {x = a},
  )

  closed_others :
      (j : Uuid) (o : Option Worker)
      → (a.worker_id == j) ≡ false
      → Accounted allocations j o
      → Accounted closed j o
  closed_others j o e h =
      Accounted-of_sums j allocations closed o (ground (arith, closed_sums j (λ a. a.cpu)))
        (ground (arith, closed_sums j (λ a. a.memory_mb))) (ground (arith, closed_sums j (λ a. 1)))
        h

  closed_missing : (j : Uuid) → Accounted allocations j none → Accounted closed j none
  closed_missing j h =
      omega (
        arith,
        closed_sums j (λ a. a.cpu),
        closed_sums j (λ a. a.memory_mb),
        closed_sums j (λ a. 1),
      )

  -- The worker of an active allocation exists.
  worker_exists :
      (o : Option Worker) → Accounted allocations a.worker_id o → (w : Worker) × (o ≡ some w)
  worker_exists none h = absurd (ground (arith, closed_sums a.worker_id (λ a. 1)))
  worker_exists (some w) h = (w, refl)

pub missing_row :
    (db : Db) → Balanced db → (j : Uuid) → get_worker j db ≡ none → Accounted db.allocations j none
missing_row db h j e = rw e at (h j)

pub worker_key : (db : Db) (j : Uuid) {w : Worker} → get_worker j db ≡ some w → w.id ≡ j
worker_key db j e = find-key (λ (w : Worker). w.id) j db.workers e

released :
    (now : Timestamp) (run_id : Uuid) (db : Db) (a : ResourceAllocation) (o : Option Worker)
    → first_row (active_of_run run_id) db.allocations ≡ some a
    → get_worker a.worker_id db ≡ o
    → Balanced db
    → Balanced (refresh_if_found o (with_closed now run_id db))
unfolding refresh_if_found
released now run_id db a none found e h =
    absurd
      (ground (arith, worker_exists now run_id db.allocations a found none (missing_row db h _ e)))
released now run_id db a (some w) found e h =
    refresh-Balanced w (with_closed now run_id db)
      (λ j ne.
        closed_others now run_id db.allocations a found j (get_worker j db)
          (rw (worker_key db a.worker_id e) at ne) (h j))
      (λ j n. closed_missing now run_id db.allocations a found j (missing_row db h j n))

release_found-Balanced :
    (now : Timestamp) (run_id : Uuid) (db : Db) (o : Option ResourceAllocation)
    → first_row (active_of_run run_id) db.allocations ≡ o
    → Balanced db
    → Balanced (release_found now run_id o db).1
unfolding release_found
release_found-Balanced now run_id db none found h = h
release_found-Balanced now run_id db (some a) found h =
    released now run_id db a (get_worker a.worker_id db) found refl h

-- Releasing the lease of a run, whether it has one or not, keeps every worker balanced: the CPU,
-- the memory and the place of the lease are free again on its worker.
pub release-Balanced :
    (now : Timestamp) (run_id : Uuid) (db : Db)
    → Balanced db
    → Balanced (release_allocation now run_id db).1
unfolding release_allocation
release-Balanced now run_id db h =
    release_found-Balanced now run_id db (first_row (active_of_run run_id) db.allocations) refl h
