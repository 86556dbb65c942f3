-- ===== src/Registry/Leases.antt =====
-- worker_registry.py: `release_allocation` and the leases of runs.
use runscope.Prelude.{
  ℕ, ◌+◌, ◌-◌, ◌≤◌, ◌≡◌, refl, sym, ap, subst, ◌∙◌, List, Option, none, some, ◌==◌, ==→≡, find-save,
  keys-save, map, first_row, first_row-holds, sum_where-update_first, update_first,
  update_first-none, sum_where-none, count_where, arith, Bool-cases, if◌then◌else◌, inl, inr,
}
use runscope.Models.{Uuid, Timestamp, Run, Worker, ResourceAllocation}
use runscope.Models.Store.{Db, get_run, get_worker, save_run}
use runscope.Registry.{
  active_of_run, close, refreshed, refresh_if_found, with_closed, release_found, release_allocation,
}
use runscope.Registry.Capacity.{release-Balanced}
use runscope.Platform.{lease_slots, worker_ids, Leased, IsConsistent, keep_IsConsistent}

-- What `release_allocation` leaves alone.
pub release-runs :
    (now : Timestamp) (run_id : Uuid) (db : Db)
    → (release_allocation now run_id db).1.runs ≡ db.runs
unfolding release_allocation
release-runs now run_id db = ground arith

pub release-next_id :
    (now : Timestamp) (run_id : Uuid) (db : Db)
    → (release_allocation now run_id db).1.next_id ≡ db.next_id
unfolding release_allocation
release-next_id now run_id db = ground arith

refresh_if_found-allocations :
    (o : Option Worker) (db : Db) → (refresh_if_found o db).allocations ≡ db.allocations
unfolding refresh_if_found
refresh_if_found-allocations none db = refl
refresh_if_found-allocations (some w) db = refl

refresh_if_found-worker_ids :
    (o : Option Worker) (db : Db) → worker_ids (refresh_if_found o db) ≡ worker_ids db
unfolding refresh_if_found
refresh_if_found-worker_ids none db = refl
refresh_if_found-worker_ids (some w) db =
    keys-save (λ (w : Worker). w.id) (refreshed db.allocations w) db.workers

release_found-worker_ids :
    (now : Timestamp) (run_id : Uuid) (o : Option ResourceAllocation) (db : Db)
    → worker_ids (release_found now run_id o db).1 ≡ worker_ids db
unfolding release_found
release_found-worker_ids now run_id none db = refl
release_found-worker_ids now run_id (some a) db =
    refresh_if_found-worker_ids (get_worker a.worker_id db) (with_closed now run_id db)

pub release-worker_ids :
    (now : Timestamp) (run_id : Uuid) (db : Db)
    → worker_ids (release_allocation now run_id db).1 ≡ worker_ids db
unfolding release_allocation
release-worker_ids now run_id db =
    release_found-worker_ids now run_id (first_row (active_of_run run_id) db.allocations) db

release_found-allocations :
    (now : Timestamp) (run_id : Uuid) (o : Option ResourceAllocation) (db : Db)
    → first_row (active_of_run run_id) db.allocations ≡ o
    → (release_found now run_id o db).1.allocations ≡ (with_closed now run_id db).allocations
unfolding release_found
release_found-allocations now run_id none db h =
    sym (update_first-none (active_of_run run_id) (close now) db.allocations h)
release_found-allocations now run_id (some a) db h =
    refresh_if_found-allocations (get_worker a.worker_id db) (with_closed now run_id db)

-- In every case the call closes the first active allocation of the run, if there is one.
pub release-allocations :
    (now : Timestamp) (run_id : Uuid) (db : Db)
    → (release_allocation now run_id db).1.allocations ≡ (with_closed now run_id db).allocations
unfolding release_allocation
release-allocations now run_id db =
    release_found-allocations now run_id (first_row (active_of_run run_id) db.allocations) db refl

abbrev pub run_count : Uuid → List ResourceAllocation → ℕ
run_count j = count_where (active_of_run j)

closed_count :
    (now : Timestamp) (run_id j : Uuid) (allocations : List ResourceAllocation)
    (o : Option ResourceAllocation)
    → first_row (active_of_run run_id) allocations ≡ o
    → run_count j (update_first (active_of_run run_id) (close now) allocations)
      ≡ (if run_id == j then run_count j allocations - 1 else run_count j allocations)
closed_count now run_id j allocations none h =
    rw (update_first-none (active_of_run run_id) (close now) allocations h)
      (ground (arith, sum_where-none (active_of_run run_id) (λ _. 1) allocations))
closed_count now run_id j allocations (some a) h = ground (
  arith,
  first_row-holds (active_of_run run_id) allocations {x = a},
  sum_where-update_first (active_of_run run_id) (close now) (active_of_run j) (λ _. 1) allocations
      {x = a},
)

-- One active allocation of the run fewer, if it had one; those of other runs stay.
pub release-run_count :
    (now : Timestamp) (run_id j : Uuid) (db : Db)
    → run_count j (release_allocation now run_id db).1.allocations
      ≡ (if run_id == j then run_count j db.allocations - 1 else run_count j db.allocations)
release-run_count now run_id j db = rw (release-allocations now run_id db) (
    closed_count now run_id j db.allocations (first_row (active_of_run run_id) db.allocations) refl)

lease_slots_bound : (o : Option Run) → lease_slots o ≤ 1
lease_slots_bound none = omega arith
lease_slots_bound (some r) = ground arith

-- The end of a run: its new row, in a status that holds no lease, and the release of its lease.
pub settle-Leased :
    (now : Timestamp) (run : Run) (db : Db)
    → lease_slots (some run) ≡ 0
    → Leased db
    → Leased (release_allocation now run.id (save_run run db)).1
settle-Leased now run db ended h j =
    rw (release-run_count now run.id j (save_run run db), release-runs now run.id (save_run run db))
      (ground (
        arith,
        find-save (λ (r : Run). r.id) j (record run { version = run.version + 1 }) db.runs,
        lease_slots_bound (get_run j db),
        h j,
      ))

-- A change of a run's row that keeps whether it holds a lease.
pub save_run-Leased :
    (run old : Run) (db : Db)
    → get_run run.id db ≡ some old
    → lease_slots (some old) ≡ lease_slots (some run)
    → Leased db
    → Leased (save_run run db)
save_run-Leased run old db found same h j =
    rw (find-save (λ (r : Run). r.id) j (record run { version = run.version + 1 }) db.runs)
      (elim (Bool-cases (run.id == j)) [
        | inl e ↦
            let here : get_run j db ≡ some old =
              subst (λ k. get_run k db ≡ some old) (==→≡ run.id j e) found in
            rw (e, here) (h j ∙ ap lease_slots here ∙ same)
        | inr e ↦ rw e (h j)
      ])

pub save_run-IsConsistent :
    (run old : Run) (db : Db)
    → get_run run.id db ≡ some old
    → lease_slots (some old) ≡ lease_slots (some run)
    → IsConsistent db
    → IsConsistent (save_run run db)
save_run-IsConsistent run old db found same h =
    keep_IsConsistent db (save_run run db) (omega arith) (keys-save (λ (r : Run). r.id) _ db.runs)
      refl (save_run-Leased run old db found same h.leased) h.balanced h

-- The end of a run keeps the whole invariant.
pub settle-IsConsistent :
    (now : Timestamp) (run : Run) (db : Db)
    → lease_slots (some run) ≡ 0
    → IsConsistent db
    → IsConsistent (release_allocation now run.id (save_run run db)).1
settle-IsConsistent now run db ended h =
    keep_IsConsistent db (release_allocation now run.id (save_run run db)).1
      (omega (arith, release-next_id now run.id (save_run run db)))
      (ap (map (λ (r : Run). r.id)) (release-runs now run.id (save_run run db))
        ∙ keys-save (λ (r : Run). r.id) _ db.runs)
      (release-worker_ids now run.id (save_run run db)) (settle-Leased now run db ended h.leased)
      (release-Balanced now run.id (save_run run db) h.balanced) h

-- Nothing happens to the invariant where the run holds no lease.
pub release-IsConsistent :
    (now : Timestamp) (run_id : Uuid) (db : Db)
    → lease_slots (get_run run_id db) ≡ 0
    → IsConsistent db
    → IsConsistent (release_allocation now run_id db).1
release-IsConsistent now run_id db idle h =
    keep_IsConsistent db (release_allocation now run_id db).1
      (omega (arith, release-next_id now run_id db))
      (ap (map (λ (r : Run). r.id)) (release-runs now run_id db)) (release-worker_ids now run_id db)
      leased (release-Balanced now run_id db h.balanced) h
  where
    leased : Leased (release_allocation now run_id db).1
    leased j =
        rw (release-run_count now run_id j db, release-runs now run_id db)
          (elim (Bool-cases (run_id == j)) [
            | inl e ↦
                let here : lease_slots (get_run j db) ≡ 0 =
                  subst (λ k. lease_slots (get_run k db) ≡ 0) (==→≡ run_id j e) idle in
                rw e (omega (arith, h.leased j, here))
            | inr e ↦ rw e (h.leased j)
          ])
