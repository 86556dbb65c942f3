-- ===== src/Platform.antt =====
-- The invariant that ties runs, leases and worker capacity together. Each operation that writes
-- the database keeps it; the proofs stand with the operations.
pub mod History
use runscope.Prelude.{
  ℕ, ◌-◌, ◌≤◌, ◌≡◌, refl, sym, ap, subst, ◌∙◌, [], ◌∷◌, List, map, false, key_in, Unique,
  find-absent, Option, none, some, count_where, arith, if◌then◌else◌,
}
use runscope.Models.{
  Uuid, Run, RunEvent, Worker, ResourceAllocation, scheduling, running, cancelling, status_in,
}
use runscope.Models.Store.{Db, get_run, get_worker, add_event}
use runscope.Registry.{active_of_run, active_cpu, active_memory, active_count}

-- A run in one of these statuses has been given to a worker and has not ended.
abbrev pub lease_slots : Option Run → ℕ
lease_slots none = 0
lease_slots (some r) = if status_in r.status (scheduling ∷ running ∷ cancelling ∷ []) then 1 else 0

-- What is free on a worker is what it has, less what its active allocations take. An identifier
-- with no worker has no active allocation.
abbrev pub Accounted : List ResourceAllocation → Uuid → Option Worker → Type 0
Accounted allocations j none =
    (active_cpu j allocations ≡ 0)
    × (active_memory j allocations ≡ 0)
    × (active_count j allocations ≡ 0)
Accounted allocations j (some w) =
    (w.available_cpu ≡ w.total_cpu - active_cpu j allocations)
    × (w.available_memory_mb ≡ w.total_memory_mb - active_memory j allocations)
    × (w.current_run_count ≡ active_count j allocations)

-- One active allocation for each run that is assigned and not ended, and none for any other.
abbrev pub Leased : Db → Type 0
Leased db = (j : Uuid) → count_where (active_of_run j) db.allocations ≡ lease_slots (get_run j db)

abbrev pub Balanced : Db → Type 0
Balanced db = (j : Uuid) → Accounted db.allocations j (get_worker j db)

abbrev pub run_ids : Db → List Uuid
run_ids db = map (λ (r : Run). r.id) db.runs

abbrev pub worker_ids : Db → List Uuid
worker_ids db = map (λ (w : Worker). w.id) db.workers

pub record IsConsistent (db : Db) : Type 0 where
  pub leased : Leased db
  pub balanced : Balanced db
  pub unique_runs : Unique (run_ids db)
  pub unique_workers : Unique (worker_ids db)
  pub fresh_runs : (j : Uuid) → db.next_id ≤ j → key_in j (run_ids db) ≡ false
  pub fresh_workers : (j : Uuid) → db.next_id ≤ j → key_in j (worker_ids db) ≡ false

-- The balance of a worker depends on the allocations through three sums.
pub Accounted-of_sums :
    (j : Uuid) (old new : List ResourceAllocation) (o : Option Worker)
    → active_cpu j new ≡ active_cpu j old
    → active_memory j new ≡ active_memory j old
    → active_count j new ≡ active_count j old
    → Accounted old j o
    → Accounted new j o
Accounted-of_sums j old new none p q r h = ground arith
Accounted-of_sums j old new (some w) p q r h = ground arith

-- What a change must show that adds no run and no worker.
pub keep_IsConsistent :
    (db db' : Db)
    → db.next_id ≤ db'.next_id
    → run_ids db' ≡ run_ids db
    → worker_ids db' ≡ worker_ids db
    → Leased db'
    → Balanced db'
    → IsConsistent db
    → IsConsistent db'
keep_IsConsistent db db' n runs workers l b h = record {
  leased = l;
  balanced = b;
  unique_runs = subst Unique (sym runs) h.unique_runs;
  unique_workers = subst Unique (sym workers) h.unique_workers;
  fresh_runs = λ j q. ap (key_in j) runs ∙ h.fresh_runs j (omega arith);
  fresh_workers = λ j q. ap (key_in j) workers ∙ h.fresh_workers j (omega arith);
}

-- An identifier that was not drawn yet names no run and no worker.
pub undrawn_run : (db : Db) (j : Uuid) → db.next_id ≤ j → IsConsistent db → get_run j db ≡ none
undrawn_run db j q h = find-absent (λ (r : Run). r.id) j db.runs (h.fresh_runs j q)

pub undrawn_worker :
    (db : Db) (j : Uuid) → db.next_id ≤ j → IsConsistent db → get_worker j db ≡ none
undrawn_worker db j q h = find-absent (λ (w : Worker). w.id) j db.workers (h.fresh_workers j q)

-- Events and messages are outside the invariant.
pub add_event-IsConsistent :
    (event : RunEvent) (db : Db) → IsConsistent db → IsConsistent (add_event event db)
add_event-IsConsistent event db h =
    keep_IsConsistent db (add_event event db) (omega arith) refl refl h.leased h.balanced h
