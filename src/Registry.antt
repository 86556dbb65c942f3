-- ===== src/Registry.antt =====
-- services/api/runscope_api/worker_registry.py: registration, heartbeats and leases.
pub mod Leases
pub mod Capacity
pub mod Heartbeat
use text.Mathlib.Text.{◌==◌ as str_eq}
use runscope.Prelude.{
  ℕ, ◌+◌, ◌-◌, String, List, ◌∷◌, map, Option, none, some, Bool, ◌&&◌, ◌==◌, is_none, first_row,
  update_first, sum_where, count_where, if◌then◌else◌,
}
use runscope.Models.{Uuid, Timestamp, ResourceAllocation, Worker, online}
use runscope.Models.Store.{Db, get_worker, save_worker}

-- The allocation of the run that is not released yet, as a condition on rows.
abbrev pub active_of_run : Uuid → ResourceAllocation → Bool
active_of_run run_id a = a.run_id == run_id && is_none a.released_at

abbrev pub active_on : Uuid → ResourceAllocation → Bool
active_on worker_id a = a.worker_id == worker_id && is_none a.released_at

abbrev pub active_cpu : Uuid → List ResourceAllocation → ℕ
active_cpu worker_id = sum_where (active_on worker_id) (λ a. a.cpu)

abbrev pub active_memory : Uuid → List ResourceAllocation → ℕ
active_memory worker_id = sum_where (active_on worker_id) (λ a. a.memory_mb)

abbrev pub active_count : Uuid → List ResourceAllocation → ℕ
active_count worker_id = count_where (active_on worker_id)

-- `max(0, total - active)` is subtraction that stops at 0.
unfoldable pub refreshed : List ResourceAllocation → Worker → Worker
refreshed allocations worker = record worker {
  available_cpu = worker.total_cpu - active_cpu worker.id allocations;
  available_memory_mb = worker.total_memory_mb - active_memory worker.id allocations;
  current_run_count = active_count worker.id allocations;
}

-- The worker as the caller has it, refreshed and written.
unfoldable pub refresh_worker_capacity : Worker → Db → Db
unfolding refreshed
refresh_worker_capacity worker db = save_worker (refreshed db.allocations worker) db

abbrev pub new_worker : Timestamp → String → ℕ → ℕ → Uuid → Worker
new_worker now name total_cpu total_memory_mb id = record {
  id = id;
  name = name;
  status = online;
  total_cpu = total_cpu;
  available_cpu = total_cpu;
  total_memory_mb = total_memory_mb;
  available_memory_mb = total_memory_mb;
  current_run_count = 0;
  last_heartbeat_at = now;
}

abbrev pub again_online : Timestamp → ℕ → ℕ → Worker → Worker
again_online now total_cpu total_memory_mb worker = record worker {
  status = online;
  total_cpu = total_cpu;
  total_memory_mb = total_memory_mb;
  last_heartbeat_at = now;
}

-- By whether a worker of that name is found.
unfoldable pub register_found : Timestamp → String → ℕ → ℕ → Option Worker → Db → Worker × Db
unfolding refresh_worker_capacity
register_found now name total_cpu total_memory_mb none db =
    let worker = new_worker now name total_cpu total_memory_mb db.next_id in
    (worker, record db { workers = worker ∷ db.workers; next_id = db.next_id + 1 })
register_found now name total_cpu total_memory_mb (some worker) db =
    let worker' = again_online now total_cpu total_memory_mb worker in
    (refreshed db.allocations worker', refresh_worker_capacity worker' db)

unfoldable pub register_worker : Timestamp → String → ℕ → ℕ → Db → Worker × Db
unfolding register_found
register_worker now name total_cpu total_memory_mb db =
    register_found now name total_cpu total_memory_mb
      (first_row (λ (w : Worker). str_eq w.name name) db.workers) db

-- The loop over the active allocations of the worker.
unfoldable pub extend_leases : Uuid → Timestamp → List ResourceAllocation → List ResourceAllocation
extend_leases worker_id until =
    map λ a. if active_on worker_id a then record a { lease_expires_at = until } else a

abbrev pub seen_at : Timestamp → Worker → Worker
seen_at now worker = record worker { status = online; last_heartbeat_at = now }

abbrev pub with_extended : Uuid → Timestamp → Db → Db
with_extended worker_id until db = record db {
  allocations = extend_leases worker_id until db.allocations;
}

unfoldable pub heartbeat_found : Timestamp → ℕ → Option Worker → Db → Option Worker × Db
unfolding refresh_worker_capacity extend_leases
heartbeat_found now lease_seconds none db = (none, db)
heartbeat_found now lease_seconds (some worker) db =
    let db' = with_extended worker.id (now + lease_seconds) db in
    let worker' = seen_at now worker in
    (some (refreshed db'.allocations worker'), refresh_worker_capacity worker' db')

unfoldable pub heartbeat_worker : Timestamp → Uuid → ℕ → Db → Option Worker × Db
unfolding heartbeat_found
heartbeat_worker now worker_id lease_seconds db =
    heartbeat_found now lease_seconds (get_worker worker_id db) db

abbrev pub close : Timestamp → ResourceAllocation → ResourceAllocation
close now a = record a { released_at = some now }

-- `if worker is not None: await refresh_worker_capacity(session, worker)`
unfoldable pub refresh_if_found : Option Worker → Db → Db
unfolding refresh_worker_capacity
refresh_if_found none db = db
refresh_if_found (some worker) db = refresh_worker_capacity worker db

abbrev pub with_closed : Timestamp → Uuid → Db → Db
with_closed now run_id db = record db {
  allocations = update_first (active_of_run run_id) (close now) db.allocations;
}

unfoldable pub release_found :
    Timestamp → Uuid → Option ResourceAllocation → Db → Option ResourceAllocation × Db
unfolding refresh_if_found
release_found now run_id none db = (none, db)
release_found now run_id (some allocation) db =
    let db' = with_closed now run_id db in
    (some (close now allocation), refresh_if_found (get_worker allocation.worker_id db') db')

unfoldable pub release_allocation : Timestamp → Uuid → Db → Option ResourceAllocation × Db
unfolding release_found
release_allocation now run_id db =
    release_found now run_id (first_row (active_of_run run_id) db.allocations) db
