-- ===== src/Scheduler.antt =====
-- services/scheduler/runscope_scheduler/service.py: recovery of expired leases and the assignment
-- of queued runs. Rows that another transaction has locked are skipped (SKIP LOCKED), and the
-- database's order of names is a parameter. One reading of the clock serves for a loop.
pub mod Recovery
pub mod Assignment
pub mod Loop
pub mod Choice
pub mod Capacity
pub mod Liveliness
pub mod Progress
pub mod Rounds
pub mod History
use runscope.Prelude.{
  ℕ, ◌+◌, ◌-◌, String, List, [], ◌∷◌, map, Option, none, some, Bool, true, false, not, ◌&&◌, ◌||◌,
  ◌==◌, ltb, leb, key_in, is_none, length, where_rows, order_by, take, head, if◌then◌else◌,
}
use runscope.Models.{
  Uuid, Timestamp, ℤ, pos, negsuc, RunStatus, draft, queued, scheduling, running, succeeded, failed,
  cancelling, cancelled, retrying, Run, Worker, stale, is_online, ResourceAllocation, EventEnvelope,
  of_scheduler, uuid, number, text, status_eq,
}
use runscope.Models.Integers.{ltb_ℤ}
use runscope.Models.Store.{
  Db, Settings, Tx, ◌>>=◌, ◌>>◌, pure, gets, modify, uuid4, for_each, get_run, get_worker, save_run,
  save_worker, add_message,
}
use runscope.StateMachine.{transition_run}
use runscope.Registry.{refresh_if_found, release_allocation}

-- The rows that other transactions hold.
pub record Locks : Type 0 where
  pub run : Uuid → Bool
  pub worker : Uuid → Bool
  pub allocation : Uuid → Bool

abbrev pub add_assignment_event :
    Settings → Timestamp → Run → Worker → ResourceAllocation → Tx (Unit {0})
add_assignment_event settings now run worker allocation = do
  event_id ← uuid4
  correlation ← uuid4
  message_id ← uuid4
  modify (
      add_message (record {
        id = message_id;
        topic = settings.broker_topic;
        partition_key = run.id;
        envelope = record {
          event_id = event_id;
          event_version = 1;
          event_type = "run.assigned";
          occurred_at = now;
          correlation_id = of_scheduler correlation;
          run_id = some run.id;
          worker_id = some worker.id;
          payload =
              ("lease_token", uuid allocation.lease_token)
              ∷ ("requested_cpu", number allocation.cpu)
              ∷ ("requested_memory_mb", number allocation.memory_mb)
              ∷ [];
        };
        created_at = now;
        published_at = none;
        publish_attempts = 0;
        last_error = none;
      }))

-- Worker.status == ONLINE, Worker.last_heartbeat_at < current_time - worker_stale_seconds
abbrev pub is_stale : Settings → Locks → Timestamp → Worker → Bool
is_stale settings locks current_time w =
    is_online w.status
    && ltb (w.last_heartbeat_at + settings.worker_stale_seconds) current_time
    && not (locks.worker w.id)

-- released_at IS NULL and (lease_expires_at < current_time or worker_id IN stale_ids)
abbrev pub is_expired : Locks → Timestamp → List Uuid → ResourceAllocation → Bool
is_expired locks current_time stale_ids a =
    is_none a.released_at
    && (ltb a.lease_expires_at current_time || key_in a.worker_id stale_ids)
    && not (locks.allocation a.id)

abbrev pub mark_stale : Settings → Locks → Timestamp → Worker → Worker
mark_stale settings locks current_time w =
    if is_stale settings locks current_time w then record w { status = stale } else w

abbrev pub lease_lost : Run → Run
lease_lost run = record run {
  failure_code = some "worker_lease_expired";
  failure_message = some "The assigned worker stopped heartbeating";
}

-- By the status of the run whose allocation has expired.
unfoldable pub recover_status : Timestamp → ResourceAllocation → Run → RunStatus → Tx (Unit {0})
recover_status now allocation run scheduling = do
  run' ←
      transition_run now run queued "run.assignment.expired"
        (("worker_id", uuid allocation.worker_id) ∷ [])
  modify (save_run (record run' { assigned_worker_id = none }))
recover_status now allocation run running = do
  run' ←
      transition_run now (lease_lost run) failed "run.failed"
        (("worker_id", uuid allocation.worker_id) ∷ ("reason", text "lease_expired") ∷ [])
  modify (save_run run')
recover_status now allocation run cancelling = do
  run' ←
      transition_run now run cancelled "run.cancelled"
        (("worker_id", uuid allocation.worker_id) ∷ ("reason", text "lease_expired") ∷ [])
  modify (save_run run')
recover_status now allocation run _ = pure tt

unfoldable pub recover_found : Timestamp → ResourceAllocation → Option Run → Tx (Unit {0})
unfolding recover_status
recover_found now allocation none = pure tt
recover_found now allocation (some run) = recover_status now allocation run run.status

-- The body of the loop over the expired allocations.
unfoldable pub recover_one : Timestamp → ResourceAllocation → Tx (Unit {0})
unfolding recover_found
recover_one now allocation = do
  run ← gets (get_run allocation.run_id)
  recover_found now allocation run
  modify (λ db. (release_allocation now allocation.run_id db).1)

unfoldable pub refresh_one : Uuid → Tx (Unit {0})
refresh_one id = modify (λ db. refresh_if_found (get_worker id db) db)

unfoldable pub recover_expired_allocations : Settings → Locks → Timestamp → Timestamp → Tx ℕ
recover_expired_allocations settings locks current_time now = do
  stale_workers ← gets (λ db. where_rows (is_stale settings locks current_time) db.workers)
  let stale_ids = map (λ (w : Worker). w.id) stale_workers
  modify (λ db. record db { workers = map (mark_stale settings locks current_time) db.workers })
  allocations ← gets (λ db. where_rows (is_expired locks current_time stale_ids) db.allocations)
  for_each allocations (recover_one now)
  for_each stale_ids refresh_one
  pure (length allocations)

-- order_by(Run.priority.desc(), Run.created_at.asc(), Run.id.asc())
unfoldable pub run_before : Run → Run → Bool
run_before a b =
    if ltb_ℤ b.priority a.priority
    then true
    else if ltb_ℤ a.priority b.priority
    then false
    else if ltb a.created_at b.created_at
    then true
    else if ltb b.created_at a.created_at
    then false
    else leb a.id b.id

-- order_by(Worker.current_run_count.asc(), Worker.name.asc())
unfoldable pub worker_before : (String → String → Bool) → Worker → Worker → Bool
worker_before name_le a b =
    if ltb a.current_run_count b.current_run_count
    then true
    else if ltb b.current_run_count a.current_run_count
    then false
    else name_le a.name b.name

unfoldable pub is_queued : Locks → Run → Bool
is_queued locks run = status_eq run.status queued && not (locks.run run.id)

-- Whether the worker is online, healthy and has room for the run.
unfoldable pub fits : Settings → Locks → Timestamp → Run → Worker → Bool
fits settings locks now run w =
    is_online w.status
    && leb now (w.last_heartbeat_at + settings.worker_stale_seconds)
    && leb run.requested_cpu w.available_cpu
    && leb run.requested_memory_mb w.available_memory_mb
    && not (locks.worker w.id)

module _ (name_le : String → String → Bool) (settings : Settings) (locks : Locks)
    (now : Timestamp) where
  unfoldable pub select_worker : Run → Db → Option Worker
  select_worker run db =
      head (order_by (worker_before name_le) (where_rows (fits settings locks now run) db.workers))

  abbrev pub new_allocation : Run → Worker → Uuid → Uuid → ResourceAllocation
  new_allocation run worker id lease_token = record {
    id = id;
    run_id = run.id;
    worker_id = worker.id;
    cpu = run.requested_cpu;
    memory_mb = run.requested_memory_mb;
    lease_token = lease_token;
    lease_expires_at = now + settings.allocation_lease_seconds;
    released_at = none;
  }

  abbrev pub taken : Run → Worker → Worker
  taken run worker = record worker {
    available_cpu = worker.available_cpu - run.requested_cpu;
    available_memory_mb = worker.available_memory_mb - run.requested_memory_mb;
    current_run_count = worker.current_run_count + 1;
  }

  -- The rest of the loop's body once a worker is found: 1 assignment more.
  unfoldable pub assign : Run → Worker → Tx ℕ
  assign run worker = do
    id ← uuid4
    lease_token ← uuid4
    let allocation = new_allocation run worker id lease_token
    modify (λ db. record db { allocations = allocation ∷ db.allocations })
    run' ←
        transition_run now (record run { assigned_worker_id = some worker.id }) scheduling
          "run.scheduling" (("worker_id", uuid worker.id) ∷ ("lease_id", uuid allocation.id) ∷ [])
    modify (save_run run')
    modify (save_worker (taken run worker))
    add_assignment_event settings now run' worker allocation
    pure 1

  unfoldable pub assign_if_found : Run → Option Worker → Tx ℕ
  unfolding assign
  assign_if_found run none = pure 0
  assign_if_found run (some worker) = assign run worker

  -- The body of the loop for the object with this identifier.
  unfoldable pub schedule_found : Option Run → Tx ℕ
  unfolding assign_if_found
  schedule_found none = pure 0
  schedule_found (some run) = λ db. assign_if_found run (select_worker run db) db

  unfoldable pub schedule_runs : List Uuid → Tx ℕ
  unfolding schedule_found
  schedule_runs [] = pure 0
  schedule_runs (id ∷ ids) = do
    run ← gets (get_run id)
    n ← schedule_found run
    m ← schedule_runs ids
    pure (n + m)

  unfoldable pub queued_runs : Db → List Run
  queued_runs db = take 100 (order_by run_before (where_rows (is_queued locks) db.runs))

  -- `recovery` is the clock of the recovery and `now` that of the assignments.
  unfoldable pub schedule_once : Timestamp → Tx ℕ
  unfolding schedule_runs recover_expired_allocations
  schedule_once recovery = do
    recovered ← recover_expired_allocations settings locks recovery recovery
    runs ← gets queued_runs
    schedule_runs (map (λ (r : Run). r.id) runs)
