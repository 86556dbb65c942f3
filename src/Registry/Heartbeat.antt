-- ===== src/Registry/Heartbeat.antt =====
-- worker_registry.py: registration and heartbeats.
use text.Mathlib.Text.{◌==◌ as str_eq}
use runscope.Prelude.{
  ℕ, ◌+◌, ◌≡◌, refl, ◌∙◌, String, List, ◌∷◌, Option, none, some, Bool, ◌==◌, find, keys-save,
  first_row, sum_where, sum_where-map, share, arith, Bool-cases, inl, inr,
}
use runscope.Models.{Uuid, Timestamp, Worker, ResourceAllocation}
use runscope.Models.Store.{Db, get_worker}
use runscope.Registry.{
  active_of_run, active_on, refreshed, refresh_worker_capacity, refresh_if_found, new_worker,
  again_online, register_found, register_worker, seen_at, extend_leases, with_extended,
  heartbeat_found, heartbeat_worker,
}
use runscope.Registry.Capacity.{refresh-Balanced, missing_row}
use runscope.Platform.{
  Accounted, Balanced, IsConsistent, Accounted-of_sums, keep_IsConsistent, undrawn_worker,
}

-- New expiry times change no sum over active allocations.
extended_sums :
    (worker_id : Uuid) (until : Timestamp) (p : ResourceAllocation → Bool)
    (f : ResourceAllocation → ℕ) (allocations : List ResourceAllocation)
    → ((t : Timestamp) (a : ResourceAllocation)
        → share p f (record a { lease_expires_at = t }) ≡ share p f a)
    → sum_where p f (extend_leases worker_id until allocations) ≡ sum_where p f allocations
unfolding extend_leases
extended_sums worker_id until p f allocations same =
    sum_where-map _ p f allocations
      λ a. elim (Bool-cases (active_on worker_id a)) [ inl e ↦ rw e (same until a) | inr e ↦ rw e ]

extended-Accounted :
    (worker_id j : Uuid) (until : Timestamp) (allocations : List ResourceAllocation)
    (o : Option Worker)
    → Accounted allocations j o
    → Accounted (extend_leases worker_id until allocations) j o
extended-Accounted worker_id j until allocations o =
    Accounted-of_sums j allocations (extend_leases worker_id until allocations) o
      (extended_sums worker_id until (active_on j) (λ a. a.cpu) allocations (λ t a. refl))
      (extended_sums worker_id until (active_on j) (λ a. a.memory_mb) allocations (λ t a. refl))
      (extended_sums worker_id until (active_on j) (λ _. 1) allocations (λ t a. refl))

-- Writing a refreshed worker keeps the invariant.
refresh-IsConsistent :
    (w : Worker) (db : Db) → IsConsistent db → IsConsistent (refresh_worker_capacity w db)
unfolding refresh_worker_capacity
refresh-IsConsistent w db h =
    keep_IsConsistent db (refresh_worker_capacity w db) (omega arith) refl
      (keys-save (λ (w : Worker). w.id) (refreshed db.allocations w) db.workers) h.leased
      (refresh-Balanced w db (λ j e. h.balanced j) (missing_row db h.balanced)) h

pub refresh_if_found-IsConsistent :
    (o : Option Worker) (db : Db) → IsConsistent db → IsConsistent (refresh_if_found o db)
unfolding refresh_if_found
refresh_if_found-IsConsistent none db h = h
refresh_if_found-IsConsistent (some w) db h = refresh-IsConsistent w db h

extended-IsConsistent :
    (worker_id : Uuid) (until : Timestamp) (db : Db)
    → IsConsistent db
    → IsConsistent (with_extended worker_id until db)
extended-IsConsistent worker_id until db h =
    keep_IsConsistent db (with_extended worker_id until db) (omega arith) refl refl
      (λ j.
        extended_sums worker_id until (active_of_run j) (λ _. 1) db.allocations (λ t a. refl)
        ∙ h.leased j)
      (λ j. extended-Accounted worker_id j until db.allocations (get_worker j db) (h.balanced j)) h

-- A heartbeat keeps the invariant, whether the worker exists or not.
pub heartbeat-IsConsistent :
    (now : Timestamp) (worker_id : Uuid) (lease_seconds : ℕ) (db : Db)
    → IsConsistent db
    → IsConsistent (heartbeat_worker now worker_id lease_seconds db).1
unfolding heartbeat_worker
heartbeat-IsConsistent now worker_id lease_seconds db h = found (get_worker worker_id db)
  where
    found : (o : Option Worker) → IsConsistent (heartbeat_found now lease_seconds o db).1
    found none = h
    found (some w) =
        refresh-IsConsistent (seen_at now w) (with_extended w.id (now + lease_seconds) db)
          (extended-IsConsistent w.id (now + lease_seconds) db h)

abbrev with_worker : Worker → Db → Db
with_worker w db = record db { workers = w ∷ db.workers; next_id = db.next_id + 1 }

module _ (now : Timestamp) (name : String) (total_cpu total_memory_mb : ℕ) (db : Db)
    (h : IsConsistent db) where
  abbrev fresh : Worker
  fresh = new_worker now name total_cpu total_memory_mb db.next_id

  fresh-Balanced : Balanced (with_worker fresh db)
  unfolding find
  fresh-Balanced j = elim (Bool-cases (db.next_id == j)) [
    | inl e ↦
        let missing : Accounted db.allocations j none =
          missing_row db h.balanced j (undrawn_worker db j (ground arith) h) in
        rw e (omega arith, omega arith, omega arith)
    | inr e ↦ rw e (h.balanced j)
  ]

  fresh-IsConsistent : IsConsistent (with_worker fresh db)
  fresh-IsConsistent = record {
    leased = h.leased;
    balanced = fresh-Balanced;
    unique_runs = h.unique_runs;
    unique_workers = (h.fresh_workers db.next_id (omega arith), h.unique_workers);
    fresh_runs = λ j q. h.fresh_runs j (omega arith);
    fresh_workers = λ j q. ground (arith, h.fresh_workers j);
  }

-- Registration keeps the invariant, for a new name and for a known one with any capacity.
pub register-IsConsistent :
    (now : Timestamp) (name : String) (total_cpu total_memory_mb : ℕ) (db : Db)
    → IsConsistent db
    → IsConsistent (register_worker now name total_cpu total_memory_mb db).1
unfolding register_worker
register-IsConsistent now name total_cpu total_memory_mb db h =
    found (first_row (λ (w : Worker). str_eq w.name name) db.workers)
  where
    found :
        (o : Option Worker)
        → IsConsistent (register_found now name total_cpu total_memory_mb o db).1
    found none = fresh-IsConsistent now name total_cpu total_memory_mb db h
    found (some w) = refresh-IsConsistent (again_online now total_cpu total_memory_mb w) db h
