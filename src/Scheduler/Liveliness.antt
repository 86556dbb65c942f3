-- ===== src/Scheduler/Liveliness.antt =====
-- service.py and worker_registry.py: heartbeats keep leases from recovery.
use runscope.Prelude.{
  ℕ, ◌+◌, ◌≤◌, ◌≡◌, sym, subst, ap, ◌∙◌, List, [], ◌∷◌, map, some, true, false, inl, inr, find-key,
  find-save, save, keys-save, key_in, not_selected, Unique, All, where_rows, where_rows-found,
  arith, Bool-cases,
}
use runscope.Models.{Uuid, Timestamp, Worker, ResourceAllocation}
use runscope.Models.Store.{Db, Settings, get_worker}
use runscope.Registry.{
  active_on, refreshed, refresh_worker_capacity, extend_leases, seen_at, with_extended,
  heartbeat_found, heartbeat_worker,
}
use runscope.Platform.{IsConsistent}
use runscope.Scheduler.{Locks, is_stale, is_expired}

abbrev worker_id_of : Worker → Uuid
worker_id_of w = w.id

-- The workers that a recovery at this time marks as stale.
abbrev pub stale_ids : Settings → Locks → Timestamp → Db → List Uuid
stale_ids settings locks later db =
    map (λ (w : Worker). w.id) (where_rows (is_stale settings locks later) db.workers)

module _ (settings : Settings) (locks : Locks) (now later : Timestamp) (lease_seconds : ℕ) where
  extended_one :
      (worker_id : Uuid) (ids : List Uuid) (a : ResourceAllocation)
      → later ≤ now + lease_seconds
      → key_in worker_id ids ≡ false
      → active_on worker_id a ≡ true
      → is_expired locks later ids (record a { lease_expires_at = now + lease_seconds }) ≡ false
  extended_one worker_id ids a soon fresh e =
      let same : a.worker_id ≡ worker_id = ground arith in
      let absent : key_in a.worker_id ids ≡ false = ap (λ k. key_in k ids) same ∙ fresh in
      ground arith

  extended-kept :
      (worker_id : Uuid) (ids : List Uuid) (allocations : List ResourceAllocation)
      → later ≤ now + lease_seconds
      → key_in worker_id ids ≡ false
      → All
          (λ (a : ResourceAllocation).
            active_on worker_id a ≡ true → is_expired locks later ids a ≡ false)
          (extend_leases worker_id (now + lease_seconds) allocations)
  unfolding extend_leases
  extended-kept worker_id ids [] soon fresh = tt
  extended-kept worker_id ids (a ∷ as') soon fresh = (
    elim (Bool-cases (active_on worker_id a)) [
      | inl e ↦ rw e (λ _. extended_one worker_id ids a soon fresh e)
      | inr e ↦ rw e (λ k. cc)
    ],
    extended-kept worker_id ids as' soon fresh,
  )

  seen-not_stale :
      (w : Worker) (allocations : List ResourceAllocation)
      → later ≤ now + settings.worker_stale_seconds
      → is_stale settings locks later (refreshed allocations (seen_at now w)) ≡ false
  unfolding refreshed
  seen-not_stale w allocations soon = ground arith

  not_stale :
      (w : Worker) (db : Db)
      → IsConsistent db
      → get_worker w.id db ≡ some w
      → later ≤ now + settings.worker_stale_seconds
      → key_in w.id (
          stale_ids settings locks later
            (refresh_worker_capacity (seen_at now w) (with_extended w.id (now + lease_seconds) db)))
        ≡ false
  unfolding refresh_worker_capacity refreshed
  not_stale w db h found soon =
      let db' = with_extended w.id (now + lease_seconds) db in
      let row = refreshed db'.allocations (seen_at now w) in
      let saved = save worker_id_of row db.workers in
      not_selected worker_id_of (is_stale settings locks later) saved
        (where_rows (is_stale settings locks later) saved) w.id {x = row}
        (ground (arith, find-save worker_id_of w.id row db.workers))
        (seen-not_stale w db'.allocations soon)
        (where_rows-found worker_id_of (is_stale settings locks later) saved
          (subst Unique (sym (keys-save worker_id_of row db.workers)) h.unique_workers))

  -- A heartbeat keeps every active lease of its worker from a recovery that comes within the lease
  -- time and the time after which a worker is stale.
  pub heartbeat-protects :
      (worker_id : Uuid) (w : Worker) (db : Db)
      → IsConsistent db
      → get_worker worker_id db ≡ some w
      → later ≤ now + lease_seconds
      → later ≤ now + settings.worker_stale_seconds
      → All
          (λ (a : ResourceAllocation).
            active_on worker_id a ≡ true
            → is_expired locks later
                (stale_ids settings locks later (heartbeat_worker now worker_id lease_seconds db).1)
                a
              ≡ false)
          (heartbeat_worker now worker_id lease_seconds db).1.allocations
  unfolding heartbeat_worker heartbeat_found refresh_worker_capacity
  heartbeat-protects worker_id w db h found lease fresh =
      let same : w.id ≡ worker_id = find-key worker_id_of worker_id db.workers {x = w} found in
      let after =
        refresh_worker_capacity (seen_at now w) (with_extended w.id (now + lease_seconds) db) in
      let own : get_worker w.id db ≡ some w = ap (λ k. get_worker k db) same ∙ found in
      rw found (
        subst
          (λ k.
            All
              (λ (a : ResourceAllocation).
                active_on k a ≡ true
                → is_expired locks later (stale_ids settings locks later after) a ≡ false)
              (extend_leases w.id (now + lease_seconds) db.allocations))
          same
          (extended-kept w.id (stale_ids settings locks later after) db.allocations lease
            (not_stale w db h own fresh)))
