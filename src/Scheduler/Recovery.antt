-- ===== src/Scheduler/Recovery.antt =====
-- service.py: `recover_expired_allocations` cannot fail, and keeps the platform consistent.
use mathlib.Core.Option
use runscope.Prelude.{
  ◌≡◌, refl, sym, subst, List, map, Option, none, some, ◌⊎◌, inl, inr, find-key, find-map, keys-map,
  where_rows, arith, Bool-cases,
}
use runscope.Models.{
  Uuid, Timestamp, RunStatus, draft, queued, scheduling, running, failed, cancelling, cancelled,
  Run, Worker, ResourceAllocation, stale,
}
use runscope.Models.Store.{Db, Settings, ok, for_each, get_run, get_worker, save_run, add_event}
use runscope.Models.Store.Done.{Done, Done-and_then, Done-for_each}
use runscope.StateMachine.{enter}
use runscope.StateMachine.Lifecycle.{transition_run-ok}
use runscope.Registry.{release_allocation}
use runscope.Registry.Heartbeat.{refresh_if_found-IsConsistent}
use runscope.Registry.Leases.{settle-IsConsistent, release-IsConsistent}
use runscope.Platform.{
  lease_slots, IsConsistent, Accounted, keep_IsConsistent, add_event-IsConsistent,
}
use runscope.Scheduler.{
  Locks, is_stale, lease_lost, is_expired, mark_stale, recover_status, recover_found, recover_one,
  refresh_one, recover_expired_allocations,
}

-- Consistent once the lease of the run is released.
abbrev Ends : Timestamp → Uuid → Db → Type 0
Ends now run_id db = IsConsistent (release_allocation now run_id db).1

settled :
    (now : Timestamp) (run_id : Uuid) (run : Run) (db : Db)
    → run.id ≡ run_id
    → lease_slots (some run) ≡ 0
    → IsConsistent db
    → Ends now run_id (save_run run db)
settled now run_id run db same ended h =
    subst (λ k. Ends now k (save_run run db)) same (settle-IsConsistent now run db ended h)

found_id : (db : Db) (j : Uuid) {run : Run} → get_run j db ≡ some run → run.id ≡ j
found_id db j e = find-key (λ (r : Run). r.id) j db.runs e

-- Every branch on the status is an accepted transition, and what follows it ends the lease.
recover_status-Ends :
    (now : Timestamp) (a : ResourceAllocation) (run : Run) (s : RunStatus) (db : Db)
    → run.status ≡ s
    → get_run a.run_id db ≡ some run
    → IsConsistent db
    → Done (λ _. Ends now a.run_id) (recover_status now a run s db)
unfolding recover_status enter
recover_status-Ends now a run scheduling db e found h =
    rw (transition_run-ok now run queued _ _ db (rw e)) (
      settled now a.run_id _ (add_event _ db) (found_id db a.run_id found) refl
        (add_event-IsConsistent _ db h))
recover_status-Ends now a run running db e found h =
    rw (transition_run-ok now (lease_lost run) failed _ _ db (rw e)) (
      settled now a.run_id _ (add_event _ db) (found_id db a.run_id found) refl
        (add_event-IsConsistent _ db h))
recover_status-Ends now a run cancelling db e found h =
    rw (transition_run-ok now run cancelled _ _ db (rw e)) (
      settled now a.run_id _ (add_event _ db) (found_id db a.run_id found) refl
        (add_event-IsConsistent _ db h))
recover_status-Ends now a run draft db e found h =
    release-IsConsistent now a.run_id db (rw (found, e)) h
recover_status-Ends now a run _ db e found h =
    release-IsConsistent now a.run_id db (rw (found, e)) h

recover_found-Ends :
    (now : Timestamp) (a : ResourceAllocation) (o : Option Run) (db : Db)
    → get_run a.run_id db ≡ o
    → IsConsistent db
    → Done (λ _. Ends now a.run_id) (recover_found now a o db)
unfolding recover_found
recover_found-Ends now a none db found h = release-IsConsistent now a.run_id db (rw found) h
recover_found-Ends now a (some run) db found h =
    recover_status-Ends now a run run.status db refl found h

recover_one-IsConsistent :
    (now : Timestamp) (a : ResourceAllocation) (db : Db)
    → IsConsistent db
    → Done (λ _. IsConsistent) (recover_one now a db)
unfolding recover_one
recover_one-IsConsistent now a db h =
    Done-and_then (λ _. Ends now a.run_id) (λ _. IsConsistent)
      (recover_found now a (get_run a.run_id db) db)
      (λ _ db. ok (tt, (release_allocation now a.run_id db).1))
      (recover_found-Ends now a (get_run a.run_id db) db refl h) (λ _ db' e. e)

refresh_one-IsConsistent :
    (id : Uuid) (db : Db) → IsConsistent db → Done (λ _. IsConsistent) (refresh_one id db)
unfolding refresh_one
refresh_one-IsConsistent id db h = refresh_if_found-IsConsistent (get_worker id db) db h

module _ (settings : Settings) (locks : Locks) (t : Timestamp) where
  mark-id : (w : Worker) → (mark_stale settings locks t w).id ≡ w.id
  mark-id w = elim (Bool-cases (is_stale settings locks t w)) [ inl e ↦ rw e | inr e ↦ rw e ]

  pub marked :
      (w : Worker)
      → (mark_stale settings locks t w ≡ record w { status = stale })
        ⊎ (mark_stale settings locks t w ≡ w)
  marked w = elim (Bool-cases (is_stale settings locks t w)) [
    | inl e ↦ inl (rw e)
    | inr e ↦ inr (rw e)
  ]

  marked-Accounted :
      (allocations : List ResourceAllocation) (j : Uuid) (o : Option Worker)
      → Accounted allocations j o
      → Accounted allocations j (Option.map (mark_stale settings locks t) o)
  marked-Accounted allocations j none h = h
  marked-Accounted allocations j (some w) h = elim (marked w) [
    | inl e ↦ subst (λ v. Accounted allocations j (some v)) (sym e) h
    | inr e ↦ subst (λ v. Accounted allocations j (some v)) (sym e) h
  ]

  abbrev pub with_marked : Db → Db
  with_marked db = record db { workers = map (mark_stale settings locks t) db.workers }

  pub get_worker-marked :
      (db : Db) (j : Uuid)
      → get_worker j (with_marked db) ≡ Option.map (mark_stale settings locks t) (get_worker j db)
  get_worker-marked db j =
      find-map (λ (w : Worker). w.id) j (mark_stale settings locks t) db.workers mark-id

  mark-IsConsistent : (db : Db) → IsConsistent db → IsConsistent (with_marked db)
  mark-IsConsistent db h =
      keep_IsConsistent db (with_marked db) (omega arith) refl
        (keys-map (λ (w : Worker). w.id) (mark_stale settings locks t) db.workers mark-id) h.leased
        (λ j.
          subst (Accounted db.allocations j) (sym (get_worker-marked db j))
            (marked-Accounted db.allocations j (get_worker j db) (h.balanced j)))
        h

-- The recovery of expired leases never raises, and it keeps the platform consistent, whatever the
-- clocks and the locks.
pub recover-IsConsistent :
    (settings : Settings) (locks : Locks) (current_time now : Timestamp) (db : Db)
    → IsConsistent db
    → Done (λ _. IsConsistent) (recover_expired_allocations settings locks current_time now db)
unfolding recover_expired_allocations
recover-IsConsistent settings locks current_time now db h =
    let stale_ids =
      map (λ (w : Worker). w.id) (where_rows (is_stale settings locks current_time) db.workers) in
    let expired = where_rows (is_expired locks current_time stale_ids) db.allocations in
    Done-and_then (λ _. IsConsistent) (λ _. IsConsistent)
      (for_each expired (recover_one now) (with_marked settings locks current_time db)) _
      (Done-for_each IsConsistent expired (recover_one now)
        (with_marked settings locks current_time db) (recover_one-IsConsistent now)
        (mark-IsConsistent settings locks current_time db h))
      (λ _ db' h'.
        Done-and_then (λ _. IsConsistent) (λ _. IsConsistent) (for_each stale_ids refresh_one db') _
          (Done-for_each IsConsistent stale_ids refresh_one db' refresh_one-IsConsistent h')
          (λ _ db'' h''. h''))
