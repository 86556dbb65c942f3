-- ===== src/Scheduler/Rounds.antt =====
-- service.py: a whole round of the scheduler, with the recovery, gives away no more than there is.
use mathlib.Core.Option
use runscope.Prelude.{
  ◌≤◌, ◌≡◌, refl, sym, ap, ◌∙◌, subst, String, List, [], ◌∷◌, map, Option, none, some, Bool, ◌==◌,
  ==→≡, Unique, All, find-key, find-save, update_first, where_rows, sum_where, inl, inr, Bool-cases,
  arith,
}
use runscope.Models.{
  Uuid, Timestamp, RunStatus, scheduling, running, cancelling, queued, failed, cancelled, Run,
  Worker, ResourceAllocation,
}
use runscope.Models.Store.{Db, Settings, get_run, get_worker, for_each}
use runscope.Models.Store.Done.{
  Done, Done-and_then, Done-both, Done-Holds-both, Holds, Holds-and_then, Holds-for_each,
}
use runscope.StateMachine.Lifecycle.{Holds-transition_run}
use runscope.Registry.{
  active_of_run, active_cpu, active_memory, close, refreshed, refresh_worker_capacity,
  refresh_if_found, release_found, release_allocation,
}
use runscope.Platform.{IsConsistent}
use runscope.Scheduler.{
  Locks, is_stale, is_expired, mark_stale, lease_lost, recover_status, recover_found, recover_one,
  refresh_one, recover_expired_allocations, select_worker, assign_if_found, schedule_found,
  schedule_runs, queued_runs, schedule_once,
}
use runscope.Scheduler.Recovery.{marked, with_marked, get_worker-marked, recover-IsConsistent}
use runscope.Scheduler.Loop.{
  Waits, Others, still_waiting, schedule_found-Others, queued_runs-waiting,
}
use runscope.Scheduler.Capacity.{FitsIn, Within, assign-kept}

-- Fewer active allocations on a worker that has as much.
FitsIn-less :
    (old new : List ResourceAllocation) (j : Uuid) (o : Option Worker)
    → active_cpu j new ≤ active_cpu j old
    → active_memory j new ≤ active_memory j old
    → FitsIn old j o
    → FitsIn new j o
FitsIn-less old new j none cpu memory h = tt
FitsIn-less old new j (some w) cpu memory h = (omega (arith, cpu, h.0), omega (arith, memory, h.1))

closed-cpu :
    (now : Timestamp) (run_id j : Uuid) (xs : List ResourceAllocation)
    → active_cpu j (update_first (active_of_run run_id) (close now) xs) ≤ active_cpu j xs
unfolding sum_where update_first
closed-cpu now run_id j [] = omega arith
closed-cpu now run_id j (a ∷ xs) = ground (arith, closed-cpu now run_id j xs)

closed-memory :
    (now : Timestamp) (run_id j : Uuid) (xs : List ResourceAllocation)
    → active_memory j (update_first (active_of_run run_id) (close now) xs) ≤ active_memory j xs
unfolding sum_where update_first
closed-memory now run_id j [] = omega arith
closed-memory now run_id j (a ∷ xs) = ground (arith, closed-memory now run_id j xs)

refresh-Within :
    (i j : Uuid) (o : Option Worker) (db : Db)
    → get_worker i db ≡ o
    → Within j db
    → Within j (refresh_if_found o db)
unfolding refresh_if_found refresh_worker_capacity refreshed
refresh-Within i j none db found h = h
refresh-Within i j (some w) db found h =
    rw (find-save (λ (v : Worker). v.id) j (refreshed db.allocations w) db.workers)
      (elim (Bool-cases (w.id == j)) [
        | inl e ↦
            let same : i ≡ j =
              sym (find-key (λ (v : Worker). v.id) i db.workers found) ∙ ==→≡ w.id j e in
            let here : get_worker j db ≡ some w = ap (λ k. get_worker k db) (sym same) ∙ found in
            let room : FitsIn db.allocations j (some w) = subst (FitsIn db.allocations j) here h in
            rw (e, here) room
        | inr e ↦ rw e h
      ])

release-Within :
    (now : Timestamp) (run_id j : Uuid) (o : Option ResourceAllocation) (db : Db)
    → Within j db
    → Within j (release_found now run_id o db).1
unfolding release_found
release-Within now run_id j none db h = h
release-Within now run_id j (some a) db h = refresh-Within a.worker_id j _ _ refl (
    FitsIn-less db.allocations _ j (get_worker j db) (closed-cpu now run_id j db.allocations)
      (closed-memory now run_id j db.allocations) h)

recover_status-Within :
    (now : Timestamp) (a : ResourceAllocation) (run : Run) (s : RunStatus) (j : Uuid) (db : Db)
    → Within j db
    → Holds (λ _. Within j) (recover_status now a run s db)
unfolding recover_status
recover_status-Within now a run scheduling j db h =
    Holds-transition_run (λ _. Within j) now run queued _ _ _ db λ edge. h
recover_status-Within now a run running j db h =
    Holds-transition_run (λ _. Within j) now (lease_lost run) failed _ _ _ db λ edge. h
recover_status-Within now a run cancelling j db h =
    Holds-transition_run (λ _. Within j) now run cancelled _ _ _ db λ edge. h
recover_status-Within now a run _ j db h = h

recover_found-Within :
    (now : Timestamp) (a : ResourceAllocation) (o : Option Run) (j : Uuid) (db : Db)
    → Within j db
    → Holds (λ _. Within j) (recover_found now a o db)
unfolding recover_found
recover_found-Within now a none j db h = h
recover_found-Within now a (some run) j db h = recover_status-Within now a run run.status j db h

recover_one-Within :
    (now : Timestamp) (j : Uuid) (a : ResourceAllocation) (db : Db)
    → Within j db
    → Holds (λ _. Within j) (recover_one now a db)
unfolding recover_one release_allocation
recover_one-Within now j a db h =
    Holds-and_then (λ _. Within j) (λ _. Within j) (recover_found now a (get_run a.run_id db) db) _
      (recover_found-Within now a (get_run a.run_id db) j db h)
      (λ _ db' h'. release-Within now a.run_id j _ db' h')

refresh_one-Within : (j i : Uuid) (db : Db) → Within j db → Holds (λ _. Within j) (refresh_one i db)
unfolding refresh_one
refresh_one-Within j i db h = refresh-Within i j (get_worker i db) db refl h

module _ (settings : Settings) (locks : Locks) where
  marked-FitsIn :
      (t : Timestamp) (allocations : List ResourceAllocation) (j : Uuid) (o : Option Worker)
      → FitsIn allocations j o
      → FitsIn allocations j (Option.map (mark_stale settings locks t) o)
  marked-FitsIn t allocations j none h = h
  marked-FitsIn t allocations j (some w) h = elim (marked settings locks t w) [
    | inl e ↦ subst (λ v. FitsIn allocations j (some v)) (sym e) h
    | inr e ↦ subst (λ v. FitsIn allocations j (some v)) (sym e) h
  ]

  recover-Within :
      (t now : Timestamp) (j : Uuid) (db : Db)
      → Within j db
      → Holds (λ _. Within j) (recover_expired_allocations settings locks t now db)
  unfolding recover_expired_allocations
  recover-Within t now j db h =
      let stale_ids =
        map (λ (w : Worker). w.id) (where_rows (is_stale settings locks t) db.workers) in
      let expired = where_rows (is_expired locks t stale_ids) db.allocations in
      let marked_db = with_marked settings locks t db in
      Holds-and_then (λ _. Within j) (λ _. Within j) (for_each expired (recover_one now) marked_db)
        _
        (Holds-for_each (Within j) expired (recover_one now) marked_db (recover_one-Within now j) (
          subst (FitsIn db.allocations j) (sym (get_worker-marked settings locks t db j))
            (marked-FitsIn t db.allocations j (get_worker j db) h)))
        (λ _ db' h'.
          Holds-and_then (λ _. Within j) (λ _. Within j) (for_each stale_ids refresh_one db') _
            (Holds-for_each (Within j) stale_ids refresh_one db' (refresh_one-Within j) h')
            (λ _ db'' h''. h''))

  module _ (name_le : String → String → Bool) (now : Timestamp) where
    assign_if_found-Within :
        (run : Run) (o : Option Worker) (j : Uuid) (db : Db)
        → select_worker name_le settings locks now run db ≡ o
        → IsConsistent db
        → run.status ≡ queued
        → Within j db
        → Done (λ _. Within j) (assign_if_found name_le settings locks now run o db)
    unfolding assign_if_found
    assign_if_found-Within run none j db chosen h waiting within = within
    assign_if_found-Within run (some w) j db chosen h waiting within =
        assign-kept name_le settings locks now run w db j h waiting chosen within

    schedule_found-Within :
        (id j : Uuid) (db : Db)
        → Waits db id
        → IsConsistent db
        → Within j db
        → Done (λ _. Within j) (schedule_found name_le settings locks now (get_run id db) db)
    unfolding schedule_found
    schedule_found-Within id j db (run, found, waiting) h within = rw found (
        assign_if_found-Within run (select_worker name_le settings locks now run db) j db refl h
          waiting within)

    schedule_runs-Within :
        (ids : List Uuid) (j : Uuid) (db : Db)
        → Unique ids
        → All (Waits db) ids
        → IsConsistent db
        → Within j db
        → Done (λ _. Within j) (schedule_runs name_le settings locks now ids db)
    unfolding schedule_runs Others
    schedule_runs-Within [] j db u w h within = within
    schedule_runs-Within (id ∷ ids) j db u w h within =
        let first = schedule_found name_le settings locks now (get_run id db) db in
        Done-and_then (λ _ db'. Others name_le settings locks now id db db' × Within j db')
          (λ _. Within j) first _
          (Done-both (λ _. Others name_le settings locks now id db) (λ _. Within j) first
            (schedule_found-Others name_le settings locks now id db w.0 h)
            (schedule_found-Within id j db w.0 h within))
          (λ n db' (o, within').
            Done-and_then (λ _. Within j) (λ _. Within j)
              (schedule_runs name_le settings locks now ids db') _
              (schedule_runs-Within ids j db' u.1 (still_waiting id db db' ids o.1 u.0 w.1) o.0
                within')
              (λ m db'' done. done))

    -- On a consistent platform a whole round of the scheduler, recovery included, commits, and each
    -- worker whose active allocations take no more CPU and memory than it has is still so after it,
    -- whatever the runs ask for, the clocks and the locks.
    pub schedule_once-Within :
        (recovery : Timestamp) (j : Uuid) (db : Db)
        → IsConsistent db
        → Within j db
        → Done (λ _. Within j) (schedule_once name_le settings locks now recovery db)
    unfolding schedule_once
    schedule_once-Within recovery j db h within =
        let recovered = recover_expired_allocations settings locks recovery recovery db in
        Done-and_then (λ _ db'. IsConsistent db' × Within j db') (λ _. Within j) recovered _
          (Done-Holds-both (λ _. IsConsistent) (λ _. Within j) recovered
            (recover-IsConsistent settings locks recovery recovery db h)
            (recover-Within recovery recovery j db within))
          (λ n db' (h', within').
            let (unique, waiting) = queued_runs-waiting name_le settings locks now db' h' in
            schedule_runs-Within
              (map (λ (r : Run). r.id) (queued_runs name_le settings locks now db')) j db' unique
              waiting h' within')
