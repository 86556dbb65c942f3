-- ===== src/Tests/Scheduling.antt =====
-- The theorems on the scheduler and the registry at the sample data.
use runscope.Prelude.{
  ◌≡◌, refl, some, find, save, sum_where, where_rows, first_row, update_first, order_by, take,
}
use runscope.Models.{running, queued}
use runscope.Models.Store.{get_worker, for_each}
use runscope.Models.Store.Done.{Done}
use runscope.Platform.{IsConsistent}
use runscope.Registry.{heartbeat_worker}
use runscope.Scheduler.{schedule_once, select_worker, fits, queued_runs, is_queued}
use runscope.Scheduler.{assign, is_expired}
use runscope.Registry.{active_on}
use runscope.Models.{ResourceAllocation}
use runscope.Scheduler.Liveliness.{stale_ids, heartbeat-protects}
use runscope.Scheduler.Capacity.{Within, assign-Within}
use runscope.Prelude.{inl, arith, true, false, All}
use runscope.Scheduler.Rounds.{schedule_once-Within}
use runscope.Scheduler.Loop.{schedule_once-IsConsistent}
use runscope.StateMachine.{transition_run}
use runscope.Tests.Sample.{
  sample, sample_run, sample_worker, sample-IsConsistent, settings, no_locks, same_names,
}

schedule_once-IsConsistent_example :
    Done (λ _. IsConsistent) (schedule_once same_names settings no_locks 200 200 (sample running))
schedule_once-IsConsistent_example =
    schedule_once-IsConsistent same_names settings no_locks 200 200 (sample running)
      (sample-IsConsistent running refl)

sample-Within : Within 4 (sample running)
unfolding find sum_where
sample-Within = (omega arith, omega arith)

schedule_once-Within_example :
    Done (λ _. Within 4) (schedule_once same_names settings no_locks 200 200 (sample running))
schedule_once-Within_example =
    schedule_once-Within settings no_locks same_names 200 200 4 (sample running)
      (sample-IsConsistent running refl) sample-Within

-- A round assigns the waiting run and takes its share of the worker.
schedule_test :
    Done
      (λ n db.
        (n ≡ 1)
        × (get_worker 4 db
            ≡ some (record sample_worker {
              available_cpu = 20;
              available_memory_mb = 7168;
              current_run_count = 2;
            })))
      (schedule_once same_names settings no_locks 200 200 (sample running))
unfolding schedule_once find save sum_where where_rows first_row update_first order_by take for_each
    queued_runs is_queued select_worker fits transition_run
schedule_test = (refl, refl)

chosen :
    select_worker same_names settings no_locks 200 (sample_run 6 queued) (sample running)
    ≡ some sample_worker
unfolding select_worker fits where_rows order_by
chosen = refl

assign-Within_example :
    Done
      (λ _. Within 4)
      (assign same_names settings no_locks 200 (sample_run 6 queued) sample_worker (sample running))
assign-Within_example =
    assign-Within same_names settings no_locks 200 (sample_run 6 queued) sample_worker
      (sample running) 4 (sample-IsConsistent running refl) refl chosen (omega arith) (omega arith)
      (inl refl)

row_4 : get_worker 4 (sample running) ≡ some sample_worker
unfolding find
row_4 = refl

heartbeat-protects_example :
    All
      (λ (a : ResourceAllocation).
        active_on 4 a ≡ true
        → is_expired no_locks 210
            (stale_ids settings no_locks 210 (heartbeat_worker 200 4 30 (sample running)).1)
            a
          ≡ false)
      (heartbeat_worker 200 4 30 (sample running)).1.allocations
heartbeat-protects_example =
    heartbeat-protects settings no_locks 200 210 30 4 sample_worker (sample running)
      (sample-IsConsistent running refl) row_4 (omega arith) (omega arith)
