-- ===== src/Tests/Running.antt =====
-- The theorems on executions, deliveries and commands at the sample data.
use runscope.Prelude.{
  ◌≡◌, ◌⊎◌, refl, [], ◌∷◌, some, true, false, find, save, sum_where, where_rows, first_row,
  update_first,
}
use runscope.Models.{
  uuid, of_scheduler, RunStatus, scheduling, running, failed, cancelling, cancelled, Run,
  EventEnvelope,
}
use runscope.Models.Store.{ok, get_run, flush_run}
use runscope.Models.Store.Done.{Done}
use runscope.Platform.{IsConsistent}
use runscope.StateMachine.{transition_run, enter, validate_transition}
use runscope.Templates.{registry_get, registry, registry_get, validate_parameters}
use runscope.Registry.{
  release_allocation, release_found, refresh_if_found, refresh_worker_capacity, refreshed,
}
use runscope.Execution.{skipped, begin_execution, begin_found, begin_with, start_run, end_run}
use runscope.Execution.Slow.{
  stopped, total_steps, checkpoint, checkpoint_found, after_put, finish_slow, steps,
  execute_slow_run,
}
use runscope.Execution.Session.{run_slow, run_template, execute_begun, execute_existing_run}
use runscope.Execution.Whole.{execute-IsConsistent}
use runscope.Execution.Fencing.{Granted, begin_execution-fenced}
use runscope.Execution.Ending.{Ended, end_run-Ended, checkpoint-cancels}
use runscope.Execution.Success.{alone, Finished, execute_slow_run-Finished}
use runscope.Tests.Sample.{slow_parameters}
use runscope.Worker.{process_new, process_for, process_assignment, process_event, consume}
use runscope.Worker.Delivery.{EachProcessed, process_event-repeated, consume-IsConsistent}
use runscope.Tests.Sample.{sample, sample_run, sample-IsConsistent, external, encode}

abbrev event : EventEnvelope
event = record {
  event_id = 20;
  event_version = 1;
  event_type = "run.assigned";
  occurred_at = 190;
  correlation_id = of_scheduler 21;
  run_id = some 7;
  worker_id = some 4;
  payload = ("lease_token", uuid 9) ∷ [];
}

execute-IsConsistent_example :
    IsConsistent
      (execute_existing_run external encode 200 alone 7 (some 4) (some 9) (sample scheduling)).1
execute-IsConsistent_example =
    execute-IsConsistent external encode 200 alone (λ k db h. h) 7 (some 4) (some 9)
      (sample scheduling) (sample-IsConsistent scheduling refl)

consume-IsConsistent_example :
    let last = consume external encode 200 alone 4 (event ∷ event ∷ []) (sample scheduling) in
    IsConsistent last
    × EachProcessed external encode 200 alone
        (λ k db h. h)
        4
        (event ∷ event ∷ [])
        (sample scheduling)
        last
consume-IsConsistent_example =
    consume-IsConsistent external encode 200 alone (λ k db h. h) 4 (event ∷ event ∷ [])
      (sample scheduling) (sample-IsConsistent scheduling refl)

-- The delivery executes the run to its end.
delivered : (process_event external encode 200 alone event (some 4) (sample scheduling)).0 ≡ ok true
unfolding process_event process_assignment process_for process_new execute_existing_run
    execute_begun run_template run_slow execute_slow_run steps checkpoint checkpoint_found
    finish_slow after_put end_run total_steps begin_execution begin_found begin_with start_run
    transition_run validate_transition enter flush_run find save first_row where_rows registry
    registry_get validate_parameters release_allocation release_found refresh_if_found
    refresh_worker_capacity refreshed update_first sum_where
delivered = refl

process_event-repeated_example :
    process_event external encode 200 alone event
      (some 4)
      (process_event external encode 200 alone event (some 4) (sample scheduling)).1
    ≡ (ok false, (process_event external encode 200 alone event (some 4) (sample scheduling)).1)
process_event-repeated_example =
    process_event-repeated external encode 200 alone event (some 4) (sample scheduling) delivered

begin_execution-fenced_example :
    ((run : Run) × (get_run 7 (sample scheduling) ≡ some run)
      × (run.status ≡ scheduling)
      × Granted (some 4) (some 10) 7 (sample scheduling))
    ⊎ (begin_execution external 200 7 (some 4) (some 10) (sample scheduling)
        ≡ ok (skipped (get_run 7 (sample scheduling)), sample scheduling))
begin_execution-fenced_example =
    begin_execution-fenced external 200 7 (some 4) (some 10) (sample scheduling)

row_7 : (status : RunStatus) → get_run 7 (sample status) ≡ some (sample_run 7 status)
unfolding find
row_7 status = refl

end_run-Ended_example :
    Done
      (Ended 200 failed (sample_run 7 running) (sample running))
      (end_run external 200 (sample_run 7 running) failed "run.failed" [] (sample running))
end_run-Ended_example =
    end_run-Ended external 200 (sample_run 7 running) (sample_run 7 running) failed "run.failed" []
      (sample running) (row_7 running) refl refl

checkpoint-cancels_example :
    Done
      (λ c db'.
        (run' : Run) × (c ≡ stopped run')
        × (run'.status ≡ cancelled)
        × Ended 200 cancelled (sample_run 7 cancelling) (sample cancelling) run' db')
      (checkpoint external encode 200 2 1 7 (sample cancelling))
checkpoint-cancels_example =
    checkpoint-cancels external 200 encode 2 1 7 (sample_run 7 cancelling) (sample cancelling)
      (row_7 cancelling) refl

-- The run as it was read before another transaction marked it.
abbrev read_before : Run
read_before = record (sample_run 7 running) { version = 0 }

execute_slow_run-Finished_example : Finished (sample_run 7 running) (sample running).allocations (
    execute_slow_run external encode 200 alone slow_parameters
      (sample_run 7 running)
      (sample running))
execute_slow_run-Finished_example =
    execute_slow_run-Finished external encode 200 slow_parameters (sample_run 7 running) refl refl
      refl (sample running) (row_7 running)
