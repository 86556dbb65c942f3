-- ===== src/Tests/Playing.antt =====
-- The theorems on the platform as a whole, at the sample data.
use runscope.Prelude.{
  ◌≡◌, refl, inl, List, [], ◌∷◌, some, find, sum_where, arith, order_by, where_rows, take,
}
use runscope.Models.{Timestamp, queued, running, cancelled, administrator, Run, User}
use runscope.Models.Store.{ok, get_run, for_each}
use runscope.Models.Store.Done.{Done}
use runscope.Platform.{IsConsistent}
use runscope.Platform.History.{Known}
use runscope.Tags.{StrMethods}
use runscope.Scheduler.{
  select_worker, fits, is_queued, queued_runs, recover_expired_allocations, schedule_once,
}
use runscope.Scheduler.Progress.{AssignedTo, schedule_once-AssignedTo}
use runscope.System.{
  System, Action, run_cancelled, round_scheduled, checkpoint_reached, worker_seen, play,
}
use runscope.System.Sound.{IsSound, Forward}
use runscope.System.Play.{play-IsSound, play-Forward, play-terminal}
use runscope.Tests.Sample.{
  sample, sample_run, sample_worker, sample-IsConsistent, settings, no_locks, same_names, external,
  encode,
}

abbrev operator : User
operator = record { id = 1; email = "a@runscope.dev"; password_hash = ""; role = administrator }

abbrev unchanged : StrMethods
unchanged = record { strip = λ s. s; lower = λ s. s; len = λ s. 3 }

-- A worker holds run 7, which it executes.
abbrev busy : System
busy = record { db = sample running; held = sample_run 7 running ∷ [] }

busy-IsSound : IsSound busy
unfolding find Known
busy-IsSound = record {
  consistent = sample-IsConsistent running refl;
  referenced = record { projects = (refl, tt); experiments = (refl, (refl, tt)) };
  known = (inl refl, tt);
}

-- A cancellation, a heartbeat, a scheduling round and the worker's checkpoint.
abbrev history : List (Timestamp × Action)
history =
    (200, run_cancelled "c" 7 operator)
    ∷ (201, worker_seen 4 operator)
    ∷ (202, round_scheduled no_locks 202)
    ∷ (203, checkpoint_reached 2 1 0)
    ∷ []

abbrev played : System
played = play settings external encode unchanged (λ s. s) same_names history busy

play-IsSound_example : IsSound played
play-IsSound_example =
    play-IsSound settings external encode unchanged (λ s. s) same_names history busy busy-IsSound

play-Forward_example : Forward busy.db played.db
play-Forward_example =
    play-Forward settings external encode unchanged (λ s. s) same_names history busy busy-IsSound

-- Run 6 was cancelled.
abbrev settled : System
settled = record {
  db = record (sample running) { runs = sample_run 6 cancelled ∷ sample_run 7 running ∷ [] };
  held = [];
}

settled-IsConsistent : IsConsistent settled.db
unfolding find sum_where
settled-IsConsistent = record {
  leased = λ j. ground arith;
  balanced = λ j. ground arith;
  unique_runs = (refl, (refl, tt));
  unique_workers = (refl, tt);
  fresh_runs = λ j q. ground arith;
  fresh_workers = λ j q. ground arith;
}

settled-IsSound : IsSound settled
unfolding find
settled-IsSound = record {
  consistent = settled-IsConsistent;
  referenced = record { projects = (refl, tt); experiments = (refl, (refl, tt)) };
  known = tt;
}

row_6 : get_run 6 settled.db ≡ some (sample_run 6 cancelled)
unfolding find
row_6 = refl

play-terminal_example :
    (later : Run) × (get_run 6
        (play settings external encode unchanged (λ s. s) same_names history settled).db
      ≡ some later)
    × (later.status ≡ cancelled)
play-terminal_example =
    play-terminal settings external encode unchanged (λ s. s) same_names history settled 6
      (sample_run 6 cancelled) settled-IsSound row_6 refl

-- Nothing has expired.
recovered :
    recover_expired_allocations settings no_locks 200 200 (sample running) ≡ ok (0, sample running)
unfolding recover_expired_allocations where_rows for_each
recovered = refl

front : queued_runs same_names settings no_locks 200 (sample running) ≡ sample_run 6 queued ∷ []
unfolding queued_runs where_rows order_by take is_queued
front = refl

found_worker :
    select_worker same_names settings no_locks 200 (sample_run 6 queued) (sample running)
    ≡ some sample_worker
unfolding select_worker fits where_rows order_by
found_worker = refl

schedule_once-AssignedTo_example :
    Done (λ _. AssignedTo 6 4) (schedule_once same_names settings no_locks 200 200 (sample running))
schedule_once-AssignedTo_example =
    schedule_once-AssignedTo same_names settings no_locks 200 200 (sample running) (sample running)
      0 (sample_run 6 queued) [] sample_worker (sample-IsConsistent running refl) recovered front
      found_worker
