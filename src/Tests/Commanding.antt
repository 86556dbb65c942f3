-- ===== src/Tests/Commanding.antt =====
-- The theorems on commands, tags and the lifecycle at concrete data.
use runscope.Prelude.{
  true, ◌↔◌, ◌≡◌, ◌⊎◌, refl, inr, String, [], ◌∷◌, none, some, arith, find, sum_where, where_rows,
  first_row, order_by,
}
use runscope.Models.{draft, queued, scheduling, running, failed, researcher, Run, User, pos}
use runscope.Models.Store.{Db, ok, get_run}
use runscope.Models.Store.Done.{Done}
use runscope.Platform.{IsConsistent}
use runscope.StateMachine.{enter}
use runscope.StateMachine.Lifecycle.{submit, assign, IsTimed, created, entered, Lived-IsTimed}
use runscope.Templates.{slow, registry, registry_get, validate_parameters}
use runscope.Tags.{StrMethods, normalize_tags, str_in}
use runscope.Tags.Normal.{Given, Distinct, normalize_tags_lem}
use runscope.Scheduler.{select_worker, fits}
use runscope.Commands.{RunCreate, cancel_run, retry_run}
use runscope.Commands.Effects.{Open, Refused, Cancelled, cancel_run_follows}
use runscope.Commands.Retries.{Retried, retry_run-Retried}
use runscope.Tests.Sample.{
  sample, sample_run, sample_worker, settings, no_locks, same_names, external, slow_template,
  slow_parameters,
}

abbrev caller : User
caller = record { id = 1; email = "r@runscope.dev"; password_hash = ""; role = researcher }

abbrev plain : StrMethods
plain = record { strip = λ s. s; lower = λ s. s; len = λ s. 3 }

abbrev body : RunCreate
body = record {
  experiment_id = 3;
  template_key = "slow-demonstration";
  template_version = "1.0.0";
  parameters = [];
  requested_cpu = 10;
  requested_memory_mb = 512;
  priority = pos 1;
  notes = "";
  tags = "demo" ∷ "demo" ∷ [];
}

abbrev drafted : Run
drafted = record (sample_run 6 draft) { queued_at = none }

Lived-IsTimed_example : IsTimed (enter 200 scheduling (enter 100 queued drafted))
unfolding enter
Lived-IsTimed_example =
    Lived-IsTimed {r = drafted} {s = enter 200 scheduling (enter 100 queued drafted)}
      (record { in_draft = refl; not_started = refl; not_completed = refl })
      (entered 200 scheduling (entered 100 queued created submit) assign)

chosen :
    select_worker same_names settings no_locks 200 (sample_run 6 queued) (sample running)
    ≡ some sample_worker
unfolding select_worker fits where_rows order_by
chosen = refl

-- Run 6 has failed.
abbrev with_failed : Db
with_failed = record (sample running) { runs = sample_run 6 failed ∷ sample_run 7 running ∷ [] }

with_failed-IsConsistent : IsConsistent with_failed
unfolding find sum_where
with_failed-IsConsistent = record {
  leased = λ j. ground arith;
  balanced = λ j. ground arith;
  unique_runs = (refl, (refl, tt));
  unique_workers = (refl, tt);
  fresh_runs = λ j q. ground arith;
  fresh_workers = λ j q. ground arith;
}

cancel_run_follows_example :
    ((run : Run) × (get_run 7 (sample running) ≡ some run)
      × Done
          (λ _. Cancelled 7 run (sample running))
          (cancel_run settings "c" 200 7 caller (sample running))
      × Open running caller 7 (sample running))
    ⊎ (¬ Open running caller 7 (sample running)
        × Refused (cancel_run settings "c" 200 7 caller (sample running)))
cancel_run_follows_example = cancel_run_follows settings "c" 200 7 caller (sample running)

failed_row : get_run 6 with_failed ≡ some (sample_run 6 failed)
unfolding find
failed_row = refl

template_row : find (λ (t : _). t.id) 5 with_failed.templates ≡ some slow_template
unfolding find
template_row = refl

accepted : validate_parameters external slow_template [] ≡ ok (slow slow_parameters, [])
unfolding validate_parameters registry_get registry first_row
accepted = refl

retry_run-Retried_example :
    Done
      (λ child. Retried (sample_run 6 failed) child caller.id [] with_failed)
      (retry_run settings "c" 200 external 6 [] caller with_failed)
unfolding where_rows
retry_run-Retried_example =
    retry_run-Retried settings "c" 200 external 6 [] caller with_failed (sample_run 6 failed)
      slow_template (slow slow_parameters, []) with_failed-IsConsistent failed_row
      (inr (refl, refl)) refl template_row accepted refl

normalize_tags_lem_example :
    Distinct (normalize_tags plain ("a" ∷ "b" ∷ "a" ∷ []))
    × ((s : String)
        → (str_in s (normalize_tags plain ("a" ∷ "b" ∷ "a" ∷ [])) ≡ true)
          ↔ Given plain s ("a" ∷ "b" ∷ "a" ∷ []))
normalize_tags_lem_example = normalize_tags_lem plain ("a" ∷ "b" ∷ "a" ∷ [])
