-- ===== src/Tests/Dispatching.antt =====
-- The theorems on the outbox and the artifact store at concrete data.
use runscope.Prelude.{
  All, Sorted, leb, ℕ, ◌+◌, ◌*◌, ◌^◌, ◌≤◌, ◌≡◌, ◌⊎◌, refl, String, [], ◌∷◌, Option, none, some,
  Bool, false, arith, ◌==◌, sum_where, if◌then◌else◌,
}
use runscope.Models.{Uuid, of_scheduler, running, OutboxMessage}
use runscope.Models.Store.{Db}
use runscope.Outbox.{is_pending, pending, dispatch_batch}
use runscope.Outbox.Budget.{attempts_left}
use runscope.Outbox.Delivery.{Unsent, InOrder, dispatch_batch-InOrder}
use runscope.Outbox.Rounds.{rounds, rounds-drain}
use runscope.Storage.{Key, resolve, path, retry}
use runscope.Storage.Waits.{doubling, Stops, retry-waits}
use runscope.Storage.Retry.{FirstSuccess, total, retry-FirstSuccess}
use runscope.Storage.Root.{Plain, Below, path-Below}
use runscope.Tests.Sample.{sample}

abbrev message : Uuid → ℕ → OutboxMessage
message id attempts = record {
  id = id;
  topic = "runscope.events.v1";
  partition_key = 7;
  envelope = record {
    event_id = id + 100;
    event_version = 1;
    event_type = "run.submitted";
    occurred_at = 100;
    correlation_id = of_scheduler 1;
    run_id = some 7;
    worker_id = none;
    payload = [];
  };
  created_at = 100 + id;
  published_at = none;
  publish_attempts = attempts;
  last_error = none;
}

-- Two messages wait, and a third has used up its attempts.
abbrev with_messages : Db
with_messages = record (sample running) { outbox = message 1 0 ∷ message 2 1 ∷ message 3 3 ∷ [] }

-- A broker that takes one message in each batch.
abbrev one_message : ℕ → OutboxMessage → Option String
one_message n m = if n == 0 then none else some "KafkaError"

abbrev unlocked : Uuid → Bool
unlocked id = false

dispatch_batch-InOrder_example :
    All (Unsent unlocked 3 one_message 300) (pending unlocked 3 50 with_messages)
    × Sorted
        (λ (a b : OutboxMessage). leb a.created_at b.created_at)
        (pending unlocked 3 50 with_messages)
    × InOrder one_message 300
        (dispatch_batch one_message 300 unlocked 50 3 with_messages).1
        0
        (dispatch_batch one_message 300 unlocked 50 3 with_messages).0
        (pending unlocked 3 50 with_messages)
dispatch_batch-InOrder_example =
    dispatch_batch-InOrder unlocked 3 one_message 300 50 with_messages (refl, (refl, (refl, tt)))

five_left : attempts_left unlocked 3 with_messages ≤ 5
unfolding is_pending sum_where
five_left = omega arith

rounds-drain_example :
    pending unlocked 3 50 (rounds unlocked 50 3 (λ k. one_message) (λ k. 300 + k) 5 with_messages)
    ≡ []
rounds-drain_example =
    rounds-drain unlocked 50 3 (λ k. one_message) (λ k. 300 + k) 5 with_messages
      (refl, (refl, (refl, tt))) five_left

-- The third call succeeds.
abbrev third : ℕ → Option ℕ
third n = if n == 3 then some 9 else none

retry-FirstSuccess_example : FirstSuccess third 1 4 (retry 4 10 third).0
retry-FirstSuccess_example = retry-FirstSuccess 4 10 third

retry-waits_example :
    ((k : ℕ) × ((retry 4 10 third).1 ≡ doubling 10 k) × Stops 4 10 third 1 k)
    × (total (retry 4 10 third).1 + 10 ≤ 10 * 2 ^ 3)
retry-waits_example = retry-waits 4 10 third (omega arith)

abbrev escaping : Key
escaping = record { absolute = false; segments = ".." ∷ "etc" ∷ [] }

path-Below_example :
    (((path ("data" ∷ []) escaping ≡ some (resolve ("data" ∷ []) escaping))
        × Below ("data" ∷ []) (resolve ("data" ∷ []) escaping))
      ⊎ ((path ("data" ∷ []) escaping ≡ none)
          × ¬ Below ("data" ∷ []) (resolve ("data" ∷ []) escaping)))
    × All Plain (resolve ("data" ∷ []) escaping)
    × (path ("data" ∷ []) (record escaping { segments = "run" ∷ "a" ∷ ".." ∷ "b" ∷ [] })
        ≡ path ("data" ∷ []) (record escaping { segments = "run" ∷ "b" ∷ [] }))
path-Below_example =
    path-Below ("data" ∷ []) escaping ("run" ∷ []) ("b" ∷ []) "a" ((refl, refl), tt) (refl, refl)
