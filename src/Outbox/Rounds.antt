-- ===== src/Outbox/Rounds.antt =====
-- outbox.py: the dispatcher, run again and again.
use runscope.Prelude.{
  ℕ, zero, suc, ◌≤◌, ◌≡◌, refl, sym, ap, subst, String, List, [], ◌∷◌, Option, Bool, Unique, arith,
}
use runscope.Models.{Uuid, Timestamp, OutboxMessage}
use runscope.Models.Store.{Db}
use runscope.Outbox.{pending, dispatch_batch}
use runscope.Outbox.Budget.{message_ids, attempts_left}
use runscope.Outbox.Delivery.{
  work, dispatch_batch-left, dispatch_batch-message_ids, dispatch_batch-idle,
}

module _ (locked : Uuid → Bool) (limit max_attempts : ℕ)
    (publish : ℕ → ℕ → OutboxMessage → Option String) (clock : ℕ → Timestamp) where
  -- Rounds of the dispatcher, with the broker and the clock of each.
  abbrev pub rounds : ℕ → Db → Db
  rounds zero db = db
  rounds (suc k) db = rounds k (dispatch_batch (publish k) (clock k) locked limit max_attempts db).1

  rounds-idle :
      (k : ℕ) (db : Db)
      → pending locked max_attempts limit db ≡ []
      → pending locked max_attempts limit (rounds k db) ≡ []
  rounds-idle zero db e = e
  rounds-idle (suc k) db e =
      rw (dispatch_batch-idle locked max_attempts (publish k) (clock k) limit db e)
        (rounds-idle k db e)

  work-idle : (ms : List OutboxMessage) → work ms ≤ 0 → ms ≡ []
  work-idle [] h = refl
  work-idle (m ∷ ms) h = absurd (omega arith)

  by_work :
      (k : ℕ) (db : Db)
      → attempts_left locked max_attempts db ≤ suc k
      → Unique (message_ids db)
      → (ms : List OutboxMessage) → pending locked max_attempts limit db ≡ ms
      → (attempts_left locked max_attempts
              (dispatch_batch (publish k) (clock k) locked limit max_attempts db).1
            ≤ k
          → pending locked max_attempts limit (rounds (suc k) db) ≡ [])
      → pending locked max_attempts limit (rounds (suc k) db) ≡ []
  by_work k db enough u [] e later = rounds-idle (suc k) db e
  by_work k db enough u (m ∷ ms) e later = later (
      omega (
        arith,
        dispatch_batch-left locked max_attempts (publish k) (clock k) limit db u,
        ap work e,
      ))

  -- The dispatcher comes to rest whatever the broker answers: after as many rounds as attempts are
  -- left to the waiting messages, none of the messages that it may select waits.
  pub rounds-drain :
      (k : ℕ) (db : Db)
      → Unique (message_ids db)
      → attempts_left locked max_attempts db ≤ k
      → pending locked max_attempts limit (rounds k db) ≡ []
  rounds-drain zero db u enough =
      work-idle (pending locked max_attempts limit db)
        (omega (arith, dispatch_batch-left locked max_attempts (publish 0) (clock 0) limit db u))
  rounds-drain (suc k) db u enough =
      by_work k db enough u (pending locked max_attempts limit db) refl (
        rounds-drain k (dispatch_batch (publish k) (clock k) locked limit max_attempts db).1 (
          subst Unique
            (sym (dispatch_batch-message_ids locked max_attempts (publish k) (clock k) limit db))
            u))
