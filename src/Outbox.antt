-- ===== src/Outbox.antt =====
-- outbox.py: the dispatcher that sends the messages of the outbox to the broker. The broker is the
-- parameter `publish`: for the n-th call of the batch it returns, or fails with the name of the
-- exception's class.
pub mod Budget
pub mod Delivery
pub mod Rounds
pub mod Footprint
use runscope.Prelude.{
  ℕ, ◌+◌, String, List, [], ◌∷◌, Option, none, some, Bool, not, ◌&&◌, is_none, save, where_rows,
  order_by, take, ltb, leb,
}
use runscope.Models.{Uuid, Timestamp, OutboxMessage}
use runscope.Models.Store.{Db}

abbrev pub save_message : OutboxMessage → Db → Db
save_message message db = record db {
  outbox = save (λ (m : OutboxMessage). m.id) message db.outbox;
}

module _ (locked : Uuid → Bool) (max_attempts : ℕ) where
  -- the WHERE clause, with the rows that another dispatcher has locked
  unfoldable pub is_pending : OutboxMessage → Bool
  is_pending message =
      not (locked message.id)
      && (is_none message.published_at && ltb message.publish_attempts max_attempts)

  abbrev pub created_before : OutboxMessage → OutboxMessage → Bool
  created_before a b = leb a.created_at b.created_at

  unfoldable pub pending : ℕ → Db → List OutboxMessage
  unfolding is_pending
  pending limit db = take limit (order_by created_before (where_rows is_pending db.outbox))

abbrev pub sent : Timestamp → OutboxMessage → OutboxMessage
sent now message = record message { published_at = some now; last_error = none }

abbrev pub not_sent : String → OutboxMessage → OutboxMessage
not_sent error message = record message {
  publish_attempts = message.publish_attempts + 1;
  last_error = some error;
}

module _ (publish : ℕ → OutboxMessage → Option String) (now : Timestamp) where
  -- The loop over the messages, which the first failure ends.
  unfoldable pub publish_rows : ℕ → List OutboxMessage → Db → ℕ × Db
  publish_rows n [] db = (n, db)
  publish_rows n (message ∷ messages) db = elim (publish n message) [
    | none ↦ publish_rows (n + 1) messages (save_message (sent now message) db)
    | some error ↦ (n, save_message (not_sent error message) db)
  ]

  unfoldable pub dispatch_batch : (Uuid → Bool) → ℕ → ℕ → Db → ℕ × Db
  unfolding publish_rows pending
  dispatch_batch locked limit max_attempts db =
      publish_rows 0 (pending locked max_attempts limit db) db
