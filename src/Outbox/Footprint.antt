-- ===== src/Outbox/Footprint.antt =====
-- outbox.py: a batch writes the outbox and nothing else.
use runscope.Prelude.{
  ℕ, ◌+◌, ◌≡◌, refl, String, List, [], ◌∷◌, Option, Bool, Option-cases, inl, inr,
}
use runscope.Models.{Uuid, Timestamp, OutboxMessage}
use runscope.Models.Store.{Db}
use runscope.Outbox.{pending, sent, not_sent, save_message, publish_rows, dispatch_batch}

module _ (publish : ℕ → OutboxMessage → Option String) (now : Timestamp) where
  publish_rows-outbox :
      (n : ℕ) (messages : List OutboxMessage) (db : Db)
      → (o : List OutboxMessage) × ((publish_rows publish now n messages db).1
          ≡ record db { outbox = o })
  unfolding publish_rows
  publish_rows-outbox n [] db = (db.outbox, refl)
  publish_rows-outbox n (m ∷ ms) db = elim (Option-cases (publish n m)) [
    | inl e ↦
        let (o, same) = publish_rows-outbox (n + 1) ms (save_message (sent now m) db) in
        (o, rw (e, publish_rows) same)
    | inr (error, e) ↦ ((save_message (not_sent error m) db).outbox, rw (e, publish_rows) refl)
  ]

  pub dispatch_batch-outbox :
      (locked : Uuid → Bool) (limit max_attempts : ℕ) (db : Db)
      → (o : List OutboxMessage) × ((dispatch_batch publish now locked limit max_attempts db).1
          ≡ record db { outbox = o })
  unfolding dispatch_batch
  dispatch_batch-outbox locked limit max_attempts db =
      publish_rows-outbox 0 (pending locked max_attempts limit db) db
