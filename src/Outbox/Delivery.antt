-- ===== src/Outbox/Delivery.antt =====
-- outbox.py: the order of delivery, and what a batch leaves alone.
use runscope.Prelude.{
  ℕ, ◌+◌, ◌≤◌, ◌≡◌, refl, ◌∙◌, sym, subst, ◌⊎◌, String, List, [], ◌∷◌, map, Option, none, some,
  Bool, true, false, inl, inr, keys-save, key_in, not_selected, Unique, All, All-map, ◌<◌, Sorted,
  IsOrder, take-Sorted, order_by-Sorted, order_by, where_rows, is_none, leb, arith, Option-cases,
}
use runscope.Models.{Uuid, Timestamp, OutboxMessage}
use runscope.Models.Store.{Db}
use runscope.Outbox.{
  save_message, is_pending, created_before, pending, sent, not_sent, publish_rows, dispatch_batch,
}
use runscope.Outbox.Budget.{
  message_id, get_message, message_ids, attempts_left, Waiting, pending-Waiting, saved_here,
  saved_other, still-Waiting, sent-left, not_sent-left,
}

-- The rows of a batch after it: those before the first that the broker refuses are sent, the failure
-- is counted on its row, and the rows behind it are as they were. `n` calls came before, `total` were
-- accepted.
abbrev pub InOrder :
    (ℕ → OutboxMessage → Option String) → Timestamp → Db → ℕ → ℕ → List OutboxMessage → Type 0
InOrder publish now db n total [] = total ≡ n
InOrder publish now db n total (m ∷ ms) =
    ((publish n m ≡ none)
      × (get_message m.id db ≡ some (record m { published_at = some now; last_error = none }))
      × InOrder publish now db (n + 1) total ms)
    ⊎ ((total ≡ n)
        × ((error : String) × (publish n m ≡ some error)
            × (get_message m.id db
                ≡ some (record m {
                  publish_attempts = m.publish_attempts + 1;
                  last_error = some error;
                })))
        × All (λ (k : OutboxMessage). get_message k.id db ≡ some k) ms)

-- One where the batch has work.
abbrev pub work : List OutboxMessage → ℕ
work [] = 0
work (m ∷ ms) = 1

module _ (locked : Uuid → Bool) (max_attempts : ℕ) (publish : ℕ → OutboxMessage → Option String)
    (now : Timestamp) where
  publish_rows-message_ids :
      (n : ℕ) (ms : List OutboxMessage) (db : Db)
      → message_ids (publish_rows publish now n ms db).1 ≡ message_ids db
  unfolding publish_rows
  publish_rows-message_ids n [] db = refl
  publish_rows-message_ids n (m ∷ ms) db = elim (Option-cases (publish n m)) [
    | inl e ↦
        rw (e, publish_rows)
          (publish_rows-message_ids (n + 1) ms (save_message (sent now m) db)
            ∙ keys-save message_id (sent now m) db.outbox)
    | inr (error, e) ↦ rw (e, publish_rows) (keys-save message_id (not_sent error m) db.outbox)
  ]

  -- Rows that are not in the batch stay.
  publish_rows-other :
      (n : ℕ) (ms : List OutboxMessage) (db : Db) (j : Uuid)
      → key_in j (map message_id ms) ≡ false
      → get_message j (publish_rows publish now n ms db).1 ≡ get_message j db
  unfolding publish_rows
  publish_rows-other n [] db j h = refl
  publish_rows-other n (m ∷ ms) db j h = elim (Option-cases (publish n m)) [
    | inl e ↦
        rw (e, publish_rows)
          (publish_rows-other (n + 1) ms (save_message (sent now m) db) j (ground arith)
            ∙ saved_other locked max_attempts j (sent now m) db (ground arith))
    | inr (error, e) ↦
        rw (e, publish_rows)
          (saved_other locked max_attempts j (not_sent error m) db (ground arith))
  ]

  publish_rows-left :
      (n : ℕ) (ms : List OutboxMessage) (db : Db)
      → Unique (map message_id ms)
      → All (Waiting locked max_attempts db) ms
      → attempts_left locked max_attempts (publish_rows publish now n ms db).1 + work ms
        ≤ attempts_left locked max_attempts db
  unfolding publish_rows
  publish_rows-left n [] db u w = omega arith
  publish_rows-left n (m ∷ ms) db u w = elim (Option-cases (publish n m)) [
    | inl e ↦
        rw (e, publish_rows)
          (omega (
            arith,
            publish_rows-left (n + 1) ms (save_message (sent now m) db) u.1
                (still-Waiting locked max_attempts (sent now m) db ms u.0 w.1),
            sent-left locked max_attempts now m db w.0,
          ))
    | inr (error, e) ↦ rw (e, publish_rows) (not_sent-left locked max_attempts error m db w.0)
  ]

  accepted :
      (n : ℕ) (m : OutboxMessage) (ms : List OutboxMessage) (db : Db)
      → publish n m ≡ none
      → publish_rows publish now n (m ∷ ms) db
        ≡ publish_rows publish now (n + 1) ms (save_message (sent now m) db)
  unfolding publish_rows
  accepted n m ms db e = rw (e, publish_rows) refl

  refused :
      (n : ℕ) (m : OutboxMessage) (ms : List OutboxMessage) (db : Db) {error : String}
      → publish n m ≡ some error
      → publish_rows publish now n (m ∷ ms) db ≡ (n, save_message (not_sent error m) db)
  unfolding publish_rows
  refused n m ms db e = rw (e, publish_rows) refl

  publish_rows-InOrder :
      (n : ℕ) (ms : List OutboxMessage) (db : Db)
      → Unique (map message_id ms)
      → All (Waiting locked max_attempts db) ms
      → InOrder publish now
          (publish_rows publish now n ms db).1
          n
          (publish_rows publish now n ms db).0
          ms
  unfolding publish_rows
  publish_rows-InOrder n [] db u w = refl
  publish_rows-InOrder n (m ∷ ms) db u w = elim (Option-cases (publish n m)) [
    | inl e ↦
        let db' = save_message (sent now m) db in
        subst (λ r. InOrder publish now r.1 n r.0 (m ∷ ms)) (sym (accepted n m ms db e))
          (inl (
            e,
            publish_rows-other (n + 1) ms db' m.id u.0
                ∙ saved_here locked max_attempts (sent now m) m db w.0.0,
            publish_rows-InOrder (n + 1) ms db' u.1
                (still-Waiting locked max_attempts (sent now m) db ms u.0 w.1),
          ))
    | inr (error, e) ↦
        let db' = save_message (not_sent error m) db in
        subst (λ r. InOrder publish now r.1 n r.0 (m ∷ ms)) (sym (refused n m ms db e))
          (inr (
            refl,
            (error, e, saved_here locked max_attempts (not_sent error m) m db w.0.0),
            All-map (Waiting locked max_attempts db')
                (λ (k : OutboxMessage). get_message k.id db' ≡ some k) ms (λ k h. h.0)
                (still-Waiting locked max_attempts (not_sent error m) db ms u.0 w.1),
          ))
  ]

  -- What the batch may hold.
  abbrev pub Unsent : OutboxMessage → Type 0
  Unsent m = (m.published_at ≡ none) × (m.publish_attempts < max_attempts) × (locked m.id ≡ false)

  pending-Unsent : (m : OutboxMessage) → is_pending locked max_attempts m ≡ true → Unsent m
  unfolding is_pending
  pending-Unsent m h = (absent m.published_at (ground arith), ground arith, ground arith)
    where
      absent : (o : Option Timestamp) → is_none o ≡ true → o ≡ none
      absent none e = refl
      absent (some t) e = cc

  created_before-IsOrder : IsOrder (created_before locked max_attempts)
  created_before-IsOrder = record {
    total = λ a b h. ground arith;
    transitive = λ a b c h k. ground arith;
  }

  -- Where the messages have different identifiers, a batch holds unpublished messages with attempts
  -- left that no other dispatcher has locked, in the order of their creation. It offers them to the
  -- broker one after the other up to the first that the broker refuses: those before it, which were
  -- accepted, carry the time of sending and no error, the refused one counts one attempt more and has
  -- the error, and those behind it are as they were. The result counts the messages that were sent.
  pub dispatch_batch-InOrder :
      (limit : ℕ) (db : Db)
      → Unique (message_ids db)
      → let batch = pending locked max_attempts limit db in
        All Unsent batch
        × Sorted (λ (a b : OutboxMessage). leb a.created_at b.created_at) batch
        × InOrder publish now
            (dispatch_batch publish now locked limit max_attempts db).1
            0
            (dispatch_batch publish now locked limit max_attempts db).0
            batch
  unfolding dispatch_batch pending
  dispatch_batch-InOrder limit db u =
      let (unique, waiting) = pending-Waiting locked max_attempts limit db u in
      let batch = pending locked max_attempts limit db in
      let order = created_before locked max_attempts in
      (
        All-map (Waiting locked max_attempts db) Unsent batch (λ m w. pending-Unsent m w.1) waiting,
        take-Sorted order created_before-IsOrder limit
            (order_by order (where_rows (is_pending locked max_attempts) db.outbox))
            (order_by-Sorted order created_before-IsOrder
              (where_rows (is_pending locked max_attempts) db.outbox)),
        publish_rows-InOrder 0 batch db unique waiting,
      )

  -- A message that was published, that has used up its attempts, or that another dispatcher has
  -- locked is not sent and not changed.
  pub dispatch_batch-settled :
      (limit : ℕ) (db : Db) (j : Uuid) (m : OutboxMessage)
      → Unique (message_ids db)
      → get_message j db ≡ some m
      → is_pending locked max_attempts m ≡ false
      → get_message j (dispatch_batch publish now locked limit max_attempts db).1 ≡ some m
  unfolding dispatch_batch
  dispatch_batch-settled limit db j m u found settled =
      let (unique, waiting) = pending-Waiting locked max_attempts limit db u in
      publish_rows-other 0 (pending locked max_attempts limit db) db j (
        not_selected message_id (is_pending locked max_attempts) db.outbox
          (pending locked max_attempts limit db) j {x = m} found settled waiting)
      ∙ found

  pub dispatch_batch-left :
      (limit : ℕ) (db : Db)
      → Unique (message_ids db)
      → attempts_left locked max_attempts
            (dispatch_batch publish now locked limit max_attempts db).1
          + work (pending locked max_attempts limit db)
        ≤ attempts_left locked max_attempts db
  unfolding dispatch_batch
  dispatch_batch-left limit db u =
      let (unique, waiting) = pending-Waiting locked max_attempts limit db u in
      publish_rows-left 0 (pending locked max_attempts limit db) db unique waiting

  pub dispatch_batch-message_ids :
      (limit : ℕ) (db : Db)
      → message_ids (dispatch_batch publish now locked limit max_attempts db).1 ≡ message_ids db
  unfolding dispatch_batch
  dispatch_batch-message_ids limit db =
      publish_rows-message_ids 0 (pending locked max_attempts limit db) db

  pub dispatch_batch-idle :
      (limit : ℕ) (db : Db)
      → pending locked max_attempts limit db ≡ []
      → (dispatch_batch publish now locked limit max_attempts db).1 ≡ db
  unfolding dispatch_batch publish_rows
  dispatch_batch-idle limit db e = rw e
