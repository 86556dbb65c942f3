-- ===== src/Outbox/Budget.antt =====
-- outbox.py: what a batch leaves of the work that is to be done.
use runscope.Prelude.{
  ℕ, ◌+◌, ◌-◌, ◌≤◌, ◌≡◌, refl, ◌∙◌, ap, String, List, [], ◌∷◌, map, Option, some, Bool, true, false,
  inl, inr, ◌==◌, find, save, find-save, key_in, Unique, All, All-order_by, All-take,
  where_rows-found, Unique-where_rows, Unique-order_by, Unique-take, where_rows, order_by,
  sum_where, share, arith, Bool-cases,
}
use runscope.Models.{Uuid, Timestamp, OutboxMessage}
use runscope.Models.Store.{Db}
use runscope.Outbox.{save_message, is_pending, created_before, pending, sent, not_sent}

abbrev pub message_id : OutboxMessage → Uuid
message_id m = m.id

abbrev pub get_message : Uuid → Db → Option OutboxMessage
get_message j db = find message_id j db.outbox

abbrev pub message_ids : Db → List Uuid
message_ids db = map message_id db.outbox

-- An UPDATE changes an aggregate by what the row adds.
sum_where-save :
    {A : Type 0} (key : A → ℕ) (p : A → Bool) (f : A → ℕ) (row : A) (xs : List A) {old : A}
    → find key (key row) xs ≡ some old
    → sum_where p f (save key row xs) + share p f old ≡ sum_where p f xs + share p f row
unfolding sum_where find save
sum_where-save key p f row [] h = ground arith
sum_where-save key p f row (y ∷ ys) {old = old} h = elim (Bool-cases (key y == key row)) [
  | inl e ↦ rw e (ground arith)
  | inr e ↦ rw e (ground (arith, sum_where-save key p f row ys {old = old}))
]

abbrev pub left_of : ℕ → OutboxMessage → ℕ
left_of max_attempts m = max_attempts - m.publish_attempts

-- Every attempt that is left to the messages that wait.
abbrev pub attempts_left : (Uuid → Bool) → ℕ → Db → ℕ
attempts_left locked max_attempts db =
    sum_where (is_pending locked max_attempts) (left_of max_attempts) db.outbox

module _ (locked : Uuid → Bool) (max_attempts : ℕ) where
  abbrev pub Waiting : Db → OutboxMessage → Type 0
  Waiting db m = (get_message m.id db ≡ some m) × (is_pending locked max_attempts m ≡ true)

  pub pending-Waiting :
      (limit : ℕ) (db : Db)
      → Unique (message_ids db)
      → Unique (map message_id (pending locked max_attempts limit db))
        × All (Waiting db) (pending locked max_attempts limit db)
  unfolding pending
  pending-Waiting limit db u =
      let rows = where_rows (is_pending locked max_attempts) db.outbox in
      let order = created_before locked max_attempts in
      (
        Unique-take message_id limit (order_by order rows) (
            Unique-order_by message_id order rows
              (Unique-where_rows message_id (is_pending locked max_attempts) db.outbox u)),
        All-take (Waiting db) limit (order_by order rows) (
            All-order_by (Waiting db) order rows
              (where_rows-found message_id (is_pending locked max_attempts) db.outbox u)),
      )

  pub saved_other :
      (j : Uuid) (m : OutboxMessage) (db : Db)
      → (m.id == j) ≡ false
      → get_message j (save_message m db) ≡ get_message j db
  saved_other j m db e = ground (arith, find-save message_id j m db.outbox)

  pub saved_here :
      (m old : OutboxMessage) (db : Db)
      → get_message m.id db ≡ some old
      → get_message m.id (save_message m db) ≡ some m
  saved_here m old db e = ground (arith, find-save message_id m.id m db.outbox)

  pub still-Waiting :
      (m : OutboxMessage) (db : Db) (ms : List OutboxMessage)
      → key_in m.id (map message_id ms) ≡ false
      → All (Waiting db) ms
      → All (Waiting (save_message m db)) ms
  still-Waiting m db [] fresh w = tt
  still-Waiting m db (k ∷ ks) fresh w = (
    (saved_other k.id m db (ground arith) ∙ w.0.0, w.0.1),
    still-Waiting m db ks (ground arith) w.1,
  )

  left-save :
      (m new : OutboxMessage) (db : Db)
      → new.id ≡ m.id
      → Waiting db m
      → share (is_pending locked max_attempts) (left_of max_attempts) new + 1
        ≤ share (is_pending locked max_attempts) (left_of max_attempts) m
      → attempts_left locked max_attempts (save_message new db) + 1
        ≤ attempts_left locked max_attempts db
  left-save m new db same w fewer = omega (
    arith,
    sum_where-save message_id (is_pending locked max_attempts) (left_of max_attempts) new db.outbox
        {old = m} (ap (λ k. find message_id k db.outbox) same ∙ w.0),
    fewer,
  )

  sent-fewer :
      (now : Timestamp) (m : OutboxMessage)
      → is_pending locked max_attempts m ≡ true
      → share (is_pending locked max_attempts) (left_of max_attempts) (sent now m) + 1
        ≤ share (is_pending locked max_attempts) (left_of max_attempts) m
  unfolding is_pending
  sent-fewer now m e = ground arith

  not_sent-fewer :
      (error : String) (m : OutboxMessage)
      → is_pending locked max_attempts m ≡ true
      → share (is_pending locked max_attempts) (left_of max_attempts) (not_sent error m) + 1
        ≤ share (is_pending locked max_attempts) (left_of max_attempts) m
  unfolding is_pending
  not_sent-fewer error m e = ground arith

  -- A message that was handed to the broker leaves fewer attempts, sent or not.
  pub sent-left :
      (now : Timestamp) (m : OutboxMessage) (db : Db)
      → Waiting db m
      → attempts_left locked max_attempts (save_message (sent now m) db) + 1
        ≤ attempts_left locked max_attempts db
  sent-left now m db w = left-save m (sent now m) db refl w (sent-fewer now m w.1)

  pub not_sent-left :
      (error : String) (m : OutboxMessage) (db : Db)
      → Waiting db m
      → attempts_left locked max_attempts (save_message (not_sent error m) db) + 1
        ≤ attempts_left locked max_attempts db
  not_sent-left error m db w = left-save m (not_sent error m) db refl w (not_sent-fewer error m w.1)
