-- ===== src/Models/Store.antt =====
-- The database behind a SQLAlchemy session (db.py), the errors (errors.py) and the settings
-- (config.py). A transaction either commits a new database with its result, or raises and leaves
-- the database as it was.
pub mod Done
use runscope.Prelude.{
  ℕ, ◌+◌, String, List, [], ◌∷◌, Option, none, some, Bool, false, find, save, ◌==◌, if◌then◌else◌,
}
use runscope.Models.{
  Uuid, User, Project, Experiment, TrainingTemplate, Run, RunParameter, RunMetric, RunLog, Artifact,
  RunEvent, Worker, ResourceAllocation, OutboxMessage, ProcessedMessage,
}

pub record Db : Type 0 where
  pub users : List User
  pub projects : List Project
  pub experiments : List Experiment
  pub templates : List TrainingTemplate
  pub runs : List Run
  pub parameters : List RunParameter
  pub metrics : List RunMetric
  pub logs : List RunLog
  pub artifacts : List Artifact
  pub events : List RunEvent
  pub workers : List Worker
  pub allocations : List ResourceAllocation
  pub outbox : List OutboxMessage
  pub processed : List ProcessedMessage
  pub next_id : Uuid

-- AppError, without its message and details.
pub record AppError : Type 0 where
  pub code : String
  pub status_code : ℕ

-- `stale_data` is what a version-checked UPDATE raises when the row has changed since it was read.
pub data Error : Type 0 where
  app_error : AppError → Error
  runtime_error : String → Error
  key_error : Error
  artifact_storage_error : Error
  stale_data : Error

pub data Result {ℓ} (A : Type ℓ) : Type ℓ where
  ok : A → Result A
  err : Error → Result A

abbrev pub app {ℓ} : {A : Type ℓ} → String → ℕ → Result A
app code status = err (app_error (record { code = code; status_code = status }))

-- A transaction.
abbrev pub Tx : Type 0 → Type 0
Tx A = Db → Result (A × Db)

abbrev pub and_then : {A B : Type 0} → Result (A × Db) → (A → Tx B) → Result (B × Db)
and_then (ok (a, db)) f = f a db
and_then (err e) f = err e

infixl 5 ◌>>=◌ ◌>>◌
abbrev pub ◌>>=◌ : {A B : Type 0} → Tx A → (A → Tx B) → Tx B
◌>>=◌ m f db = and_then (m db) f

abbrev pub ◌>>◌ : {B : Type 0} → Tx (Unit {0}) → Tx B → Tx B
m >> k = m >>= λ _. k

abbrev pub pure : {A : Type 0} → A → Tx A
pure a db = ok (a, db)

abbrev pub raise : {A : Type 0} → String → ℕ → Tx A
raise code status db = app code status

abbrev pub lift : {A : Type 0} → Result A → Tx A
lift (ok a) db = ok (a, db)
lift (err e) db = err e

abbrev pub gets : {A : Type 0} → (Db → A) → Tx A
gets f db = ok (f db, db)

abbrev pub modify : (Db → Db) → Tx (Unit {0})
modify f db = ok (tt, f db)

-- uuid4(): an identifier that was not used before.
abbrev pub uuid4 : Tx Uuid
uuid4 db = ok (db.next_id, record db { next_id = db.next_id + 1 })

-- session.get(Run, id) and session.get(Worker, id)
abbrev pub get_run : Uuid → Db → Option Run
get_run id db = find (λ (r : Run). r.id) id db.runs

abbrev pub get_worker : Uuid → Db → Option Worker
get_worker id db = find (λ (w : Worker). w.id) id db.workers

abbrev pub get_template : Uuid → Db → Option TrainingTemplate
get_template id db = find (λ (t : TrainingTemplate). t.id) id db.templates

-- The UPDATE of a changed row. The mapper counts the versions of a run.
abbrev pub save_run : Run → Db → Db
save_run run db = record db {
  runs = save (λ (r : Run). r.id) (record run { version = run.version + 1 }) db.runs;
}

-- The same with the test of the version, where other transactions may have run since the row was
-- read.
abbrev pub current_version : Run → Option Run → Bool
current_version run none = false
current_version run (some row) = row.version == run.version

unfoldable pub flush_run : Run → Tx Run
flush_run run db =
    if current_version run (get_run run.id db)
    then ok (record run { version = run.version + 1 }, save_run run db)
    else err stale_data

abbrev pub save_worker : Worker → Db → Db
save_worker worker db = record db { workers = save (λ (w : Worker). w.id) worker db.workers }

abbrev pub add_run : Run → Db → Db
add_run run db = record db { runs = run ∷ db.runs }

abbrev pub get_experiment : Uuid → Db → Option Experiment
get_experiment id db = find (λ (e : Experiment). e.id) id db.experiments

abbrev pub get_project : Uuid → Db → Option Project
get_project id db = find (λ (p : Project). p.id) id db.projects

-- The row, or the error where it is missing.
abbrev pub or_raise : {A : Type 0} → Option A → String → ℕ → Result A
or_raise none code status = app code status
or_raise (some a) code status = ok a

abbrev pub add_event : RunEvent → Db → Db
add_event event db = record db { events = event ∷ db.events }

abbrev pub add_message : OutboxMessage → Db → Db
add_message message db = record db { outbox = message ∷ db.outbox }

pub record Settings : Type 0 where
  pub broker_topic : String
  pub allocation_lease_seconds : ℕ
  pub worker_stale_seconds : ℕ
  pub jwt_secret : String
  pub jwt_issuer : String
  pub access_token_minutes : ℕ

-- A `for` loop whose body writes to the session.
unfoldable pub for_each : {A : Type 0} → List A → (A → Tx (Unit {0})) → Tx (Unit {0})
for_each [] body = pure tt
for_each (x ∷ xs) body = body x >> for_each xs body
