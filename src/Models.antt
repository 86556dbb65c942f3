-- ===== src/Models.antt =====
-- models.py and packages/contracts/runscope_contracts/events.py: the rows of the database.
-- Identifiers (`Uuid`) and times are natural numbers; CPU shares are whole multiples of a unit.
pub mod Store
pub mod Integers
use runscope.Prelude.{ℕ, String, List, [], ◌∷◌, Option, Bool, true, false, ◌||◌, ◌==◌}

abbrev pub Uuid : Type 0
Uuid = ℕ

abbrev pub Timestamp : Type 0
Timestamp = ℕ

-- A priority may be negative: `negsuc n` is -(n + 1).
pub data ℤ : Type 0 where
  pos negsuc : ℕ → ℤ

-- What the dictionaries of events and parameters hold.
pub data Json : Type 0 where
  uuid : Uuid → Json
  number : ℕ → Json
  integer : ℤ → Json
  text : String → Json
  flag : Bool → Json

abbrev pub Dict : Type 0
Dict = List (String × Json)

-- A request's correlation identifier, or f"scheduler-{uuid4()}".
pub data CorrelationId : Type 0 where
  of_request : String → CorrelationId
  of_scheduler : Uuid → CorrelationId

pub data Role : Type 0 where
  viewer researcher administrator : Role

pub data RunStatus : Type 0 where
  draft queued scheduling running succeeded failed cancelling cancelled retrying : RunStatus

pub data WorkerStatus : Type 0 where
  online offline stale : WorkerStatus

pub record User : Type 0 where
  pub id : Uuid
  pub email : String
  pub password_hash : String
  pub role : Role

pub record Project : Type 0 where
  pub id : Uuid
  pub name : String
  pub description : String
  pub created_by : Uuid
  pub created_at : Timestamp
  pub updated_at : Timestamp

pub record Experiment : Type 0 where
  pub id : Uuid
  pub project_id : Uuid
  pub name : String
  pub description : String
  -- none is the JSON null
  pub tags : Option (List String)
  pub created_by : Uuid
  pub created_at : Timestamp
  pub updated_at : Timestamp

pub record TrainingTemplate : Type 0 where
  pub id : Uuid
  pub key : String
  pub name : String
  pub description : String
  pub version : String
  pub parameter_schema : Dict
  pub enabled : Bool

pub record Run : Type 0 where
  pub id : Uuid
  pub experiment_id : Uuid
  pub template_id : Uuid
  pub status : RunStatus
  pub priority : ℤ
  pub requested_cpu : ℕ
  pub requested_memory_mb : ℕ
  pub assigned_worker_id : Option Uuid
  pub attempt_number : ℕ
  pub parent_run_id : Option Uuid
  pub created_by : Uuid
  pub created_at : Timestamp
  pub queued_at : Option Timestamp
  pub started_at : Option Timestamp
  pub completed_at : Option Timestamp
  pub failure_code : Option String
  pub failure_message : Option String
  pub notes : String
  pub tags : List String
  pub version : ℕ

pub record RunParameter : Type 0 where
  pub run_id : Uuid
  pub name : String
  pub value : Json

-- A float, as an exact fraction.
pub record Fraction : Type 0 where
  pub numerator : ℤ
  pub denominator : ℕ

pub record RunMetric : Type 0 where
  pub run_id : Uuid
  pub name : String
  pub value : Fraction
  pub step : ℕ

pub record RunLog : Type 0 where
  pub run_id : Uuid
  pub sequence_number : ℕ
  pub level : String
  pub message : String

pub record Artifact : Type 0 where
  pub id : Uuid
  pub run_id : Uuid
  pub name : String
  pub storage_key : Uuid × String
  pub mime_type : String
  pub size_bytes : ℕ
  pub checksum : String

pub record RunEvent : Type 0 where
  pub run_id : Uuid
  pub event_type : String
  pub previous_status : Option RunStatus
  pub new_status : Option RunStatus
  pub event_metadata : Dict

pub record Worker : Type 0 where
  pub id : Uuid
  pub name : String
  pub status : WorkerStatus
  pub total_cpu : ℕ
  pub available_cpu : ℕ
  pub total_memory_mb : ℕ
  pub available_memory_mb : ℕ
  pub current_run_count : ℕ
  pub last_heartbeat_at : Timestamp

pub record ResourceAllocation : Type 0 where
  pub id : Uuid
  pub run_id : Uuid
  pub worker_id : Uuid
  pub cpu : ℕ
  pub memory_mb : ℕ
  pub lease_token : Uuid
  pub lease_expires_at : Timestamp
  pub released_at : Option Timestamp

pub record EventEnvelope : Type 0 where
  pub event_id : Uuid
  pub event_version : ℕ
  pub event_type : String
  pub occurred_at : Timestamp
  pub correlation_id : CorrelationId
  pub run_id : Option Uuid
  pub worker_id : Option Uuid
  pub payload : Dict

pub record OutboxMessage : Type 0 where
  pub id : Uuid
  pub topic : String
  pub partition_key : Uuid
  pub envelope : EventEnvelope
  pub created_at : Timestamp
  pub published_at : Option Timestamp
  pub publish_attempts : ℕ
  pub last_error : Option String

pub record ProcessedMessage : Type 0 where
  pub event_id : Uuid
  pub consumer_name : String × Uuid

pub RunStatus-discrete : Discrete RunStatus
RunStatus-discrete = hlevel

-- Python's `==` on statuses.
abbrev pub status_rank : RunStatus → ℕ
status_rank draft = 0
status_rank queued = 1
status_rank scheduling = 2
status_rank running = 3
status_rank succeeded = 4
status_rank failed = 5
status_rank cancelling = 6
status_rank cancelled = 7
status_rank retrying = 8

abbrev pub status_eq : RunStatus → RunStatus → Bool
status_eq a b = status_rank a == status_rank b

-- Python's `in` on a set of statuses.
abbrev pub status_in : RunStatus → List RunStatus → Bool
status_in s [] = false
status_in s (t ∷ ts) = status_eq s t || status_in s ts

abbrev pub is_online : WorkerStatus → Bool
is_online online = true
is_online _ = false
