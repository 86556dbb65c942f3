-- ===== src/Tests/Sample.antt =====
-- A small platform: one worker, one queued run and one run that executes.
use runscope.Prelude.{
  ℕ, ◌≡◌, refl, String, List, [], ◌∷◌, none, some, Bool, true, false, find, sum_where, arith,
}
use runscope.Models.{
  Uuid, negsuc, queued, running, scheduling, cancelling, status_in, researcher, online, Run,
  RunStatus, Worker, ResourceAllocation, TrainingTemplate,
}
use runscope.Models.Store.{Db, Settings}
use runscope.Platform.{IsConsistent}
use runscope.Scheduler.{Locks}
use runscope.Templates.{External, slow, SlowDemoParameters, stored}

abbrev pub sample_run : Uuid → RunStatus → Run
sample_run id status = record {
  id = id;
  experiment_id = 3;
  template_id = 5;
  status = status;
  priority = negsuc 0;
  requested_cpu = 10;
  requested_memory_mb = 512;
  assigned_worker_id = none;
  attempt_number = 1;
  parent_run_id = none;
  created_by = 1;
  created_at = 100;
  queued_at = some 100;
  started_at = none;
  completed_at = none;
  failure_code = none;
  failure_message = none;
  notes = "";
  tags = [];
  version = 1;
}

abbrev pub sample_worker : Worker
sample_worker = record {
  id = 4;
  name = "worker-local-1";
  status = online;
  total_cpu = 40;
  available_cpu = 30;
  total_memory_mb = 8192;
  available_memory_mb = 7680;
  current_run_count = 1;
  last_heartbeat_at = 195;
}

abbrev pub sample_allocation : ResourceAllocation
sample_allocation = record {
  id = 8;
  run_id = 7;
  worker_id = 4;
  cpu = 10;
  memory_mb = 512;
  lease_token = 9;
  lease_expires_at = 225;
  released_at = none;
}

abbrev pub slow_template : TrainingTemplate
slow_template = record {
  id = 5;
  key = "slow-demonstration";
  name = "Slow progress demonstration";
  description = "";
  version = "1.0.0";
  parameter_schema = [];
  enabled = true;
}

-- Run 6 waits and run 7 is in the given status, with a lease on worker 4.
abbrev pub sample : RunStatus → Db
sample status = record {
  users = record { id = 1; email = "r@runscope.dev"; password_hash = ""; role = researcher } ∷ [];
  projects =
      record {
        id = 2;
        name = "P";
        description = "";
        created_by = 1;
        created_at = 90;
        updated_at = 90;
      }
      ∷ [];
  experiments =
      record {
        id = 3;
        project_id = 2;
        name = "E";
        description = "";
        tags = some [];
        created_by = 1;
        created_at = 95;
        updated_at = 95;
      }
      ∷ [];
  templates = slow_template ∷ [];
  runs = sample_run 6 queued ∷ sample_run 7 status ∷ [];
  parameters = [];
  metrics = [];
  logs = [];
  artifacts = [];
  events = [];
  workers = sample_worker ∷ [];
  allocations = sample_allocation ∷ [];
  outbox = [];
  processed = [];
  next_id = 10;
}

pub sample-IsConsistent :
    (status : RunStatus)
    → status_in status (scheduling ∷ running ∷ cancelling ∷ []) ≡ true
    → IsConsistent (sample status)
unfolding find sum_where
sample-IsConsistent status h = record {
  leased = λ j. ground arith;
  balanced = λ j. ground arith;
  unique_runs = (refl, (refl, tt));
  unique_workers = (refl, tt);
  fresh_runs = λ j q. ground arith;
  fresh_workers = λ j q. ground arith;
}

abbrev pub settings : Settings
settings = record {
  broker_topic = "runscope.events.v1";
  jwt_secret = "secret";
  jwt_issuer = "runscope";
  access_token_minutes = 30;
  allocation_lease_seconds = 30;
  worker_stale_seconds = 15;
}

abbrev pub no_locks : Locks
no_locks = record { run = λ _. false; worker = λ _. false; allocation = λ _. false }

abbrev pub slow_parameters : SlowDemoParameters
slow_parameters = record { duration_seconds = 8; interval_seconds = 4; fail_intentionally = false }

abbrev pub external : External
external = record {
  model_validate = λ m values. some (slow slow_parameters, values);
  execute = λ v. none;
  put = λ key content mime. stored;
  sha256 = λ content. "";
}

abbrev pub encode : ℕ → List ℕ
encode n = n ∷ []

abbrev pub same_names : String → String → Bool
same_names a b = true
