-- ===== src/Health.antt =====
-- api/health.py and metrics.py: the state of the platform and of what it depends on, as reported to
-- a signed-in user, to the load balancer and to Prometheus.
pub mod Figures
use text.Mathlib.Text.{◌==◌ as str_eq}
use runscope.Prelude.{
  ℕ, ◌+◌, ◌-◌, String, List, [], ◌∷◌, map, Option, none, some, Bool, true, false, not, ◌&&◌, ◌==◌,
  ltb, leb, is_none, length, where_rows, sum_where, count_where, if◌then◌else◌,
}
use runscope.Models.{
  Timestamp, ℤ, pos, negsuc, RunStatus, draft, queued, scheduling, running, succeeded, failed,
  cancelling, cancelled, retrying, Run, Worker, OutboxMessage, Fraction, status_eq, status_in,
  is_online,
}
use runscope.Models.Integers.{◌-ℤ◌, ◌+ℤ◌}
use runscope.Models.Store.{Db}

-- healthy, or unavailable
pub data ProbeStatus : Type 0 where
  healthy unavailable : ProbeStatus

abbrev pub is_healthy : ProbeStatus → Bool
is_healthy healthy = true
is_healthy unavailable = false

-- How a probe ends: without an exception after some milliseconds, or with one.
abbrev pub timed_probe : Option ℕ → ProbeStatus
timed_probe none = unavailable
timed_probe (some elapsed) = if ltb elapsed 2000 then healthy else unavailable

-- What the probes find, in the order of `dependency_statuses`.
pub record Probes : Type 0 where
  pub postgresql : Option ℕ
  pub redis : Option ℕ
  pub redpanda : Option ℕ
  pub minio : Option ℕ
  pub scheduler : Option ℕ

unfoldable pub dependency_statuses : Probes → List (String × ProbeStatus)
dependency_statuses probes =
    ("api", healthy)
    ∷ ("postgresql", timed_probe probes.postgresql)
    ∷ ("redis", timed_probe probes.redis)
    ∷ ("redpanda", timed_probe probes.redpanda)
    ∷ ("minio", timed_probe probes.minio)
    ∷ ("scheduler", timed_probe probes.scheduler)
    ∷ []

-- statuses[name].status == "healthy"
abbrev pub status_healthy : String → List (String × ProbeStatus) → Bool
status_healthy name [] = false
status_healthy name ((key, status) ∷ rest) =
    let later = status_healthy name rest in if str_eq key name then is_healthy status else later

abbrev pub all_names_healthy : List String → List (String × ProbeStatus) → Bool
all_names_healthy [] statuses = true
all_names_healthy (name ∷ names) statuses =
    status_healthy name statuses && all_names_healthy names statuses

abbrev pub all_healthy : List (String × ProbeStatus) → Bool
all_healthy [] = true
all_healthy ((name, status) ∷ rest) = is_healthy status && all_healthy rest

-- Whether the answer is "ready", and its status code.
unfoldable pub readiness : Probes → Bool × ℕ
unfolding dependency_statuses
readiness probes =
    let ready =
      all_names_healthy ("postgresql" ∷ "redis" ∷ "redpanda" ∷ "minio" ∷ [])
        (dependency_statuses probes) in
    (ready, if ready then 200 else 503)

-- Whether the overall status is "healthy", not "degraded".
unfoldable pub dependency_health : Probes → Bool
unfolding dependency_statuses
dependency_health probes = all_healthy (dependency_statuses probes)

abbrev pub duration : Option Timestamp → Option Timestamp → List ℤ → List ℤ
duration (some started_at) (some completed_at) rest = (completed_at -ℤ started_at) ∷ rest
duration _ _ rest = rest

unfoldable pub durations : List Run → List ℤ
durations [] = []
durations (r ∷ rs) = duration r.started_at r.completed_at (durations rs)

unfoldable pub sum_ℤ : List ℤ → ℤ
sum_ℤ [] = pos 0
sum_ℤ (x ∷ xs) = x +ℤ sum_ℤ xs

abbrev pub average : List ℤ → Option Fraction
average [] = none
average (x ∷ xs) = some (record { numerator = sum_ℤ (x ∷ xs); denominator = length (x ∷ xs) })

pub record PlatformSummaryResponse : Type 0 where
  pub active_runs : ℕ
  pub queued_runs : ℕ
  pub failed_runs : ℕ
  pub successful_runs : ℕ
  pub success_rate : Fraction
  pub average_duration_seconds : Option Fraction
  pub workers_online : ℕ
  pub workers_total : ℕ
  pub available_cpu : ℕ
  pub total_cpu : ℕ
  pub available_memory_mb : ℕ
  pub total_memory_mb : ℕ
  pub queue_depth : ℕ
  pub unpublished_messages : ℕ

abbrev pub count_in : List RunStatus → List Run → ℕ
count_in statuses = count_where (λ (r : Run). status_in r.status statuses)

abbrev pub online_worker : Worker → Bool
online_worker w = is_online w.status

-- successful / len(terminal) if terminal else 0
abbrev pub rate : ℕ → ℕ → Fraction
rate successful terminal =
    if terminal == 0
    then record { numerator = pos 0; denominator = 1 }
    else record { numerator = pos successful; denominator = terminal }

unfoldable pub platform_summary : Db → PlatformSummaryResponse
unfolding durations
platform_summary db =
    let successful = count_in (succeeded ∷ []) db.runs in
    let terminal = count_in (succeeded ∷ failed ∷ cancelled ∷ []) db.runs in
    let waiting = count_in (queued ∷ []) db.runs in
    record {
      active_runs = count_in (scheduling ∷ running ∷ cancelling ∷ []) db.runs;
      queued_runs = waiting;
      failed_runs = count_in (failed ∷ []) db.runs;
      successful_runs = successful;
      success_rate = rate successful terminal;
      average_duration_seconds = average (durations db.runs);
      workers_online = count_where online_worker db.workers;
      workers_total = length db.workers;
      available_cpu = sum_where online_worker (λ w. w.available_cpu) db.workers;
      total_cpu = sum_where online_worker (λ w. w.total_cpu) db.workers;
      available_memory_mb = sum_where online_worker (λ w. w.available_memory_mb) db.workers;
      total_memory_mb = sum_where online_worker (λ w. w.total_memory_mb) db.workers;
      queue_depth = waiting;
      unpublished_messages = count_where (λ (m : OutboxMessage). is_none m.published_at) db.outbox;
    }

-- The gauges of metrics.py.
pub record DomainMetrics : Type 0 where
  pub runs_by_status : List (RunStatus × ℕ)
  pub queue_depth : ℕ
  pub workers_online : ℕ
  pub worker_cpu_available : ℕ
  pub outbox_backlog : ℕ

abbrev pub run_statuses : List RunStatus
run_statuses =
    draft ∷ queued ∷ scheduling ∷ running ∷ succeeded ∷ failed ∷ cancelling ∷ cancelled ∷ retrying
    ∷ []

-- A status that no row has is not in the result of GROUP BY, and counts 0.
unfoldable pub refresh_domain_metrics : ℕ → Db → DomainMetrics
refresh_domain_metrics max_outbox_attempts db =
    let count = λ (s : RunStatus). count_in (s ∷ []) db.runs in
    record {
      runs_by_status = map (λ s. (s, count s)) run_statuses;
      queue_depth = count queued;
      workers_online = count_where online_worker db.workers;
      worker_cpu_available = sum_where online_worker (λ w. w.available_cpu) db.workers;
      outbox_backlog =
          count_where
            (λ (m : OutboxMessage).
              is_none m.published_at && ltb m.publish_attempts max_outbox_attempts)
            db.outbox;
    }
