-- ===== src/Tests/Reporting.antt =====
-- The theorems on listings, comparisons, figures and updates at concrete data.
use runscope.Prelude.{
  ℕ, ◌+◌, ◌≤◌, ◌≡◌, refl, [], ◌∷◌, none, some, Bool, true, false, All, Sorted, length, where_rows,
  order_by, arith,
}
use runscope.Models.{Uuid, pos, running, succeeded, researcher, Run, RunMetric, User, Experiment}
use runscope.Models.Integers.{pos_part}
use runscope.Models.Store.{Db}
use runscope.Tags.{StrMethods}
use runscope.Outbox.{is_pending}
use runscope.Listings.{desc, directed, then_by, listing, by_priority, run_column, list_runs}
use runscope.Listings.Pages.{read_pages, listing-pages}
use runscope.Listings.Contents.{listed_before, list_runs-contents}
use runscope.Health.{Probes, platform_summary, refresh_domain_metrics}
use runscope.Health.Figures.{gauge_sum, platform_summary-bounded, refresh_domain_metrics-agrees}
use runscope.Tests.Sample.{sample, sample_run, sample-IsConsistent}

abbrev reader : User
reader = record { id = 1; email = "r@runscope.dev"; password_hash = ""; role = researcher }

abbrev same_text : StrMethods
same_text = record { strip = λ s. s; lower = λ s. s; len = λ s. 3 }

-- Three runs, two of them finished with a metric.
abbrev metric_row : Uuid → ℕ → RunMetric
metric_row id value = record {
  run_id = id;
  name = "accuracy";
  value = record { numerator = pos value; denominator = 10 };
  step = 1;
}

abbrev finished : Db
finished = record (sample running) {
  runs = sample_run 6 succeeded ∷ sample_run 7 running ∷ sample_run 5 succeeded ∷ [];
  metrics = metric_row 6 7 ∷ metric_row 5 9 ∷ [];
}

abbrev every : Run → Bool
every r = true

abbrev by_id : Run → Run → Bool
by_id = then_by (directed desc (run_column by_priority)) (λ (r : Run). r.id)

listing-pages_example :
    read_pages
      (λ page. listing every by_id finished.runs page 2)
      (listing every by_id finished.runs 1 2).pages
      1
    ≡ order_by by_id (where_rows every finished.runs)
listing-pages_example = listing-pages every by_id finished.runs 2 (omega arith)

list_runs-contents_example :
    let items = (list_runs 1 2 (some 3) (some succeeded) by_priority desc finished).items in
    All (λ r. (r.experiment_id ≡ 3) × (r.status ≡ succeeded)) items
    × Sorted (listed_before by_priority desc) items
list_runs-contents_example =
    list_runs-contents 1 2 (some 3) (some succeeded) by_priority desc finished

platform_summary-bounded_example :
    let s = platform_summary (sample running) in
    (s.available_cpu ≤ s.total_cpu)
    × (s.available_memory_mb ≤ s.total_memory_mb)
    × (s.workers_online ≤ s.workers_total)
    × (pos_part s.success_rate.numerator ≤ s.success_rate.denominator)
    × (s.active_runs + s.queued_runs + s.failed_runs + s.successful_runs
        ≤ length (sample running).runs)
platform_summary-bounded_example =
    platform_summary-bounded (sample running) (sample-IsConsistent running refl)

refresh_domain_metrics-agrees_example :
    let m = refresh_domain_metrics 10 finished in
    let s = platform_summary finished in
    (gauge_sum m.runs_by_status ≡ length finished.runs)
    × (m.queue_depth ≡ s.queue_depth)
    × (m.workers_online ≡ s.workers_online)
    × (m.worker_cpu_available ≡ s.available_cpu)
    × (m.outbox_backlog ≡ length (where_rows (is_pending (λ _. false) 10) finished.outbox))
    × (m.outbox_backlog ≤ s.unpublished_messages)
refresh_domain_metrics-agrees_example = refresh_domain_metrics-agrees 10 finished

-- The scheduler's heartbeat is absent.
abbrev probes : Probes
probes = record {
  postgresql = some 3;
  redis = some 1;
  redpanda = some 40;
  minio = some 12;
  scheduler = none;
}

abbrev chosen : Experiment
chosen = record {
  id = 3;
  project_id = 2;
  name = "E";
  description = "";
  tags = some [];
  created_by = 1;
  created_at = 95;
  updated_at = 95;
}
