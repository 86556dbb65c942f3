-- ===== src/Health/Figures.antt =====
-- api/health.py and metrics.py: the figures agree with each other and with the platform.
use runscope.Prelude.{
  ℕ, ◌+◌, ◌≤◌, ◌≡◌, refl, subst, List, [], ◌∷◌, map, some, Bool, true, false, length, where_rows,
  sum_where, count_where, rows-found, All, All-map, arith,
}
use runscope.Models.{
  RunStatus, queued, scheduling, running, succeeded, failed, cancelling, cancelled, Run, Worker,
  OutboxMessage,
}
use runscope.Models.Integers.{pos_part}
use runscope.Models.Store.{Db}
use runscope.Platform.{IsConsistent, Accounted}
use runscope.Outbox.{is_pending}
use runscope.Health.{
  rate, count_in, online_worker, platform_summary, refresh_domain_metrics, run_statuses,
}

module _ {A : Type 0} where
  -- A narrower condition selects no more.
  count_where-le :
      (p q : A → Bool) (xs : List A)
      → ((x : A) → p x ≡ true → q x ≡ true)
      → count_where p xs ≤ count_where q xs
  unfolding sum_where
  count_where-le p q [] f = omega arith
  count_where-le p q (x ∷ xs) f = ground (arith, f x, count_where-le p q xs f)

  count_where-length : (p : A → Bool) (xs : List A) → count_where p xs ≡ length (where_rows p xs)
  unfolding sum_where where_rows
  count_where-length p [] = refl
  count_where-length p (x ∷ xs) = ground (arith, count_where-length p xs)

  count_where-rows : (p : A → Bool) (xs : List A) → count_where p xs ≤ length xs
  unfolding sum_where
  count_where-rows p [] = omega arith
  count_where-rows p (x ∷ xs) = ground (arith, count_where-rows p xs)

abbrev pub gauge_sum : List (RunStatus × ℕ) → ℕ
gauge_sum [] = 0
gauge_sum ((status, n) ∷ rest) = n + gauge_sum rest

-- Every run has one of the nine statuses.
gauges :
    (runs : List Run)
    → gauge_sum (map (λ s. (s, count_in (s ∷ []) runs)) run_statuses) ≡ length runs
unfolding sum_where
gauges [] = refl
gauges (r ∷ rs) = ground (arith, gauges rs)

sum_where-le :
    {A : Type 0} (p : A → Bool) (f g : A → ℕ) (xs : List A)
    → All (λ x. f x ≤ g x) xs
    → sum_where p f xs ≤ sum_where p g xs
unfolding sum_where
sum_where-le p f g [] h = omega arith
sum_where-le p f g (x ∷ xs) h = ground (arith, h.0, sum_where-le p f g xs h.1)

-- What is free on a worker is at most what it has.
free_bounded :
    (db : Db)
    → IsConsistent db
    → All
        (λ (w : Worker).
          (w.available_cpu ≤ w.total_cpu) × (w.available_memory_mb ≤ w.total_memory_mb))
        db.workers
free_bounded db h =
    All-map _ _ db.workers
      (λ (w : Worker) found.
        bounded w (subst (Accounted db.allocations w.id) found (h.balanced w.id)))
      (rows-found (λ (w : Worker). w.id) db.workers h.unique_workers)
  where
    bounded :
        (w : Worker)
        → Accounted db.allocations w.id (some w)
        → (w.available_cpu ≤ w.total_cpu) × (w.available_memory_mb ≤ w.total_memory_mb)
    bounded w a = (omega (arith, a.0), omega (arith, a.1))

rate_bounded :
    (successful terminal : ℕ)
    → successful ≤ terminal
    → pos_part (rate successful terminal).numerator ≤ (rate successful terminal).denominator
rate_bounded successful terminal h = ground arith

-- The statuses that the summary counts are apart.
counts_apart :
    (runs : List Run)
    → count_in (scheduling ∷ running ∷ cancelling ∷ []) runs
        + count_in (queued ∷ []) runs
        + count_in (failed ∷ []) runs
        + count_in (succeeded ∷ []) runs
      ≤ length runs
unfolding sum_where
counts_apart [] = omega arith
counts_apart (r ∷ rs) = ground (arith, counts_apart rs)

-- On a consistent platform the summary reports no more free CPU and memory than there is, no more
-- workers online than there are, a success rate of at most 1, and active, queued, failed and
-- successful runs that together are no more than the runs.
pub platform_summary-bounded :
    (db : Db)
    → IsConsistent db
    → let s = platform_summary db in
      (s.available_cpu ≤ s.total_cpu)
      × (s.available_memory_mb ≤ s.total_memory_mb)
      × (s.workers_online ≤ s.workers_total)
      × (pos_part s.success_rate.numerator ≤ s.success_rate.denominator)
      × (s.active_runs + s.queued_runs + s.failed_runs + s.successful_runs ≤ length db.runs)
unfolding platform_summary
platform_summary-bounded db h =
    let free = free_bounded db h in
    (
      sum_where-le online_worker (λ w. w.available_cpu) (λ w. w.total_cpu) db.workers
          (All-map _ _ db.workers (λ w k. k.0) free),
      sum_where-le online_worker (λ w. w.available_memory_mb) (λ w. w.total_memory_mb) db.workers
          (All-map _ _ db.workers (λ w k. k.1) free),
      count_where-rows online_worker db.workers,
      rate_bounded (count_in (succeeded ∷ []) db.runs)
          (count_in (succeeded ∷ failed ∷ cancelled ∷ []) db.runs)
          (count_where-le _ _ db.runs λ (r : Run) e. ground arith),
      counts_apart db.runs,
    )

-- The gauges count every run once. The queue depth, the workers online and the free CPU are those of
-- the summary; the backlog counts the messages that a dispatcher without a limit on its
-- batch selects when none is locked, and is at most the number of unpublished messages of the summary.
pub refresh_domain_metrics-agrees :
    (max_attempts : ℕ) (db : Db)
    → let m = refresh_domain_metrics max_attempts db in
      let s = platform_summary db in
      (gauge_sum m.runs_by_status ≡ length db.runs)
      × (m.queue_depth ≡ s.queue_depth)
      × (m.workers_online ≡ s.workers_online)
      × (m.worker_cpu_available ≡ s.available_cpu)
      × (m.outbox_backlog ≡ length (where_rows (is_pending (λ _. false) max_attempts) db.outbox))
      × (m.outbox_backlog ≤ s.unpublished_messages)
unfolding refresh_domain_metrics platform_summary is_pending
refresh_domain_metrics-agrees max_attempts db = (
  gauges db.runs,
  refl,
  refl,
  refl,
  count_where-length _ db.outbox,
  count_where-le _ _ db.outbox λ (m : OutboxMessage) e. ground arith,
)
