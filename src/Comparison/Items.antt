-- ===== src/Comparison/Items.antt =====
-- api/runs.py: what a comparison that is answered holds.
use text.Mathlib.Text.{◌==◌ as str_eq}
use runscope.Prelude.{◌≡◌, Unique, String, List, map, true, ◌==◌, key_in, All, Sorted}
use runscope.Models.{Uuid, succeeded, Fraction}
use runscope.Models.Store.{Result, ok, err}
use runscope.Comparison.{Metrics, RunComparisonItem, RunCompareResponse, index_before, scores}
use runscope.Comparison.Best.{Positive, Among, Dominates}

-- The run has a value of the metric that no run's value is greater than.
abbrev pub IsBest : List RunComparisonItem → String × Uuid → Type 0
IsBest items (name, id) =
    (value : Fraction) × Among (id, value) (scores name items) × Dominates value (scores name items)

pub record Compared (run_ids : List Uuid) (response : RunCompareResponse) : Type 0 where
  pub all_there : All (λ id. key_in id (map (λ item. item.run.id) response.items) ≡ true) run_ids
  pub once : Unique (map (λ item. item.run.id) response.items)
  pub requested :
      All
        (λ item. (key_in item.run.id run_ids ≡ true) × (item.run.status ≡ succeeded))
        response.items
  pub in_order : Sorted (λ a b. index_before run_ids a.run b.run) response.items
  pub best : All (IsBest response.items) response.best_by_metric

abbrev pub PositiveMetrics : Metrics → Type 0
PositiveMetrics = All λ m. Positive m.1

-- What is said of an answer, where there is one.
abbrev pub Answered : {A : Type 0} → (A → Type 0) → Result A → Type 0
Answered P (ok a) = P a
Answered P (err e) = Unit
