-- ===== src/Comparison.antt =====
-- api/runs.py: `compare_runs`, which needs a signed-in user of any role. The bounds of the request,
-- two to five identifiers, are checked before the handler.
pub mod Best
pub mod Items
use text.Mathlib.Text.{◌==◌ as str_eq}
use runscope.Prelude.{
  ℕ, ◌+◌, ◌*◌, String, List, [], ◌∷◌, ◌++◌, map, Option, none, some, Bool, true, false, not, ◌||◌,
  ◌==◌, ltb, leb, key_in, length, where_rows, order_by, if◌then◌else◌,
}
use runscope.Models.{Uuid, Dict, succeeded, Run, RunMetric, Fraction, status_eq}
use runscope.Models.Integers.{pos_part, neg_part}
use runscope.Models.Store.{Db, Result, ok, app}
use runscope.Execution.{run_parameters}
use runscope.Tags.{from_keys}
use runscope.Commands.{update}

abbrev pub Metrics : Type 0
Metrics = List (String × Fraction)

pub record RunComparisonItem : Type 0 where
  pub run : Run
  pub parameters : Dict
  pub metrics : Metrics

pub record RunCompareResponse : Type 0 where
  pub items : List RunComparisonItem
  pub best_by_metric : List (String × Uuid)

-- set(run_ids)
abbrev pub distinct : List Uuid → List Uuid
distinct [] = []
distinct (id ∷ ids) = let rest = distinct ids in if key_in id rest then rest else id ∷ rest

-- run_ids.index(id)
abbrev pub index : List Uuid → Uuid → ℕ
index [] id = 0
index (i ∷ ids) id = let rest = index ids id in if i == id then 0 else rest + 1

-- metrics[metric.name] = metric.value
abbrev pub put : String → Fraction → Metrics → Metrics
put name value [] = (name, value) ∷ []
put name value ((key, old) ∷ rest) =
    let later = put name value rest in
    if str_eq key name then (key, value) ∷ rest else (key, old) ∷ later

unfoldable pub put_all : List RunMetric → Metrics → Metrics
put_all [] metrics = metrics
put_all (m ∷ ms) metrics = put_all ms (put m.name m.value metrics)

abbrev pub run_metrics : Uuid → Db → List RunMetric
run_metrics run_id db =
    order_by (λ (a b : RunMetric). leb a.step b.step)
      (where_rows (λ (m : RunMetric). m.run_id == run_id) db.metrics)

unfoldable pub comparison_item : Db → Run → RunComparisonItem
unfolding put_all
comparison_item db run = record {
  run = run;
  parameters = update [] (run_parameters run.id db);
  metrics = put_all (run_metrics run.id db) [];
}

-- The order of fractions with positive denominators.
abbrev pub fraction_lt : Fraction → Fraction → Bool
fraction_lt a b =
    ltb (pos_part a.numerator * b.denominator + neg_part b.numerator * a.denominator)
      (pos_part b.numerator * a.denominator + neg_part a.numerator * b.denominator)

abbrev pub metric : String → Metrics → Option Fraction
metric name [] = none
metric name ((key, value) ∷ rest) =
    let later = metric name rest in if str_eq key name then some value else later

-- The runs that have the metric, with its value.
abbrev pub with_score : Uuid → Option Fraction → List (Uuid × Fraction) → List (Uuid × Fraction)
with_score id none rest = rest
with_score id (some value) rest = (id, value) ∷ rest

unfoldable pub scores : String → List RunComparisonItem → List (Uuid × Fraction)
scores name [] = []
scores name (item ∷ items) = with_score item.run.id (metric name item.metrics) (scores name items)

-- max(..., key=...): the first of the greatest.
unfoldable pub greatest : Uuid × Fraction → List (Uuid × Fraction) → Uuid × Fraction
greatest best [] = best
greatest best (s ∷ rest) =
    let replaced = greatest s rest in
    let kept = greatest best rest in if fraction_lt best.1 s.1 then replaced else kept

abbrev pub best_of : String → List (Uuid × Fraction) → List (String × Uuid)
best_of name [] = []
best_of name (s ∷ rest) = (name, (greatest s rest).0) ∷ []

abbrev pub item_names : List RunComparisonItem → List String
item_names [] = []
item_names (item ∷ items) = map (λ (name, value). name) item.metrics ++ item_names items

unfoldable pub best_for : List RunComparisonItem → List String → List (String × Uuid)
unfolding scores greatest
best_for items [] = []
best_for items (name ∷ names) = best_of name (scores name items) ++ best_for items names

abbrev pub any_unfinished : List Run → Bool
any_unfinished [] = false
any_unfinished (r ∷ rs) = not (status_eq r.status succeeded) || any_unfinished rs

abbrev pub index_before : List Uuid → Run → Run → Bool
index_before ids a b = leb (index ids a.id) (index ids b.id)

unfoldable pub compared : List Uuid → List Run → Db → RunCompareResponse
unfolding comparison_item best_for
compared run_ids runs db =
    let items = map (comparison_item db) (order_by (index_before run_ids) runs) in
    record { items = items; best_by_metric = best_for items (from_keys [] (item_names items)) }

unfoldable pub compare_runs : List Uuid → Db → Result RunCompareResponse
unfolding compared
compare_runs run_ids db =
    let runs = where_rows (λ (r : Run). key_in r.id run_ids) db.runs in
    if not (length (distinct run_ids) == length run_ids)
    then app "duplicate_run_ids" 422
    else if not (length runs == length run_ids)
    then app "run_not_found" 404
    else if any_unfinished runs
    then app "runs_not_comparable" 409
    else ok (compared run_ids runs db)
