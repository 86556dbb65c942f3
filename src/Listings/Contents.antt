-- ===== src/Listings/Contents.antt =====
-- api/runs.py: what a page of runs holds, in which order.
use runscope.Prelude.{
  selected-All, ℕ, zero, suc, ◌-◌, ◌*◌, ◌≡◌, List, [], ◌∷◌, Option, Bool, true, All, All-take,
  All-order_by, where_rows, order_by, drop, Sorted, IsOrder, order_by-Sorted, take-Sorted, arith,
  All-map, Sorted-map, none, some, ◌&&◌, ◌||◌, ◌==◌, ltb, leb, not,
}
use runscope.Models.{Uuid, RunStatus, Run, status_eq, status_rank}
use runscope.Models.Integers.{ltb_ℤ}
use runscope.Models.Store.{Db}
use runscope.Listings.{
  Direction, asc, desc, directed, then_by, listing, RunSort, by_created_at, by_priority, by_status,
  run_column, run_filters, list_runs,
}

module _ {A : Type 0} where
  All-drop : (P : A → Type 0) (n : ℕ) (xs : List A) → All P xs → All P (drop n xs)
  unfolding drop
  All-drop P zero xs h = h
  All-drop P (suc n) [] h = h
  All-drop P (suc n) (x ∷ xs) h = All-drop P n xs h.1

  drop-Sorted :
      (before : A → A → Bool) (n : ℕ) (xs : List A) → Sorted before xs → Sorted before (drop n xs)
  unfolding drop
  drop-Sorted before zero xs h = h
  drop-Sorted before (suc n) [] h = h
  drop-Sorted before (suc n) (x ∷ xs) h = drop-Sorted before n xs h.1

  directed-IsOrder : (d : Direction) (le : A → A → Bool) → IsOrder le → IsOrder (directed d le)
  directed-IsOrder asc le o = o
  directed-IsOrder desc le o = record {
    total = λ a b h. o.total b a h;
    transitive = λ a b c h k. o.transitive c b a k h;
  }

  -- The identifier decides between rows that the column does not order.
  then_by-IsOrder : (le : A → A → Bool) (id : A → Uuid) → IsOrder le → IsOrder (then_by le id)
  then_by-IsOrder le id o = record {
    total = λ a b h. ground (arith, o.total a b);
    transitive =
        λ a b c h k. ground (arith, o.transitive a b c, o.transitive b c a, o.transitive c a b);
  }

  -- A page of a listing holds accepted rows only, in order.
  pub listing-contents :
      (filters : A → Bool) (before : A → A → Bool) (rows : List A) (page page_size : ℕ)
      → IsOrder before
      → let items = (listing filters before rows page page_size).items in
        All (λ x. filters x ≡ true) items × Sorted before items
  unfolding listing
  listing-contents filters before rows page page_size o =
      let sorted = order_by before (where_rows filters rows) in
      let offset = (page - 1) * page_size in
      (
        All-take _ page_size (drop offset sorted) (
            All-drop _ offset sorted
              (All-order_by _ before (where_rows filters rows) (selected-All filters rows))),
        take-Sorted before o page_size (drop offset sorted)
            (drop-Sorted before offset sorted (order_by-Sorted before o (where_rows filters rows))),
      )

run_column-IsOrder : (sort : RunSort) → IsOrder (run_column sort)
run_column-IsOrder by_created_at = record {
  total = λ a b h. ground arith;
  transitive = λ a b c h k. ground arith;
}
run_column-IsOrder by_priority = record {
  total = λ a b h. ground arith;
  transitive = λ a b c h k. ground arith;
}
run_column-IsOrder by_status = record {
  total = λ a b h. ground arith;
  transitive = λ a b c h k. ground arith;
}

-- What the request asks of a run where it names an experiment and a status.
abbrev pub InExperiment : Option Uuid → Run → Type 0
InExperiment none r = Unit
InExperiment (some id) r = r.experiment_id ≡ id

abbrev pub HasStatus : Option RunStatus → Run → Type 0
HasStatus none r = Unit
HasStatus (some s) r = r.status ≡ s

-- One run comes before another by what the request sorts by, and by identifier where that is equal.
abbrev pub listed_before : RunSort → Direction → Run → Run → Bool
listed_before by_created_at asc a b =
    ltb a.created_at b.created_at || (a.created_at == b.created_at && leb a.id b.id)
listed_before by_created_at desc a b =
    ltb b.created_at a.created_at || (a.created_at == b.created_at && leb a.id b.id)
listed_before by_priority asc a b =
    ltb_ℤ a.priority b.priority || (not (ltb_ℤ b.priority a.priority) && leb a.id b.id)
listed_before by_priority desc a b =
    ltb_ℤ b.priority a.priority || (not (ltb_ℤ a.priority b.priority) && leb a.id b.id)
listed_before by_status asc a b =
    ltb (status_rank a.status) (status_rank b.status)
    || (status_eq a.status b.status && leb a.id b.id)
listed_before by_status desc a b =
    ltb (status_rank b.status) (status_rank a.status)
    || (status_eq a.status b.status && leb a.id b.id)

listed :
    (sort : RunSort) (direction : Direction) (a b : Run)
    → then_by (directed direction (run_column sort)) (λ (r : Run). r.id) a b ≡ true
    → listed_before sort direction a b ≡ true
listed by_created_at asc a b h = ground arith
listed by_created_at desc a b h = ground arith
listed by_priority asc a b h = ground arith
listed by_priority desc a b h = ground arith
listed by_status asc a b h = ground arith
listed by_status desc a b h = ground arith

status_of_rank : (a b : RunStatus) → status_eq a b ≡ true → a ≡ b
status_of_rank a b h = ground arith

of_experiment :
    (experiment_id : Option Uuid) (wanted : Option RunStatus) (r : Run)
    → run_filters experiment_id wanted r ≡ true
    → InExperiment experiment_id r × HasStatus wanted r
of_experiment none none r h = (tt, tt)
of_experiment none (some s) r h = (tt, status_of_rank r.status s (ground arith))
of_experiment (some id) none r h = (ground arith, tt)
of_experiment (some id) (some s) r h = (ground arith, status_of_rank r.status s (ground arith))

-- Every page of the listing of runs holds only runs of the experiment and with the status asked for,
-- where they were given. They are sorted by the time they were created, by priority or by the place
-- of their status among the statuses, as was asked, upwards or downwards, and by identifier, upwards,
-- where that is equal.
pub list_runs-contents :
    (page page_size : ℕ) (experiment_id : Option Uuid) (wanted : Option RunStatus) (sort : RunSort)
    (direction : Direction) (db : Db)
    → let items = (list_runs page page_size experiment_id wanted sort direction db).items in
      All (λ r. InExperiment experiment_id r × HasStatus wanted r) items
      × Sorted (listed_before sort direction) items
unfolding list_runs
list_runs-contents page page_size experiment_id wanted sort direction db =
    let contents = listing-contents (run_filters experiment_id wanted) _ db.runs page page_size (
      then_by-IsOrder (directed direction (run_column sort)) (λ (r : Run). r.id)
        (directed-IsOrder direction (run_column sort) (run_column-IsOrder sort))) in
    (
      All-map _ _ _ (of_experiment experiment_id wanted) contents.0,
      Sorted-map _ (listed_before sort direction) _ (listed sort direction) contents.1,
    )
