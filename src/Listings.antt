-- ===== src/Listings.antt =====
-- The listings of api/runs.py, api/projects.py, api/experiments.py and api/workers.py, with the page
-- of schemas/common.py. They need a signed-in user of any role. The collation of texts, lower() and
-- LIKE of the database are parameters.
pub mod Pages
pub mod Contents
use text.Mathlib.Text.{◌==◌ as str_eq}
use runscope.Prelude.{
  ℕ, ◌+◌, ◌-◌, ◌*◌, ◌/◌, String, ◌<>◌, List, Option, none, some, Bool, true, false, not, ◌&&◌, ◌||◌,
  ◌==◌, leb, length, where_rows, order_by, take, drop, first_row, if◌then◌else◌,
}
use runscope.Models.{
  Uuid, RunStatus, Project, Experiment, Run, RunParameter, RunLog, TrainingTemplate, Worker,
  WorkerStatus, online, offline, stale, status_eq, status_rank,
}
use runscope.Models.Integers.{ltb_ℤ}
use runscope.Models.Store.{Db, Result, or_raise, ok, err, ◌>>=◌, Tx, gets, lift, pure, get_run}
use runscope.Tags.{StrMethods}

pub record Page (A : Type 0) : Type 0 where
  pub items : List A
  pub page : ℕ
  pub page_size : ℕ
  pub total : ℕ
  pub pages : ℕ

pub data Direction : Type 0 where
  asc desc : Direction

-- order_by(asc(column), Table.id) or order_by(desc(column), Table.id), for a column that `le` orders
abbrev pub directed : {A : Type 0} → Direction → (A → A → Bool) → A → A → Bool
directed asc le a b = le a b
directed desc le a b = le b a

abbrev pub then_by : {A : Type 0} → (A → A → Bool) → (A → Uuid) → A → A → Bool
then_by le id a b = if le a b then (if le b a then leb (id a) (id b) else true) else false

-- math.ceil(total / page_size) if total else 0
unfoldable pub page_count : ℕ → ℕ → ℕ
page_count total page_size = if total == 0 then 0 else (total + page_size - 1) / page_size

-- What the three listings share: the filtered table, its order, OFFSET and LIMIT.
unfoldable pub listing : {A : Type 0} → (A → Bool) → (A → A → Bool) → List A → ℕ → ℕ → Page A
unfolding page_count
listing filters before rows page page_size =
    let total = length (where_rows filters rows) in
    record {
      items =
          take page_size
            (drop ((page - 1) * page_size) (order_by before (where_rows filters rows)));
      page = page;
      page_size = page_size;
      total = total;
      pages = page_count total page_size;
    }

-- A filter that is left out where the request does not name it.
abbrev pub given_filter : {A B : Type 0} → (B → A → Bool) → Option B → A → Bool
given_filter p none a = true
given_filter p (some b) a = p b a

pub data RunSort : Type 0 where
  by_created_at by_priority by_status : RunSort

abbrev pub run_column : RunSort → Run → Run → Bool
run_column by_created_at a b = leb a.created_at b.created_at
run_column by_priority a b = not (ltb_ℤ b.priority a.priority)
run_column by_status a b = leb (status_rank a.status) (status_rank b.status)

abbrev pub run_filters : Option Uuid → Option RunStatus → Run → Bool
run_filters experiment_id wanted r =
    given_filter (λ id (r : Run). r.experiment_id == id) experiment_id r
    && given_filter (λ s (r : Run). status_eq r.status s) wanted r

unfoldable pub list_runs :
    ℕ → ℕ → Option Uuid → Option RunStatus → RunSort → Direction → Db → Page Run
unfolding listing
list_runs page page_size experiment_id wanted sort direction db =
    listing (run_filters experiment_id wanted)
      (then_by (directed direction (run_column sort)) (λ (r : Run). r.id)) db.runs page page_size

pub data Column : Type 0 where
  name_column created_column updated_column : Column

module _ (str : StrMethods) (sql_lower : String → String)
    (like name_le : String → String → Bool) where
  open str use {strip, lower}

  -- if search: ... like(f"%{search.strip().lower()}%")
  abbrev pub searched : {A : Type 0} → (A → String) → (A → String) → Option String → A → Bool
  searched name description none a = true
  searched name description (some wanted) a =
      if str_eq wanted ""
      then true
      else let pattern = "%" <> (lower (strip wanted) <> "%") in
        like (sql_lower (name a)) pattern || like (sql_lower (description a)) pattern

  abbrev pub project_column : Column → Project → Project → Bool
  project_column name_column a b = name_le a.name b.name
  project_column created_column a b = leb a.created_at b.created_at
  project_column updated_column a b = leb a.updated_at b.updated_at

  unfoldable pub list_projects : ℕ → ℕ → Option String → Column → Direction → Db → Page Project
  unfolding listing
  list_projects page page_size wanted sort direction db =
      listing (searched (λ (p : Project). p.name) (λ (p : Project). p.description) wanted)
        (then_by (directed direction (project_column sort)) (λ (p : Project). p.id)) db.projects
        page page_size

  abbrev pub experiment_column : Column → Experiment → Experiment → Bool
  experiment_column name_column a b = name_le a.name b.name
  experiment_column created_column a b = leb a.created_at b.created_at
  experiment_column updated_column a b = leb a.updated_at b.updated_at

  -- cast(Experiment.tags, String) is `json_text`
  module _ (json_text : Option (List String) → String) where
    abbrev pub tagged : Option String → Experiment → Bool
    tagged none e = true
    tagged (some tag) e =
        if str_eq tag ""
        then true
        else like (json_text e.tags) ("%\"" <> (lower (strip tag) <> "\"%"))

    abbrev pub experiment_filters : Option String → Option Uuid → Option String → Experiment → Bool
    experiment_filters wanted project_id tag e =
        searched (λ (e : Experiment). e.name) (λ (e : Experiment). e.description) wanted e
        && (given_filter (λ id (e : Experiment). e.project_id == id) project_id e && tagged tag e)

    unfoldable pub list_experiments :
        ℕ
        → ℕ
        → Option String
        → Option Uuid
        → Option String
        → Column
        → Direction
        → Db
        → Page Experiment
    unfolding listing
    list_experiments page page_size wanted project_id tag sort direction db =
        listing (experiment_filters wanted project_id tag)
          (then_by (directed direction (experiment_column sort)) (λ (e : Experiment). e.id))
          db.experiments page page_size

  -- order_by(TrainingTemplate.name, TrainingTemplate.version.desc())
  abbrev pub template_before : TrainingTemplate → TrainingTemplate → Bool
  template_before a b =
      if name_le a.name b.name
      then (if name_le b.name a.name then name_le b.version a.version else true)
      else false

  unfoldable pub list_templates : Db → List TrainingTemplate
  list_templates db =
      order_by template_before (where_rows (λ (t : TrainingTemplate). t.enabled) db.templates)

  -- order_by(Worker.status, Worker.name), the statuses in the order of the database's type
  abbrev pub worker_rank : WorkerStatus → ℕ
  worker_rank online = 0
  worker_rank offline = 1
  worker_rank stale = 2

  abbrev pub worker_listed_before : Worker → Worker → Bool
  worker_listed_before a b =
      if leb (worker_rank a.status) (worker_rank b.status)
      then (if leb (worker_rank b.status) (worker_rank a.status)
          then name_le a.name b.name
          else true)
      else false

  unfoldable pub list_workers : Db → List Worker
  list_workers db = order_by worker_listed_before db.workers

  unfoldable pub list_parameters : Uuid → Tx (List RunParameter)
  list_parameters run_id = do
    found ← gets (get_run run_id)
    _ ← lift (or_raise found "run_not_found" 404)
    gets (λ db.
        order_by (λ (a b : RunParameter). name_le a.name b.name)
          (where_rows (λ (p : RunParameter). p.run_id == run_id) db.parameters))

unfoldable pub list_logs : Uuid → Tx (List RunLog)
list_logs run_id = do
  found ← gets (get_run run_id)
  _ ← lift (or_raise found "run_not_found" 404)
  gets (λ db.
      order_by (λ (a b : RunLog). leb a.sequence_number b.sequence_number)
        (where_rows (λ (l : RunLog). l.run_id == run_id) db.logs))
