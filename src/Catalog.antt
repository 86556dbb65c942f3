-- ===== src/Catalog.antt =====
-- api/projects.py and api/experiments.py: projects and the experiments in them, which are created
-- and deleted. The names in a request are stripped before a handler runs; the normalisation of tags
-- stands in the new row. `sql_lower` is the database's lower().
pub mod Names
pub mod References
pub mod Updates
pub mod Changes
pub mod Renames
pub mod Apart
use text.Mathlib.Text.{◌==◌ as str_eq}
use runscope.Prelude.{
  ℕ, ◌+◌, String, List, [], ◌∷◌, Option, none, some, Bool, false, not, ◌&&◌, ◌==◌, is_some,
  first_row, where_rows, if◌then◌else◌,
}
use runscope.Models.{Uuid, Timestamp, Project, Experiment, Run, User}
use runscope.Models.Store.{
  Db, Error, runtime_error, Result, ok, err, app, Tx, ◌>>=◌, ◌>>◌, pure, lift, gets, modify, uuid4,
  or_raise, get_project, get_experiment,
}
use runscope.Security.{researcher_user}
use runscope.Tags.{StrMethods, normalize_tags}

pub record ProjectCreate : Type 0 where
  pub name : String
  pub description : String

pub record ExperimentCreate : Type 0 where
  pub project_id : Uuid
  pub name : String
  pub description : String
  pub tags : List String

abbrev pub new_project : Timestamp → ProjectCreate → Uuid → Uuid → Project
new_project now body created_by id = record {
  id = id;
  name = body.name;
  description = body.description;
  created_by = created_by;
  created_at = now;
  updated_at = now;
}

unfoldable pub create_project : Timestamp → ProjectCreate → User → Tx Project
create_project now body caller = do
  user ← lift (researcher_user caller)
  id ← uuid4
  let project = new_project now body user.id id
  modify (λ db. record db { projects = project ∷ db.projects })
  pure project

-- session.delete(project)
abbrev pub without_project : Uuid → Db → Db
without_project project_id db = record db {
  projects = where_rows (λ (p : Project). not (p.id == project_id)) db.projects;
}

abbrev pub in_project : Uuid → Experiment → Bool
in_project project_id e = e.project_id == project_id

unfoldable pub delete_project : Uuid → User → Tx (Unit {0})
delete_project project_id caller = do
  _ ← lift (researcher_user caller)
  found ← gets (get_project project_id)
  _ ← lift (or_raise found "project_not_found" 404)
  experiment ← gets (λ db. first_row (in_project project_id) db.experiments)
  lift (if is_some experiment then app "project_has_experiments" 409 else ok tt)
  modify (without_project project_id)

module _ (str : StrMethods) (sql_lower : String → String) where
  open str use {lower}

  -- exclude_id
  abbrev pub excluded : Option Uuid → Experiment → Bool
  excluded none e = false
  excluded (some id) e = e.id == id

  -- the query of ensure_unique_name
  abbrev pub has_name : Option Uuid → Uuid → String → Experiment → Bool
  has_name exclude_id project_id name e =
      not (excluded exclude_id e)
      && (e.project_id == project_id && str_eq (sql_lower e.name) (lower name))

  unfoldable pub ensure_unique_name : Option Uuid → Uuid → String → Tx (Unit {0})
  ensure_unique_name exclude_id project_id name = do
    found ← gets (λ db. first_row (has_name exclude_id project_id name) db.experiments)
    lift (if is_some found then app "experiment_name_conflict" 409 else ok tt)

  abbrev pub new_experiment : Timestamp → ExperimentCreate → Uuid → Uuid → Experiment
  new_experiment now body created_by id = record {
    id = id;
    project_id = body.project_id;
    name = body.name;
    description = body.description;
    tags = some (normalize_tags str body.tags);
    created_by = created_by;
    created_at = now;
    updated_at = now;
  }

  -- the unique constraint on (project_id, name)
  abbrev pub same_name : Uuid → String → Experiment → Bool
  same_name project_id name e = e.project_id == project_id && str_eq e.name name

  -- the INSERT at the commit, with the answer to an IntegrityError
  unfoldable pub insert_experiment : Experiment → Tx Experiment
  insert_experiment experiment = do
    taken ← gets (λ db. first_row (same_name experiment.project_id experiment.name) db.experiments)
    lift (if is_some taken then app "experiment_name_conflict" 409 else ok tt)
    modify (λ db. record db { experiments = experiment ∷ db.experiments })
    pure experiment

  unfoldable pub create_experiment : Timestamp → ExperimentCreate → User → Tx Experiment
  unfolding ensure_unique_name insert_experiment
  create_experiment now body caller = do
    user ← lift (researcher_user caller)
    project ← gets (get_project body.project_id)
    _ ← lift (or_raise project "project_not_found" 404)
    ensure_unique_name none body.project_id body.name
    id ← uuid4
    insert_experiment (new_experiment now body user.id id)

abbrev pub of_experiment : Uuid → Run → Bool
of_experiment experiment_id r = r.experiment_id == experiment_id

abbrev pub without_experiment : Uuid → Db → Db
without_experiment experiment_id db = record db {
  experiments = where_rows (λ (e : Experiment). not (e.id == experiment_id)) db.experiments;
}

-- The foreign key of runs restricts the DELETE; the handler does not catch that error.
unfoldable pub delete_experiment : Uuid → User → Tx (Unit {0})
delete_experiment experiment_id caller = do
  _ ← lift (researcher_user caller)
  found ← gets (get_experiment experiment_id)
  _ ← lift (or_raise found "experiment_not_found" 404)
  run ← gets (λ db. first_row (of_experiment experiment_id) db.runs)
  lift (if is_some run then err (runtime_error "IntegrityError") else ok tt)
  modify (without_experiment experiment_id)
