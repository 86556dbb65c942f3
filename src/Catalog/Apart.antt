-- ===== src/Catalog/Apart.antt =====
-- api/projects.py and api/experiments.py: the handlers leave runs, workers and leases alone.
use runscope.Prelude.{
  ℕ, ◌+◌, ◌≤◌, ◌≡◌, refl, ap, map, String, List, none, is_some, first_row, arith,
}
use runscope.Models.{Uuid, Timestamp, Project, Experiment, Run, Worker, User}
use runscope.Models.Store.{Db, or_raise, get_project, get_experiment}
use runscope.Models.Store.Done.{Holds, Holds-lift, Holds-and_then}
use runscope.Security.{researcher_user}
use runscope.Platform.{IsConsistent, keep_IsConsistent}
use runscope.Tags.{StrMethods}
use runscope.Catalog.{
  ProjectCreate, ExperimentCreate, create_project, in_project, delete_project, has_name, same_name,
  ensure_unique_name, insert_experiment, create_experiment, of_experiment, delete_experiment,
}
use runscope.Catalog.References.{guarded}
use runscope.Catalog.Updates.{
  assigned, ProjectUpdate, ExperimentUpdate, not_null, update_project, ensure_new_name, or_conflict,
  update_row, update_experiment,
}
use runscope.Catalog.Changes.{ensure_new_name-same}

pub record Apart (db db' : Db) : Type 0 where
  pub runs : db'.runs ≡ db.runs
  pub workers : db'.workers ≡ db.workers
  pub allocations : db'.allocations ≡ db.allocations
  pub drawn : db.next_id ≤ db'.next_id

Apart-by :
    (db : Db) (projects : List Project) (experiments : List Experiment) (n : ℕ)
    → db.next_id ≤ n
    → Apart db (record db { projects = projects; experiments = experiments; next_id = n })
Apart-by db projects experiments n q = record {
  runs = refl;
  workers = refl;
  allocations = refl;
  drawn = q;
}

pub create_project-Apart :
    (now : Timestamp) (body : ProjectCreate) (caller : User) (db : Db)
    → Holds (λ _. Apart db) (create_project now body caller db)
unfolding create_project
create_project-Apart now body caller db =
    Holds-lift (λ _. Apart db) (researcher_user caller) _ db
      λ user _. Apart-by db _ db.experiments (db.next_id + 1) (omega arith)

pub delete_project-Apart :
    (project_id : Uuid) (caller : User) (db : Db)
    → Holds (λ _. Apart db) (delete_project project_id caller db)
unfolding delete_project
delete_project-Apart project_id caller db =
    Holds-lift (λ _. Apart db) (researcher_user caller) _ db
      λ user _.
        Holds-lift (λ _. Apart db) (or_raise (get_project project_id db) "project_not_found" 404) _
          db
          λ project _.
            guarded (λ _. Apart db) (is_some (first_row (in_project project_id) db.experiments)) _ _
              db λ _. Apart-by db _ db.experiments db.next_id (omega arith)

pub delete_experiment-Apart :
    (experiment_id : Uuid) (caller : User) (db : Db)
    → Holds (λ _. Apart db) (delete_experiment experiment_id caller db)
unfolding delete_experiment
delete_experiment-Apart experiment_id caller db =
    Holds-lift (λ _. Apart db) (researcher_user caller) _ db
      λ user _.
        Holds-lift (λ _. Apart db)
          (or_raise (get_experiment experiment_id db) "experiment_not_found" 404) _ db
          λ e _.
            guarded (λ _. Apart db) (is_some (first_row (of_experiment experiment_id) db.runs)) _ _
              db λ _. Apart-by db db.projects _ db.next_id (omega arith)

pub update_project-Apart :
    (now : Timestamp) (project_id : Uuid) (body : ProjectUpdate) (caller : User) (db : Db)
    → Holds (λ _. Apart db) (update_project now project_id body caller db)
unfolding update_project
update_project-Apart now project_id body caller db =
    Holds-lift (λ _. Apart db) (researcher_user caller) _ db
      λ user _.
        Holds-lift (λ _. Apart db) (or_raise (get_project project_id db) "project_not_found" 404) _
          db
          λ project _.
            Holds-lift (λ _. Apart db) (not_null (assigned body.name project.name)) _ db
              λ name _.
                Holds-lift (λ _. Apart db)
                  (not_null (assigned body.description project.description)) _ db
                  λ d _. Apart-by db _ db.experiments db.next_id (omega arith)

module _ (now : Timestamp) (str : StrMethods) (sql_lower : String → String) where
  pub create_experiment-Apart :
      (body : ExperimentCreate) (caller : User) (db : Db)
      → Holds (λ _. Apart db) (create_experiment str sql_lower now body caller db)
  unfolding create_experiment ensure_unique_name insert_experiment
  create_experiment-Apart body caller db =
      Holds-lift (λ _. Apart db) (researcher_user caller) _ db
        λ user _.
          Holds-lift (λ _. Apart db)
            (or_raise (get_project body.project_id db) "project_not_found" 404) _ db
            λ project _.
              guarded (λ _. Apart db)
                (is_some (
                  first_row (has_name str sql_lower none body.project_id body.name) db.experiments))
                _ _ db
                λ _.
                  guarded (λ _. Apart db)
                    (is_some (
                      first_row (same_name str sql_lower body.project_id body.name) db.experiments))
                    _ _ _ λ _. Apart-by db db.projects _ (db.next_id + 1) (omega arith)

  pub update_experiment-Apart :
      (experiment_id : Uuid) (body : ExperimentUpdate) (caller : User) (db : Db)
      → Holds (λ _. Apart db) (update_experiment now str sql_lower experiment_id body caller db)
  unfolding update_experiment update_row
  update_experiment-Apart experiment_id body caller db =
      Holds-lift (λ _. Apart db) (researcher_user caller) _ db
        λ user _.
          Holds-lift (λ _. Apart db)
            (or_raise (get_experiment experiment_id db) "experiment_not_found" 404) _ db
            λ e _.
              Holds-and_then (λ _ db'. db' ≡ db) (λ _. Apart db)
                (ensure_new_name now str sql_lower e body.name db) _
                (ensure_new_name-same now str sql_lower e body.name db)
                λ _ db' same. rw same (
                  Holds-lift (λ _. Apart db)
                    (or_conflict now str sql_lower (assigned body.name e.name)) _ db
                    λ name _.
                      Holds-lift (λ _. Apart db)
                        (or_conflict now str sql_lower (assigned body.description e.description)) _
                        db
                        λ description _.
                          guarded (λ _. Apart db) (is_some (first_row _ db.experiments)) _ _ db
                            λ _. Apart-by db db.projects _ db.next_id (omega arith))

-- What the invariant reads is left alone.
pub Apart-IsConsistent : (db db' : Db) → Apart db db' → IsConsistent db → IsConsistent db'
Apart-IsConsistent db db' a h =
    keep_IsConsistent db db' a.drawn (ap (map (λ (r : Run). r.id)) a.runs)
      (ap (map (λ (w : Worker). w.id)) a.workers) (λ j. rw (a.allocations, a.runs) (h.leased j))
      (λ j. rw (a.allocations, a.workers) (h.balanced j)) h
