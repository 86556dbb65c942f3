-- ===== src/Catalog/Changes.antt =====
-- api/projects.py and api/experiments.py: what an update leaves, and the answers to an explicit null.
use mathlib.Core.Option.{some-injective}
use runscope.Prelude.{
  ℕ, ◌≡◌, refl, ◌∙◌, subst, String, List, [], ◌∷◌, Option, none, some, Bool, true, false, ◌==◌,
  is_some, find, find-save, replaced, save, first_row, All, All-map, arith, Bool-cases,
  if◌then◌else◌, inl, inr,
}
use runscope.Models.{Uuid, Timestamp, Project, Experiment, User}
use runscope.Models.Store.{Db, ok, err, runtime_error, or_raise, get_project, get_experiment}
use runscope.Models.Store.Done.{Holds, Holds-lift, Holds-or_raise, Holds-and_then}
use runscope.Security.{researcher_user}
use runscope.Tags.{StrMethods}
use runscope.Catalog.{ensure_unique_name}
use runscope.Catalog.References.{IsReferenced, guarded}
use runscope.Catalog.Updates.{
  Field, unset, null, given, assigned, ProjectUpdate, ExperimentUpdate, not_null, save_project,
  save_experiment, update_project, ensure_new_name, or_conflict, other_same_name, update_row,
  update_experiment,
}

module _ {A : Type 0} (key : A → ℕ) where
  is_some-save :
      (j : ℕ) (row : A) (xs : List A)
      → is_some (find key j (save key row xs)) ≡ is_some (find key j xs)
  is_some-save j row xs = rw (find-save key j row xs) (either (key row == j) (find key j xs))
    where
      either : (b : Bool) (o : Option A) → is_some (if b then replaced row o else o) ≡ is_some o
      either true none = refl
      either true (some x) = refl
      either false o = refl

  All-save : (P : A → Type 0) (row : A) (xs : List A) → P row → All P xs → All P (save key row xs)
  unfolding save
  All-save P row [] p h = tt
  All-save P row (x ∷ xs) p h = elim (Bool-cases (key x == key row)) [
    | inl e ↦ rw e (p, h.1)
    | inr e ↦ rw e (h.0, All-save P row xs p h.1)
  ]

  -- What holds of every row holds of the row that is read.
  pub All-find :
      (P : A → Type 0) (j : ℕ) (xs : List A) {x : A} → find key j xs ≡ some x → All P xs → P x
  unfolding find
  All-find P j [] e h = cc
  All-find P j (y ∷ ys) {x = x} e h = opened (key y == j) (λ k. All-find P j ys {x = x} k h.1) e
    where
      opened :
          (b : Bool)
          → (find key j ys ≡ some x → P x)
          → (if b then some y else find key j ys) ≡ some x
          → P x
      opened true rest k = subst P (some-injective y x k) h.0
      opened false rest k = rest k

saved_project-IsReferenced :
    (p : Project) (db : Db) → IsReferenced db → IsReferenced (save_project p db)
saved_project-IsReferenced p db h = record {
  projects =
      All-map _ _ db.experiments
        (λ e k. is_some-save (λ (p : Project). p.id) e.project_id p db.projects ∙ k) h.projects;
  experiments = h.experiments;
}

saved_experiment-IsReferenced :
    (e : Experiment) (db : Db)
    → is_some (get_project e.project_id db) ≡ true
    → IsReferenced db
    → IsReferenced (save_experiment e db)
saved_experiment-IsReferenced e db there h = record {
  projects = All-save (λ (e : Experiment). e.id) _ e db.experiments there h.projects;
  experiments =
      All-map _ _ db.runs
        (λ r k. is_some-save (λ (e : Experiment). e.id) r.experiment_id e db.experiments ∙ k)
        h.experiments;
}

-- Where the update of a project commits, every experiment still has its project and every run its
-- experiment.
pub update_project-IsReferenced :
    (now : Timestamp) (project_id : Uuid) (body : ProjectUpdate) (caller : User) (db : Db)
    → IsReferenced db
    → Holds (λ _. IsReferenced) (update_project now project_id body caller db)
unfolding update_project
update_project-IsReferenced now project_id body caller db h =
    Holds-lift (λ _. IsReferenced) (researcher_user caller) _ db
      λ user _.
        Holds-lift (λ _. IsReferenced)
          (or_raise (get_project project_id db) "project_not_found" 404) _ db
          λ project _.
            Holds-lift (λ _. IsReferenced) (not_null (assigned body.name project.name)) _ db
              λ name _.
                Holds-lift (λ _. IsReferenced)
                  (not_null (assigned body.description project.description)) _ db
                  λ description _. saved_project-IsReferenced _ db h

module _ (now : Timestamp) (str : StrMethods) (sql_lower : String → String) where
  -- The check of the new name changes nothing.
  pub ensure_new_name-same :
      (e : Experiment) (name : Field String) (db : Db)
      → Holds (λ _ db'. db' ≡ db) (ensure_new_name now str sql_lower e name db)
  unfolding ensure_new_name ensure_unique_name
  ensure_new_name-same e unset db = refl
  ensure_new_name-same e null db = refl
  ensure_new_name-same e (given name) db = ground arith

  update_row-IsReferenced :
      (e : Experiment) (db : Db)
      → is_some (get_project e.project_id db) ≡ true
      → IsReferenced db
      → Holds (λ _. IsReferenced) (update_row now str sql_lower e db)
  unfolding update_row
  update_row-IsReferenced e db there h =
      guarded (λ _. IsReferenced)
        (is_some (first_row (other_same_name now str sql_lower e) db.experiments)) _ _ db
        λ _. saved_experiment-IsReferenced e db there h

  -- Where the update of an experiment commits, every experiment still has its project and every run
  -- its experiment.
  pub update_experiment-IsReferenced :
      (experiment_id : Uuid) (body : ExperimentUpdate) (caller : User) (db : Db)
      → IsReferenced db
      → Holds (λ _. IsReferenced) (update_experiment now str sql_lower experiment_id body caller db)
  unfolding update_experiment
  update_experiment-IsReferenced experiment_id body caller db h =
      Holds-lift (λ _. IsReferenced) (researcher_user caller) _ db
        λ user _.
          Holds-or_raise (λ _. IsReferenced) (get_experiment experiment_id db)
            "experiment_not_found" 404 _ db
            λ e found.
              Holds-and_then (λ _ db'. db' ≡ db) (λ _. IsReferenced)
                (ensure_new_name now str sql_lower e body.name db) _
                (ensure_new_name-same e body.name db)
                λ _ db' same. rw same (
                  Holds-lift (λ _. IsReferenced)
                    (or_conflict now str sql_lower (assigned body.name e.name)) _ db
                    λ name _.
                      Holds-lift (λ _. IsReferenced)
                        (or_conflict now str sql_lower (assigned body.description e.description)) _
                        db
                        λ description _.
                          update_row-IsReferenced _ db
                            (All-find (λ (e : Experiment). e.id)
                              (λ e. is_some (get_project e.project_id db) ≡ true) experiment_id
                              db.experiments found h.projects)
                            h)

-- A researcher or an administrator who sends an explicit null as the name of an existing project ends
-- in an IntegrityError that the handler does not catch.
pub update_project-null :
    (now : Timestamp) (project_id : Uuid) (body : ProjectUpdate) (caller : User) (db : Db)
    (project : Project)
    → researcher_user caller ≡ ok caller
    → get_project project_id db ≡ some project
    → body.name ≡ null
    → update_project now project_id body caller db ≡ err (runtime_error "IntegrityError")
unfolding update_project
update_project-null now project_id body caller db project may found explicit =
    rw (may, found, explicit) refl
