-- ===== src/Catalog/References.antt =====
-- api/projects.py and api/experiments.py: no experiment without its project, no run without its
-- experiment.
use runscope.Prelude.{
  ℕ, ◌+◌, ◌≡◌, refl, ap, ◌∙◌, String, List, [], ◌∷◌, Option, none, some, Bool, true, false, not,
  ◌==◌, is_some, find, first_row, where_rows, All, All-map, arith, Bool-cases, if◌then◌else◌, inl,
  inr,
}
use runscope.Models.{Timestamp, Uuid, Project, Experiment, Run, User}
use runscope.Models.Store.{
  Db, Error, ok, err, Tx, ◌>>=◌, ◌>>◌, lift, or_raise, get_project, get_experiment,
}
use runscope.Models.Store.Done.{Holds, Holds-lift}
use runscope.Security.{researcher_user}
use runscope.Tags.{StrMethods}
use runscope.Catalog.{
  ProjectCreate, ExperimentCreate, create_project, in_project, delete_project, has_name, same_name,
  ensure_unique_name, insert_experiment, create_experiment, of_experiment, delete_experiment,
  new_project, new_experiment, without_project, without_experiment,
}

-- Every foreign key names a row.
pub record IsReferenced (db : Db) : Type 0 where
  pub projects :
      All (λ (e : Experiment). is_some (get_project e.project_id db) ≡ true) db.experiments
  pub experiments : All (λ (r : Run). is_some (get_experiment r.experiment_id db) ≡ true) db.runs

module _ {A : Type 0} (key : A → ℕ) where
  find-more :
      (j : ℕ) (x : A) (xs : List A)
      → is_some (find key j xs) ≡ true
      → is_some (find key j (x ∷ xs)) ≡ true
  unfolding find
  find-more j x xs h = ground arith

  find-kept :
      (j k : ℕ) (xs : List A)
      → (k == j) ≡ false
      → find key k (where_rows (λ x. not (key x == j)) xs) ≡ find key k xs
  unfolding find where_rows
  find-kept j k [] e = refl
  find-kept j k (x ∷ xs) e = ground (arith, find-kept j k xs)

-- No row meets the condition where the query for one finds none.
pub none-All :
    {A : Type 0} (p : A → Bool) (xs : List A)
    → is_some (first_row p xs) ≡ false
    → All (λ x. p x ≡ false) xs
unfolding first_row
none-All p [] h = tt
none-All p (x ∷ xs) h = (ground arith, none-All p xs (ground arith))

All-both :
    {A : Type 0} (P Q R : A → Type 0) (xs : List A)
    → ((x : A) → P x → Q x → R x)
    → All P xs
    → All Q xs
    → All R xs
All-both P Q R [] f h k = tt
All-both P Q R (x ∷ xs) f h k = (f x h.0 k.0, All-both P Q R xs f h.1 k.1)

All-where :
    {A : Type 0} (P : A → Type 0) (p : A → Bool) (xs : List A) → All P xs → All P (where_rows p xs)
unfolding where_rows
All-where P p [] h = tt
All-where P p (x ∷ xs) h = elim (Bool-cases (p x)) [
  | inl e ↦ rw e (h.0, All-where P p xs h.1)
  | inr e ↦ rw e (All-where P p xs h.1)
]

-- A guard of a command, as what holds after it.
pub guarded :
    {A : Type 0} (Q : A → Db → Type 0) (b : Bool) (error : Error) (k : Tx A) (db : Db)
    → (b ≡ false → Holds Q (k db))
    → Holds Q ((lift (if b then err error else ok tt) >> k) db)
guarded Q true error k db h = tt
guarded Q false error k db h = h refl

-- Where a new project is committed, every reference stays.
pub create_project-IsReferenced :
    (now : Timestamp) (body : ProjectCreate) (caller : User) (db : Db)
    → IsReferenced db
    → Holds (λ _. IsReferenced) (create_project now body caller db)
unfolding create_project
create_project-IsReferenced now body caller db h =
    Holds-lift (λ _. IsReferenced) (researcher_user caller) _ db
      λ user _. record {
        projects =
            All-map _ _ db.experiments
              (λ e k.
                find-more (λ (p : Project). p.id) e.project_id
                  (new_project now body user.id db.next_id) db.projects k)
              h.projects;
        experiments = h.experiments;
      }

deleted_project :
    (j : Uuid) (db : Db)
    → is_some (first_row (in_project j) db.experiments) ≡ false
    → IsReferenced db
    → IsReferenced (without_project j db)
deleted_project j db empty h = record {
  projects =
      All-both (λ (e : Experiment). in_project j e ≡ false) _ _ db.experiments
        (λ e apart k.
          ap is_some (find-kept (λ (p : Project). p.id) j e.project_id db.projects apart) ∙ k)
        (none-All (in_project j) db.experiments empty) h.projects;
  experiments = h.experiments;
}

-- Where the deletion of a project commits, every experiment still has its project and every run its
-- experiment.
pub delete_project-IsReferenced :
    (project_id : Uuid) (caller : User) (db : Db)
    → IsReferenced db
    → Holds (λ _. IsReferenced) (delete_project project_id caller db)
unfolding delete_project
delete_project-IsReferenced project_id caller db h =
    Holds-lift (λ _. IsReferenced) (researcher_user caller) _ db
      λ user _.
        Holds-lift (λ _. IsReferenced)
          (or_raise (get_project project_id db) "project_not_found" 404) _ db
          λ project _.
            guarded (λ _. IsReferenced) (is_some (first_row (in_project project_id) db.experiments))
              _ _ db (λ empty. deleted_project project_id db empty h)

deleted_experiment :
    (j : Uuid) (db : Db)
    → is_some (first_row (of_experiment j) db.runs) ≡ false
    → IsReferenced db
    → IsReferenced (without_experiment j db)
deleted_experiment j db unused h = record {
  projects = All-where _ _ db.experiments h.projects;
  experiments =
      All-both (λ (r : Run). of_experiment j r ≡ false) _ _ db.runs
        (λ r apart k.
          ap is_some (find-kept (λ (e : Experiment). e.id) j r.experiment_id db.experiments apart)
          ∙ k)
        (none-All (of_experiment j) db.runs unused) h.experiments;
}

-- Where the deletion of an experiment commits, every experiment still has its project and every run
-- its experiment.
pub delete_experiment-IsReferenced :
    (experiment_id : Uuid) (caller : User) (db : Db)
    → IsReferenced db
    → Holds (λ _. IsReferenced) (delete_experiment experiment_id caller db)
unfolding delete_experiment
delete_experiment-IsReferenced experiment_id caller db h =
    Holds-lift (λ _. IsReferenced) (researcher_user caller) _ db
      λ user _.
        Holds-lift (λ _. IsReferenced)
          (or_raise (get_experiment experiment_id db) "experiment_not_found" 404) _ db
          λ e _.
            guarded (λ _. IsReferenced) (is_some (first_row (of_experiment experiment_id) db.runs))
              _ _ db (λ unused. deleted_experiment experiment_id db unused h)

module _ (str : StrMethods) (sql_lower : String → String) where
  added_experiment :
      (experiment : Experiment) (n : ℕ) (db : Db)
      → is_some (get_project experiment.project_id db) ≡ true
      → IsReferenced db
      → IsReferenced (record db { experiments = experiment ∷ db.experiments; next_id = n })
  added_experiment experiment n db there h = record {
    projects = (there, h.projects);
    experiments =
        All-map _ _ db.runs
          (λ r k. find-more (λ (e : Experiment). e.id) r.experiment_id experiment db.experiments k)
          h.experiments;
  }

  found_or_raised :
      {A B : Type 0} (Q : B → Db → Type 0) (o : Option A) (code : String) (f : A → Tx B) (db : Db)
      → ((a : A) → is_some o ≡ true → Holds Q (f a db))
      → Holds Q ((lift (or_raise o code 404) >>= f) db)
  found_or_raised Q none code f db h = tt
  found_or_raised Q (some a) code f db h = h a refl

  -- Where the creation of an experiment commits, every experiment has its project and every run its
  -- experiment.
  pub create_experiment-IsReferenced :
      (now : Timestamp) (body : ExperimentCreate) (caller : User) (db : Db)
      → IsReferenced db
      → Holds (λ _. IsReferenced) (create_experiment str sql_lower now body caller db)
  unfolding create_experiment ensure_unique_name insert_experiment
  create_experiment-IsReferenced now body caller db h =
      Holds-lift (λ _. IsReferenced) (researcher_user caller) _ db
        λ user _.
          found_or_raised (λ _. IsReferenced) (get_project body.project_id db) "project_not_found" _
            db
            λ project there.
              elim (Bool-cases (
                is_some (
                  first_row (has_name str sql_lower none body.project_id body.name)
                    db.experiments))) [
                      | inl e ↦ rw e tt
                      | inr e ↦ rw e (
                          guarded (λ _. IsReferenced)
                            (is_some (
                              first_row (same_name str sql_lower body.project_id body.name)
                                db.experiments))
                            _ _ _
                            (λ _.
                              added_experiment
                                (new_experiment str sql_lower now body user.id db.next_id)
                                (db.next_id + 1) db there h))
                    ]
