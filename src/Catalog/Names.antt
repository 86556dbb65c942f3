-- ===== src/Catalog/Names.antt =====
-- api/experiments.py: the names of experiments are distinct within a project.
use text.Mathlib.Text.{◌==◌ as str_eq}
use runscope.Prelude.{
  ◌≡◌, sym, ap, ◌∙◌, String, List, [], ◌∷◌, none, Bool, false, ◌&&◌, ◌==◌, is_some, first_row, All,
  All-map, Bool-cases, inl, inr,
}
use runscope.Models.{Timestamp, Experiment, User}
use runscope.Models.Store.{Db, or_raise, get_project}
use runscope.Models.Store.Done.{Holds, Holds-lift}
use runscope.Security.{researcher_user}
use runscope.Tags.{StrMethods}
use runscope.Catalog.{
  ExperimentCreate, has_name, same_name, ensure_unique_name, insert_experiment, create_experiment,
}
use runscope.Catalog.References.{none-All, guarded}

module _ (str : StrMethods) (sql_lower : String → String) where
  open str use {lower}

  -- Two experiments of one project whose names differ in case at most.
  abbrev pub clash : Experiment → Experiment → Bool
  clash a b = b.project_id == a.project_id && str_eq (lower b.name) (lower a.name)

  abbrev pub DistinctNames : List Experiment → Type 0
  DistinctNames [] = Unit
  DistinctNames (e ∷ es) = All (λ (b : Experiment). clash e b ≡ false) es × DistinctNames es

  -- Where the database lowers names as Python does and the creation of an experiment commits, the
  -- names of each project stay distinct, without regard to case.
  pub create_experiment-DistinctNames :
      (now : Timestamp) (body : ExperimentCreate) (caller : User) (db : Db)
      → ((s : String) → sql_lower s ≡ lower s)
      → DistinctNames db.experiments
      → Holds
          (λ _ db'. DistinctNames db'.experiments)
          (create_experiment str sql_lower now body caller db)
  unfolding create_experiment ensure_unique_name insert_experiment
  create_experiment-DistinctNames now body caller db same h =
      Holds-lift (λ _ db'. DistinctNames db'.experiments) (researcher_user caller) _ db
        λ user _.
          Holds-lift (λ _ db'. DistinctNames db'.experiments)
            (or_raise (get_project body.project_id db) "project_not_found" 404) _ db
            λ project _.
              elim (Bool-cases (
                is_some (
                  first_row (has_name str sql_lower none body.project_id body.name)
                    db.experiments))) [
                      | inl e ↦ rw e tt
                      | inr e ↦ rw e (
                          guarded (λ _ db'. DistinctNames db'.experiments)
                            (is_some (
                              first_row (same_name str sql_lower body.project_id body.name)
                                db.experiments))
                            _ _ _
                            (λ _. (
                              All-map _ _ db.experiments
                                  (λ (b : Experiment) k.
                                    ap
                                      (λ s.
                                        b.project_id == body.project_id
                                        && str_eq s (lower body.name))
                                      (sym (same b.name))
                                    ∙ k)
                                  (none-All (has_name str sql_lower none body.project_id body.name)
                                    db.experiments e),
                              h,
                            )))
                    ]
