-- ===== src/Catalog/Updates.antt =====
-- api/projects.py and api/experiments.py: the PATCH requests, with the validation of their bodies in
-- schemas/projects.py. A field of the body is unset, an explicit null or a value.
use text.Mathlib.Text.{◌==◌ as str_eq}
use runscope.Prelude.{
  String, List, [], ◌∷◌, Option, none, some, Bool, true, false, ◌&&◌, ◌==◌, not, is_some, first_row,
  save, if◌then◌else◌,
}
use runscope.Models.{Uuid, Timestamp, Project, Experiment, User}
use runscope.Models.Store.{
  Db, runtime_error, Result, ok, err, app, Tx, ◌>>=◌, ◌>>◌, pure, lift, gets, modify, or_raise,
  get_project, get_experiment,
}
use runscope.Security.{researcher_user}
use runscope.Tags.{StrMethods, normalize_tags, stripped, any_long}
use runscope.Catalog.{ensure_unique_name, same_name}

pub data Field (A : Type 0) : Type 0 where
  unset null : Field A
  given : A → Field A

module _ {A : Type 0} where
  -- `value is None` in the validators, where an unset field has its default
  abbrev pub missing : Field A → Bool
  missing (given a) = false
  missing _ = true

  -- What setattr leaves in the column, for the fields of model_dump(exclude_unset=True).
  abbrev pub assigned : Field A → A → Option A
  assigned unset old = some old
  assigned null old = none
  assigned (given a) old = some a

abbrev pub map_field : {A B : Type 0} → (A → B) → Field A → Field B
map_field f unset = unset
map_field f null = null
map_field f (given a) = given (f a)

pub record ProjectUpdate : Type 0 where
  pub name : Field String
  pub description : Field String

pub record ExperimentUpdate : Type 0 where
  pub name : Field String
  pub description : Field String
  pub tags : Field (List String)

-- Without a net change there is no UPDATE, and the row keeps its time.
abbrev pub changed_at : Bool → Timestamp → Timestamp → Timestamp
changed_at same now updated_at = if same then updated_at else now

abbrev pub list_eq : List String → List String → Bool
list_eq [] [] = true
list_eq (a ∷ rest) (b ∷ bs) = str_eq a b && list_eq rest bs
list_eq _ _ = false

abbrev pub tags_eq : Option (List String) → Option (List String) → Bool
tags_eq none none = true
tags_eq (some a) (some b) = list_eq a b
tags_eq _ _ = false

-- A column that is NOT NULL.
abbrev pub not_null : {A : Type 0} → Option A → Result A
not_null none = err (runtime_error "IntegrityError")
not_null (some a) = ok a

abbrev pub save_project : Project → Db → Db
save_project project db = record db { projects = save (λ (p : Project). p.id) project db.projects }

abbrev pub save_experiment : Experiment → Db → Db
save_experiment experiment db = record db {
  experiments = save (λ (e : Experiment). e.id) experiment db.experiments;
}

module _ (str : StrMethods) where
  open str use {strip}

  -- require_change
  unfoldable pub valid_project_update : ProjectUpdate → Result ProjectUpdate
  valid_project_update body =
      if missing body.name && missing body.description
      then err (runtime_error "RequestValidationError")
      else ok (record body { name = map_field strip body.name })

  abbrev pub long_tags : Field (List String) → Bool
  long_tags (given tags) = any_long str (stripped str tags)
  long_tags _ = false

  -- normalize_and_require_change
  unfoldable pub valid_experiment_update : ExperimentUpdate → Result ExperimentUpdate
  valid_experiment_update body =
      if missing body.name && (missing body.description && missing body.tags)
      then err (runtime_error "RequestValidationError")
      else if long_tags body.tags
      then err (runtime_error "RequestValidationError")
      else ok (record body {
        name = map_field strip body.name;
        tags = map_field (normalize_tags str) body.tags;
      })

module _ (now : Timestamp) where
  -- The UPDATE at the commit, which a null in a column refuses.
  unfoldable pub update_project : Uuid → ProjectUpdate → User → Tx Project
  update_project project_id body caller = do
    _ ← lift (researcher_user caller)
    found ← gets (get_project project_id)
    project ← lift (or_raise found "project_not_found" 404)
    name ← lift (not_null (assigned body.name project.name))
    description ← lift (not_null (assigned body.description project.description))
    let same = str_eq name project.name && str_eq description project.description
    let project' = record project {
      name = name;
      description = description;
      updated_at = changed_at same now project.updated_at;
    }
    modify (save_project project')
    pure project'

  module _ (str : StrMethods) (sql_lower : String → String) where
    -- if name := values.get("name")
    unfoldable pub ensure_new_name : Experiment → Field String → Tx (Unit {0})
    unfolding ensure_unique_name
    ensure_new_name experiment (given name) =
        if str_eq name ""
        then pure tt
        else ensure_unique_name str sql_lower (some experiment.id) experiment.project_id name
    ensure_new_name experiment _ = pure tt

    -- The answer to every IntegrityError.
    abbrev pub or_conflict : {A : Type 0} → Option A → Result A
    or_conflict none = app "experiment_name_conflict" 409
    or_conflict (some a) = ok a

    -- another row that the unique constraint meets
    abbrev pub other_same_name : Experiment → Experiment → Bool
    other_same_name experiment e =
        not (e.id == experiment.id)
        && same_name str sql_lower experiment.project_id experiment.name e

    -- The UPDATE at the commit. JSON columns hold null.
    unfoldable pub update_row : Experiment → Tx Experiment
    update_row experiment = do
      taken ← gets (λ db. first_row (other_same_name experiment) db.experiments)
      lift (if is_some taken then app "experiment_name_conflict" 409 else ok tt)
      modify (save_experiment experiment)
      pure experiment

    abbrev pub assigned_tags : Field (List String) → Option (List String) → Option (List String)
    assigned_tags unset old = old
    assigned_tags null old = none
    assigned_tags (given tags) old = some tags

    unfoldable pub update_experiment : Uuid → ExperimentUpdate → User → Tx Experiment
    unfolding ensure_new_name update_row
    update_experiment experiment_id body caller = do
      _ ← lift (researcher_user caller)
      found ← gets (get_experiment experiment_id)
      experiment ← lift (or_raise found "experiment_not_found" 404)
      ensure_new_name experiment body.name
      name ← lift (or_conflict (assigned body.name experiment.name))
      description ← lift (or_conflict (assigned body.description experiment.description))
      let tags = assigned_tags body.tags experiment.tags
      let same =
          str_eq name experiment.name
          && (str_eq description experiment.description && tags_eq tags experiment.tags)
      update_row (record experiment {
        name = name;
        description = description;
        tags = tags;
        updated_at = changed_at same now experiment.updated_at;
      })

    -- The request: FastAPI signs the caller in and validates the body before it calls the handler.
    unfoldable pub patch_experiment : Uuid → ExperimentUpdate → User → Tx Experiment
    unfolding valid_experiment_update
    patch_experiment experiment_id body caller = do
      _ ← lift (researcher_user caller)
      valid ← lift (valid_experiment_update str body)
      update_experiment experiment_id valid caller
