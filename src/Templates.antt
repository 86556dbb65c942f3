-- ===== src/Templates.antt =====
-- templates/registry.py and the parameter checks of run_execution.py. What Pydantic makes of a
-- dictionary of parameters and what a template computes are parameters of the model.
use text.Mathlib.Text.{◌==◌ as str_eq}
use runscope.Prelude.{
  ℕ, String, ◌<>◌, List, [], ◌∷◌, Option, none, some, Bool, true, false, ◌&&◌, first_row,
}
use runscope.Models.{Uuid, Dict, Fraction, TrainingTemplate}
use runscope.Models.Store.{Db, Result, ok, err, app, key_error}

-- Times in a unit that both fields are multiples of.
pub record SlowDemoParameters : Type 0 where
  pub duration_seconds : ℕ
  pub interval_seconds : ℕ
  pub fail_intentionally : Bool

-- A validated parameter model; of the Iris model only its dictionary matters here.
pub data Validated : Type 0 where
  iris : Dict → Validated
  slow : SlowDemoParameters → Validated

pub data ParameterModel : Type 0 where
  iris_classification_parameters slow_demo_parameters : ParameterModel

pub record GeneratedArtifact : Type 0 where
  pub name : String
  pub mime_type : String
  pub content : List ℕ

pub record TemplateResult : Type 0 where
  pub metrics : List (String × Fraction)
  pub logs : List (String × String)
  pub artifacts : List GeneratedArtifact

-- `execute` is None for the slow demonstration.
pub record TemplateDefinition : Type 0 where
  pub key : String
  pub name : String
  pub description : String
  pub version : String
  pub parameter_model : ParameterModel
  pub has_executor : Bool

unfoldable pub registry : List TemplateDefinition
registry =
    record {
      key = "sklearn-iris-classification";
      name = "Iris random-forest classification";
      description =
          "Loads scikit-learn's built-in Iris dataset, performs a stratified "
          <> ("train/test split, trains a trusted random forest, and reports "
              <> "accuracy, precision, recall, and F1.");
      version = "1.0.0";
      parameter_model = iris_classification_parameters;
      has_executor = true;
    }
    ∷ record {
      key = "slow-demonstration";
      name = "Slow progress demonstration";
      description =
          "Runs a bounded, trusted timer workload that records honest progress, "
          <> ("checks for cancellation, and can fail intentionally. It does not "
              <> "claim to train a model.");
      version = "1.0.0";
      parameter_model = slow_demo_parameters;
      has_executor = false;
    }
    ∷ []

unfoldable pub registry_get : String → String → Option TemplateDefinition
unfolding registry
registry_get key version =
    first_row (λ (d : TemplateDefinition). str_eq d.key key && str_eq d.version version) registry

-- The answer of the artifact store to an upload.
pub data PutOutcome : Type 0 where
  stored unavailable broken : PutOutcome

-- Pydantic, the executors, the artifact store and the hash. `model_validate` gives the model and
-- its JSON dump, or none for a ValidationError; `execute` gives none for an exception.
pub record External : Type 0 where
  pub model_validate : ParameterModel → Dict → Option (Validated × Dict)
  pub execute : Validated → Option TemplateResult
  pub put : Uuid × String → List ℕ → String → PutOutcome
  pub sha256 : List ℕ → String

-- select(TrainingTemplate).where(key, version, enabled)
abbrev pub is_template : String → String → TrainingTemplate → Bool
is_template key version t = str_eq t.key key && str_eq t.version version && t.enabled

abbrev pub backed : TrainingTemplate → Option TemplateDefinition → Result TrainingTemplate
backed template none = app "template_unregistered" 409
backed template (some d) = ok template

abbrev pub found_template : Option TrainingTemplate → Result TrainingTemplate
found_template none = app "template_not_found" 404
found_template (some t) = backed t (registry_get t.key t.version)

unfoldable pub find_template : String → String → Db → Result TrainingTemplate
find_template key version db = found_template (first_row (is_template key version) db.templates)

abbrev pub checked : Option (Validated × Dict) → Result (Validated × Dict)
checked none = app "invalid_template_parameters" 422
checked (some v) = ok v

abbrev pub validate_with : External → Option TemplateDefinition → Dict → Result (Validated × Dict)
validate_with external none values = err key_error
validate_with external (some d) values = checked (external.model_validate d.parameter_model values)

unfoldable pub validate_parameters : External → TrainingTemplate → Dict → Result (Validated × Dict)
validate_parameters external template values =
    validate_with external (registry_get template.key template.version) values
