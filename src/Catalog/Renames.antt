-- ===== src/Catalog/Renames.antt =====
-- api/experiments.py: the answers to a PATCH that names an experiment anew.
use package.text.Mathlib.Text.{◌==◌ as str_eq}
use runscope.Prelude.{◌≡◌, String, List, some, Bool, ◌&&◌, ◌==◌, not}
use runscope.Models.{Timestamp, Experiment}
use runscope.Models.Store.{Db, get_experiment}
use runscope.Tags.{StrMethods, normalize_tags}
use runscope.Catalog.Names.{clash}
use runscope.Catalog.Updates.{
  Field, given, changed_at, tags_eq, assigned_tags, map_field, ExperimentUpdate,
}

abbrev pub body_of : Field String → String → Field (List String) → ExperimentUpdate
body_of name description tags = record { name = name; description = given description; tags = tags }

module _ (now : Timestamp) (str : StrMethods) (sql_lower : String → String) where
  open str use {lower, strip}

  -- Another experiment of the project has the name, without regard to case.
  abbrev pub taken : Experiment → String → Experiment → Bool
  taken experiment name other =
      not (other.id == experiment.id)
      && clash str sql_lower (record experiment { name = name }) other

  abbrev pub renamed_row : Experiment → String → String → Field (List String) → Experiment
  renamed_row experiment name description tags =
      let new_tags =
        assigned_tags now str sql_lower (map_field (normalize_tags str) tags) experiment.tags in
      record experiment {
        name = name;
        description = description;
        tags = new_tags;
        updated_at =
            changed_at
              (str_eq name experiment.name
                && (str_eq description experiment.description && tags_eq new_tags experiment.tags))
              now experiment.updated_at;
      }

  -- The answer of 200: the row has the new name and the description, and is otherwise the same.
  abbrev pub Renamed : Experiment → String → String → Db → Experiment → Db → Type 0
  Renamed experiment name description db updated db' =
      (updated.name ≡ name)
      × (updated.description ≡ description)
      × (updated.project_id ≡ experiment.project_id)
      × (updated.created_by ≡ experiment.created_by)
      × (get_experiment experiment.id db' ≡ some updated)
