-- ===== src/Seed.antt =====
-- seed.py: the demonstration users and the training templates. A hash of passwords, the methods of
-- Python's `str` and the schemas of Pydantic are parameters.
pub mod Repeated
pub mod Demo
use text.Mathlib.Text.{◌==◌ as str_eq}
use runscope.Prelude.{
  ℕ, ◌+◌, String, List, [], ◌∷◌, Option, none, some, Bool, true, false, ◌&&◌, first_row, save,
  if◌then◌else◌,
}
use runscope.Models.{Uuid, Dict, Role, viewer, researcher, administrator, User, TrainingTemplate}
use runscope.Models.Store.{Db}
use runscope.Tags.{StrMethods}
use runscope.Templates.{ParameterModel, TemplateDefinition, registry}
use runscope.Auth.{normalize_email}

-- A table with the identifier that comes next.
abbrev pub Table : Type 0 → Type 0
Table A = List A × Uuid

-- The loop that both functions have: `matches` is the condition of the SELECT, and `refresh` the
-- assignments to a row that is found. It counts the rows that it creates.
module _ {A D : Type 0} (id : A → Uuid) (matches : D → A → Bool) (create : D → Uuid → A)
    (refresh : D → A → A) where
  unfoldable pub seed_found : D → Option A → Table A → ℕ × Table A
  seed_found d none (rows, next_id) = (1, (create d next_id ∷ rows, next_id + 1))
  seed_found d (some row) (rows, next_id) = (0, (save id (refresh d row) rows, next_id))

  unfoldable pub seed_rows : List D → Table A → ℕ × Table A
  unfolding seed_found
  seed_rows [] table = (0, table)
  seed_rows (d ∷ ds) table =
      let (n, table1) = seed_found d (first_row (matches d) table.0) table in
      let (m, table2) = seed_rows ds table1 in (n + m, table2)

pub record DemoUser : Type 0 where
  pub email : String
  pub password : String
  pub role : Role

abbrev pub demo_viewer : DemoUser
demo_viewer = record { email = "viewer@runscope.dev"; password = "ViewerDemo123!"; role = viewer }

abbrev pub demo_researcher : DemoUser
demo_researcher = record {
  email = "researcher@runscope.dev";
  password = "ResearcherDemo123!";
  role = researcher;
}

abbrev pub demo_admin : DemoUser
demo_admin = record {
  email = "admin@runscope.dev";
  password = "AdminDemo123!";
  role = administrator;
}

abbrev pub demo_users : List DemoUser
demo_users = demo_viewer ∷ demo_researcher ∷ demo_admin ∷ []

module _ (str : StrMethods) where
  abbrev pub is_user : DemoUser → User → Bool
  is_user demo u = str_eq u.email (normalize_email str demo.email)

  module _ (hash_password : String → String) where
    abbrev pub new_user : DemoUser → Uuid → User
    new_user demo id = record {
      id = id;
      email = normalize_email str demo.email;
      password_hash = hash_password demo.password;
      role = demo.role;
    }

    abbrev pub refreshed_user : DemoUser → User → User
    refreshed_user demo user = record user {
      role = demo.role;
      password_hash =
          if str_eq user.password_hash "" then hash_password demo.password else user.password_hash;
    }

    unfoldable pub seed_demo_users : Db → ℕ × Db
    unfolding seed_rows
    seed_demo_users db =
        let (created, (users, next_id)) =
          seed_rows (λ (u : User). u.id) is_user new_user refreshed_user demo_users
            (db.users, db.next_id) in
        (created, record db { users = users; next_id = next_id })

abbrev pub is_definition : TemplateDefinition → TrainingTemplate → Bool
is_definition d t = str_eq t.key d.key && str_eq t.version d.version

module _ (model_json_schema : ParameterModel → Dict) where
  abbrev pub new_template : TemplateDefinition → Uuid → TrainingTemplate
  new_template d id = record {
    id = id;
    key = d.key;
    name = d.name;
    description = d.description;
    version = d.version;
    parameter_schema = model_json_schema d.parameter_model;
    enabled = true;
  }

  abbrev pub refreshed_template : TemplateDefinition → TrainingTemplate → TrainingTemplate
  refreshed_template d template = record template {
    name = d.name;
    description = d.description;
    parameter_schema = model_json_schema d.parameter_model;
  }

  unfoldable pub seed_training_templates : Db → ℕ × Db
  unfolding seed_rows registry
  seed_training_templates db =
      let (created, (templates, next_id)) =
        seed_rows (λ (t : TrainingTemplate). t.id) is_definition new_template refreshed_template
          registry (db.templates, db.next_id) in
      (created, record db { templates = templates; next_id = next_id })

  unfoldable pub seed_demo_data : StrMethods → (String → String) → Db → (ℕ × ℕ) × Db
  unfolding seed_demo_users seed_training_templates
  seed_demo_data str hash_password db =
      let (users, db1) = seed_demo_users str hash_password db in
      let (templates, db2) = seed_training_templates db1 in ((users, templates), db2)
