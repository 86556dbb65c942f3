-- ===== src/Seed/Demo.antt =====
-- seed.py: the demonstration users and the templates of the registry after seeding.
use text.Mathlib.Text.{◌==◌ as str_eq}
use text.Mathlib.TextEquality.{eq_iff}
use runscope.Prelude.{
  ℕ, ◌≤◌, ◌≡◌, refl, sym, ap, ◌∙◌, String, true, false, All, inl, inr, Bool-cases, arith,
}
use runscope.Models.{Dict, User, TrainingTemplate}
use runscope.Models.Store.{Db}
use runscope.Tags.{StrMethods}
use runscope.Templates.{ParameterModel, TemplateDefinition, registry}
use runscope.Auth.{normalize_email}
use runscope.Seed.{
  Table, seed_rows, DemoUser, demo_viewer, demo_researcher, demo_admin, demo_users, is_user,
  new_user, refreshed_user, seed_demo_users, is_definition, new_template, refreshed_template,
  seed_training_templates, seed_demo_data,
}
use runscope.Seed.Repeated.{
  Sound, Exclusive, AllExclusive, Seeded, seed_rows-Seeded, seed_rows-settled, seed_rows-next,
  Sound-later,
}

abbrev pub user_id : User → ℕ
user_id u = u.id

abbrev pub template_id : TrainingTemplate → ℕ
template_id t = t.id

-- The user has the role of the demonstration, and a password.
abbrev pub Fits : DemoUser → User → Type 0
Fits demo u = (u.role ≡ demo.role) × (str_eq u.password_hash "" ≡ false)

module _ (str : StrMethods) (hash : String → String)
    (hashes : (password : String) → str_eq (hash password) "" ≡ false) where
  refreshed_user-Fits : (demo : DemoUser) (u : User) → Fits demo (refreshed_user str hash demo u)
  refreshed_user-Fits demo u = elim (Bool-cases (str_eq u.password_hash "")) [
    | inl e ↦ (refl, rw e (hashes demo.password))
    | inr e ↦ (refl, rw e e)
  ]

  email_refl : (demo : DemoUser) (n : ℕ) → is_user str demo (new_user str hash demo n) ≡ true
  email_refl demo n = (eq_iff (normalize_email str demo.email) _).1 refl

Fits-refreshed_user :
    (str : StrMethods) (hash : String → String) (demo : DemoUser) (u : User)
    → Fits demo u
    → refreshed_user str hash demo u ≡ u
Fits-refreshed_user str hash demo u fits = rw fits.1 (ap (λ r. record u { role = r }) (sym fits.0))

Exclusive-users :
    (str : StrMethods) (d e : DemoUser)
    → normalize_email str d.email ≡ d.email
    → normalize_email str e.email ≡ e.email
    → str_eq d.email e.email ≡ false
    → Exclusive user_id (is_user str) d e
Exclusive-users str d e same_d same_e apart u meets =
    let email : u.email ≡ d.email = (eq_iff u.email _).0 meets ∙ same_d in rw (same_e, email) apart

users-Exclusive :
    (str : StrMethods)
    → All (λ d. normalize_email str d.email ≡ d.email) demo_users
    → AllExclusive user_id (is_user str) demo_users
users-Exclusive str same = (
  (
    Exclusive-users str demo_viewer demo_researcher same.0 same.1.0 refl,
    (Exclusive-users str demo_viewer demo_admin same.0 same.1.1.0 refl, tt),
  ),
  ((Exclusive-users str demo_researcher demo_admin same.1.0 same.1.1.0 refl, tt), (tt, tt)),
)

matches-new_template :
    (schema : ParameterModel → Dict) (d : TemplateDefinition) (n : ℕ)
    → is_definition d (new_template schema d n) ≡ true
matches-new_template schema d n =
    rw ((eq_iff d.key d.key).1 refl, (eq_iff d.version d.version).1 refl) refl

registry-Exclusive : AllExclusive template_id is_definition registry
unfolding registry
registry-Exclusive = (
  (
    λ t meets.
        let key : t.key ≡ "sklearn-iris-classification" =
          (eq_iff t.key "sklearn-iris-classification").0 (ground (arith, meets)) in
        rw key refl,
    tt,
  ),
  (tt, tt),
)

-- The template is described as its definition says.
abbrev pub FitsDefinition : (ParameterModel → Dict) → TemplateDefinition → TrainingTemplate → Type 0
FitsDefinition schema d t =
    (t.name ≡ d.name)
    × (t.description ≡ d.description)
    × (t.parameter_schema ≡ schema d.parameter_model)

FitsDefinition-refreshed_template :
    (schema : ParameterModel → Dict) (d : TemplateDefinition) (t : TrainingTemplate)
    → FitsDefinition schema d t
    → refreshed_template schema d t ≡ t
FitsDefinition-refreshed_template schema d t fits =
    ap
      (λ n. record t {
        name = n;
        description = d.description;
        parameter_schema = schema d.parameter_model;
      })
      (sym fits.0)
    ∙ ap (λ n. record t { description = n; parameter_schema = schema d.parameter_model })
        (sym fits.1)
    ∙ ap (λ n. record t { parameter_schema = n }) (sym fits.2)

module _ (schema : ParameterModel → Dict) (str : StrMethods) where
  -- Where both loops keep their tables, the whole keeps the database.
  seed_demo_data-kept :
      (hash : String → String) (db : Db)
      → seed_rows user_id
          (is_user str)
          (new_user str hash)
          (refreshed_user str hash)
          demo_users
          (db.users, db.next_id)
        ≡ (0, (db.users, db.next_id))
      → seed_rows template_id is_definition
          (new_template schema)
          (refreshed_template schema)
          registry
          (db.templates, db.next_id)
        ≡ (0, (db.templates, db.next_id))
      → seed_demo_data schema str hash db ≡ ((0, 0), db)
  unfolding seed_demo_data seed_demo_users seed_training_templates registry
  seed_demo_data-kept hash db users templates =
      ap
        (λ r.
          let seeded =
            seed_training_templates schema (record db { users = r.1.0; next_id = r.1.1 }) in
          ((r.0, seeded.0), seeded.1))
        users
      ∙ ap (λ r. ((0, r.0), record db { templates = r.1.0; next_id = r.1.1 })) templates

  -- With email addresses that strip and lower leave alone, a hash that is never empty, and
  -- identifiers that are unique and not used up, the demonstration users and the templates of the
  -- registry are all there after seeding: each user with the role, each template with the name, the
  -- description and the schema of its definition. Seeding again, even with other hashes, creates
  -- nothing and changes nothing.
  pub seed_demo_data-settled :
      (hash hash' : String → String) (db : Db)
      → All (λ d. normalize_email str d.email ≡ d.email) demo_users
      → ((password : String) → str_eq (hash password) "" ≡ false)
      → Sound user_id (is_user str) (db.users, db.next_id)
      → Sound template_id is_definition (db.templates, db.next_id)
      → let after = (seed_demo_data schema str hash db).1 in
        All (Seeded user_id (is_user str) Fits after.users) demo_users
        × All (Seeded template_id is_definition (FitsDefinition schema) after.templates) registry
        × (seed_demo_data schema str hash' after ≡ ((0, 0), after))
  unfolding seed_demo_data seed_demo_users seed_training_templates registry
  seed_demo_data-settled hash hash' db same hashes users templates =
      let t0 : Table User = (db.users, db.next_id) in
      let (sound1, seeded1, _) =
        seed_rows-Seeded user_id (is_user str) (new_user str hash) (refreshed_user str hash) Fits
          (λ d n. refl) (email_refl str hash hashes) (λ d n. (refl, hashes d.password))
          (λ d u. refl) (λ e d u. refl) (refreshed_user-Fits str hash hashes) demo_users t0
          (users-Exclusive str same) users in
      let t1 : Table User =
        (seed_rows user_id (is_user str) (new_user str hash) (refreshed_user str hash) demo_users
          t0).1 in
      let up1 : db.next_id ≤ t1.1 =
        seed_rows-next user_id (is_user str) (new_user str hash) (refreshed_user str hash)
          demo_users t0 in
      let (sound2, seeded2, _) =
        seed_rows-Seeded template_id is_definition (new_template schema) (refreshed_template schema)
          (FitsDefinition schema) (λ d n. refl) (matches-new_template schema)
          (λ d n. (refl, refl, refl)) (λ d t. refl) (λ e d t. refl) (λ d t. (refl, refl, refl))
          registry (db.templates, t1.1) registry-Exclusive
          (Sound-later template_id is_definition db.templates db.next_id t1.1 up1 templates) in
      let t2 : Table TrainingTemplate =
        (seed_rows template_id is_definition (new_template schema) (refreshed_template schema)
          registry (db.templates, t1.1)).1 in
      let up2 : t1.1 ≤ t2.1 =
        seed_rows-next template_id is_definition (new_template schema) (refreshed_template schema)
          registry (db.templates, t1.1) in
      (
        seeded1,
        seeded2,
        seed_demo_data-kept hash' (seed_demo_data schema str hash db).1
            (seed_rows-settled user_id (is_user str) (new_user str hash') (refreshed_user str hash')
              Fits (Fits-refreshed_user str hash') demo_users (t1.0, t2.1)
              (Sound-later user_id (is_user str) t1.0 t1.1 t2.1 up2 sound1) seeded1)
            (seed_rows-settled template_id is_definition (new_template schema)
              (refreshed_template schema) (FitsDefinition schema)
              (FitsDefinition-refreshed_template schema) registry t2 sound2 seeded2),
      )
