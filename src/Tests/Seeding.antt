-- ===== src/Tests/Seeding.antt =====
-- The theorem on seeding at concrete data: a platform with one user and one template of its own.
use runscope.Prelude.{◌≡◌, refl, String, [], All, arith}
use runscope.Models.{Dict, running}
use runscope.Tags.{StrMethods}
use runscope.Templates.{ParameterModel, registry}
use runscope.Auth.{normalize_email}
use runscope.Seed.{demo_users, is_user, is_definition, seed_demo_data}
use runscope.Seed.Repeated.{Seeded}
use runscope.Seed.Demo.{user_id, template_id, Fits, FitsDefinition, seed_demo_data-settled}
use runscope.Tests.Sample.{sample}

abbrev same : StrMethods
same = record { strip = λ s. s; lower = λ s. s; len = λ s. 0 }

abbrev no_schema : ParameterModel → Dict
no_schema model = []

abbrev first_hash : String → String
first_hash password = "argon2-a"

abbrev second_hash : String → String
second_hash password = "argon2-b"

seed_demo_data-settled_example :
    let after = (seed_demo_data no_schema same first_hash (sample running)).1 in
    All (Seeded user_id (is_user same) Fits after.users) demo_users
    × All (Seeded template_id is_definition (FitsDefinition no_schema) after.templates) registry
    × (seed_demo_data no_schema same second_hash after ≡ ((0, 0), after))
unfolding normalize_email
seed_demo_data-settled_example =
    seed_demo_data-settled no_schema same first_hash second_hash (sample running)
      (refl, (refl, (refl, tt))) (λ password. refl) ((refl, tt), λ j later. ground arith)
      ((refl, tt), λ j later. ground arith)
