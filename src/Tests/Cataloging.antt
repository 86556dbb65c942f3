-- ===== src/Tests/Cataloging.antt =====
-- The theorems on projects and experiments, and on the scheduler's choices, at the sample data.
use runscope.Prelude.{refl, String, [], IsOrder, find}
use runscope.Models.{researcher, User, queued, running}
use runscope.Models.Store.Done.{Holds}
use runscope.Tags.{StrMethods}
use runscope.Scheduler.{select_worker}
use runscope.Scheduler.Choice.{Chosen, select_worker-Chosen}
use runscope.Catalog.{ProjectCreate, ExperimentCreate, create_experiment}
use runscope.Catalog.References.{IsReferenced}
use runscope.Catalog.Names.{DistinctNames, create_experiment-DistinctNames}
use runscope.Tests.Sample.{sample, sample-IsConsistent, sample_run, settings, no_locks, same_names}

abbrev author : User
author = record { id = 1; email = "r@runscope.dev"; password_hash = ""; role = researcher }

abbrev identity : StrMethods
identity = record { strip = λ s. s; lower = λ s. s; len = λ s. 3 }

abbrev as_is : String → String
as_is s = s

abbrev project_body : ProjectCreate
project_body = record { name = "Q"; description = "" }

abbrev experiment_body : ExperimentCreate
experiment_body = record { project_id = 2; name = "F"; description = ""; tags = [] }

sample-IsReferenced : IsReferenced (sample running)
unfolding find
sample-IsReferenced = record { projects = (refl, tt); experiments = (refl, (refl, tt)) }

create_experiment-DistinctNames_example :
    Holds
      (λ _ db'. DistinctNames identity as_is db'.experiments)
      (create_experiment identity as_is 300 experiment_body author (sample running))
create_experiment-DistinctNames_example =
    create_experiment-DistinctNames identity as_is 300 experiment_body author (sample running)
      (λ s. refl) (tt, tt)

all_names-IsOrder : IsOrder same_names
all_names-IsOrder = record { total = λ a b h. refl; transitive = λ a b c h k. refl }

select_worker-Chosen_example :
    Chosen same_names settings no_locks 200
      (sample_run 6 queued)
      (select_worker same_names settings no_locks 200 (sample_run 6 queued) (sample running))
      (sample running)
select_worker-Chosen_example =
    select_worker-Chosen same_names settings no_locks 200 (sample_run 6 queued) (sample running)
      (sample-IsConsistent running refl) all_names-IsOrder
