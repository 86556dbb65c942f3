-- ===== src/System/References.antt =====
-- models.py: the foreign keys, where transactions on runs move the rows along.
use runscope.Prelude.{
  rows-found, ◌≡◌, refl, sym, ap, subst, Option, none, some, true, inl, inr, is_some, All-map,
}
use runscope.Models.{Uuid, Run}
use runscope.Models.Store.{Db, get_run, get_experiment}
use runscope.Platform.{IsConsistent}
use runscope.Platform.History.{Later, Evolves}
use runscope.Catalog.References.{IsReferenced}
use runscope.Catalog.Changes.{All-find}

-- The experiment is a row of the database.
abbrev pub In : Db → Uuid → Type 0
In db id = is_some (get_experiment id db) ≡ true

later_reference :
    (E : Uuid → Type 0) (o : Option Run) (s : Run)
    → ((r : Run) → o ≡ some r → E r.experiment_id)
    → Later E o (some s)
    → E s.experiment_id
later_reference E none s old h = h
later_reference E (some r) s old (inl e) = subst (λ x. E x.experiment_id) (sym e) (old r refl)
later_reference E (some r) s old (inr h) = subst E (sym (ap (λ x. x.0) h.2)) (old r refl)

pub Evolves-IsReferenced :
    (db db' : Db) → IsConsistent db' → IsReferenced db → Evolves (In db) db db' → IsReferenced db'
Evolves-IsReferenced db db' c h e = record {
  projects = rw (e.catalog.0, e.catalog.1) h.projects;
  experiments =
      All-map _ _ db'.runs
        (λ r own. rw e.catalog.0 (
          later_reference (In db) (get_run r.id db) r
            (λ old found.
              All-find (λ (r : Run). r.id) (λ (r : Run). In db r.experiment_id) r.id db.runs found
                h.experiments)
            (subst (Later (In db) (get_run r.id db)) own (e.rows r.id))))
        (rows-found (λ (r : Run). r.id) db'.runs c.unique_runs);
}
