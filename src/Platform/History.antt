-- ===== src/Platform/History.antt =====
-- models.py: the history of the rows of runs. Whatever a transaction writes, a run's row moves along
-- the lifecycle of state_machine.py, and its version counts the changes.
use runscope.Prelude.{
  ℕ, ◌+◌, ◌<◌, ◌≡◌, refl, sym, subst, List, Option, none, some, true, ◌⊎◌, inl, inr, ◌==◌, ==→≡,
  ==_refl, ap, ◌∙◌, find, find-key, find-save, first_row, arith, Bool-cases,
}
use runscope.Models.{
  Uuid, Timestamp, RunStatus, Run, Experiment, Project, Worker, ResourceAllocation,
}
use runscope.Registry.{
  active_of_run, refresh_if_found, with_closed, release_found, release_allocation,
}
use runscope.Models.Store.{Db, get_run, get_worker, save_run, add_run, current_version}
use runscope.StateMachine.Lifecycle.{◌⟶*◌, here, next}

pub ⟶*-trans : {s t u : RunStatus} → s ⟶* t → t ⟶* u → s ⟶* u
⟶*-trans here q = q
⟶*-trans (next e p) q = next e (⟶*-trans p q)

-- What a run keeps from its creation on.
abbrev pub request : Run → Uuid × Uuid × ℕ × ℕ × ℕ × Option Uuid × Uuid × Timestamp
request r = (
  r.experiment_id, r.template_id, r.requested_cpu, r.requested_memory_mb, r.attempt_number,
  r.parent_run_id, r.created_by, r.created_at,
)

-- Later forms of a row: the same, or a higher version with the same request and a status that the
-- lifecycle leads to. A row never disappears, and a new one has an experiment that `Exists`.
abbrev pub Later : (Uuid → Type 0) → Option Run → Option Run → Type 0
Later Exists none none = Unit
Later Exists none (some s) = Exists s.experiment_id
Later Exists (some r) none = ⊥
Later Exists (some r) (some s) =
    (s ≡ r) ⊎ ((r.version < s.version) × (r.status ⟶* s.status) × (request s ≡ request r))

-- The tables that runs refer to.
abbrev pub tables : Db → List Run × List Experiment × List Project
tables db = (db.runs, db.experiments, db.projects)

pub refresh_if_found-tables :
    (o : Option Worker) (db : Db) → tables (refresh_if_found o db) ≡ tables db
unfolding refresh_if_found
refresh_if_found-tables none db = refl
refresh_if_found-tables (some w) db = refl

pub release-tables :
    (now : Timestamp) (run_id : Uuid) (db : Db)
    → tables (release_allocation now run_id db).1 ≡ tables db
unfolding release_allocation
release-tables now run_id db = by_row (first_row (active_of_run run_id) db.allocations)
  where
    by_row : (o : Option ResourceAllocation) → tables (release_found now run_id o db).1 ≡ tables db
    by_row none = refl
    by_row (some a) = refresh_if_found-tables (get_worker a.worker_id (with_closed now run_id db)) _

pub record Evolves (Exists : Uuid → Type 0) (db db' : Db) : Type 0 where
  pub rows : (j : Uuid) → Later Exists (get_run j db) (get_run j db')
  pub catalog : (db'.experiments ≡ db.experiments) × (db'.projects ≡ db.projects)

pub get_run-own :
    (j : Uuid) (run : Run) (db : Db) → get_run j db ≡ some run → get_run run.id db ≡ some run
get_run-own j run db e =
    subst (λ k. get_run k db ≡ some run) (sym (find-key (λ (r : Run). r.id) j db.runs {x = run} e))
      e

pub save_run-row :
    (run old : Run) (db : Db)
    → get_run run.id db ≡ some old
    → get_run run.id (save_run run db) ≡ some (record run { version = run.version + 1 })
save_run-row run old db found =
    rw
      (
        find-save (λ (r : Run). r.id) run.id (record run { version = run.version + 1 }) db.runs,
        found,
        ==_refl run.id,
      )
      refl

module _ (Exists : Uuid → Type 0) where
  pub Later-refl : (o : Option Run) → Later Exists o o
  Later-refl none = tt
  Later-refl (some r) = inl refl

  pub Later-trans : (o p q : Option Run) → Later Exists o p → Later Exists p q → Later Exists o q
  Later-trans none none q h k = k
  Later-trans none (some s) none h k = absurd k
  Later-trans none (some s) (some t) h (inl e) = subst (λ x. Exists x.experiment_id) (sym e) h
  Later-trans none (some s) (some t) h (inr k) = subst Exists (sym (ap (λ x. x.0) k.2)) h
  Later-trans (some r) none q h k = absurd h
  Later-trans (some r) (some s) none h k = absurd k
  Later-trans (some r) (some s) (some t) (inl e) k = subst (λ x. Later Exists (some x) (some t)) e k
  Later-trans (some r) (some s) (some t) (inr h) (inl e) = inr (
      subst (λ x. (r.version < x.version) × (r.status ⟶* x.status) × (request x ≡ request r))
        (sym e) h)
  Later-trans (some r) (some s) (some t) (inr h) (inr k) =
      inr (omega (arith, h.0, k.0), ⟶*-trans h.1 k.1, k.2 ∙ h.2)

  pub Evolves-same : (db db' : Db) → tables db' ≡ tables db → Evolves Exists db db'
  Evolves-same db db' e = record {
    rows = λ j.
        subst (λ t. Later Exists (get_run j db) (find (λ (r : Run). r.id) j t.0)) (sym e)
          (Later-refl (get_run j db));
    catalog = (ap (λ t. t.1) e, ap (λ t. t.2) e);
  }

  pub Evolves-trans :
      (db db' db'' : Db) → Evolves Exists db db' → Evolves Exists db' db'' → Evolves Exists db db''
  Evolves-trans db db' db'' h k = record {
    rows = λ j. Later-trans (get_run j db) _ (get_run j db'') (h.rows j) (k.rows j);
    catalog = (k.catalog.0 ∙ h.catalog.0, k.catalog.1 ∙ h.catalog.1);
  }

  -- The UPDATE of a run that was read in the same transaction.
  pub save_run-Evolves :
      (run old : Run) (db : Db)
      → get_run run.id db ≡ some old
      → run.version ≡ old.version
      → request run ≡ request old
      → old.status ⟶* run.status
      → Evolves Exists db (save_run run db)
  save_run-Evolves run old db found same fixed path = record {
    rows = λ j.
        rw (find-save (λ (r : Run). r.id) j (record run { version = run.version + 1 }) db.runs)
          (elim (Bool-cases (run.id == j)) [
            | inl e ↦
                let there : get_run j db ≡ some old =
                  subst (λ k. get_run k db ≡ some old) (==→≡ run.id j e) found in
                rw (e, there) (inr (omega arith, path, fixed))
            | inr e ↦ rw e (Later-refl (get_run j db))
          ]);
    catalog = (refl, refl);
  }

  -- The INSERT of a run under a fresh identifier.
  pub add_run-Evolves :
      (run : Run) (db : Db)
      → get_run run.id db ≡ none
      → Exists run.experiment_id
      → Evolves Exists db (add_run run db)
  unfolding find
  add_run-Evolves run db missing there = record {
    rows = λ j. elim (Bool-cases (run.id == j)) [
      | inl e ↦
          let absent : get_run j db ≡ none =
            subst (λ k. get_run k db ≡ none) (==→≡ run.id j e) missing in
          rw (e, absent) there
      | inr e ↦ rw e (Later-refl (get_run j db))
    ];
    catalog = (refl, refl);
  }

  -- The same among changes of other tables, for the run with other fields assigned.
  pub moved-Evolves :
      (run run' : Run) (db db' : Db)
      → tables db' ≡ tables (save_run run' db)
      → get_run run.id db ≡ some run
      → run'.id ≡ run.id
      → run'.version ≡ run.version
      → request run' ≡ request run
      → run.status ⟶* run'.status
      → Evolves Exists db db'
  moved-Evolves run run' db db' same found id version fixed path =
      Evolves-trans db (save_run run' db) db'
        (save_run-Evolves run' run db (ap (λ k. get_run k db) id ∙ found) version fixed path)
        (Evolves-same (save_run run' db) db' same)

  -- A run that a session holds is the row, or an earlier form of it.
  unfoldable pub Known : Run → Db → Type 0
  Known run db = Later Exists (some run) (get_run run.id db)

  pub Known-Evolves :
      (run : Run) (db db' : Db) → Known run db → Evolves Exists db db' → Known run db'
  unfolding Known
  Known-Evolves run db db' h k = Later-trans (some run) (get_run run.id db) _ h (k.rows run.id)

  pub Known-row : (run : Run) (db : Db) → get_run run.id db ≡ some run → Known run db
  unfolding Known
  Known-row run db e = rw e (inl refl)

  pub Known-found : (j : Uuid) (run : Run) (db : Db) → get_run j db ≡ some run → Known run db
  Known-found j run db e = Known-row run db (get_run-own j run db e)

  -- The version test of a flush finds the row as it was read.
  pub Known-current :
      (run run' : Run) (db : Db)
      → Known run db
      → run'.id ≡ run.id
      → run'.version ≡ run.version
      → current_version run' (get_run run'.id db) ≡ true
      → get_run run'.id db ≡ some run
  unfolding Known
  Known-current run run' db known id version e =
      row (get_run run'.id db) (subst (λ k. Later Exists (some run) (get_run k db)) (sym id) known)
        e
    where
      row :
          (o : Option Run)
          → Later Exists (some run) o
          → current_version run' o ≡ true
          → o ≡ some run
      row none h e = absurd h
      row (some s) (inl same) e = ap some same
      row (some s) (inr later) e = ground (arith, later.0)

Later-weaken :
    (E F : Uuid → Type 0) (o p : Option Run) → ((x : Uuid) → E x → F x) → Later E o p → Later F o p
Later-weaken E F none none f h = tt
Later-weaken E F none (some s) f h = f s.experiment_id h
Later-weaken E F (some r) none f h = h
Later-weaken E F (some r) (some s) f h = h

pub Evolves-weaken :
    (E F : Uuid → Type 0) (db db' : Db)
    → ((x : Uuid) → E x → F x)
    → Evolves E db db'
    → Evolves F db db'
Evolves-weaken E F db db' f h = record {
  rows = λ j. Later-weaken E F (get_run j db) (get_run j db') f (h.rows j);
  catalog = h.catalog;
}

-- What a session knows of its run does not depend on experiments.
pub Known-any : (E F : Uuid → Type 0) (run : Run) (db : Db) → Known E run db → Known F run db
unfolding Known
Known-any E F run db h = by_row (get_run run.id db) h
  where
    by_row : (o : Option Run) → Later E (some run) o → Later F (some run) o
    by_row none k = k
    by_row (some s) k = k
