-- ===== src/Execution/History.antt =====
-- run_execution.py: every transaction of an execution moves runs along the lifecycle only, with the
-- run that the session still holds in memory, and the version test of the flush.
use runscope.Prelude.{
  Bool, true, false, ◌+◌, ◌≡◌, refl, subst, String, [], ◌∷◌, Option, none, some, inl, inr, arith,
  Bool-cases,
}
use runscope.Models.{
  Uuid, Timestamp, Dict, RunStatus, scheduling, running, succeeded, failed, Run, ResourceAllocation,
  TrainingTemplate, uuid, status_eq,
}
use runscope.Models.Store.{
  Db, Error, Result, ok, err, for_each, get_run, get_template, add_event, save_run, flush_run,
  current_version,
}
use runscope.Models.Store.Done.{Holds, Holds-map, Holds-and_then, Holds-lift, Holds-for_each}
use runscope.StateMachine.{enter, transition_event}
use runscope.StateMachine.Lifecycle.{◌⟶◌, ◌⟶*◌, here, next, Holds-transition_run}
use runscope.Platform.History.{
  release-tables, tables, request, Known, Known-Evolves, Known-row, Known-found, Known-current,
  save_run-row, Evolves, Evolves-same, Evolves-trans, save_run-Evolves,
}
use runscope.Templates.{Validated, External, registry_get, validate_parameters}
use runscope.Execution.{
  Begin, skipped, started, lease_denied, start_run, begin_with, begin_found, begin_execution,
  end_run, upload, put_result, result_or_raise, template_or_raise, run_parameters,
  attempt_classification, blame, fail_found, or_fail, finish_classification,
}

module _ (Exists : Uuid → Type 0) where
  -- What a transaction leaves: the rows evolved, and the run in memory is known.
  abbrev pub Steps : Db → Run → Db → Type 0
  Steps before run after = Evolves Exists before after × Known Exists run after

  flush_run-Steps :
      (run run' : Run) (db : Db)
      → Known Exists run db
      → run'.id ≡ run.id
      → run'.version ≡ run.version
      → request run' ≡ request run
      → run.status ⟶* run'.status
      → Holds (Steps db) (flush_run run' db)
  unfolding flush_run
  flush_run-Steps run run' db known id version fixed path =
      elim (Bool-cases (current_version run' (get_run run'.id db))) [
        | inl e ↦
            let found : get_run run'.id db ≡ some run =
              Known-current Exists run run' db known id version e in
            rw e (
              save_run-Evolves Exists run' run db found version fixed path,
              Known-row Exists (record run' { version = run'.version + 1 }) (save_run run' db)
                  (save_run-row run' run db found),
            )
        | inr e ↦ rw e tt
      ]

  -- Changes of other tables before the flush.
  Steps-after :
      (db db' db'' : Db) (run : Run)
      → tables db' ≡ tables db
      → Steps db' run db''
      → Steps db run db''
  Steps-after db db' db'' run same h =
      (Evolves-trans Exists db db' db'' (Evolves-same Exists db db' same) h.0, h.1)

  pub Known-same :
      (run : Run) (db db' : Db)
      → tables db' ≡ tables db
      → Known Exists run db
      → Known Exists run db'
  Known-same run db db' same h = Known-Evolves Exists run db db' h (Evolves-same Exists db db' same)

  module _ (external : External) (now : Timestamp) where
    -- `run` is what the session holds, and `run'` that run with other fields assigned.
    pub end_run-Evolves :
        (run run' : Run) (target : RunStatus) (event_type : String) (metadata : Dict) (db : Db)
        → Known Exists run db
        → run'.id ≡ run.id
        → run'.version ≡ run.version
        → request run' ≡ request run
        → run'.status ≡ run.status
        → Holds (λ _. Evolves Exists db) (end_run external now run' target event_type metadata db)
    unfolding end_run enter
    end_run-Evolves run run' target event_type metadata db known id version fixed status =
        let db1 = add_event (transition_event run' target event_type metadata) db in
        Holds-transition_run (λ _. Evolves Exists db) now run' target event_type metadata _ db
          λ edge.
            Holds-and_then (Steps db1) (λ _. Evolves Exists db)
              (flush_run (enter now target run') db1) _
              (flush_run-Steps run (enter now target run') db1 (Known-same run db db1 refl known) id
                version fixed (next (subst (λ s. s ⟶ target) status edge) here))
              (λ run'' db2 s.
                Evolves-trans Exists db db2 _
                  (Evolves-trans Exists db db1 db2 (Evolves-same Exists db db1 refl) s.0)
                  (Evolves-same Exists db2 _ (release-tables now run'.id db2)))

    attempt-Evolves :
        (run : Run) (template : TrainingTemplate) (validated : Validated) (db : Db)
        → Known Exists run db
        → Holds
            (λ _. Evolves Exists db)
            (attempt_classification external now run template validated db)
    unfolding attempt_classification
    attempt-Evolves run template validated db known =
        Holds-lift (λ _. Evolves Exists db)
          (result_or_raise external now (registry_get template.key template.version) validated) _ db
          λ result _.
            Holds-and_then (λ _ db'. tables db' ≡ tables db) (λ _. Evolves Exists db)
              (for_each result.artifacts (upload external now run.id) _) _
              (Holds-for_each (λ db'. tables db' ≡ tables db) result.artifacts
                (upload external now run.id) _
                (λ g db' same.
                  Holds-lift (λ _ db''. tables db'' ≡ tables db)
                    (put_result external now (external.put (run.id, g.name) g.content g.mime_type))
                    _ db' λ _ _. same)
                refl)
              (λ _ db' same.
                Holds-map (Evolves Exists db') (Evolves Exists db)
                  (end_run external now run succeeded _ _ db')
                  (λ db''. Evolves-trans Exists db db' db'' (Evolves-same Exists db db' same))
                  (end_run-Evolves run run succeeded _ _ db' (Known-same run db db' same known) refl
                    refl refl refl))

    abbrev SameRow : Run → Run → Type 0
    SameRow run run' =
        (run'.id ≡ run.id)
        × (run'.version ≡ run.version)
        × (request run' ≡ request run)
        × (run'.status ≡ run.status)

    blame-SameRow : (error : Error) (run : Run) → SameRow run (blame external now error run)
    blame-SameRow error run = ground arith

    or_fail-Evolves :
        (run : Run) (db : Db) (begun : Bool) (r : Result (Run × Db))
        → Known Exists run db
        → Holds (λ _. Evolves Exists db) r
        → Holds (λ _. Evolves Exists db) (or_fail external now run db begun r)
    unfolding fail_found
    or_fail-Evolves run db begun (ok done) known h = h
    or_fail-Evolves run db true (err error) known h = tt
    or_fail-Evolves run db false (err error) known h =
        let (id, version, fixed, status) = blame-SameRow error run in
        end_run-Evolves run (blame external now error run) failed "run.failed" [] db known id
          version fixed status

    pub finish_classification-Evolves :
        (run : Run) (template : TrainingTemplate) (validated : Validated) (db : Db)
        → Known Exists run db
        → Holds
            (λ _. Evolves Exists db)
            (finish_classification external now run template validated db)
    unfolding finish_classification
    finish_classification-Evolves run template validated db known =
        or_fail-Evolves run db _ (attempt_classification external now run template validated db)
          known (attempt-Evolves run template validated db known)

    -- The run that a transaction hands on, with its commit.
    abbrev pub HandsOn : Db → Begin → Db → Type 0
    HandsOn before (skipped run) after = Evolves Exists before after
    HandsOn before (started run template validated) after = Steps before run after

    start_run-Steps :
        (run : Run) (a : ResourceAllocation) (db : Db)
        → Known Exists run db
        → Holds (HandsOn db) (start_run external now run a db)
    unfolding start_run enter
    start_run-Steps run a db known =
        Holds-lift (HandsOn db) (template_or_raise (get_template run.template_id db)) _ db
          λ template _.
            Holds-lift (HandsOn db)
              (validate_parameters external template (run_parameters run.id db)) _ db
              λ validated _.
                let metadata = ("worker_id", uuid a.worker_id) ∷ ("lease_id", uuid a.id) ∷ [] in
                let db1 = add_event (transition_event run running "run.started" metadata) db in
                Holds-transition_run (HandsOn db) now run running "run.started" metadata _ db
                  λ edge.
                    Holds-and_then (Steps db1) (HandsOn db) (flush_run (enter now running run) db1)
                      _
                      (flush_run-Steps run (enter now running run) db1
                        (Known-same run db db1 refl known) refl refl refl (next edge here))
                      (λ run' db2 s. Steps-after db db1 db2 run' refl s)

    begin_with-Steps :
        (run : Run) (worker token : Option Uuid) (o : Option ResourceAllocation) (db : Db)
        → Known Exists run db
        → Holds (HandsOn db) (begin_with external now run worker token o db)
    unfolding begin_with
    begin_with-Steps run worker token none db known = Evolves-same Exists db db refl
    begin_with-Steps run worker token (some a) db known =
        elim (Bool-cases (lease_denied worker token (some a))) [
          | inl denied ↦ rw denied (Evolves-same Exists db db refl)
          | inr granted ↦ rw granted (start_run-Steps run a db known)
        ]

    begin_found-Steps :
        (o : Option Run) (worker token : Option Uuid) (db : Db)
        → ((run : Run) → o ≡ some run → Known Exists run db)
        → Holds (HandsOn db) (begin_found external now o worker token db)
    unfolding begin_found
    begin_found-Steps none worker token db known = Evolves-same Exists db db refl
    begin_found-Steps (some run) worker token db known =
        elim (Bool-cases (status_eq run.status scheduling)) [
          | inl e ↦ rw e (begin_with-Steps run worker token _ db (known run refl))
          | inr e ↦ rw e (Evolves-same Exists db db refl)
        ]

    pub begin_execution-Steps :
        (run_id : Uuid) (worker token : Option Uuid) (db : Db)
        → Holds (HandsOn db) (begin_execution external now run_id worker token db)
    unfolding begin_execution
    begin_execution-Steps run_id worker token db =
        begin_found-Steps (get_run run_id db) worker token db
          λ run e. Known-found Exists run_id run db e
