-- ===== src/Commands/Effects.antt =====
-- api/runs.py: to whom the commands on a run are open, and what cancelling does.
use mathlib.Core.Option.{some-injective}
use runscope.Prelude.{
  ◌+◌, ◌≡◌, refl, sym, subst, ap, ◌∙◌, Option-cases, ◌⊎◌, String, List, [], ◌∷◌, none, some, true,
  false, inl, inr, ◌==◌, find, save, find-key, find-save, length, arith, Bool-cases,
}
use runscope.Models.{
  Uuid, Timestamp, Run, RunStatus, running, cancelling, User, Role, viewer, researcher,
  administrator, status_eq,
}
use runscope.Models.Store.{
  Db, Settings, Result, app_error, runtime_error, key_error, artifact_storage_error, stale_data, ok,
  err, app, Tx, and_then, get_run,
}
use runscope.Models.Store.Done.{Done}
use runscope.StateMachine.{enter}
use runscope.StateMachine.Lifecycle.{transition_run-ok}
use runscope.Security.{role_in, require_roles, researcher_user, ensure_run_control}
use runscope.Commands.{add_outbox_event, controlled_run, cancel_run}

-- An administrator may change every run, a researcher those that are their own.
abbrev pub May : User → Run → Type 0
May user run = (user.role ≡ administrator) ⊎ ((user.role ≡ researcher) × (run.created_by ≡ user.id))

-- The run exists, is open to the caller and has the status.
abbrev pub Open : RunStatus → User → Uuid → Db → Type 0
Open status caller run_id db =
    (run : Run) × (get_run run_id db ≡ some run) × May caller run × (run.status ≡ status)

-- One of the three refusals of a command: 403, 404 or 409.
abbrev pub Refused : {A : Type 0} → Result A → Type 0
Refused (err (app_error e)) =
    (e.status_code ≡ 403) ⊎ ((e.status_code ≡ 404) ⊎ (e.status_code ≡ 409))
Refused _ = ⊥

-- A RUNNING run is marked, its other columns stay, and so does every other run; one message and
-- no more goes to the outbox.
pub record Cancelled (run_id : Uuid) (run : Run) (db db' : Db) : Type 0 where
  pub marked :
      get_run run_id db' ≡ some (record run { status = cancelling; version = run.version + 1 })
  pub others : (j : Uuid) → (run_id == j) ≡ false → get_run j db' ≡ get_run j db
  pub one_message : length db'.outbox ≡ length db.outbox + 1
  pub leases_stay : (db'.allocations ≡ db.allocations) × (db'.workers ≡ db.workers)

Refused-and_then :
    {A B : Type 0} (r : Result (A × Db)) (f : A → Tx B) → Refused r → Refused (and_then r f)
Refused-and_then (ok a) f h = absurd h
Refused-and_then (err (app_error e)) f h = h
Refused-and_then (err (runtime_error m)) f h = absurd h
Refused-and_then (err key_error) f h = absurd h
Refused-and_then (err artifact_storage_error) f h = absurd h
Refused-and_then (err stale_data) f h = absurd h

running_of_rank : (s : RunStatus) → status_eq s running ≡ true → s ≡ running
running_of_rank s e = ground arith

pub saved_here :
    (j : Uuid) (row old : Run) (rows : List Run)
    → row.id ≡ j
    → find (λ (r : Run). r.id) j rows ≡ some old
    → find (λ (r : Run). r.id) j (save (λ (r : Run). r.id) row rows) ≡ some row
saved_here j row old rows e h = ground (arith, find-save (λ (r : Run). r.id) j row rows)

pub saved_other :
    (j k : Uuid) (row : Run) (rows : List Run)
    → row.id ≡ j
    → (j == k) ≡ false
    → find (λ (r : Run). r.id) k (save (λ (r : Run). r.id) row rows)
      ≡ find (λ (r : Run). r.id) k rows
saved_other j k row rows e h = ground (arith, find-save (λ (r : Run). r.id) k row rows)

module _ (settings : Settings) (correlation_id : String) (now : Timestamp) where
  control_follows :
      (caller : User) (run : Run)
      → (May caller run
          × (researcher_user caller ≡ ok caller)
          × (ensure_run_control caller run ≡ ok tt))
        ⊎ (¬ May caller run
            × ((researcher_user caller ≡ app "permission_denied" 403)
                ⊎ ((researcher_user caller ≡ ok caller)
                    × (ensure_run_control caller run ≡ app "run_control_denied" 403))))
  unfolding researcher_user ensure_run_control require_roles
  control_follows caller run = by_role caller.role refl
    where
      by_role :
          (role : Role)
          → caller.role ≡ role
          → (May caller run
              × (researcher_user caller ≡ ok caller)
              × (ensure_run_control caller run ≡ ok tt))
            ⊎ (¬ May caller run
                × ((researcher_user caller ≡ app "permission_denied" 403)
                    ⊎ ((researcher_user caller ≡ ok caller)
                        × (ensure_run_control caller run ≡ app "run_control_denied" 403))))
      by_role viewer e = ground arith
      by_role administrator e = ground arith
      by_role researcher e = elim (Bool-cases (run.created_by == caller.id)) [
        | inl own ↦ ground arith
        | inr foreign ↦ ground arith
      ]

  abbrev Answer : Uuid → User → Db → Type 0
  Answer run_id caller db =
      ((run : Run) × (get_run run_id db ≡ some run)
        × May caller run
        × (controlled_run settings correlation_id now run_id caller db ≡ ok (run, db)))
      ⊎ (((s : RunStatus) → ¬ Open s caller run_id db)
          × Refused (controlled_run settings correlation_id now run_id caller db))

  controlled_missing :
      (run_id : Uuid) (caller : User) (db : Db) → get_run run_id db ≡ none → Answer run_id caller db
  unfolding researcher_user require_roles
  controlled_missing run_id caller db missing = inr (
    λ s (run, found, may, status). cc,
    elim (Bool-cases (role_in caller.role (researcher ∷ administrator ∷ []))) [
      | inl e ↦ rw (e, missing) (inr (inl refl))
      | inr e ↦ rw e (inl refl)
    ],
  )

  controlled_present :
      (run_id : Uuid) (caller : User) (run : Run) (db : Db)
      → get_run run_id db ≡ some run
      → Answer run_id caller db
  controlled_present run_id caller run db found = elim (control_follows caller run) [
    | inl (may, staff, owns) ↦ inl (run, found, may, rw (staff, found, owns))
    | inr (may_not, denied) ↦ inr (
      λ s (row, found', may, status).
          may_not (subst (May caller) (some-injective row run (sym found' ∙ found)) may),
      elim denied [ inl e ↦ rw e (inl refl) | inr (staff, e) ↦ rw (staff, found, e) (inl refl) ],
    )
  ]

  controlled_run_follows : (run_id : Uuid) (caller : User) (db : Db) → Answer run_id caller db
  controlled_run_follows run_id caller db = elim (Option-cases (get_run run_id db)) [
    | inl missing ↦ controlled_missing run_id caller db missing
    | inr (run, found) ↦ controlled_present run_id caller run db found
  ]

  pub granted_of :
      (run_id : Uuid) (caller : User) (run : Run) (db : Db)
      → get_run run_id db ≡ some run
      → May caller run
      → controlled_run settings correlation_id now run_id caller db ≡ ok (run, db)
  granted_of run_id caller run db found may = elim (control_follows caller run) [
    | inl (_, staff, owns) ↦ rw (staff, found, owns)
    | inr (may_not, _) ↦ absurd (may_not may)
  ]

  mark-Cancelled :
      (run_id : Uuid) (caller : User) (run : Run) (db : Db)
      → get_run run_id db ≡ some run
      → run.status ≡ running
      → controlled_run settings correlation_id now run_id caller db ≡ ok (run, db)
      → Done
          (λ _. Cancelled run_id run db)
          (cancel_run settings correlation_id now run_id caller db)
  unfolding cancel_run add_outbox_event enter
  mark-Cancelled run_id caller run db found executes granted =
      let same : run.id ≡ run_id = find-key (λ (r : Run). r.id) run_id db.runs {x = run} found in
      let test : status_eq run.status running ≡ true = rw executes in
      rw
        (
          granted,
          test,
          transition_run-ok now run cancelling "run.cancel.requested" [] db (rw executes),
        )
        (record {
          marked = saved_here run_id _ run db.runs same found;
          others = λ j e. saved_other run_id j _ db.runs same e;
          one_message = omega arith;
          leases_stay = (refl, refl);
        })

  -- A caller who may change the run cancels it exactly while it is RUNNING. Then its row is marked
  -- CANCELLING, no other run, lease or worker changes, and one message goes to the outbox. In every
  -- other case the answer is 403, 404 or 409.
  pub cancel_run_follows :
      (run_id : Uuid) (caller : User) (db : Db)
      → ((run : Run) × (get_run run_id db ≡ some run)
          × Done
              (λ _. Cancelled run_id run db)
              (cancel_run settings correlation_id now run_id caller db)
          × Open running caller run_id db)
        ⊎ (¬ Open running caller run_id db
            × Refused (cancel_run settings correlation_id now run_id caller db))
  unfolding cancel_run
  cancel_run_follows run_id caller db = elim (controlled_run_follows run_id caller db) [
    | inl (run, found, may, granted) ↦ elim (Bool-cases (status_eq run.status running)) [
      | inl e ↦
          let executes : run.status ≡ running = running_of_rank run.status e in
          inl (
            run,
            found,
            mark-Cancelled run_id caller run db found executes granted,
            (run, found, may, executes),
          )
      | inr e ↦ inr (
        λ (row, found', may', executes).
            let same : row ≡ run = some-injective row run (sym found' ∙ found) in
            cc (
              ap (λ (r : Run). status_eq r.status running) same,
              ap (λ s. status_eq s running) executes,
            ),
        rw (granted, e) (inr (inr refl)),
      )
    ]
    | inr (closed, refused) ↦ inr (closed running, Refused-and_then _ _ refused)
  ]
