-- ===== src/Execution/Fencing.antt =====
-- run_execution.py: who may start a run. The lease of an assignment fences off every other worker.
use runscope.Prelude.{
  ◌≡◌, refl, subst, ◌⊎◌, Option, none, some, Bool, true, false, ◌||◌, inl, inr, find-key, first_row,
  arith, Bool-cases, Option-cases,
}
use runscope.Models.{Uuid, Timestamp, RunStatus, scheduling, Run, ResourceAllocation, status_eq}
use runscope.Models.Store.{Db, Result, ok, get_run}
use runscope.Registry.{active_of_run}
use runscope.Templates.{External}
use runscope.Execution.{
  Begin, skipped, differs, lease_denied, begin_with, begin_found, begin_execution,
}

-- The allocation is what the assignment says, where the assignment says it.
abbrev pub Agrees : Uuid → Option Uuid → Type 0
Agrees actual expected = (e : Uuid) → expected ≡ some e → actual ≡ e

-- The first active allocation of the run, held by the worker and under the token expected.
abbrev pub Granted : Option Uuid → Option Uuid → Uuid → Db → Type 0
Granted worker token run_id db =
    (a : ResourceAllocation) × (first_row (active_of_run run_id) db.allocations ≡ some a)
    × Agrees a.worker_id worker
    × Agrees a.lease_token token

differs-Agrees :
    (actual : Uuid) (expected : Option Uuid)
    → differs actual expected ≡ false
    → Agrees actual expected
differs-Agrees actual none h e q = cc
differs-Agrees actual (some x) h e q = ground arith

Agrees-differs :
    (actual : Uuid) (expected : Option Uuid)
    → Agrees actual expected
    → differs actual expected ≡ false
Agrees-differs actual none h = refl
Agrees-differs actual (some x) h = ground (arith, h x refl)

neither : (a b : Bool) → (a || b) ≡ false → (a ≡ false) × (b ≡ false)
neither a b h = ground arith

module _ (external : External) (now : Timestamp) where
  abbrev Skips : Run → Result (Begin × Db) → Db → Type 0
  Skips run r db = r ≡ ok (skipped (some run), db)

  begin_with-fenced :
      (run : Run) (worker token : Option Uuid) (o : Option ResourceAllocation) (db : Db)
      → first_row (active_of_run run.id) db.allocations ≡ o
      → Granted worker token run.id db
        ⊎ (begin_with external now run worker token o db ≡ ok (skipped (some run), db))
  unfolding begin_with
  begin_with-fenced run worker token none db e = inr refl
  begin_with-fenced run worker token (some a) db e =
      elim (Bool-cases (lease_denied worker token (some a))) [
        | inl denied ↦ inr (rw denied refl)
        | inr granted ↦
            let (same_worker, same_token) =
              neither (differs a.worker_id worker) (differs a.lease_token token) granted in
            inl (
              a,
              e,
              differs-Agrees a.worker_id worker same_worker,
              differs-Agrees a.lease_token token same_token,
            )
      ]

  scheduling_of_rank : (s : RunStatus) → status_eq s scheduling ≡ true → s ≡ scheduling
  scheduling_of_rank s h = ground arith

  -- A run starts only from SCHEDULING, and only for the worker and under the token of its active
  -- allocation. In every other case the call reports the run as it is, or that there is none, and
  -- changes nothing.
  pub begin_execution-fenced :
      (run_id : Uuid) (worker token : Option Uuid) (db : Db)
      → ((run : Run) × (get_run run_id db ≡ some run)
          × (run.status ≡ scheduling)
          × Granted worker token run_id db)
        ⊎ (begin_execution external now run_id worker token db
            ≡ ok (skipped (get_run run_id db), db))
  unfolding begin_execution begin_found
  begin_execution-fenced run_id worker token db = elim (Option-cases (get_run run_id db)) [
    | inl missing ↦ inr (rw missing refl)
    | inr (run, found) ↦
        let same : run.id ≡ run_id = find-key (λ (r : Run). r.id) run_id db.runs {x = run} found in
        elim (Bool-cases (status_eq run.status scheduling)) [
          | inr other ↦ inr (rw (found, other) refl)
          | inl waits ↦
              elim (begin_with-fenced run worker token
                (first_row (active_of_run run.id) db.allocations) db refl) [
                  | inl granted ↦ inl (
                    run,
                    found,
                    scheduling_of_rank run.status waits,
                    subst (λ k. Granted worker token k db) same granted,
                  )
                  | inr skips ↦ inr (rw (found, waits, skips) refl)
                ]
        ]
  ]
