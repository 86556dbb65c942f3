-- ===== src/StateMachine/Lifecycle.antt =====
-- What the lifecycle of state_machine.py guarantees.
use runscope.Prelude.{
  ◌≡◌, refl, ◌↔◌, ◌⊎◌, inl, inr, ◌∷◌, String, [], none, true, false, is_some, arith, Bool-cases,
}
use runscope.Models.{
  Timestamp, Dict, RunStatus, Run, draft, queued, scheduling, running, succeeded, failed,
  cancelling, cancelled, retrying, status_eq, status_in,
}
use runscope.Models.Store.{Db, Tx, ◌>>=◌, ok, app, add_event}
use runscope.Models.Store.Done.{Holds}
use runscope.StateMachine.{
  valid_transitions, terminal_statuses, enter, transition_event, transition_run,
}

-- The edges of the state diagram.
infix 40 ◌⟶◌ ◌⟶*◌
pub data ◌⟶◌ : RunStatus → RunStatus → Type 0 where
  submit : draft ⟶ queued
  assign : queued ⟶ scheduling
  start : scheduling ⟶ running
  recover : scheduling ⟶ queued
  succeed : running ⟶ succeeded
  fail : running ⟶ failed
  cancel : running ⟶ cancelling
  acknowledge : cancelling ⟶ cancelled
  retry : failed ⟶ retrying
  requeue : retrying ⟶ queued

pub data ◌⟶*◌ : RunStatus → RunStatus → Type 0 where
  here : {s : RunStatus} → s ⟶* s
  next : {s t u : RunStatus} → s ⟶ t → t ⟶* u → s ⟶* u

ruleset edges = (submit, assign, start, recover, succeed, fail, cancel, acknowledge, retry, requeue)

-- The table of transitions holds exactly the edges of the diagram.
pub valid-of-edge : {s t : RunStatus} → s ⟶ t → status_in t (valid_transitions s) ≡ true
valid-of-edge submit = refl
valid-of-edge assign = refl
valid-of-edge start = refl
valid-of-edge recover = refl
valid-of-edge succeed = refl
valid-of-edge fail = refl
valid-of-edge cancel = refl
valid-of-edge acknowledge = refl
valid-of-edge retry = refl
valid-of-edge requeue = refl

pub edge-of-valid : (s t : RunStatus) → status_in t (valid_transitions s) ≡ true → s ⟶ t
edge-of-valid s t h = grind (arith, edges)

pub transition_run_follows :
    (now : Timestamp) (run : Run) (target : RunStatus) (event_type : String) (metadata : Dict)
    (db : Db)
    → ((run.status ⟶ target)
        × (transition_run now run target event_type metadata db
            ≡ ok (
              enter now target run,
              add_event (transition_event run target event_type metadata) db,
            )))
      ⊎ (¬ (run.status ⟶ target)
          × (transition_run now run target event_type metadata db
              ≡ app "run_invalid_transition" 409))
unfolding transition_run
transition_run_follows now run target event_type metadata db =
    elim (Bool-cases (status_in target (valid_transitions run.status))) [
      | inl e ↦ inl (edge-of-valid run.status target e, rw e)
      | inr e ↦ inr ((λ edge. cc (valid-of-edge edge)), rw e)
    ]

-- A status is one of TERMINAL_STATUSES exactly when no transition leaves it.
pub terminal_iff :
    (s : RunStatus) → (status_in s terminal_statuses ≡ true) ↔ ((t : RunStatus) → ¬ (s ⟶ t))
terminal_iff draft = ((λ h. cc), λ h. absurd (h queued submit))
terminal_iff queued = ((λ h. cc), λ h. absurd (h scheduling assign))
terminal_iff scheduling = ((λ h. cc), λ h. absurd (h running start))
terminal_iff running = ((λ h. cc), λ h. absurd (h succeeded succeed))
terminal_iff succeeded = ((λ h t e. cc (valid-of-edge e)), λ h. refl)
terminal_iff failed = ((λ h. cc), λ h. absurd (h retrying retry))
terminal_iff cancelling = ((λ h. cc), λ h. absurd (h cancelled acknowledge))
terminal_iff cancelled = ((λ h t e. cc (valid-of-edge e)), λ h. refl)
terminal_iff retrying = ((λ h. cc), λ h. absurd (h queued requeue))

-- Every status but CANCELLING and CANCELLED has a way to SUCCEEDED, over retries if need be.
pub ⟶*-succeeded :
    (s : RunStatus) → status_in s (cancelling ∷ cancelled ∷ []) ≡ false → s ⟶* succeeded
⟶*-succeeded draft h = next submit (next assign (next start (next succeed here)))
⟶*-succeeded queued h = next assign (next start (next succeed here))
⟶*-succeeded scheduling h = next start (next succeed here)
⟶*-succeeded running h = next succeed here
⟶*-succeeded succeeded h = here
⟶*-succeeded failed h = next retry (next requeue (next assign (next start (next succeed here))))
⟶*-succeeded retrying h = next requeue (next assign (next start (next succeed here)))
⟶*-succeeded cancelling h = cc
⟶*-succeeded cancelled h = cc

-- Nothing follows a terminal status.
pub ⟶*-terminal : {s t : RunStatus} → status_in s terminal_statuses ≡ true → s ⟶* t → t ≡ s
⟶*-terminal h here = refl
⟶*-terminal {s} h (next {t = u} e p) = absurd ((terminal_iff s).0 h u e)

-- The times that a run in a given status must carry.
pub record IsTimed (r : Run) : Type 0 where
  pub queued_once : status_eq r.status draft ≡ false → is_some r.queued_at ≡ true
  pub started_first :
      status_in r.status (running ∷ succeeded ∷ failed ∷ cancelling ∷ cancelled ∷ retrying ∷ [])
        ≡ true
      → is_some r.started_at ≡ true
  pub completed_last :
      status_in r.status (succeeded ∷ failed ∷ cancelled ∷ retrying ∷ []) ≡ true
      → is_some r.completed_at ≡ true

-- A run as the platform creates it.
pub record IsNew (r : Run) : Type 0 where
  pub in_draft : r.status ≡ draft
  pub not_started : r.started_at ≡ none
  pub not_completed : r.completed_at ≡ none

-- The runs that accepted transitions make of `r`.
pub data Lived (r : Run) : Run → Type 0 where
  created : Lived r r
  entered :
      {s : Run} (now : Timestamp) (t : RunStatus)
      → Lived r s
      → s.status ⟶ t
      → Lived r (enter now t s)

-- An accepted transition keeps the times complete.
pub enter-IsTimed :
    (now : Timestamp) (t : RunStatus) (r : Run)
    → status_in t (valid_transitions r.status) ≡ true
    → IsTimed r
    → IsTimed (enter now t r)
unfolding enter
enter-IsTimed now draft r e h = ground arith
enter-IsTimed now _ r e h = ground arith

IsNew-IsTimed : {r : Run} → IsNew r → IsTimed r
IsNew-IsTimed {r} n = ground arith

-- Whatever accepted transitions a new run goes through, it carries the times that its status asks
-- for: a queueing time after DRAFT, a starting time from RUNNING on, a completion time once it has
-- succeeded, failed or been cancelled.
pub Lived-IsTimed : {r s : Run} → IsNew r → Lived r s → IsTimed s
Lived-IsTimed n created = IsNew-IsTimed n
Lived-IsTimed n (entered {s = s} now t l e) =
    enter-IsTimed now t s (valid-of-edge e) (Lived-IsTimed n l)

-- Transitions leave what a run asks for, its lineage and its text alone, and never move the time at
-- which it was first queued.
pub record SameRequest (r s : Run) : Type 0 where
  pub same_id : s.id ≡ r.id
  pub same_cpu : s.requested_cpu ≡ r.requested_cpu
  pub same_memory : s.requested_memory_mb ≡ r.requested_memory_mb
  pub same_attempt : s.attempt_number ≡ r.attempt_number
  pub same_parent : s.parent_run_id ≡ r.parent_run_id
  pub same_version : s.version ≡ r.version
  pub queued_kept : is_some r.queued_at ≡ true → s.queued_at ≡ r.queued_at

enter-SameRequest :
    (now : Timestamp) (t : RunStatus) (r s : Run) → SameRequest r s → SameRequest r (enter now t s)
unfolding enter
enter-SameRequest now t r s h = ground arith

-- Whatever accepted transitions a run goes through, its identifier, its resource request, its
-- attempt number, its parent and the row version stay, and a queueing time once set stays.
pub Lived-SameRequest : {r s : Run} → Lived r s → SameRequest r s
Lived-SameRequest created = record {
  same_id = refl;
  same_cpu = refl;
  same_memory = refl;
  same_attempt = refl;
  same_parent = refl;
  same_version = refl;
  queued_kept = λ _. refl;
}
Lived-SameRequest {r} (entered {s = s} now t l e) =
    enter-SameRequest now t r s (Lived-SameRequest l)

-- The accepted case, as an equation to rewrite by.
pub transition_run-ok :
    (now : Timestamp) (run : Run) (target : RunStatus) (event_type : String) (metadata : Dict)
    (db : Db)
    → status_in target (valid_transitions run.status) ≡ true
    → transition_run now run target event_type metadata db
      ≡ ok (enter now target run, add_event (transition_event run target event_type metadata) db)
unfolding transition_run
transition_run-ok now run target event_type metadata db e = rw e

-- What follows a transition has to be shown for the accepted case only.
pub Holds-transition_run :
    {B : Type 0} (Q : B → Db → Type 0) (now : Timestamp) (run : Run) (target : RunStatus)
    (event_type : String) (metadata : Dict) (k : Run → Tx B) (db : Db)
    → (run.status ⟶ target
        → Holds Q (
            k
              (enter now target run)
              (add_event (transition_event run target event_type metadata) db)))
    → Holds Q ((transition_run now run target event_type metadata >>= k) db)
Holds-transition_run Q now run target event_type metadata k db h =
    elim (transition_run_follows now run target event_type metadata db) [
      | inl (edge, e) ↦ rw e (h edge)
      | inr (_, e) ↦ rw e tt
    ]
