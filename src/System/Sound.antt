-- ===== src/System/Sound.antt =====
-- The invariants of the platform and the history of its runs, over any sequence of actions.
use runscope.Prelude.{ℕ, zero, suc, List, [], ◌∷◌, some, All, All-map}
use runscope.Models.{Uuid, Run}
use runscope.Models.Store.{Db, Result, ok, err, get_run}
use runscope.Models.Store.Done.{Holds}
use runscope.Platform.{IsConsistent}
use runscope.Platform.History.{
  Later, Later-refl, Later-trans, Evolves, Evolves-weaken, Known, Known-any,
}
use runscope.Catalog.References.{IsReferenced}
use runscope.Catalog.Apart.{Apart, Apart-IsConsistent}
use runscope.System.{System, committed, held_run, for_held}
use runscope.System.References.{In, Evolves-IsReferenced}

abbrev pub Any : Uuid → Type 0
Any id = Unit

-- Leases and capacity are in balance, foreign keys name rows, and each run that a session holds is
-- its row or an earlier form of it.
pub record IsSound (s : System) : Type 0 where
  pub consistent : IsConsistent s.db
  pub referenced : IsReferenced s.db
  pub known : All (λ run. Known Any run s.db) s.held

-- The rows of runs move along the lifecycle.
abbrev pub Forward : Db → Db → Type 0
Forward db db' = (j : Uuid) → Later Any (get_run j db) (get_run j db')

pub record Advances (s s' : System) : Type 0 where
  pub sound : IsSound s'
  pub forward : Forward s.db s'.db

pub Advances-refl : (s : System) → IsSound s → Advances s s
Advances-refl s h = record { sound = h; forward = λ j. Later-refl Any (get_run j s.db) }

pub Advances-trans : (s t u : System) → Advances s t → Advances t u → Advances s u
Advances-trans s t u a b = record {
  sound = b.sound;
  forward = λ j. Later-trans Any (get_run j s.db) _ (get_run j u.db) (a.forward j) (b.forward j);
}

Known-later :
    (db db' : Db) (held : List Run)
    → Forward db db'
    → All (λ run. Known Any run db) held
    → All (λ run. Known Any run db') held
unfolding Known
Known-later db db' held f h =
    All-map _ _ held
      (λ (run : Run) k. Later-trans Any (some run) (get_run run.id db) _ k (f run.id)) h

-- A transaction on runs.
pub by_runs :
    (s : System) (db' : Db)
    → IsSound s
    → IsConsistent db'
    → Evolves (In s.db) s.db db'
    → Advances s (record s { db = db' })
by_runs s db' h c e =
    let forward = (Evolves-weaken (In s.db) Any s.db db' (λ _ _. tt) e).rows in
    record {
      sound = record {
        consistent = c;
        referenced = Evolves-IsReferenced s.db db' c h.referenced e;
        known = Known-later s.db db' s.held forward h.known;
      };
      forward = forward;
    }

-- The same, where the session holds one more run.
pub by_holding :
    (s : System) (db' : Db) (run : Run)
    → IsSound s
    → IsConsistent db'
    → Evolves (In s.db) s.db db'
    → Known (In s.db) run db'
    → Advances s (record { db = db'; held = run ∷ s.held })
by_holding s db' run h c e k =
    let a = by_runs s db' h c e in
    record {
      sound = record {
        consistent = c;
        referenced = a.sound.referenced;
        known = (Known-any (In s.db) Any run db' k, a.sound.known);
      };
      forward = a.forward;
    }

pub writes_runs :
    {A : Type 0} (s : System) (r : Result (A × Db))
    → IsSound s
    → Holds (λ _. IsConsistent) r
    → Holds (λ _. Evolves (In s.db) s.db) r
    → Advances s (record s { db = committed r s.db })
writes_runs s (ok (a, db')) h c e = by_runs s db' h c e
writes_runs s (err e) h c k = Advances-refl s h

-- A transaction on projects and experiments.
pub writes_catalog :
    {A : Type 0} (s : System) (r : Result (A × Db))
    → IsSound s
    → Holds (λ _. IsReferenced) r
    → Holds (λ _. Apart s.db) r
    → Advances s (record s { db = committed r s.db })
writes_catalog s (ok (a, db')) h r k =
    let forward : Forward s.db db' = λ j. rw k.runs (Later-refl Any (get_run j s.db)) in
    record {
      sound = record {
        consistent = Apart-IsConsistent s.db db' k h.consistent;
        referenced = r;
        known = Known-later s.db db' s.held forward h.known;
      };
      forward = forward;
    }
writes_catalog s (err e) h r k = Advances-refl s h

at_place :
    (s : System) (f : Run → System → System) (n : ℕ) (runs : List Run)
    → IsSound s
    → ((run : Run) → Known Any run s.db → Advances s (f run s))
    → All (λ run. Known Any run s.db) runs
    → Advances s (for_held (held_run n runs) f s)
at_place s f n [] h step k = Advances-refl s h
at_place s f zero (run ∷ runs) h step k = step run k.0
at_place s f (suc n) (run ∷ runs) h step k = at_place s f n runs h step k.1

pub for_held-Advances :
    (s : System) (i : ℕ) (f : Run → System → System)
    → IsSound s
    → ((run : Run) → Known Any run s.db → Advances s (f run s))
    → Advances s (for_held (held_run i s.held) f s)
for_held-Advances s i f h step = at_place s f i s.held h step h.known
