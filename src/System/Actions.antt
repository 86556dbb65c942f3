-- ===== src/System/Actions.antt =====
-- Every action keeps the invariants of the platform and moves runs along the lifecycle.
use runscope.Prelude.{ℕ, ◌≡◌, refl, String, List, arith}
use runscope.Models.{Uuid, Timestamp, User, OutboxMessage, ProcessedMessage}
use runscope.Models.Store.{Db, Settings, Result, ok, err}
use runscope.Models.Store.Done.{Holds, Holds-lift, Holds-or_raise}
use runscope.Platform.{IsConsistent, keep_IsConsistent}
use runscope.Platform.History.{Evolves, Evolves-same, tables}
use runscope.Registry.{register_worker, heartbeat_worker}
use runscope.Registry.Heartbeat.{register-IsConsistent, heartbeat-IsConsistent}
use runscope.Security.{administrator_user}
use runscope.Templates.{External}
use runscope.Workers.{WorkerRegister, register, heartbeat}
use runscope.Execution.{Begin, skipped, started}
use runscope.Execution.Slow.{Checkpoint, stopped, continues}
use runscope.Execution.History.{HandsOn}
use runscope.Execution.SlowHistory.{KeepsRun}
use runscope.System.{System, begun, checked}
use runscope.System.References.{In}
use runscope.System.Sound.{IsSound, Advances, Advances-refl, by_runs, by_holding}

register_worker-tables :
    (now : Timestamp) (name : String) (cpu memory : ℕ) (db : Db)
    → tables (register_worker now name cpu memory db).1 ≡ tables db
unfolding register_worker
register_worker-tables now name cpu memory db = ground arith

heartbeat_worker-tables :
    (now : Timestamp) (id : Uuid) (lease : ℕ) (db : Db)
    → tables (heartbeat_worker now id lease db).1 ≡ tables db
unfolding heartbeat_worker
heartbeat_worker-tables now id lease db = ground arith

module _ (settings : Settings) (now : Timestamp) (strip : String → String) where
  pub register-Steps :
      (body : WorkerRegister) (caller : User) (db : Db)
      → IsConsistent db
      → Holds
          (λ _ db'. IsConsistent db' × Evolves (In db) db db')
          (register settings now strip body caller db)
  unfolding register
  register-Steps body caller db h =
      Holds-lift (λ _ db'. IsConsistent db' × Evolves (In db) db db') (administrator_user caller) _
        db
        λ _ _. (
          register-IsConsistent now (strip body.name) body.total_cpu body.total_memory_mb db h,
          Evolves-same (In db) db _
              (register_worker-tables now (strip body.name) body.total_cpu body.total_memory_mb db),
        )

  pub heartbeat-Steps :
      (worker_id : Uuid) (caller : User) (db : Db)
      → IsConsistent db
      → Holds
          (λ _ db'. IsConsistent db' × Evolves (In db) db db')
          (heartbeat settings now strip worker_id caller db)
  unfolding heartbeat
  heartbeat-Steps worker_id caller db h =
      let beaten = heartbeat_worker now worker_id settings.allocation_lease_seconds db in
      Holds-lift (λ _ db'. IsConsistent db' × Evolves (In db) db db') (administrator_user caller) _
        db
        λ _ _.
          Holds-or_raise (λ _ db'. IsConsistent db' × Evolves (In db) db db') beaten.0
            "worker_not_found" 404 _ beaten.1
            λ w e. (
              heartbeat-IsConsistent now worker_id settings.allocation_lease_seconds db h,
              Evolves-same (In db) db _
                  (heartbeat_worker-tables now worker_id settings.allocation_lease_seconds db),
            )

-- Messages are outside of all that the invariants read.
pub message-Advances :
    (s : System) (outbox : List OutboxMessage) (processed : List ProcessedMessage)
    → IsSound s
    → Advances s (record s { db = record s.db { outbox = outbox; processed = processed } })
message-Advances s outbox processed h =
    let db' = record s.db { outbox = outbox; processed = processed } in
    by_runs s db' h
      (keep_IsConsistent s.db db' (omega arith) refl refl h.consistent.leased h.consistent.balanced
        h.consistent)
      (Evolves-same (In s.db) s.db db' refl)

pub begun-Advances :
    (external : External) (now : Timestamp) (s : System) (r : Result (Begin × Db))
    → IsSound s
    → Holds (λ _. IsConsistent) r
    → Holds (HandsOn (In s.db) external now s.db) r
    → Advances s (begun r s)
begun-Advances external now s (ok (skipped run, db')) h c e = by_runs s db' h c e
begun-Advances external now s (ok (started run template validated, db')) h c e =
    by_holding s db' run h c e.0 e.1
begun-Advances external now s (err x) h c e = Advances-refl s h

pub checked-Advances :
    (external : External) (encode : ℕ → List ℕ) (now : Timestamp) (s : System)
    (r : Result (Checkpoint × Db))
    → IsSound s
    → Holds (λ _. IsConsistent) r
    → Holds (KeepsRun (In s.db) external now encode s.db) r
    → Advances s (checked r s)
checked-Advances external encode now s (ok (stopped run, db')) h c e = by_runs s db' h c e
checked-Advances external encode now s (ok (continues run, db')) h c e =
    by_holding s db' run h c e.0 e.1
checked-Advances external encode now s (err x) h c e = Advances-refl s h

-- What a transaction on runs shows, as one statement.
pub Holds-both :
    {A : Type 0} (P Q : Db → Type 0) (r : Result (A × Db))
    → Holds (λ _ db'. P db' × Q db') r
    → Holds (λ _. P) r × Holds (λ _. Q) r
Holds-both P Q (ok (a, db)) h = h
Holds-both P Q (err e) h = (tt, tt)
