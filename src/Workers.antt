-- ===== src/Workers.antt =====
-- api/workers.py: the endpoints of administrators on workers. `strip` is the method of Python's `str`.
use runscope.Prelude.{ℕ, String}
use runscope.Models.{Uuid, Timestamp, Worker, User}
use runscope.Models.Store.{Settings, ok, Tx, ◌>>=◌, lift, or_raise, pure}
use runscope.Security.{administrator_user}
use runscope.Registry.{register_worker, heartbeat_worker}

pub record WorkerRegister : Type 0 where
  pub name : String
  pub total_cpu : ℕ
  pub total_memory_mb : ℕ

module _ (settings : Settings) (now : Timestamp) (strip : String → String) where
  unfoldable pub register : WorkerRegister → User → Tx Worker
  register body caller = do
    _ ← lift (administrator_user caller)
    λ db. ok (register_worker now (strip body.name) body.total_cpu body.total_memory_mb db)

  unfoldable pub heartbeat : Uuid → User → Tx Worker
  heartbeat worker_id caller = do
    _ ← lift (administrator_user caller)
    worker ← λ db. ok (heartbeat_worker now worker_id settings.allocation_lease_seconds db)
    found ← lift (or_raise worker "worker_not_found" 404)
    pure found
