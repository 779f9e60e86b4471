-- ===== src/Manager/Workers.antt =====
-- Credentials, registration and views of workers (manager.py).
use ephy_worker.Prelude.{ℕ, String, true, not, ◌||◌, ◌==◌, str_eq, is_some, if◌then◌else◌}
use ephy_worker.Prelude.Table.{update, insert}
use ephy_worker.Contract.Input.{WorkerRegistration}
use ephy_worker.Manager.Tables.{
  Db, Config, Worker, Result, ok, raise_if, or_raise, ◌>>=◌, ◌>>◌, unknown_worker, unauthorized,
  worker_id_mismatch, worker_is, worker_row,
}

-- `_check_worker_credential`.
unfoldable pub check_worker_credential : Config → ℕ → String → Result (Unit {0})
check_worker_credential c worker_id credential = do
  expected_env ← or_raise (c.worker_credentials_env worker_id) unknown_worker 401
  let expected = c.environ expected_env
  raise_if (str_eq expected "" || not (str_eq credential expected)) unauthorized 401

registered : ℕ → WorkerRegistration → ℕ → Worker
registered worker_id r now = record {
  worker_id = worker_id;
  capabilities = r.capabilities;
  implementation_version = r.implementation_version;
  contract_version = r.contract;
  os = r.os;
  architecture = r.architecture;
  concurrency = r.concurrency;
  online = true;
  last_heartbeat_at = now;
}

-- `upsert_worker`: INSERT … ON CONFLICT (worker_id) DO UPDATE.
unfoldable pub upsert_worker :
    Config → ℕ → String → WorkerRegistration → ℕ → Db → Result (Db × Worker)
unfolding registered
upsert_worker c worker_id credential r now db = do
  check_worker_credential c worker_id credential
  raise_if (not (r.worker_id == worker_id)) worker_id_mismatch 400
  let row = registered worker_id r now
  ok (
    record db {
      workers =
          if is_some (worker_row db worker_id)
          then update (worker_is worker_id) (λ _. row) db.workers
          else insert row db.workers;
    },
    row,
  )

-- `worker_view`.
unfoldable pub worker_view : Db → ℕ → Result Worker
worker_view db worker_id = or_raise (worker_row db worker_id) unknown_worker 404
