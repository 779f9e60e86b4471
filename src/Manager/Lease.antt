-- ===== src/Manager/Lease.antt =====
-- Leases and cancellation (manager.py: `renew_lease`, `cancel`).
use ephy_worker.Prelude.{
  ℕ, ◌+◌, String, Bool, not, ◌&&◌, ◌||◌, Option, none, some, ◌==◌, ltb, min, is_some, if◌then◌else◌,
}
use ephy_worker.Prelude.Table.{find, update}
use ephy_worker.Manager.Tables.{
  Db, Config, Job, Attempt, State, Result, ok, err, refused, raise_if, or_raise, ◌>>=◌, ◌>>◌,
  job_is, attempt_is, job_row, is_value, is_terminal, is_queued, is_running, unknown_job,
  lease_conflict, attempt_not_active, lease_expired,
}
use ephy_worker.Manager.Workers.{check_worker_credential}

abbrev pub attempt_of : ℕ → ℕ → Attempt → Bool
attempt_of job_id attempt_id a = a.job_id == job_id && a.attempt_id == attempt_id

-- `_attempt_row`.
unfoldable pub attempt_row : Db → ℕ → Option ℕ → Option Attempt
attempt_row db job_id none = none
attempt_row db job_id (some attempt_id) = find (attempt_of job_id attempt_id) db.attempts

-- The worker and the token are those of the attempt.
unfoldable pub holds_lease : Attempt → ℕ → ℕ → Bool
holds_lease a worker_id lease_token = a.worker_id == worker_id && a.lease_token == lease_token

-- The `job_state` and `lease_expires_at` that a worker is told.
pub data LeaseState : Type 0 where
  ended : State → LeaseState
  deadline_passed : LeaseState
  renewed : State → ℕ → LeaseState

unfoldable pub extend : ℕ → Attempt → Attempt
extend until a = record a { lease_expires_at = until }

-- The end of `renew_lease`, once the attempt is known to be the active one.
unfoldable pub renew_active : Config → ℕ → Job → Attempt → Db → Result (Db × LeaseState)
unfolding extend
renew_active c now row a db =
    if is_terminal row.state
    then ok (db, ended row.state)
    else if ltb a.lease_expires_at now
    then err (refused lease_expired 410)
    else if ltb row.deadline_at now
    then ok (db, deadline_passed)
    else (let until = min (now + c.lease_seconds) row.deadline_at in
        ok (
          record db { attempts = update (attempt_is a.attempt_id) (extend until) db.attempts },
          renewed row.state until,
        ))

-- `renew_lease`.
unfoldable pub renew_lease : Config → ℕ → ℕ → ℕ → String → ℕ → ℕ → Db → Result (Db × LeaseState)
renew_lease c now job_id worker_id credential attempt_id lease_token db = do
  check_worker_credential c worker_id credential
  row ← or_raise (job_row db job_id) unknown_job 404
  a ← or_raise (attempt_row db job_id (some attempt_id)) lease_conflict 409
  raise_if (not (holds_lease a worker_id lease_token)) lease_conflict 409
  raise_if (is_some a.finalized_at || not (is_value row.attempt_id attempt_id)) attempt_not_active
      409
  renew_active c now row a db

unfoldable pub cancel_job : Job → Job
cancel_job j =
    if is_queued j.state
    then record j { state = State.cancelled; stop_reason = some "cancelled_by_requester" }
    else if is_running j.state
    then record j { state = State.cancel_requested }
    else j

-- `cancel`. A finished job, and one with a request already, are left as they are.
unfoldable pub cancel : ℕ → Db → Result (Db × Job)
unfolding cancel_job
cancel job_id db = do
  row ← or_raise (job_row db job_id) unknown_job 404
  if is_terminal row.state
      then ok (db, row)
      else ok (record db { jobs = update (job_is job_id) cancel_job db.jobs }, cancel_job row)
