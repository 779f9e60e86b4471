-- ===== src/Manager/Sweeper.antt =====
-- The sweeper, deletion, and the views of jobs and results (manager.py: `sweep_once`,
-- `delete_job`, `job_view`, `job_result`). Temporary files of the artifact store are not modelled.
use ephy_worker.Prelude.{
  ℕ, ◌+◌, Bool, false, not, ◌&&◌, Option, none, some, ◌==◌, ltb, if◌then◌else◌,
}
use ephy_worker.Prelude.Table.{count, update, delete}
use ephy_worker.Contract.Result.{ResultEnvelope, JobUsage}
use ephy_worker.Manager.Tables.{
  Db, Config, Job, Attempt, Worker, StoredFile, State, Result, ok, raise_if, or_raise, ◌>>=◌, ◌>>◌,
  job_is, job_row, is_terminal, is_queued, is_running, usage_of, unknown_job, not_terminal,
  result_unavailable, observation_retention_expired,
}
use ephy_worker.Manager.Queue.{WaitReason, wait_reason}
use ephy_worker.Manager.Lease.{attempt_row}
use ephy_worker.Manager.Retention.{
  of_job, is_file_of, observation_of, reason_is, retention_expired, expire_observations,
}

lease_over : ℕ → Option Attempt → Bool
lease_over now none = false
lease_over now (some a) = ltb a.lease_expires_at now

-- The EXISTS of the two statements on leases.
unfoldable pub lease_is_over : ℕ → Db → Job → Bool
unfolding lease_over
lease_is_over now db j = lease_over now (attempt_row db j.job_id j.attempt_id)

unfoldable pub has_lost_lease : ℕ → Db → Job → Bool
has_lost_lease now db j = is_running j.state && lease_is_over now db j

unfoldable pub lose_lease : Job → Job
lose_lease j = record j { state = State.lost; stop_reason = some "lease_expired" }

unfoldable pub missed_deadline : ℕ → Job → Bool
missed_deadline now j = is_queued j.state && ltb j.deadline_at now

unfoldable pub lose_deadline : Job → Job
lose_deadline j = record j { state = State.lost; stop_reason = some "deadline_expired" }

unfoldable pub is_silent : Config → ℕ → Worker → Bool
is_silent c now w = w.online && ltb (w.last_heartbeat_at + c.offline_after_seconds) now

unfoldable pub set_offline : Worker → Worker
set_offline w = record w { online = false }

is_unconfirmed : ℕ → Db → Job → Bool
is_unconfirmed now db j = elim j.state [
  | State.cancel_requested ↦ lease_is_over now db j
  | _ ↦ false
]

pub record SweepCounts : Type 0 where
  pub lost : ℕ
  pub cancel_unconfirmed : ℕ
  pub expired_queued : ℕ
  pub offline_workers : ℕ

-- The statements of `sweep_once` after the expiry of observations.
unfoldable pub sweep : Config → ℕ → Db → Db × SweepCounts
unfolding lose_lease lose_deadline set_offline is_unconfirmed
sweep c now db =
    let jobs' = update (has_lost_lease now db) lose_lease db.jobs in
    (
      record db {
        jobs = update (missed_deadline now) lose_deadline jobs';
        workers = update (is_silent c now) set_offline db.workers;
      },
      record {
        lost = count (has_lost_lease now db) db.jobs;
        cancel_unconfirmed = count (is_unconfirmed now db) jobs';
        expired_queued = count (missed_deadline now) jobs';
        offline_workers = count (is_silent c now) db.workers;
      },
    )

-- `sweep_once`. `expiring` and `now` are the two readings of the clock.
unfoldable pub sweep_once : Config → ℕ → ℕ → Db → Db × SweepCounts
unfolding sweep
sweep_once c expiring now db = sweep c now (expire_observations expiring db)

abbrev pub attempt_for : ℕ → Attempt → Bool
attempt_for job_id a = a.job_id == job_id

abbrev pub file_under : ℕ → StoredFile → Bool
file_under job_id f = f.path.job_id == job_id

-- The writes of `delete_job`: the artifacts' files, the rows, and what is left of the directory. The
-- errors of the disk are passed over: `stays` says which files it will not remove.
unfoldable pub remove_job : (StoredFile → Bool) → ℕ → Db → Db
remove_job stays job_id db = record db {
  files =
      delete (λ f. file_under job_id f && not (stays f))
        (delete (λ f. is_file_of db.artifacts job_id f && not (stays f)) db.files);
  artifacts = delete (of_job job_id) db.artifacts;
  observations = delete (observation_of job_id) db.observations;
  attempts = delete (attempt_for job_id) db.attempts;
  jobs = delete (job_is job_id) db.jobs;
}

-- `delete_job`, with the number of artifacts that went.
unfoldable pub delete_job : (StoredFile → Bool) → ℕ → Db → Result (Db × ℕ)
unfolding remove_job
delete_job stays job_id db = do
  row ← or_raise (job_row db job_id) unknown_job 404
  raise_if (not (is_terminal row.state)) not_terminal 409
  ok (remove_job stays job_id db, count (of_job job_id) db.artifacts)

pub record JobView : Type 0 where
  pub row : Job
  pub wait_reason : Option WaitReason
  pub usage : JobUsage

-- `_job_view`.
unfoldable pub view : Config → ℕ → Db → Job → JobView
view c now db row = record {
  row = row;
  wait_reason = if is_queued row.state then wait_reason c now db row else none;
  usage = usage_of row.result;
}

-- `job_view`. Observations expire first, also where the call then fails.
unfoldable pub job_view : Config → ℕ → ℕ → ℕ → Db → Db × Result JobView
unfolding view
job_view c expiring now job_id db =
    let db' = expire_observations expiring db in
    (db', do row ← or_raise (job_row db' job_id) unknown_job 404; ok (view c now db' row))

-- The end of `job_result`.
unfoldable pub result_of : Job → Result ResultEnvelope
result_of row = do
  raise_if (reason_is retention_expired row.stop_reason) observation_retention_expired 410
  raise_if (not (is_terminal row.state)) not_terminal 409
  or_raise row.result result_unavailable 404

-- `job_result`, which calls `job_view` after an expiry of its own.
unfoldable pub job_result : ℕ → ℕ → ℕ → Db → Db × Result ResultEnvelope
unfolding result_of
job_result first second job_id db =
    let db' = expire_observations second (expire_observations first db) in
    (db', do row ← or_raise (job_row db' job_id) unknown_job 404; result_of row)
