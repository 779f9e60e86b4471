-- ===== src/Manager/Cancellation.antt =====
-- A requested stop that is never confirmed: what becomes of the job and of its worker.
pub mod Rows
pub mod Kept
use mathlib.Core.Option
use ephy_worker.Prelude.{
  ℕ, String, ap, ◌≡◌, ◌<◌, ◌≤◌, refl, sym, ◌∙◌, true, false, some, Option, List, [], ◌∷◌, arith,
  inl, inr, ◌==◌, ==_iff, Bool, Bool-cases, &&-eq-true, All, ==_refl,
}
use ephy_worker.Prelude.Table.{
  find, update, find-update, find-insert-some, find-delete, find-Distinct, Distinct, count_of_found,
  find-holds,
}
use ephy_worker.Manager.Tables.{
  Db, Config, Job, Attempt, Worker, State, is_terminal, is_queued, is_running, is_active, job_is,
  job_row, worker_row, worker_is, attempt_is,
}
use ephy_worker.Manager.Queue.{
  take_job, queued_job, active_jobs, occupies, can_claim, claim, claim_as,
}
use ephy_worker.Manager.Lease.{cancel_job, attempt_of, attempt_row, extend}
use ephy_worker.Manager.Retention.{forget, expire_job}
use ephy_worker.Manager.Finalization.{finish_job, finish_attempt, record_result}
use ephy_worker.Manager.Artifacts.{store_artifact}
use ephy_worker.Manager.Sweeper.{
  lose_lease, lose_deadline, has_lost_lease, missed_deadline, remove_job, attempt_for,
}
use ephy_worker.Manager.Run.{Call, perform, run, after, Reach}
use ephy_worker.Manager.Writes.{perform-Write, IsSince}
use ephy_worker.Manager.Keys.{HasKeys, Reach-HasKeys, perform-HasKeys, Write-HasKeys}
use ephy_worker.Manager.Lifecycle.{row_id, AllAdmissible}
use ephy_worker.Manager.Writes.Cases.{
  Write, unchanged, also, workers_set, job_added, job_taken, lease_renewed, job_cancelled,
  job_finished, artifact_stored, job_forgotten, leases_lost, deadlines_missed, job_removed,
}
use ephy_worker.Manager.Cancellation.Rows.{IsUnconfirmed}
use ephy_worker.Manager.Cancellation.Kept.{Write-IsUnconfirmed}

-- Every call of the run reads the clock at `since` or later.
abbrev pub AllSince : ℕ → List Call → Type 0
AllSince since calls = All (IsSince since) calls

run-IsUnconfirmed :
    (c : Config) (calls : List Call) (db : Db) {since id worker attempt_id : ℕ}
    → AllAdmissible c calls db
    → AllSince since calls
    → HasKeys db
    → IsUnconfirmed since id worker attempt_id db
    → IsUnconfirmed since id worker attempt_id (run c calls db)
unfolding run
run-IsUnconfirmed c [] db fine late keys u = u
run-IsUnconfirmed c (call ∷ calls) db fine late keys u =
    run-IsUnconfirmed c calls (perform c call db) fine.1 late.1
      (perform-HasKeys c call db fine.0 keys)
      (Write-IsUnconfirmed (perform-Write c call db _ fine.0 late.0) keys u)

-- From a reachable database: once a job that was asked to stop has lost its lease, no run of later
-- calls ends it or deletes it. It stays asked to stop, with its worker and attempt.
pub unconfirmed_cancel_stays :
    (c : Config) (calls : List Call) (db : Db) (since id worker attempt_id : ℕ)
    → Reach c db
    → IsUnconfirmed since id worker attempt_id db
    → AllAdmissible c calls db
    → AllSince since calls
    → (j : Job) × (job_row (run c calls db) id ≡ some j)
      × (j.state ≡ State.cancel_requested)
      × (j.worker_id ≡ some worker)
      × (j.attempt_id ≡ some attempt_id)
unconfirmed_cancel_stays c calls db since id worker attempt_id r u fine late =
    let v = run-IsUnconfirmed c calls db fine late (Reach-HasKeys r) u in
    (v.job, v.found, v.asked, v.assigned, v.attempted)

unconfirmed_occupies :
    {since id worker attempt_id : ℕ} {db : Db}
    → IsUnconfirmed since id worker attempt_id db
    → (j : Job) × (find (job_is id) db.jobs ≡ some j) × (occupies worker j ≡ true)
unfolding occupies is_active
unconfirmed_occupies {worker = worker} u =
    (u.job, u.found, rw (u.assigned, u.asked) (rw (==_refl worker)))

full_cannot_claim :
    (c : Config) (seen : ℕ) (db : Db) (w : Worker)
    → w.concurrency ≤ active_jobs db w.worker_id
    → can_claim c seen db w ≡ false
unfolding can_claim
full_cannot_claim c seen db w h = ground arith

-- From then on the worker, if it takes one job at a time, is never given a job again: its claims
-- change nothing, whatever the queue holds.
pub unconfirmed_cancel_blocks_claims :
    (c : Config) (calls : List Call) (db : Db) (since id worker attempt_id : ℕ) (w : Worker)
    (credential : String) (seen now new token : ℕ)
    → Reach c db
    → IsUnconfirmed since id worker attempt_id db
    → AllAdmissible c calls db
    → AllSince since calls
    → worker_row (run c calls db) worker ≡ some w
    → w.concurrency ≤ 1
    → after (run c calls db) (claim c worker credential seen now new token (run c calls db))
      ≡ run c calls db
unfolding claim claim_as
unconfirmed_cancel_blocks_claims c calls db since id worker attempt_id w credential seen now new
      token r u fine late ew one =
    let db' : Db = run c calls db in
    let (j, ej, busy) =
      unconfirmed_occupies (run-IsUnconfirmed c calls db fine late (Reach-HasKeys r) u) in
    let its_id : w.worker_id ≡ worker =
      (==_iff w.worker_id worker).0 (find-holds (worker_is worker) db'.workers w ew) in
    let counted : 1 ≤ active_jobs db' worker =
      unfold active_jobs in count_of_found (occupies worker) (job_is id) db'.jobs j ej busy in
    ground (arith, full_cannot_claim c seen db' w (rw its_id (omega arith)))
