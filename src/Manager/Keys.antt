-- ===== src/Manager/Keys.antt =====
-- The primary keys of the tables.
use ephy_worker.Prelude.{ℕ, ◌≡◌, refl, Option, arith}
use ephy_worker.Prelude.Table.{Distinct, Distinct-insert, Distinct-update, Distinct-delete}
use ephy_worker.Manager.Tables.{Db, Config, Job}
use ephy_worker.Manager.Queue.{take_job, new_attempt}
use ephy_worker.Manager.Submission.{new_job}
use ephy_worker.Manager.Lease.{cancel_job, extend}
use ephy_worker.Manager.Retention.{forget}
use ephy_worker.Manager.Finalization.{record_result}
use ephy_worker.Manager.Artifacts.{store_artifact}
use ephy_worker.Manager.Sweeper.{lose_lease, lose_deadline, remove_job}
use ephy_worker.Manager.Run.{Call, perform, IsAdmissible, Reach, start, next}
use ephy_worker.Manager.Writes.{perform-Write, IsSince-zero}
use ephy_worker.Manager.Writes.Cases.{
  Write, unchanged, also, workers_set, job_added, job_taken, lease_renewed, job_cancelled,
  job_finished, artifact_stored, job_forgotten, leases_lost, deadlines_missed, job_removed,
}

-- Jobs, attempts and artifacts are told apart by their ids.
pub record HasKeys (db : Db) : Type 0 where
  pub of_jobs : Distinct (λ j. j.job_id) db.jobs
  pub of_attempts : Distinct (λ a. a.attempt_id) db.attempts
  pub of_artifacts : Distinct (λ a. a.ref.artifact_id) db.artifacts

cancel_keeps_id : (j : Job) → (cancel_job j).job_id ≡ j.job_id
unfolding cancel_job
cancel_keeps_id j = ground arith

pub Write-HasKeys :
    {c : Config} {removed : Option ℕ} {since : ℕ} {db db' : Db}
    → Write c removed since db db'
    → HasKeys db
    → HasKeys db'
unfolding forget store_artifact record_result remove_job new_job new_attempt extend take_job
    lose_lease lose_deadline
Write-HasKeys (unchanged db) h = h
Write-HasKeys (also w v) h = Write-HasKeys v (Write-HasKeys w h)
Write-HasKeys (workers_set db ws) h = record {
  of_jobs = h.of_jobs;
  of_attempts = h.of_attempts;
  of_artifacts = h.of_artifacts;
}
Write-HasKeys (job_added db checked now new s valid fresh key parent) h = record {
  of_jobs = Distinct-insert (λ j. j.job_id) _ db.jobs h.of_jobs fresh.0;
  of_attempts = h.of_attempts;
  of_artifacts = h.of_artifacts;
}
Write-HasKeys (job_taken db seen now attempt token w t fresh can taken one) h = record {
  of_jobs = Distinct-update (λ j. j.job_id) _ _ db.jobs (λ r. refl) h.of_jobs;
  of_attempts = Distinct-insert (λ a. a.attempt_id) _ db.attempts h.of_attempts fresh;
  of_artifacts = h.of_artifacts;
}
Write-HasKeys (lease_renewed db job_id attempt now until a late found live) h = record {
  of_jobs = h.of_jobs;
  of_attempts = Distinct-update (λ a. a.attempt_id) _ _ db.attempts (λ r. refl) h.of_attempts;
  of_artifacts = h.of_artifacts;
}
Write-HasKeys (job_cancelled db id) h = record {
  of_jobs = Distinct-update (λ j. j.job_id) _ _ db.jobs cancel_keeps_id h.of_jobs;
  of_attempts = h.of_attempts;
  of_artifacts = h.of_artifacts;
}
Write-HasKeys (job_finished db id now ended row a state r late live er ea unfinished eo) h =
    record {
      of_jobs = Distinct-update (λ j. j.job_id) _ _ db.jobs (λ r. refl) h.of_jobs;
      of_attempts = Distinct-update (λ a. a.attempt_id) _ _ db.attempts (λ r. refl) h.of_attempts;
      of_artifacts = h.of_artifacts;
    }
Write-HasKeys (artifact_stored db job a id ref content ej up fresh room) h = record {
  of_jobs = h.of_jobs;
  of_attempts = h.of_attempts;
  of_artifacts = Distinct-insert (λ a. a.ref.artifact_id) _ db.artifacts h.of_artifacts fresh;
}
Write-HasKeys (job_forgotten db id) h = record {
  of_jobs = Distinct-update (λ j. j.job_id) _ _ db.jobs (λ r. refl) h.of_jobs;
  of_attempts = h.of_attempts;
  of_artifacts = Distinct-delete (λ a. a.ref.artifact_id) _ db.artifacts h.of_artifacts;
}
Write-HasKeys (leases_lost db now) h = record {
  of_jobs = Distinct-update (λ j. j.job_id) _ _ db.jobs (λ r. refl) h.of_jobs;
  of_attempts = h.of_attempts;
  of_artifacts = h.of_artifacts;
}
Write-HasKeys (deadlines_missed db now) h = record {
  of_jobs = Distinct-update (λ j. j.job_id) _ _ db.jobs (λ r. refl) h.of_jobs;
  of_attempts = h.of_attempts;
  of_artifacts = h.of_artifacts;
}
Write-HasKeys (job_removed db stays id row er over gone) h = record {
  of_jobs = Distinct-delete (λ j. j.job_id) _ db.jobs h.of_jobs;
  of_attempts = Distinct-delete (λ a. a.attempt_id) _ db.attempts h.of_attempts;
  of_artifacts = Distinct-delete (λ a. a.ref.artifact_id) _ db.artifacts h.of_artifacts;
}

pub perform-HasKeys :
    (c : Config) (call : Call) (db : Db)
    → IsAdmissible call db
    → HasKeys db
    → HasKeys (perform c call db)
perform-HasKeys c call db fine h =
    Write-HasKeys (perform-Write c call db 0 fine (IsSince-zero call)) h

-- In every database that a run can reach, no two jobs share an id, no two attempts do, and no two
-- artifacts do.
pub Reach-HasKeys : {c : Config} {db : Db} → Reach c db → HasKeys db
Reach-HasKeys start = record { of_jobs = tt; of_attempts = tt; of_artifacts = tt }
Reach-HasKeys {c = c} (next {db = db} r call fine) =
    perform-HasKeys c call db fine (Reach-HasKeys r)
