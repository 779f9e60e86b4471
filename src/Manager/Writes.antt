-- ===== src/Manager/Writes.antt =====
-- What the calls write: each call's effect on the database is a chain of the statements below,
-- with what the code has checked before it runs them.
pub mod Cases
use Cases.{
  Write, unchanged, also, workers_set, job_added, job_taken, lease_renewed, job_cancelled,
  job_finished, artifact_stored, job_forgotten, leases_lost, deadlines_missed, job_removed,
  register_cases, submit_cases, retry_cases, claim_cases, renew_cases, cancel_cases, finalize_cases,
  upload_cases, delete_cases,
}
use ephy_worker.Prelude.{ℕ, ◌≤◌, arith, ◌≡◌, refl, Option, none, some, true, List, [], ◌∷◌}
use ephy_worker.Prelude.Table.{find, select, update}
use ephy_worker.Manager.Tables.{Db, Config, Job, job_is}
use ephy_worker.Contract.Input.{SubmitJob, submit_valid}
use ephy_worker.Manager.Submission.{submit, retry}
use ephy_worker.Manager.Retention.{is_expired, forget, forget_all, expire_observations}
use ephy_worker.Manager.Finalization.{finalize}
use ephy_worker.Manager.Artifacts.{add_artifact, get_artifact}
use ephy_worker.Manager.Sweeper.{sweep, sweep_once, job_view, job_result}
use ephy_worker.Manager.Run.{
  Call, register, submits, retries, claims, renews, cancels, finalizes, uploads, downloads, views,
  results, sweeps, deletes, perform, after_submit, IsNew, IsAdmissible,
}

forget_all-Write :
    (c : Config) (removed : Option ℕ) (since : ℕ) (rows : List Job) (db : Db)
    → Write c removed since db (forget_all rows db)
unfolding forget_all
forget_all-Write c removed since [] db = unchanged db
forget_all-Write c removed since (j ∷ rows) db =
    also (job_forgotten db j.job_id) (forget_all-Write c removed since rows (forget j.job_id db))

expire-Write :
    (c : Config) (removed : Option ℕ) (since : ℕ) (now : ℕ) (db : Db)
    → Write c removed since db (expire_observations now db)
unfolding expire_observations
expire-Write c removed since now db =
    forget_all-Write c removed since (select (is_expired now db.observations) db.jobs) db

sweep-Write :
    (c : Config) (removed : Option ℕ) (since : ℕ) (now : ℕ) (db : Db)
    → Write c removed since db (sweep c now db).0
unfolding sweep
sweep-Write c removed since now db =
    also (leases_lost db now) (also (deadlines_missed _ now) (workers_set _ _))

submit-Write :
    (c : Config) (removed : Option ℕ) (since : ℕ) (checked now id : ℕ) (s : SubmitJob) (db : Db)
    → submit_valid s ≡ true
    → IsNew id db
    → Write c removed since db (after_submit db (submit c checked now id s db))
submit-Write c removed since checked now id s db valid new =
    submit_cases (Write c removed since db) c db (unchanged db) checked now id s
      (job_added db checked now id s valid new)

-- The clock reading by which a call judges a lease is not before `since`.
abbrev pub IsSince : ℕ → Call → Type 0
IsSince since (renews now job_id worker_id credential id token) = since ≤ now
IsSince since (finalizes now checked ended job_id worker_id credential token r) = since ≤ now
IsSince since _ = Unit

pub IsSince-zero : (call : Call) → IsSince 0 call
IsSince-zero (renews now job_id worker_id credential id token) = omega arith
IsSince-zero (finalizes now checked ended job_id worker_id credential token r) = omega arith
IsSince-zero _ = tt

-- The job that a call deletes.
abbrev pub removal_of : Call → Option ℕ
removal_of (deletes stays job_id) = some job_id
removal_of _ = none

-- Each call's effect is a chain of the statements.
pub perform-Write :
    (c : Config) (call : Call) (db : Db) (since : ℕ)
    → IsAdmissible call db
    → IsSince since call
    → Write c (removal_of call) since db (perform c call db)
unfolding perform get_artifact job_view job_result sweep_once
perform-Write c (register worker_id credential r now) db since h after =
    register_cases (Write c _ _ db) c db (unchanged db) worker_id credential r now (workers_set db)
perform-Write c (submits checked now id s) db since h after =
    submit-Write c _ _ checked now id s db h.0 h.1
perform-Write c (retries asked checked now id job_id key) db since h after =
    retry_cases (Write c _ _ db) c db (unchanged db) asked checked now id job_id key
      λ s valid. submit-Write c _ _ checked now id s db valid h
perform-Write c (claims worker_id credential seen now id token) db since h after =
    claim_cases (Write c _ _ db) c db (unchanged db) worker_id credential seen now id token
      λ w j. job_taken db seen now id token w j h
perform-Write c (renews now job_id worker_id credential id token) db since h after =
    renew_cases (Write c _ _ db) c db (unchanged db) now job_id worker_id credential id token
      (λ until a. lease_renewed db job_id id now until a after)
perform-Write c (cancels job_id) db since h after =
    cancel_cases (Write c _ _ db) c db (unchanged db) job_id (job_cancelled db job_id)
perform-Write c (finalizes now checked ended job_id worker_id credential token r) db since h after =
    finalize_cases (Write c _ _ db) c db (unchanged db) now checked ended job_id worker_id
      credential token r (λ row a state. job_finished db job_id now ended row a state r after)
perform-Write c (uploads now job_id worker_id credential id token ref content) db since h after =
    upload_cases (Write c _ _ db) c db (unchanged db) now job_id worker_id credential id token ref
      content (λ job a. artifact_stored db job a job_id ref content)
perform-Write c (downloads now job_id artifact_id) db since h after = expire-Write c _ _ now db
perform-Write c (views expiring now job_id) db since h after = expire-Write c _ _ expiring db
perform-Write c (results first second job_id) db since h after =
    also (expire-Write c _ _ first db) (expire-Write c _ _ second _)
perform-Write c (sweeps expiring now) db since h after =
    also (expire-Write c _ _ expiring db) (sweep-Write c _ _ now _)
perform-Write c (deletes stays job_id) db since h after =
    delete_cases (Write c _ _ db) c db (unchanged db) stays job_id
      (λ row found over. job_removed db stays job_id row found over refl)
