-- ===== src/Manager/Run.antt =====
-- The manager as a machine: its calls, what each does to the database, and the databases that a
-- run can reach (manager.py, the methods under `@serialized`).
use ephy_worker.Prelude.{Bool, ℕ, String, ◌≡◌, true, none, List, [], ◌∷◌, Option}
use ephy_worker.Prelude.Table.{find}
use ephy_worker.Contract.Input.{WorkerRegistration, SubmitJob, submit_valid, registration_valid}
use ephy_worker.Contract.Result.{ArtifactRef, ResultEnvelope}
use ephy_worker.Manager.Tables.{
  StoredFile, Db, Config, Result, ok, err, job_is, is_value, attempt_is, empty_db,
}
use ephy_worker.Manager.Workers.{upsert_worker}
use ephy_worker.Manager.Queue.{claim}
use ephy_worker.Manager.Submission.{submit, retry}
use ephy_worker.Manager.Lease.{renew_lease, cancel}
use ephy_worker.Manager.Finalization.{finalize}
use ephy_worker.Manager.Artifacts.{add_artifact, get_artifact}
use ephy_worker.Manager.Sweeper.{sweep_once, delete_job, job_view, job_result}

-- A call with its arguments, its readings of the clock and the uuids that it draws.
pub data Call : Type 0 where
  register : ℕ → String → WorkerRegistration → ℕ → Call
  submits : ℕ → ℕ → ℕ → SubmitJob → Call
  retries : ℕ → ℕ → ℕ → ℕ → ℕ → Option String → Call
  claims : ℕ → String → ℕ → ℕ → ℕ → ℕ → Call
  renews : ℕ → ℕ → ℕ → String → ℕ → ℕ → Call
  cancels : ℕ → Call
  finalizes : ℕ → ℕ → ℕ → ℕ → ℕ → String → ℕ → ResultEnvelope → Call
  uploads : ℕ → ℕ → ℕ → String → ℕ → ℕ → ArtifactRef → List ℕ → Call
  downloads : ℕ → ℕ → ℕ → Call
  views : ℕ → ℕ → ℕ → Call
  results : ℕ → ℕ → ℕ → Call
  sweeps : ℕ → ℕ → Call
  deletes : (StoredFile → Bool) → ℕ → Call

-- Where a method raises, nothing was written.
abbrev pub after {ℓ} : {A : Type ℓ} → Db → Result (Db × A) → Db
after db (ok (db', a)) = db'
after db (err e) = db

abbrev pub after_submit : {A B : Type 0} → Db → Result (Db × A × B) → Db
after_submit db (ok (db', a, b)) = db'
after_submit db (err e) = db

unfoldable pub perform : Config → Call → Db → Db
perform c (register worker_id credential r now) db =
    after db (upsert_worker c worker_id credential r now db)
perform c (submits checked now id s) db = after_submit db (submit c checked now id s db)
perform c (retries asked checked now id job_id key) db =
    after_submit db (retry c asked checked now id job_id key db)
perform c (claims worker_id credential seen now id token) db =
    after db (claim c worker_id credential seen now id token db)
perform c (renews now job_id worker_id credential id token) db =
    after db (renew_lease c now job_id worker_id credential id token db)
perform c (cancels job_id) db = after db (cancel job_id db)
perform c (finalizes now checked ended job_id worker_id credential token r) db =
    after db (finalize c now checked ended job_id worker_id credential token r db)
perform c (uploads now job_id worker_id credential id token ref content) db =
    after db (add_artifact c now job_id worker_id credential id token ref content db)
perform c (downloads now job_id artifact_id) db = (get_artifact now job_id artifact_id db).0
perform c (views expiring now job_id) db = (job_view c expiring now job_id db).0
perform c (results first second job_id) db = (job_result first second job_id db).0
perform c (sweeps expiring now) db = (sweep_once c expiring now db).0
perform c (deletes stays job_id) db = after db (delete_job stays job_id db)

unfoldable pub run : Config → List Call → Db → Db
run c [] db = db
run c (call ∷ calls) db = run c calls (perform c call db)

-- An id that `uuid4` has just drawn: no row carries it or names it as its parent.
abbrev pub IsNew : ℕ → Db → Type 0
IsNew id db =
    (find (job_is id) db.jobs ≡ none) × (find (λ j. is_value j.parent_job_id id) db.jobs ≡ none)

-- What the HTTP layer and `uuid4` give: requests are validated, and drawn ids are new.
abbrev pub IsAdmissible : Call → Db → Type 0
IsAdmissible (register worker_id credential r now) db = registration_valid r ≡ true
IsAdmissible (submits checked now id s) db = (submit_valid s ≡ true) × IsNew id db
IsAdmissible (retries asked checked now id job_id key) db = IsNew id db
IsAdmissible (claims worker_id credential seen now id token) db =
    find (attempt_is id) db.attempts ≡ none
IsAdmissible _ db = Unit

-- The databases that a run from an empty one can reach.
pub data Reach (c : Config) : Db → Type 0 where
  start : Reach c empty_db
  next : {db : Db} → Reach c db → (call : Call) → IsAdmissible call db → Reach c (perform c call db)
