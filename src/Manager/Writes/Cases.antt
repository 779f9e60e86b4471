-- ===== src/Manager/Writes/Cases.antt =====
-- The statements, and for each call the cases that its code distinguishes.
use ephy_worker.Prelude.{
  Bool, ℕ, ◌+◌, ◌-◌, ◌≤◌, Option, min, String, ◌≡◌, true, List, none, some, inl, inr, arith,
  Option-cases,
}
use ephy_worker.Prelude.Table.{find, count, insert, update}
use ephy_worker.Contract.Input.{WorkerRegistration, SubmitJob, submit_valid}
use ephy_worker.Contract.Result.{ArtifactRef, ResultEnvelope}
use ephy_worker.Manager.Tables.{
  StoredFile, Db, Config, Job, Attempt, Worker, State, ok, Result-cases, job_is, attempt_is,
  job_row, worker_row, is_terminal, usage_of,
}
use ephy_worker.Manager.Workers.{upsert_worker}
use ephy_worker.Manager.Queue.{
  claim, claim_as, assign_next, assign, can_claim, next_job, queued_job, new_attempt, take_job,
}
use ephy_worker.Manager.Submission.{
  submit, retry, retry_submission, child_budget, check_parent, new_job, key_is,
}
use ephy_worker.Manager.Lease.{
  renew_lease, renew_active, cancel, cancel_job, extend, attempt_of, attempt_row,
}
use ephy_worker.Manager.Retention.{forget}
use ephy_worker.Manager.Finalization.{
  finalize, finalize_active, finalize_again, check_result, outcome_state, record_result,
}
use ephy_worker.Manager.Artifacts.{
  add_artifact, check_upload, check_room, artifact_is, store_artifact,
}
use ephy_worker.Manager.Sweeper.{
  has_lost_lease, lose_lease, missed_deadline, lose_deadline, delete_job, remove_job,
}
use ephy_worker.Manager.Run.{IsNew, after, after_submit}

-- `removed` is the job that the call deletes, if any, and no clock reading is before `since`.
pub data Write (c : Config) (removed : Option ℕ) (since : ℕ) : Db → Db → Type 0 where
  unchanged : (db : Db) → Write c removed since db db
  also :
      {db db' db'' : Db}
      → Write c removed since db db'
      → Write c removed since db' db''
      → Write c removed since db db''
  workers_set : (db : Db) (ws : List Worker) → Write c removed since db (record db { workers = ws })
  job_added :
      (db : Db) (checked now id : ℕ) (s : SubmitJob)
      → submit_valid s ≡ true
      → IsNew id db
      → find (key_is s.submit_key) db.jobs ≡ none
      → check_parent checked db s ≡ ok tt
      → Write c removed since db (record db { jobs = insert (new_job c now id s) db.jobs })
  job_taken :
      (db : Db) (seen now id token : ℕ) (w : Worker) (j : Job)
      → find (attempt_is id) db.attempts ≡ none
      → can_claim c seen db w ≡ true
      → next_job c now db w ≡ some j
      → count (queued_job j.job_id) db.jobs ≡ 1
      → Write c removed since db (record db {
        attempts = insert (new_attempt c now w.worker_id id token j) db.attempts;
        jobs =
            update (queued_job j.job_id) (take_job w.worker_id id (j.attempt_number + 1)) db.jobs;
      })
  lease_renewed :
      (db : Db) (job_id id now until : ℕ) (a : Attempt)
      → since ≤ now
      → find (attempt_of job_id id) db.attempts ≡ some a
      → now ≤ a.lease_expires_at
      → Write c removed since db
          (record db { attempts = update (attempt_is a.attempt_id) (extend until) db.attempts })
  job_cancelled :
      (db : Db) (id : ℕ)
      → Write c removed since db (record db { jobs = update (job_is id) cancel_job db.jobs })
  job_finished :
      (db : Db) (id now ended : ℕ) (row : Job) (a : Attempt) (state : State) (r : ResultEnvelope)
      → since ≤ now
      → now ≤ a.lease_expires_at
      → find (job_is id) db.jobs ≡ some row
      → attempt_row db id row.attempt_id ≡ some a
      → a.finalized_at ≡ none
      → outcome_state row.state r.status ≡ ok state
      → Write c removed since db (record_result ended row a state r db)
  artifact_stored :
      (db : Db) (job : Job) (a : Attempt) (id : ℕ) (ref : ArtifactRef) (content : List ℕ)
      → find (job_is id) db.jobs ≡ some job
      → check_upload c ref content ≡ ok tt
      → find (artifact_is ref.artifact_id) db.artifacts ≡ none
      → check_room c job ref db ≡ ok tt
      → Write c removed since db (store_artifact id a.attempt_id ref content db)
  job_forgotten : (db : Db) (id : ℕ) → Write c removed since db (forget id db)
  leases_lost :
      (db : Db) (now : ℕ)
      → Write c removed since db
          (record db { jobs = update (has_lost_lease now db) lose_lease db.jobs })
  deadlines_missed :
      (db : Db) (now : ℕ)
      → Write c removed since db
          (record db { jobs = update (missed_deadline now) lose_deadline db.jobs })
  job_removed :
      (db : Db) (stays : StoredFile → Bool) (id : ℕ) (row : Job)
      → find (job_is id) db.jobs ≡ some row
      → is_terminal row.state ≡ true
      → removed ≡ some id
      → Write c removed since db (remove_job stays id db)

pub checked_in_time :
    (now checked : ℕ) (row : Job) (a : Attempt) (r : ResultEnvelope) {u : Unit {0}}
    → check_result now checked row a r ≡ ok u
    → now ≤ a.lease_expires_at
unfolding check_result
checked_in_time now checked row a r e = ground arith

module _ (P : Db → Type 0) (c : Config) (db : Db) (same : P db) where
  pub register_cases :
      (worker_id : ℕ) (credential : String) (r : WorkerRegistration) (now : ℕ)
      → ((ws : List Worker) → P (record db { workers = ws }))
      → P (after db (upsert_worker c worker_id credential r now db))
  unfolding upsert_worker
  register_cases worker_id credential r now set = grind arith

  pub submit_cases :
      (checked now id : ℕ) (s : SubmitJob)
      → (find (key_is s.submit_key) db.jobs ≡ none
          → check_parent checked db s ≡ ok tt
          → P (record db { jobs = insert (new_job c now id s) db.jobs }))
      → P (after_submit db (submit c checked now id s db))
  unfolding submit
  submit_cases checked now id s add = ground arith

  pub retry_cases :
      (asked checked now id job_id : ℕ) (key : Option String)
      → ((s : SubmitJob)
          → submit_valid s ≡ true
          → P (after_submit db (submit c checked now id s db)))
      → P (after_submit db (retry c asked checked now id job_id key db))
  unfolding retry
  retry_cases asked checked now id job_id key again = elim (Option-cases (job_row db job_id)) [
    | inl e ↦ ground arith
    | inr (row, e) ↦ ground (
      arith,
      again (
          retry_submission db row key
            (child_budget row.kind row.budget (usage_of row.result) (row.deadline_at - asked))
            (row.deadline_at - asked)),
    )
  ]

  pub claim_cases :
      (worker_id : ℕ) (credential : String) (seen now id token : ℕ)
      → ((w : Worker) (j : Job)
          → can_claim c seen db w ≡ true
          → next_job c now db w ≡ some j
          → count (queued_job j.job_id) db.jobs ≡ 1
          → P (record db {
            attempts = insert (new_attempt c now w.worker_id id token j) db.attempts;
            jobs =
                update
                  (queued_job j.job_id)
                  (take_job w.worker_id id (j.attempt_number + 1))
                  db.jobs;
          }))
      → P (after db (claim c worker_id credential seen now id token db))
  unfolding claim claim_as assign_next assign
  claim_cases worker_id credential seen now id token take =
      elim (Option-cases (worker_row db worker_id)) [
        | inl e ↦ ground arith
        | inr (w, e) ↦ elim (Option-cases (next_job c now db w)) [
          | inl e' ↦ ground arith
          | inr (j, e') ↦ ground (arith, take w j)
        ]
      ]

  pub renew_cases :
      (now job_id worker_id : ℕ) (credential : String) (attempt_id token : ℕ)
      → ((until : ℕ) (a : Attempt)
          → find (attempt_of job_id attempt_id) db.attempts ≡ some a
          → now ≤ a.lease_expires_at
          → P (record db {
            attempts = update (attempt_is a.attempt_id) (extend until) db.attempts;
          }))
      → P (after db (renew_lease c now job_id worker_id credential attempt_id token db))
  unfolding renew_lease renew_active attempt_row
  renew_cases now job_id worker_id credential attempt_id token renew =
      elim (Option-cases (job_row db job_id)) [
        | inl e ↦ ground arith
        | inr (row, e) ↦ elim (Option-cases (attempt_row db job_id (some attempt_id))) [
          | inl e' ↦ ground arith
          | inr (a, e') ↦ ground (arith, renew (min (now + c.lease_seconds) row.deadline_at) a)
        ]
      ]

  pub cancel_cases :
      (job_id : ℕ)
      → P (record db { jobs = update (job_is job_id) cancel_job db.jobs })
      → P (after db (cancel job_id db))
  unfolding cancel
  cancel_cases job_id cancelled = ground arith

  pub finalize_cases :
      (now checked ended job_id worker_id : ℕ) (credential : String) (token : ℕ)
      (r : ResultEnvelope)
      → ((row : Job) (a : Attempt) (state : State)
          → now ≤ a.lease_expires_at
          → find (job_is job_id) db.jobs ≡ some row
          → attempt_row db job_id row.attempt_id ≡ some a
          → a.finalized_at ≡ none
          → outcome_state row.state r.status ≡ ok state
          → P (record_result ended row a state r db))
      → P (after db (finalize c now checked ended job_id worker_id credential token r db))
  unfolding finalize finalize_active finalize_again
  finalize_cases now checked ended job_id worker_id credential token r finish =
      elim (Option-cases (job_row db job_id)) [
        | inl e ↦ ground arith
        | inr (row, e) ↦ elim (Option-cases (attempt_row db job_id row.attempt_id)) [
          | inl e' ↦ ground arith
          | inr (a, e') ↦ elim (Result-cases (outcome_state row.state r.status)) [
            | inl (state, e'') ↦
                ground (arith, finish row a state, checked_in_time now checked row a r)
            | inr (refusal, e'') ↦ ground arith
          ]
        ]
      ]

  pub upload_cases :
      (now job_id worker_id : ℕ) (credential : String) (attempt_id token : ℕ) (ref : ArtifactRef)
      (content : List ℕ)
      → ((job : Job) (a : Attempt)
          → find (job_is job_id) db.jobs ≡ some job
          → check_upload c ref content ≡ ok tt
          → find (artifact_is ref.artifact_id) db.artifacts ≡ none
          → check_room c job ref db ≡ ok tt
          → P (store_artifact job_id a.attempt_id ref content db))
      → P (
          after db (add_artifact c now job_id worker_id credential attempt_id token ref content db))
  unfolding add_artifact
  upload_cases now job_id worker_id credential attempt_id token ref content store =
      elim (Option-cases (job_row db job_id)) [
        | inl e ↦ ground arith
        | inr (job, e) ↦ elim (Option-cases (attempt_row db job_id (some attempt_id))) [
          | inl e' ↦ ground arith
          | inr (a, e') ↦ ground (arith, store job a)
        ]
      ]

  pub delete_cases :
      (stays : StoredFile → Bool) (job_id : ℕ)
      → ((row : Job)
          → find (job_is job_id) db.jobs ≡ some row
          → is_terminal row.state ≡ true
          → P (remove_job stays job_id db))
      → P (after db (delete_job stays job_id db))
  unfolding delete_job
  delete_cases stays job_id remove = elim (Option-cases (job_row db job_id)) [
    | inl e ↦ ground arith
    | inr (row, e) ↦ ground (arith, remove row)
  ]
