-- ===== src/Manager/Consistency.antt =====
-- What holds of every row of the job table.
use ephy_worker.Prelude.{
  ℕ, ◌+◌, String, ◌≡◌, ◌≢◌, true, false, none, some, Option, ◌⊎◌, arith, is_some, All,
}
use ephy_worker.Prelude.Table.{All-find, All-update, All-delete, All-insert}
use ephy_worker.Contract.Limits.{between, limits_valid}
use ephy_worker.Contract.Input.{SubmitJob, submit_valid, input_valid, kind_matches_input}
use ephy_worker.Contract.Result.{Status, ResultEnvelope}
use ephy_worker.Manager.Tables.{
  Db, Config, Job, State, ok, err, refused, no_remaining_time, no_remaining_budget, is_queued,
  is_active, is_running, job_is, job_row,
}
use ephy_worker.Manager.Queue.{take_job, queued_job}
use ephy_worker.Manager.Submission.{new_job, retry}
use ephy_worker.Manager.Lease.{cancel_job}
use ephy_worker.Manager.Retention.{forget, expire_job}
use ephy_worker.Manager.Finalization.{finish_job, record_result, outcome_state}
use ephy_worker.Manager.Artifacts.{store_artifact}
use ephy_worker.Manager.Sweeper.{
  lose_lease, lose_deadline, has_lost_lease, missed_deadline, remove_job,
}
use ephy_worker.Manager.Run.{Reach, start, next}
use ephy_worker.Manager.Writes.{perform-Write, IsSince-zero}
use ephy_worker.Manager.Writes.Cases.{
  Write, unchanged, also, workers_set, job_added, job_taken, lease_renewed, job_cancelled,
  job_finished, artifact_stored, job_forgotten, leases_lost, deadlines_missed, job_removed,
}

pub record IsConsistent (j : Job) : Type 0 where
  pub queued_unassigned :
      is_queued j.state ≡ true → (j.worker_id ≡ none) × (j.attempt_id ≡ none) × (j.result ≡ none)
  pub active_assigned :
      is_active j.state ≡ true
      → (is_some j.worker_id ≡ true) × (is_some j.attempt_id ≡ true) × (j.result ≡ none)
  pub lost_without_result : j.state ≡ State.lost → j.result ≡ none
  pub kind_fits : kind_matches_input j.kind j.input ≡ true
  pub deadline_exact : j.deadline_at ≡ j.created_at + j.deadline_seconds
  pub budget_valid : limits_valid j.budget ≡ true
  pub input_fits : input_valid j.input ≡ true
  pub deadline_bounded : between 1 3600000 j.deadline_seconds ≡ true

submit_valid_parts :
    (s : SubmitJob)
    → submit_valid s ≡ true
    → (kind_matches_input s.kind s.input ≡ true)
      × (limits_valid s.budget ≡ true)
      × (input_valid s.input ≡ true)
      × (between 1 3600000 s.deadline_seconds ≡ true)
unfolding submit_valid
submit_valid_parts s h = ground arith

new_job-IsConsistent :
    (c : Config) (now id : ℕ) (s : SubmitJob)
    → submit_valid s ≡ true
    → IsConsistent (new_job c now id s)
unfolding new_job is_queued is_active
new_job-IsConsistent c now id s h = ground (arith, submit_valid_parts s h)

take_job-IsConsistent :
    (id worker attempt number : ℕ) (j : Job)
    → queued_job id j ≡ true
    → IsConsistent j
    → IsConsistent (take_job worker attempt number j)
unfolding take_job is_queued is_active
take_job-IsConsistent id worker attempt number j h k = ground arith

cancel_job-IsConsistent : (j : Job) → IsConsistent j → IsConsistent (cancel_job j)
unfolding cancel_job is_queued is_active is_running
cancel_job-IsConsistent j k = ground arith

lose_lease-IsConsistent :
    (now : ℕ) (db : Db) (j : Job)
    → has_lost_lease now db j ≡ true
    → IsConsistent j
    → IsConsistent (lose_lease j)
unfolding lose_lease has_lost_lease is_queued is_active is_running
lose_lease-IsConsistent now db j h k = ground arith

lose_deadline-IsConsistent :
    (now : ℕ) (j : Job)
    → missed_deadline now j ≡ true
    → IsConsistent j
    → IsConsistent (lose_deadline j)
unfolding lose_deadline missed_deadline is_queued is_active
lose_deadline-IsConsistent now j h k = ground arith

expire_job-IsConsistent : (j : Job) → IsConsistent j → IsConsistent (expire_job j)
unfolding expire_job
expire_job-IsConsistent j k = ground arith

outcome_ended :
    (s t : State) (status : Status)
    → outcome_state s status ≡ ok t
    → (is_queued t ≡ false) × (is_active t ≡ false) × (t ≢ State.lost)
unfolding outcome_state is_queued is_active
outcome_ended s t status h = ground arith

finish_job-IsConsistent :
    (s t : State) (r : ResultEnvelope) (j : Job)
    → outcome_state s r.status ≡ ok t
    → IsConsistent j
    → IsConsistent (finish_job t r j)
unfolding finish_job
finish_job-IsConsistent s t r j h k = ground (arith, outcome_ended s t r.status h)

-- Every write keeps every row consistent.
Write-IsConsistent :
    {c : Config} {removed : Option ℕ} {since : ℕ} {db db' : Db}
    → Write c removed since db db'
    → All IsConsistent db.jobs
    → All IsConsistent db'.jobs
unfolding forget store_artifact record_result remove_job
Write-IsConsistent (unchanged db) h = h
Write-IsConsistent (also w v) h = Write-IsConsistent v (Write-IsConsistent w h)
Write-IsConsistent (workers_set db ws) h = h
Write-IsConsistent {c = c} (job_added db checked now new s valid fresh key parent) h =
    All-insert IsConsistent _ db.jobs h (new_job-IsConsistent c now new s valid)
Write-IsConsistent (job_taken db seen now attempt token w t fresh can taken one) h =
    All-update IsConsistent _ _ db.jobs
      (take_job-IsConsistent t.job_id w.worker_id attempt (t.attempt_number + 1)) h
Write-IsConsistent (lease_renewed db job_id attempt now until a late found live) h = h
Write-IsConsistent (job_cancelled db id) h =
    All-update IsConsistent _ _ db.jobs (λ j _. cancel_job-IsConsistent j) h
Write-IsConsistent (job_finished db id now ended row a state r late live er ea unfinished eo) h =
    All-update IsConsistent _ _ db.jobs (λ j _. finish_job-IsConsistent row.state state r j eo) h
Write-IsConsistent (artifact_stored db job a id ref content ej up fresh room) h = h
Write-IsConsistent (job_forgotten db id) h =
    All-update IsConsistent _ _ db.jobs (λ j _. expire_job-IsConsistent j) h
Write-IsConsistent (leases_lost db now) h =
    All-update IsConsistent _ _ db.jobs (lose_lease-IsConsistent now db) h
Write-IsConsistent (deadlines_missed db now) h =
    All-update IsConsistent _ _ db.jobs (lose_deadline-IsConsistent now) h
Write-IsConsistent (job_removed db stays id row er over gone) h =
    All-delete IsConsistent _ db.jobs h

pub Reach-IsConsistent : {c : Config} {db : Db} → Reach c db → All IsConsistent db.jobs
Reach-IsConsistent start = tt
Reach-IsConsistent {c = c} (next {db = db} r call fine) =
    Write-IsConsistent (perform-Write c call db 0 fine (IsSince-zero call)) (Reach-IsConsistent r)

-- In every database that a run can reach, a retry of a lost job is refused: for want of time, or
-- for want of budget. It is never accepted.
pub retry_of_lost_refused :
    (c : Config) (asked checked now id job_id : ℕ) (key : Option String) (db : Db) (j : Job)
    → Reach c db
    → job_row db job_id ≡ some j
    → j.state ≡ State.lost
    → (retry c asked checked now id job_id key db ≡ err (refused no_remaining_time 409))
      ⊎ (retry c asked checked now id job_id key db ≡ err (refused no_remaining_budget 409))
unfolding retry
retry_of_lost_refused c asked checked now id job_id key db j r e lost =
    let consistent : IsConsistent j =
      All-find IsConsistent (job_is job_id) db.jobs j (Reach-IsConsistent r) e in
    ground (arith, consistent.lost_without_result lost)
