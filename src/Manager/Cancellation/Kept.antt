-- ===== src/Manager/Cancellation/Kept.antt =====
-- No write of the manager moves a job whose requested stop is not confirmed.
use mathlib.Core.Option
use ephy_worker.Prelude.{
  ℕ, ap, ◌≡◌, refl, sym, ◌∙◌, true, false, some, Option, arith, inl, inr, ◌==◌, ==_iff, Bool,
  Bool-cases, &&-eq-true,
}
use ephy_worker.Prelude.Table.{find, update, find-insert-some, find-delete}
use ephy_worker.Manager.Tables.{
  Db, Config, Job, Attempt, State, is_terminal, is_queued, is_running, job_is,
}
use ephy_worker.Manager.Queue.{take_job, queued_job}
use ephy_worker.Manager.Lease.{cancel_job, attempt_of, extend}
use ephy_worker.Manager.Retention.{forget, expire_job}
use ephy_worker.Manager.Finalization.{finish_job, finish_attempt, record_result}
use ephy_worker.Manager.Artifacts.{store_artifact}
use ephy_worker.Manager.Sweeper.{
  lose_lease, lose_deadline, has_lost_lease, missed_deadline, remove_job, attempt_for,
}
use ephy_worker.Manager.Keys.{HasKeys, Write-HasKeys}
use ephy_worker.Manager.Writes.Cases.{
  Write, unchanged, also, workers_set, job_added, job_taken, lease_renewed, job_cancelled,
  job_finished, artifact_stored, job_forgotten, leases_lost, deadlines_missed, job_removed,
}
use ephy_worker.Manager.Cancellation.Rows.{
  IsUnconfirmed, Leaves, Leaves-update, lease_stays, renewal_is_other, result_is_other,
  IsUnconfirmed-of,
}

module _ {since id worker attempt_id : ℕ} {db : Db}
    (u : IsUnconfirmed since id worker attempt_id db) where
  as_it_is : Leaves id worker attempt_id db.jobs
  as_it_is = (u.job, u.found, u.asked, u.assigned, u.attempted)

  attempt_as_it_is :
      (b : Attempt) × (find (attempt_of id attempt_id) db.attempts ≡ some b)
      × (b.lease_expires_at ≡ u.attempt.lease_expires_at)
  attempt_as_it_is = (u.attempt, u.its_attempt, refl)

  -- An UPDATE of jobs that leaves state, worker and attempt of this one alone.
  leaves :
      (q : Job → Bool) (f : Job → Job)
      → ((r : Job) → (f r).job_id ≡ r.job_id)
      → (q u.job ≡ true
          → ((f u.job).state ≡ State.cancel_requested)
            × ((f u.job).worker_id ≡ some worker)
            × ((f u.job).attempt_id ≡ some attempt_id))
      → Leaves id worker attempt_id (update q f db.jobs)
  leaves q f keep same =
      Leaves-update q f db.jobs id worker attempt_id u.job keep u.found u.asked u.assigned
        u.attempted same

  not_queued : is_queued u.job.state ≡ false
  unfolding is_queued
  not_queued = rw u.asked

  not_running : is_running u.job.state ≡ false
  unfolding is_running
  not_running = rw u.asked

  cancel_again :
      ((cancel_job u.job).state ≡ State.cancel_requested)
      × ((cancel_job u.job).worker_id ≡ some worker)
      × ((cancel_job u.job).attempt_id ≡ some attempt_id)
  unfolding cancel_job
  cancel_again = ground (arith, not_queued, not_running, u.asked, u.assigned, u.attempted)

cancel_keeps_id : (j : Job) → (cancel_job j).job_id ≡ j.job_id
unfolding cancel_job
cancel_keeps_id j = ground arith

-- Such a job is not deleted: it has not ended.
deletion_is_other :
    {since id worker attempt_id : ℕ} (db : Db) (id' : ℕ) (row : Job)
    → IsUnconfirmed since id worker attempt_id db
    → find (job_is id') db.jobs ≡ some row
    → is_terminal row.state ≡ true
    → (id' == id) ≡ false
unfolding is_terminal
deletion_is_other {id = id} db id' row u er over = elim (Bool-cases (id' == id)) [
  | inr other ↦ other
  | inl hit ↦
      let there : find (job_is id) db.jobs ≡ some row = rw (← (==_iff id' id).0 hit) er in
      let same : u.job ≡ row = Option.some-injective u.job row (sym u.found ∙ there) in
      cc (over, u.asked, ap (λ (x : Job). x.state) same)
]

-- No write moves such a job.
pub Write-IsUnconfirmed :
    {c : Config} {removed : Option ℕ} {since id worker attempt_id : ℕ} {db db' : Db}
    → Write c removed since db db'
    → HasKeys db
    → IsUnconfirmed since id worker attempt_id db
    → IsUnconfirmed since id worker attempt_id db'
unfolding forget store_artifact record_result remove_job take_job extend finish_job finish_attempt
    expire_job lose_lease lose_deadline has_lost_lease missed_deadline
Write-IsUnconfirmed (unchanged db) keys u = u
Write-IsUnconfirmed (also w v) keys u =
    Write-IsUnconfirmed v (Write-HasKeys w keys) (Write-IsUnconfirmed w keys u)
Write-IsUnconfirmed (workers_set db ws) keys u =
    IsUnconfirmed-of _ _ _ _ _ u.attempt (as_it_is u) (attempt_as_it_is u) u.over
Write-IsUnconfirmed (job_added db checked now new s valid fresh key parent) keys u =
    IsUnconfirmed-of _ _ _ _ _ u.attempt
      (u.job, find-insert-some _ _ db.jobs u.job u.found, u.asked, u.assigned, u.attempted)
      (attempt_as_it_is u) u.over
Write-IsUnconfirmed (job_taken db seen now attempt token w t fresh can taken one) keys u =
    IsUnconfirmed-of _ _ _ _ _ u.attempt
      (leaves u (queued_job t.job_id) _ (λ r. refl)
        (λ hit. cc (not_queued u, (&&-eq-true (u.job.job_id == t.job_id) _ hit).1)))
      (u.attempt, find-insert-some _ _ db.attempts u.attempt u.its_attempt, refl) u.over
Write-IsUnconfirmed (lease_renewed db job_id attempt now until a late found live) keys u =
    IsUnconfirmed-of _ _ _ _ _ u.attempt (as_it_is u)
      (lease_stays _ _ db.attempts _ _ u.attempt (λ r. refl) u.its_attempt
        (renewal_is_other _ now until _ _ job_id attempt db.attempts u.attempt a keys.of_attempts
          u.its_attempt found u.over late live))
      u.over
Write-IsUnconfirmed (job_cancelled db id') keys u =
    IsUnconfirmed-of _ _ _ _ _ u.attempt
      (leaves u (job_is id') cancel_job cancel_keeps_id (λ _. cancel_again u)) (attempt_as_it_is u)
      u.over
Write-IsUnconfirmed (job_finished db id' now ended row a state r late live er ea unfinished eo) keys
      u =
    IsUnconfirmed-of _ _ _ _ _ u.attempt
      (leaves u (job_is row.job_id) (finish_job state r) (λ r. refl)
        (λ hit. cc (hit, result_is_other db _ now _ _ _ id' row a u late live er ea)))
      (lease_stays _ (finish_attempt ended) db.attempts _ _ u.attempt (λ r. refl) u.its_attempt
        (λ hit. refl))
      u.over
Write-IsUnconfirmed (artifact_stored db job a id' ref content ej up fresh room) keys u =
    IsUnconfirmed-of _ _ _ _ _ u.attempt (as_it_is u) (attempt_as_it_is u) u.over
Write-IsUnconfirmed (job_forgotten db id') keys u =
    IsUnconfirmed-of _ _ _ _ _ u.attempt
      (leaves u (job_is id') expire_job (λ r. refl) (λ _. (u.asked, u.assigned, u.attempted)))
      (attempt_as_it_is u) u.over
Write-IsUnconfirmed (leases_lost db now) keys u =
    IsUnconfirmed-of _ _ _ _ _ u.attempt
      (leaves u (has_lost_lease now db) lose_lease (λ r. refl)
        (λ hit. cc (not_running u, (&&-eq-true (is_running u.job.state) _ hit).0)))
      (attempt_as_it_is u) u.over
Write-IsUnconfirmed (deadlines_missed db now) keys u =
    IsUnconfirmed-of _ _ _ _ _ u.attempt
      (leaves u (missed_deadline now) lose_deadline (λ r. refl)
        (λ hit. cc (not_queued u, (&&-eq-true (is_queued u.job.state) _ hit).0)))
      (attempt_as_it_is u) u.over
Write-IsUnconfirmed {id = id} (job_removed db stays id' row er over gone) keys u =
    let other : (id' == id) ≡ false = deletion_is_other db id' row u er over in
    IsUnconfirmed-of _ _ _ _ _ u.attempt
      (
        u.job,
        find-delete (job_is id) (job_is id') db.jobs (λ r h. ground (arith, ==_iff r.job_id id))
            ∙ u.found,
        u.asked,
        u.assigned,
        u.attempted,
      )
      (
        u.attempt,
        find-delete _ (attempt_for id') db.attempts (λ r h. ground (arith, ==_iff r.job_id id))
            ∙ u.its_attempt,
        refl,
      )
      u.over
