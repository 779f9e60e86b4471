-- ===== src/Tests/Jobs.antt =====
-- Claims, submissions and results at concrete inputs.
use ephy_worker.Prelude.{
  ℕ, ◌+◌, ◌≡◌, ◌≢◌, ◌<◌, ◌≤◌, refl, ◌||◌, ◌==◌, true, false, none, some, All, arith,
}
use mathlib.Core.List.{Memᴰ}
use ephy_worker.Prelude.Table.{count, update}
use ephy_worker.Contract.Input.{covers, auto, contract_version}
use ephy_worker.Contract.Result.{ResultEnvelope}
use ephy_worker.Manager.Tables.{
  Db, Job, Worker, ok, err, refused, is_queued, worker_row, job_row, lease_expired, result_conflict,
}
use ephy_worker.Manager.Workers.{check_worker_credential}
use ephy_worker.Manager.Queue.{
  take_job, queued_job, claim, claim_as, can_claim, is_alive, active_jobs, required_capabilities,
  is_claimable, may_take, earlier,
}
use ephy_worker.Manager.Submission.{submit}
use ephy_worker.Manager.Lease.{attempt_row, holds_lease}
use ephy_worker.Manager.Finalization.{finalize, outcome_state}
use ephy_worker.Manager.Claims.{
  ComesFirst, claim_is_sound, claim_takes_earliest, claim_keeps_capacity,
}
use ephy_worker.Manager.Endings.{finalize_is_sound, finalize_again_lem}
use ephy_worker.Manager.Idempotence.{submit_again}
use ephy_worker.Tests.World.{
  world, submission, the_attempt, the_result, registered_db, queued_db, queued_one, running_db,
  running_one, finished_db, finished_one,
}

claim_grants : claim world 5 "secret" 3000 3000 20 30 queued_db ≡ ok (running_db, some the_attempt)
unfolding claim check_worker_credential claim_as ephy_worker.Prelude.Table.find can_claim is_alive
    active_jobs ephy_worker.Prelude.Table.count ephy_worker.Manager.Queue.occupies
    ephy_worker.Manager.Queue.assign_next ephy_worker.Manager.Queue.next_job
    ephy_worker.Manager.Queue.queue ephy_worker.Prelude.sort ephy_worker.Prelude.insert_sorted
    ephy_worker.Prelude.Table.select is_claimable is_queued may_take covers
    ephy_worker.Contract.Input.capability_eq ephy_worker.Contract.Input.required_job_capabilities
    ephy_worker.Manager.Queue.assign ephy_worker.Manager.Queue.assigned
    ephy_worker.Manager.Queue.better earlier ephy_worker.Manager.Queue.eligible_workers
    ephy_worker.Manager.Queue.is_eligible ephy_worker.Manager.Queue.new_attempt
    required_capabilities ephy_worker.Manager.Queue.take_job ephy_worker.Manager.Tables.is_active
    ephy_worker.Prelude.Table.insert ephy_worker.Prelude.Table.update
claim_grants = refl

submit_stores_one :
    submit world 2000 2000 10 submission registered_db ≡ ok (queued_db, queued_one, true)
unfolding submit ephy_worker.Prelude.Table.find ephy_worker.Manager.Submission.check_parent
    ephy_worker.Prelude.Table.insert ephy_worker.Manager.Submission.new_job
submit_stores_one = refl

finalize_ends :
    finalize world 4000 4000 4000 10 5 "secret" 30 the_result running_db
    ≡ ok (finished_db, finished_one)
unfolding finalize check_worker_credential ephy_worker.Prelude.Table.find attempt_row holds_lease
    ephy_worker.Manager.Finalization.finalize_active ephy_worker.Manager.Finalization.check_result
    ephy_worker.Contract.Input.mode_eq ephy_worker.Contract.Result.payload_mode
    ephy_worker.Contract.Input.mode_of ephy_worker.Contract.Input.kind_eq outcome_state
    ephy_worker.Manager.Finalization.check_manifest ephy_worker.Manager.Finalization.record_result
    ephy_worker.Manager.Finalization.finish_job ephy_worker.Prelude.Table.update
finalize_ends = refl

queued_is_there : job_row queued_db 10 ≡ some queued_one
unfolding ephy_worker.Prelude.Table.find
queued_is_there = refl

running_is_there : job_row running_db 10 ≡ some running_one
unfolding ephy_worker.Prelude.Table.find
running_is_there = refl

attempt_is_there : attempt_row running_db 10 running_one.attempt_id ≡ some the_attempt
unfolding attempt_row ephy_worker.Prelude.Table.find
attempt_is_there = refl

worker_is_known : check_worker_credential world 5 "secret" ≡ ok tt
unfolding check_worker_credential
worker_is_known = refl

lease_is_held : holds_lease the_attempt 5 30 ≡ true
unfolding holds_lease
lease_is_held = refl

claim_is_sound_example :
    (w : Worker) × (j : Job) × (worker_row queued_db 5 ≡ some w)
    × (is_alive world 3000 w ≡ true)
    × (w.contract_version ≡ contract_version)
    × (active_jobs queued_db w.worker_id < w.concurrency)
    × Memᴰ j queued_db.jobs
    × (count (queued_job j.job_id) queued_db.jobs ≡ 1)
    × (running_db.jobs
        ≡ update
            (queued_job j.job_id)
            (take_job w.worker_id 20 (j.attempt_number + 1))
            queued_db.jobs)
    × (is_queued j.state ≡ true)
    × (((j.target_worker_id == w.worker_id) || (j.target_worker_id == auto)) ≡ true)
    × (3000 < j.deadline_at)
    × (covers w.capabilities (required_capabilities j) ≡ true)
    × (the_attempt.job_id ≡ j.job_id)
    × (the_attempt.worker_id ≡ w.worker_id)
    × (the_attempt.lease_expires_at ≡ 3000 + world.lease_seconds)
claim_is_sound_example =
    claim_is_sound world 5 "secret" 3000 3000 20 30 queued_db running_db the_attempt claim_grants

claim_takes_earliest_example :
    (w : Worker) × (j : Job) × (worker_row queued_db 5 ≡ some w)
    × (the_attempt.job_id ≡ j.job_id)
    × Memᴰ j queued_db.jobs
    × (is_queued j.state ≡ true)
    × (count (queued_job j.job_id) queued_db.jobs ≡ 1)
    × (running_db.jobs
        ≡ update
            (queued_job j.job_id)
            (take_job w.worker_id 20 (j.attempt_number + 1))
            queued_db.jobs)
    × All
        (λ k.
          is_claimable w.worker_id 3000 k ≡ true
          → may_take world 3000 queued_db w k ≡ true
          → ComesFirst j k)
        queued_db.jobs
claim_takes_earliest_example =
    claim_takes_earliest world 5 "secret" 3000 3000 20 30 queued_db running_db the_attempt
      claim_grants

claim_keeps_capacity_example :
    (w : Worker) × (worker_row queued_db 5 ≡ some w)
    × (active_jobs running_db w.worker_id ≡ active_jobs queued_db w.worker_id + 1)
    × (active_jobs running_db w.worker_id ≤ w.concurrency)
    × ((v : ℕ) → v ≢ w.worker_id → active_jobs running_db v ≡ active_jobs queued_db v)
claim_keeps_capacity_example =
    claim_keeps_capacity world 5 "secret" 3000 3000 20 30 queued_db running_db the_attempt
      claim_grants

submit_again_example :
    submit world 2500 2500 11 submission queued_db ≡ ok (queued_db, queued_one, false)
submit_again_example =
    submit_again world 2000 2000 10 2500 2500 11 submission submission registered_db queued_db
      queued_one true submit_stores_one refl refl

finalize_is_sound_example :
    (the_attempt.worker_id ≡ 5)
    × (the_attempt.lease_token ≡ 30)
    × (4000 ≤ the_attempt.lease_expires_at)
    × (the_result.job_id ≡ 10)
    × (the_result.attempt_id ≡ the_attempt.attempt_id)
    × (outcome_state running_one.state the_result.status ≡ ok finished_one.state)
    × (finished_one.result ≡ some the_result)
    × (job_row finished_db 10 ≡ some finished_one)
finalize_is_sound_example =
    finalize_is_sound world 4000 4000 4000 10 5 "secret" 30 the_result running_one finished_one
      the_attempt running_db finished_db running_is_there attempt_is_there refl finalize_ends

-- The same report but for a field that the records leave out.
abbrev other_result : ResultEnvelope
other_result = record the_result { others = "{\"title\":\"x\"}" }

finalize_again_lem_example :
    ((the_result ≡ other_result)
      → finalize world 5000 5000 5000 10 5 "secret" 30 other_result finished_db
        ≡ ok (finished_db, finished_one))
    × ((the_result ≢ other_result)
        → finalize world 5000 5000 5000 10 5 "secret" 30 other_result finished_db
          ≡ err (refused result_conflict 409))
finalize_again_lem_example =
    finalize_again_lem world 4000 4000 4000 10 5 "secret" 30 the_result running_one finished_one
      the_attempt running_db finished_db running_is_there attempt_is_there refl finalize_ends 5000
      5000 5000 other_result
