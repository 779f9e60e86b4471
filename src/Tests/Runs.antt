-- ===== src/Tests/Runs.antt =====
-- Runs of calls at concrete inputs.
use ephy_worker.Prelude.{
  ℕ, ◌≤◌, ◌≡◌, ◌≢◌, ◌⊎◌, refl, subst, sym, true, false, none, some, List, [], ◌∷◌, arith,
}
use ephy_worker.Manager.Tables.{
  Db, Job, State, job_row, worker_row, err, refused, no_remaining_time, no_remaining_budget,
  empty_db, is_terminal, attempt_is,
}
use ephy_worker.Manager.Queue.{claim}
use ephy_worker.Manager.Submission.{retry}
use ephy_worker.Manager.Run.{
  register, submits, claims, cancels, sweeps, renews, perform, run, after, Reach, start, next,
  IsNew,
}
use ephy_worker.Manager.Lifecycle.{perform-Follows, run_follows, run_keeps_ended, ◌⟶*◌}
use ephy_worker.Manager.Consistency.{retry_of_lost_refused}
use ephy_worker.Manager.Keys.{HasKeys, Reach-HasKeys}
use ephy_worker.Manager.Cancellation.Rows.{IsUnconfirmed}
use ephy_worker.Manager.Cancellation.{unconfirmed_cancel_stays, unconfirmed_cancel_blocks_claims}
use ephy_worker.Prelude.Table.{find}
use ephy_worker.Contract.Input.{registration_valid, submit_valid}
use ephy_worker.Manager.Writes.{IsSince, removal_of}
use ephy_worker.Tests.World.{
  world, registration, submission, the_worker, the_attempt, queued_one, running_one, registered_db,
  queued_db, running_db, finished_db, finished_one,
}

-- The databases of the run, computed.
registers : perform world (register 5 "secret" registration 1000) empty_db ≡ registered_db
unfolding perform ephy_worker.Manager.Workers.upsert_worker
    ephy_worker.Manager.Workers.check_worker_credential ephy_worker.Prelude.Table.find
    ephy_worker.Prelude.Table.insert
registers = refl

submits_one : perform world (submits 2000 2000 10 submission) registered_db ≡ queued_db
unfolding perform ephy_worker.Manager.Submission.submit ephy_worker.Prelude.Table.find
    ephy_worker.Manager.Submission.check_parent ephy_worker.Prelude.Table.insert
    ephy_worker.Manager.Submission.new_job
submits_one = refl

claims_one : perform world (claims 5 "secret" 3000 3000 20 30) queued_db ≡ running_db
unfolding perform claim ephy_worker.Manager.Workers.check_worker_credential
    ephy_worker.Manager.Queue.claim_as ephy_worker.Prelude.Table.find
    ephy_worker.Manager.Queue.can_claim ephy_worker.Manager.Queue.is_alive
    ephy_worker.Manager.Queue.active_jobs ephy_worker.Prelude.Table.count
    ephy_worker.Manager.Queue.occupies ephy_worker.Manager.Queue.assign_next
    ephy_worker.Manager.Queue.next_job ephy_worker.Manager.Queue.queue ephy_worker.Prelude.sort
    ephy_worker.Prelude.Table.select ephy_worker.Manager.Queue.is_claimable
    ephy_worker.Manager.Tables.is_queued ephy_worker.Manager.Queue.may_take
    ephy_worker.Contract.Input.covers ephy_worker.Manager.Queue.required_capabilities
    ephy_worker.Contract.Input.required_job_capabilities ephy_worker.Manager.Queue.eligible_workers
    ephy_worker.Manager.Queue.is_eligible ephy_worker.Manager.Queue.assign
    ephy_worker.Prelude.Table.update ephy_worker.Prelude.Table.insert
claims_one = refl

abbrev asked_one : Job
asked_one = record running_one { state = State.cancel_requested }

abbrev asked_db : Db
asked_db = record running_db { jobs = asked_one ∷ [] }

asks : perform world (cancels 10) running_db ≡ asked_db
unfolding perform ephy_worker.Manager.Lease.cancel ephy_worker.Prelude.Table.find is_terminal
    ephy_worker.Prelude.Table.update ephy_worker.Manager.Tables.is_queued
    ephy_worker.Manager.Tables.is_running
asks = refl

abbrev lost_one : Job
lost_one = record queued_one { state = State.lost; stop_reason = some "deadline_expired" }

abbrev lost_db : Db
lost_db = record registered_db {
  jobs = lost_one ∷ [];
  workers = record the_worker { online = false } ∷ [];
}

sweeps_one : perform world (sweeps 200000 200000) queued_db ≡ lost_db
unfolding perform ephy_worker.Manager.Sweeper.sweep_once ephy_worker.Prelude.Table.update
    ephy_worker.Manager.Retention.expire_observations ephy_worker.Prelude.Table.select
    ephy_worker.Manager.Retention.is_expired ephy_worker.Contract.Input.kind_eq
    ephy_worker.Manager.Sweeper.missed_deadline ephy_worker.Manager.Sweeper.is_silent
    ephy_worker.Manager.Tables.is_queued ephy_worker.Manager.Sweeper.has_lost_lease
    ephy_worker.Manager.Tables.is_running
sweeps_one = refl

registration_is_valid : registration_valid registration ≡ true
unfolding registration_valid
registration_is_valid = refl

submission_is_valid : submit_valid submission ≡ true
unfolding submit_valid ephy_worker.Contract.Input.input_valid
    ephy_worker.Contract.Limits.limits_valid ephy_worker.Contract.Limits.counts_in_range
    ephy_worker.Contract.Limits.default_limits ephy_worker.Contract.Limits.times_in_range
    ephy_worker.Contract.Limits.sizes_in_range ephy_worker.Contract.Input.kind_matches_input
submission_is_valid = refl

ten-IsNew : IsNew 10 registered_db
unfolding find
ten-IsNew = (refl, refl)

twenty_is_new : find (attempt_is 20) queued_db.attempts ≡ none
unfolding find
twenty_is_new = refl

Reach-registered : Reach world registered_db
Reach-registered =
    subst (Reach world) registers
      (next start (register 5 "secret" registration 1000) registration_is_valid)

Reach-queued : Reach world queued_db
Reach-queued =
    subst (Reach world) submits_one
      (next Reach-registered (submits 2000 2000 10 submission) (submission_is_valid, ten-IsNew))

Reach-running : Reach world running_db
Reach-running =
    subst (Reach world) claims_one
      (next Reach-queued (claims 5 "secret" 3000 3000 20 30) twenty_is_new)

Reach-asked : Reach world asked_db
Reach-asked = subst (Reach world) asks (next Reach-running (cancels 10) tt)

Reach-lost : Reach world lost_db
Reach-lost = subst (Reach world) sweeps_one (next Reach-queued (sweeps 200000 200000) tt)

asked-IsUnconfirmed : IsUnconfirmed 60000 10 5 20 asked_db
unfolding find
asked-IsUnconfirmed = record {
  job = asked_one;
  attempt = the_attempt;
  found = refl;
  asked = refl;
  assigned = refl;
  attempted = refl;
  its_attempt = refl;
  over = omega arith;
}

queued_is_there : job_row queued_db 10 ≡ some queued_one
unfolding find
queued_is_there = refl

finished_is_there : job_row finished_db 10 ≡ some finished_one
unfolding find
finished_is_there = refl

lost_is_there : job_row lost_db 10 ≡ some lost_one
unfolding find
lost_is_there = refl

worker_is_there : worker_row asked_db 5 ≡ some the_worker
unfolding find
worker_is_there = refl

completed_is_terminal : is_terminal finished_one.state ≡ true
unfolding is_terminal
completed_is_terminal = refl

claim_removes_none : removal_of (claims 5 "secret" 3000 3000 20 30) ≢ some 10
claim_removes_none = λ e. cc e

cancel_removes_none : removal_of (cancels 10) ≢ some 10
cancel_removes_none = λ e. cc e

late_enough : IsSince 60000 (renews 60000 10 5 "secret" 20 30)
late_enough = omega arith

perform-Follows_example :
    (j' : Job) × (job_row (perform world (claims 5 "secret" 3000 3000 20 30) queued_db) 10
      ≡ some j')
    × (State.queued ⟶* j'.state)
perform-Follows_example =
    perform-Follows world (claims 5 "secret" 3000 3000 20 30) queued_db 10 queued_one twenty_is_new
      queued_is_there claim_removes_none

run_follows_example :
    (j' : Job) × (job_row
        (run world (claims 5 "secret" 3000 3000 20 30 ∷ cancels 10 ∷ []) queued_db)
        10
      ≡ some j')
    × (State.queued ⟶* j'.state)
run_follows_example =
    run_follows world (claims 5 "secret" 3000 3000 20 30 ∷ cancels 10 ∷ []) queued_db 10 queued_one
      (twenty_is_new, (tt, tt)) (claim_removes_none, (cancel_removes_none, tt)) queued_is_there

run_keeps_ended_example :
    (j' : Job) × (job_row (run world (cancels 10 ∷ []) finished_db) 10 ≡ some j')
    × (j'.state ≡ State.completed)
run_keeps_ended_example =
    run_keeps_ended world (cancels 10 ∷ []) finished_db 10 finished_one (tt, tt)
      (cancel_removes_none, tt) finished_is_there completed_is_terminal

Reach-HasKeys_example : HasKeys asked_db
Reach-HasKeys_example = Reach-HasKeys {c = world} {db = asked_db} Reach-asked

retry_of_lost_refused_example :
    (retry world 3000 3000 3000 11 10 none lost_db ≡ err (refused no_remaining_time 409))
    ⊎ (retry world 3000 3000 3000 11 10 none lost_db ≡ err (refused no_remaining_budget 409))
retry_of_lost_refused_example =
    retry_of_lost_refused world 3000 3000 3000 11 10 none lost_db lost_one Reach-lost lost_is_there
      refl

unconfirmed_cancel_stays_example :
    (j : Job) × (job_row (run world (renews 60000 10 5 "secret" 20 30 ∷ []) asked_db) 10 ≡ some j)
    × (j.state ≡ State.cancel_requested)
    × (j.worker_id ≡ some 5)
    × (j.attempt_id ≡ some 20)
unconfirmed_cancel_stays_example =
    unconfirmed_cancel_stays world (renews 60000 10 5 "secret" 20 30 ∷ []) asked_db 60000 10 5 20
      Reach-asked asked-IsUnconfirmed (tt, tt) (late_enough, tt)

worker_after_run : worker_row (run world [] asked_db) 5 ≡ some the_worker
unfolding find run
worker_after_run = refl

unconfirmed_cancel_blocks_claims_example :
    after (run world [] asked_db) (claim world 5 "secret" 3000 3000 40 50 (run world [] asked_db))
    ≡ run world [] asked_db
unconfirmed_cancel_blocks_claims_example =
    unconfirmed_cancel_blocks_claims world [] asked_db 60000 10 5 20 the_worker "secret" 3000 3000
      40 50 Reach-asked asked-IsUnconfirmed tt tt worker_after_run (omega arith)
