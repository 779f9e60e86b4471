-- ===== src/Worker/Fallback.antt =====
-- A cancellation that comes before the report of a web job.
use ephy_worker.Prelude.{◌≡◌, ◌≢◌, ◌≤◌, refl, true, none, some, [], arith}
use ephy_worker.Contract.Input.{web_collect, kind_eq, mode_eq, mode_of}
use ephy_worker.Contract.Result.{Status, ResultEnvelope, payload_mode}
use ephy_worker.Manager.Tables.{
  Db, Config, Job, Attempt, State, ok, err, refused, result_conflicts_with_cancel, job_row,
}
use ephy_worker.Manager.Workers.{check_worker_credential}
use ephy_worker.Manager.Lease.{attempt_row, holds_lease}
use ephy_worker.Manager.Finalization.{
  finalize, finalize_active, check_result, outcome_state, check_manifest, record_result, finish_job,
}
use ephy_worker.Manager.Run.{run}
use ephy_worker.Worker.Service.{
  Course, Holder, as_cancelled, finalize_or_cancel, is_cancel_conflict, settle,
}

-- The job was asked to stop while its attempt is alive, and the result is for that attempt, with
-- its artifacts stored.
pub record IsRaced (c : Config) (k : Course) (h : Holder) (r : ResultEnvelope) (row : Job)
    (a : Attempt) (db : Db) : Type 0 where
  pub web : row.kind ≡ web_collect
  pub asked : row.state ≡ State.cancel_requested
  pub its_row : job_row db h.job_id ≡ some row
  pub its_attempt : attempt_row db h.job_id row.attempt_id ≡ some a
  pub known : check_worker_credential c h.worker_id h.credential ≡ ok tt
  pub holder : holds_lease a h.worker_id h.lease_token ≡ true
  pub new : a.finalized_at ≡ none
  pub in_time : k.now ≤ a.lease_expires_at
  pub in_time_again : k.now_again ≤ a.lease_expires_at
  pub of_job : r.job_id ≡ row.job_id
  pub of_attempt : r.attempt_id ≡ a.attempt_id
  pub fits : mode_eq (payload_mode r.payload) (mode_of row.input) ≡ true
  pub stored : check_manifest row.job_id a.attempt_id db.artifacts r.manifest ≡ ok tt

unasked_conflicts :
    (t : Status)
    → t ≢ Status.cancelled
    → outcome_state State.cancel_requested t ≡ err (refused result_conflicts_with_cancel 409)
unfolding outcome_state
unasked_conflicts t other = ground arith

first_refused :
    (c : Config) (k : Course) (h : Holder) (r : ResultEnvelope) (row : Job) (a : Attempt) (db : Db)
    → IsRaced c k h r row a db
    → r.status ≢ Status.cancelled
    → finalize c k.now k.now k.now h.job_id h.worker_id h.credential h.lease_token r db
      ≡ err (refused result_conflicts_with_cancel 409)
unfolding finalize finalize_active check_result kind_eq
first_refused c k h r row a db i other = ground (
  arith,
  i.web,
  i.asked,
  i.its_row,
  i.its_attempt,
  i.known,
  i.holder,
  i.new,
  i.in_time,
  i.of_job,
  i.of_attempt,
  i.fits,
  unasked_conflicts r.status other,
)

second_taken :
    (c : Config) (k : Course) (h : Holder) (r : ResultEnvelope) (row : Job) (a : Attempt) (db : Db)
    → IsRaced c k h r row a db
    → finalize c k.now_again k.now_again k.now_again h.job_id h.worker_id h.credential h.lease_token
        (as_cancelled r)
        db
      ≡ ok (
        record_result k.now_again row a State.cancelled (as_cancelled r) db,
        finish_job State.cancelled (as_cancelled r) row,
      )
unfolding finalize finalize_active check_result kind_eq as_cancelled outcome_state
second_taken c k h r row a db i = ground (
  arith, i.web, i.asked, i.its_row, i.its_attempt, i.known, i.holder, i.new, i.in_time_again,
  i.of_job, i.of_attempt, i.fits, i.stored,
)

-- If the requester cancels a web job before its worker reports another outcome, and nothing else
-- happens between the two requests, then the report succeeds all the same: the job ends
-- cancelled, with the collected payload as its result.
pub finalize_or_cancel_confirms :
    (c : Config) (k : Course) (h : Holder) (r : ResultEnvelope) (row : Job) (a : Attempt) (db : Db)
    → IsRaced c k h r row a db
    → r.status ≢ Status.cancelled
    → k.before_fallback ≡ []
    → finalize_or_cancel c k h r db
      ≡ (record_result k.now_again row a State.cancelled (as_cancelled r) db, none)
unfolding finalize_or_cancel is_cancel_conflict settle run
finalize_or_cancel_confirms c k h r row a db i other quiet =
    rw (finalize_or_cancel, first_refused c k h r row a db i other, quiet)
      (rw (second_taken c k h r row a db i) refl)
