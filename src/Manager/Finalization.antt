-- ===== src/Manager/Finalization.antt =====
-- The end of an attempt (manager.py: `finalize`).
use ephy_worker.Prelude.{
  ℕ, ◌+◌, ◌*◌, String, Bool, true, false, not, ◌&&◌, List, [], ◌∷◌, Option, none, some, ◌==◌, ltb,
  is_some, if◌then◌else◌,
}
use ephy_worker.Prelude.Table.{find, update, insert}
use ephy_worker.Contract.Input.{discord_observe, kind_eq, mode_eq, mode_of}
use ephy_worker.Contract.Result.{
  ArtifactRef, same_content, ResultEnvelope, ResultEnvelope-discrete, Payload, observe_payload,
  payload_mode, Status,
}
use ephy_worker.Manager.Tables.{
  Db, Config, Job, Attempt, Artifact, Observation, State, Result, ok, err, refused, raise_if,
  or_raise, ◌>>=◌, ◌>>◌, job_is, attempt_is, job_row, unknown_job, lease_conflict, result_conflict,
  lease_expired, attempt_mismatch, mode_mismatch, result_conflicts_with_cancel, not_runnable,
  artifact_missing, artifact_mismatch,
}
use ephy_worker.Manager.Workers.{check_worker_credential}
use ephy_worker.Manager.Lease.{attempt_row, holds_lease}
use ephy_worker.Manager.Activity.{day}
use ephy_worker.Manager.Observations.{validate_observation_result}

abbrev pub decided {ℓ} : {A : Type ℓ} → Dec A → Bool
decided (yes p) = true
decided (no p) = false

-- `stored == result.model_dump(mode="json")`.
unfoldable pub same_result : Option ResultEnvelope → ResultEnvelope → Bool
unfolding ResultEnvelope-discrete
same_result none r = false
same_result (some s) r = decided (ResultEnvelope-discrete s r)

-- The new state of the job, from its state and the status of the result.
unfoldable pub outcome_state : State → Status → Result State
outcome_state State.running Status.succeeded = ok State.completed
outcome_state State.running Status.partial = ok State.partial
outcome_state State.running Status.failed = ok State.failed
outcome_state State.running Status.cancelled = err (refused result_conflicts_with_cancel 409)
outcome_state State.cancel_requested Status.cancelled = ok State.cancelled
outcome_state State.cancel_requested _ = err (refused result_conflicts_with_cancel 409)
outcome_state _ _ = err (refused not_runnable 409)

abbrev pub artifact_at : ℕ → ℕ → ℕ → Artifact → Bool
artifact_at artifact_id job_id attempt_id a =
    a.ref.artifact_id == artifact_id && a.job_id == job_id && a.attempt_id == attempt_id

-- The loop over the manifest: each reference is a stored artifact of this attempt.
unfoldable pub check_manifest : ℕ → ℕ → List Artifact → List ArtifactRef → Result (Unit {0})
check_manifest job_id attempt_id artifacts [] = ok tt
check_manifest job_id attempt_id artifacts (ref ∷ rest) =
    let others = check_manifest job_id attempt_id artifacts rest in
    elim (find (artifact_at ref.artifact_id job_id attempt_id) artifacts) [
      | none ↦ err (refused artifact_missing 409)
      | some stored ↦
          if same_content stored.ref ref then others else err (refused artifact_mismatch 409)
    ]

is_cancelled : State → Bool
is_cancelled State.cancelled = true
is_cancelled _ = false

-- A cancellation with no reason gets one.
unfoldable pub final_reason : State → Option String → Option String
unfolding is_cancelled
final_reason state reason =
    if is_cancelled state && not (is_some reason) then some "cancelled_by_requester" else reason

unfoldable pub finish_job : State → ResultEnvelope → Job → Job
unfolding final_reason
finish_job state r j = record j {
  state = state;
  stop_reason = final_reason state r.stop_reason;
  result = some r;
}

unfoldable pub finish_attempt : ℕ → Attempt → Attempt
finish_attempt now a = record a { finalized_at = some now }

-- An observation is kept for thirty days.
unfoldable pub keep_observation : ℕ → ℕ → Payload → List Observation → List Observation
keep_observation job_id attempt_id (observe_payload p) observations =
    insert
      (record {
        job_id = job_id;
        attempt_id = attempt_id;
        collected_at = p.coverage.observed_at;
        expires_at = p.coverage.observed_at + 30 * day;
        payload = p;
      })
      observations
keep_observation job_id attempt_id _ observations = observations

-- The writes of `finalize`.
unfoldable pub record_result : ℕ → Job → Attempt → State → ResultEnvelope → Db → Db
unfolding finish_job finish_attempt keep_observation
record_result now row a state r db = record db {
  jobs = update (job_is row.job_id) (finish_job state r) db.jobs;
  attempts = update (attempt_is a.attempt_id) (finish_attempt now) db.attempts;
  observations = keep_observation row.job_id a.attempt_id r.payload db.observations;
}

-- What `finalize` checks before it decides the new state.
unfoldable pub check_result : ℕ → ℕ → Job → Attempt → ResultEnvelope → Result (Unit {0})
check_result now checked row a r = do
  raise_if (ltb a.lease_expires_at now) lease_expired 409
  raise_if (not (r.job_id == row.job_id && r.attempt_id == a.attempt_id)) attempt_mismatch 409
  raise_if (not (mode_eq (payload_mode r.payload) (mode_of row.input))) mode_mismatch 409
  if kind_eq row.kind discord_observe then validate_observation_result checked row r else ok tt

-- The first result of an attempt.
unfoldable pub finalize_active : ℕ → ℕ → ℕ → Job → Attempt → ResultEnvelope → Db → Result (Db × Job)
finalize_active now checked ended row a r db = do
  check_result now checked row a r
  state ← outcome_state row.state r.status
  check_manifest row.job_id a.attempt_id db.artifacts r.manifest
  ok (record_result ended row a state r db, finish_job state r row)

-- A result for an attempt that has one is accepted again if it is the same.
unfoldable pub finalize_again : Job → ResultEnvelope → Db → Result (Db × Job)
finalize_again row r db =
    if same_result row.result r then ok (db, row) else err (refused result_conflict 409)

-- `finalize`. `now`, `checked` and `ended` are its readings of the clock.
unfoldable pub finalize :
    Config → ℕ → ℕ → ℕ → ℕ → ℕ → String → ℕ → ResultEnvelope → Db → Result (Db × Job)
finalize c now checked ended job_id worker_id credential lease_token r db = do
  check_worker_credential c worker_id credential
  row ← or_raise (job_row db job_id) unknown_job 404
  a ← or_raise (attempt_row db job_id row.attempt_id) lease_conflict 409
  raise_if (not (holds_lease a worker_id lease_token)) lease_conflict 409
  if is_some a.finalized_at
      then finalize_again row r db
      else finalize_active now checked ended row a r db
