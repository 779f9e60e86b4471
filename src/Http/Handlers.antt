-- ===== src/Http/Handlers.antt =====
-- The handlers (manager.py, class `ManagerApp`), but for the list of workers and the health page.
use ephy_worker.Prelude.{
  Bool, ℕ, String, not, ◌||◌, ◌==◌, List, Option, none, some, ltb, length, if◌then◌else◌,
}
use ephy_worker.Contract.Result.{ArtifactRef, ResultEnvelope}
use ephy_worker.Manager.Tables.{
  StoredFile, Db, not_terminal, result_unavailable, artifact_size_mismatch, refused, Result, ok,
  err, is_terminal,
}
use ephy_worker.Manager.Workers.{check_worker_credential, upsert_worker}
use ephy_worker.Manager.Queue.{claim}
use ephy_worker.Manager.Submission.{submit, retry}
use ephy_worker.Manager.Lease.{renew_lease, cancel, LeaseState, ended, deadline_passed, renewed}
use ephy_worker.Manager.Finalization.{finalize}
use ephy_worker.Manager.Artifacts.{add_artifact, get_artifact}
use ephy_worker.Manager.Sweeper.{delete_job, job_view, job_result, JobView}
use ephy_worker.Http.Replies.{
  HttpConfig, Reply, reply, failure, of_manager, bad_credential, invalid_payload,
  invalid_artifact_size, Answer, worker_answer, job_answer, view_answer, result_answer, deleted,
  claimed, lease_answer, uploaded, document, error_reply, answer, answer_read, answer_submit,
  with_json, with_body, read_body, is_requester,
}

-- The headers of a worker's request.
pub record Caller : Type 0 where
  pub worker_id : ℕ
  pub credential : String
  pub attempt_id : ℕ
  pub lease_token : ℕ

-- What the headers of an upload say. `ref` is what the validation of the reference makes of them.
pub record UploadHeaders : Type 0 where
  pub declared_bytes : Option ℕ
  pub ref : Option ArtifactRef

pub data Request : Type 0 where
  submit_job : String → ℕ → ℕ → ℕ → List (List ℕ) → Request
  retry_job : String → ℕ → ℕ → ℕ → ℕ → ℕ → List (List ℕ) → Request
  get_job : String → ℕ → ℕ → ℕ → Request
  cancel_job : String → ℕ → Request
  get_result : String → ℕ → ℕ → ℕ → ℕ → ℕ → Request
  remove_job : String → (StoredFile → Bool) → ℕ → Request
  download_artifact : String → ℕ → ℕ → ℕ → Request
  register_worker : Caller → ℕ → List (List ℕ) → Request
  claim_job : Caller → ℕ → ℕ → ℕ → ℕ → Request
  renew : Caller → ℕ → ℕ → Request
  finalize_job : Caller → ℕ → ℕ → ℕ → ℕ → List (List ℕ) → Request
  upload_artifact : Caller → ℕ → ℕ → UploadHeaders → List (List ℕ) → Request

-- `_authenticate_requester`, and then the rest.
unfoldable pub as_requester : HttpConfig → String → Db → Db × Reply Answer → Db × Reply Answer
as_requester h provided db go =
    if is_requester h provided then go else (db, failure 401 bad_credential)

-- `_authenticate_worker`, and then the rest.
unfoldable pub as_worker : HttpConfig → Caller → Db → Db × Reply Answer → Db × Reply Answer
as_worker h w db go = elim (check_worker_credential h.config w.worker_id w.credential) [
  | ok u ↦ go
  | err e ↦ (db, error_reply e)
]

-- The body of `_get_result`: a missing result is no error.
unfoldable pub result_body : JobView → Result ResultEnvelope → Reply Answer
result_body view (ok r) = reply 200 (result_answer view (some r))
result_body view (err (refused result_unavailable status)) = reply 200 (result_answer view none)
result_body view (err e) = error_reply e

unfoldable pub result_reply : JobView → Db × Result ResultEnvelope → Db × Reply Answer
unfolding result_body
result_reply view answered = (answered.0, result_body view answered.1)

-- `_get_result`, after its first call.
unfoldable pub get_result_of : ℕ → ℕ → ℕ → Db × Result JobView → Db × Reply Answer
unfolding result_reply
get_result_of first second job_id (db, err e) = (db, error_reply e)
get_result_of first second job_id (db, ok view) =
    if is_terminal view.row.state
    then result_reply view (job_result first second job_id db)
    else (db, failure 409 (of_manager not_terminal))

-- 410 if the attempt is to stop.
unfoldable pub lease_status : LeaseState → ℕ
lease_status (ended s) = 410
lease_status deadline_passed = 410
lease_status (renewed s until) = if is_terminal s then 410 else 200

unfoldable pub lease_reply : Db → Result (Db × LeaseState) → Db × Reply Answer
unfolding lease_status
lease_reply db (ok (db', info)) = (db', reply (lease_status info) (lease_answer info))
lease_reply db (err e) = (db, error_reply e)

unfoldable pub with_length : List ℕ → ArtifactRef → ArtifactRef
with_length content ref = record ref { bytes = length content }

-- The end of `_upload_artifact`, on the whole body.
unfoldable pub store_upload :
    HttpConfig → Caller → ℕ → ℕ → ℕ → Option ArtifactRef → Db → List ℕ → Db × Reply Answer
unfolding with_length
store_upload h w now job_id declared ref db content =
    if not (length content == declared)
    then (db, failure 409 (of_manager artifact_size_mismatch))
    else elim ref [
      | none ↦ (db, failure 422 invalid_payload)
      | some r ↦ answer 201 uploaded db (
          add_artifact h.config now job_id w.worker_id w.credential w.attempt_id w.lease_token
            (with_length content r) content db)
    ]

-- `_upload_artifact`.
unfoldable pub upload :
    HttpConfig → Caller → ℕ → ℕ → UploadHeaders → List (List ℕ) → Db → Db × Reply Answer
unfolding store_upload
upload h w now job_id headers chunks db = elim headers.declared_bytes [
  | none ↦ (db, failure 400 invalid_artifact_size)
  | some declared ↦
      if ltb declared 1 || ltb h.artifact_limit declared
      then (db, failure 400 invalid_artifact_size)
      else with_body (read_body h.artifact_limit chunks) db
          (store_upload h w now job_id declared headers.ref db)
]

-- The document of an artifact.
abbrev pub document_of : ArtifactRef × List ℕ → Answer
document_of d = document d.0 d.1

unfoldable pub handle : HttpConfig → Request → Db → Db × Reply Answer
unfolding as_requester as_worker get_result_of lease_reply upload
handle h (submit_job provided checked now id chunks) db = as_requester h provided db (
    with_json 262144 chunks h.decode_submit db
      (λ s. answer_submit db (submit h.config checked now id s db)))
handle h (retry_job provided asked checked now id job_id chunks) db = as_requester h provided db (
    with_json 65536 chunks h.decode_key db
      (λ key. answer_submit db (retry h.config asked checked now id job_id key db)))
handle h (get_job provided expiring now job_id) db =
    as_requester h provided db (answer_read view_answer (job_view h.config expiring now job_id db))
handle h (cancel_job provided job_id) db =
    as_requester h provided db (answer 200 job_answer db (cancel job_id db))
handle h (get_result provided expiring now first second job_id) db =
    as_requester h provided db
      (get_result_of first second job_id (job_view h.config expiring now job_id db))
handle h (remove_job provided stays job_id) db =
    as_requester h provided db (answer 202 deleted db (delete_job stays job_id db))
handle h (download_artifact provided now job_id artifact_id) db =
    as_requester h provided db (answer_read document_of (get_artifact now job_id artifact_id db))
handle h (register_worker w now chunks) db = with_json 1048576 chunks h.decode_registration db (λ r.
    as_worker h w db
      (answer 200 worker_answer db (upsert_worker h.config w.worker_id w.credential r now db)))
handle h (claim_job w seen now id token) db =
    as_worker h w db
      (answer 200 claimed db (claim h.config w.worker_id w.credential seen now id token db))
handle h (renew w now job_id) db = as_worker h w db (
    lease_reply db
      (renew_lease h.config now job_id w.worker_id w.credential w.attempt_id w.lease_token db))
handle h (finalize_job w now checked ended' job_id chunks) db = as_worker h w db (
    with_json 8388608 chunks h.decode_result db (λ r.
      answer 200 job_answer db
        (finalize h.config now checked ended' job_id w.worker_id w.credential w.lease_token r db)))
handle h (upload_artifact w now job_id headers chunks) db =
    as_worker h w db (upload h w now job_id headers chunks db)
