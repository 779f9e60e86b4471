-- ===== src/Worker/Service.antt =====
-- The end of a job on the worker's side (worker_service.py: `_upload_result_pack`, `_finalize`, the
-- return code of `_execute_job`, `_document_hook`, and the loop of `run`), against the manager's
-- own functions. Other callers act between the requests.
use ephy_worker.Prelude.{
  ℕ, String, Bool, true, false, ◌==◌, List, [], ◌∷◌, ◌++◌, Option, none, some, length,
  if◌then◌else◌,
}
use ephy_worker.Contract.Result.{Status, ArtifactRef, ResultEnvelope}
use ephy_worker.Manager.Tables.{
  Db, Config, Job, Error, refused, invalid, diverges, Result, ok, err, result_conflicts_with_cancel,
}
use ephy_worker.Manager.Finalization.{finalize}
use ephy_worker.Manager.Artifacts.{add_artifact}
use ephy_worker.Manager.Run.{Call, run}

-- What one report needs from outside: readings of the clock, the drawn artifact id, and what others
-- do after the upload and before the second attempt. `encode` is `canonical_json`, in bytes.
pub record Course : Type 0 where
  pub encode : ResultEnvelope → List ℕ
  pub pack_id : ℕ
  pub uploaded_at : ℕ
  pub now : ℕ
  pub now_again : ℕ
  pub before_finalize : List Call
  pub before_fallback : List Call

-- The lease that the worker holds.
pub record Holder : Type 0 where
  pub job_id : ℕ
  pub worker_id : ℕ
  pub credential : String
  pub lease_token : ℕ

-- The reference of `_upload_result_pack`.
unfoldable pub pack_ref : Config → ℕ → List ℕ → ArtifactRef
pack_ref c artifact_id content = record {
  artifact_id = artifact_id;
  name = "result-pack.json";
  media_type = "application/json";
  bytes = length content;
  sha256 = c.sha256 content;
  schema_version = 1;
}

unfoldable pub with_pack : ArtifactRef → ResultEnvelope → ResultEnvelope
with_pack ref r = record r { manifest = r.manifest ++ (ref ∷ []) }

-- `model_copy(update=…)` of the fallback.
unfoldable pub as_cancelled : ResultEnvelope → ResultEnvelope
as_cancelled r = record r { status = Status.cancelled; stop_reason = some "cancelled_by_requester" }

unfoldable pub is_cancel_conflict : Error → Bool
is_cancel_conflict (refused result_conflicts_with_cancel status) = true
is_cancel_conflict _ = false

unfoldable pub settle : Db → Result (Db × Job) → Db × Option Error
settle db (ok (db', row)) = (db', none)
settle db (err e) = (db, some e)

-- The two calls of `finalize_job`. The manager's readings of the clock within one request are taken
-- to be the same.
unfoldable pub finalize_or_cancel :
    Config → Course → Holder → ResultEnvelope → Db → Db × Option Error
unfolding is_cancel_conflict settle as_cancelled
finalize_or_cancel c k h r db =
    elim (finalize c k.now k.now k.now h.job_id h.worker_id h.credential h.lease_token r db) [
      | ok done ↦ (done.0, none)
      | err e ↦ elim (is_cancel_conflict e) [
        | true ↦
            let db' = run c k.before_fallback db in
            settle db' (
              finalize c k.now_again k.now_again k.now_again h.job_id h.worker_id h.credential
                h.lease_token (as_cancelled r) db')
        | false ↦ (db, some e)
      ]
    ]

-- `_finalize`, with the error that it raises.
unfoldable pub report : Config → Course → Holder → ResultEnvelope → Db → Db × Option Error
unfolding pack_ref with_pack finalize_or_cancel
report c k h r db =
    let content = k.encode r in
    let ref = pack_ref c k.pack_id content in
    elim (add_artifact c k.uploaded_at h.job_id h.worker_id h.credential r.attempt_id h.lease_token
      ref content db) [
        | ok stored ↦ finalize_or_cancel c k h (with_pack ref r) (run c k.before_finalize stored.0)
        | err e ↦ (db, some e)
      ]

-- What `_execute_job` returns: 0, but for an error other than a conflict.
unfoldable pub exit_code : Option Error → ℕ
exit_code none = 0
exit_code (some (refused c status)) = if status == 409 then 0 else 1
exit_code (some invalid) = 1
exit_code (some diverges) = 1

-- `exit_code or code`, over the jobs of a run.
unfoldable pub run_code : ℕ → List (Option Error) → ℕ
unfolding exit_code
run_code code [] = code
run_code code (e ∷ es) = run_code (if code == 0 then exit_code e else code) es

-- What `_document_hook` is called with: the kind of a document and its upload's outcome.
pub data DocumentKind : Type 0 where
  html pdf other : DocumentKind

-- The references and the errors that the hook gathers for the report.
pub record Documents : Type 0 where
  pub refs : List ArtifactRef
  pub errors : List String

-- `_document_hook`: an upload that fails is an error of the report and no reference.
unfoldable pub document_hook :
    DocumentKind → List ℕ → String → Result ArtifactRef → Documents → Documents
document_hook other body error_text uploaded d = d
document_hook kind [] error_text uploaded d = d
document_hook kind body error_text (ok ref) d = record d { refs = d.refs ++ (ref ∷ []) }
document_hook kind body error_text (err e) d = record d { errors = d.errors ++ (error_text ∷ []) }
