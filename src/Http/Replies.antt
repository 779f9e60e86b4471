-- ===== src/Http/Replies.antt =====
-- Replies, bodies and credentials (manager.py: `_read_json`, `_read_body`, `_manager_error_handler`,
-- `_authenticate_requester`). Parsing and validation are parameters.
use ephy_worker.Prelude.{
  ℕ, String, Bool, true, false, not, ◌&&◌, List, [], ◌∷◌, ◌++◌, Option, none, some, ltb, length,
  str_eq, if◌then◌else◌,
}
use ephy_worker.Contract.Input.{WorkerRegistration, SubmitJob}
use ephy_worker.Contract.Result.{ArtifactRef, ResultEnvelope}
use ephy_worker.Manager.Tables.{
  Db, Config, Job, Attempt, Worker, Code, Error, refused, invalid, diverges, Result, ok, err,
}
use ephy_worker.Manager.Lease.{LeaseState}
use ephy_worker.Manager.Sweeper.{JobView}

-- The errors that this layer raises itself.
pub data Fault : Type 0 where
  of_manager : Code → Fault
  bad_credential invalid_payload invalid_json payload_too_large invalid_artifact_size : Fault

pub data Reply (A : Type 0) : Type 0 where
  reply : ℕ → A → Reply A
  failure : ℕ → Fault → Reply A
  no_reply : Reply A

-- `_manager_error_handler`.
unfoldable pub error_reply : {A : Type 0} → Error → Reply A
error_reply (refused c status) = failure status (of_manager c)
error_reply invalid = failure 422 invalid_payload
error_reply diverges = no_reply

-- What a parser and a validator make of a body.
pub data Decoded (A : Type 0) : Type 0 where
  decoded : A → Decoded A
  not_json not_valid : Decoded A

pub record HttpConfig : Type 0 where
  pub config : Config
  pub requester_credential : String
  pub artifact_limit : ℕ
  pub decode_submit : List ℕ → Decoded SubmitJob
  pub decode_registration : List ℕ → Decoded WorkerRegistration
  pub decode_result : List ℕ → Decoded ResultEnvelope
  pub decode_key : List ℕ → Decoded (Option String)

-- `_read_body`: the chunks together, or none once they are too many.
unfoldable pub read_chunks : ℕ → List ℕ → List (List ℕ) → Option (List ℕ)
read_chunks max_bytes content [] = some content
read_chunks max_bytes content (chunk ∷ chunks) =
    let more = read_chunks max_bytes (content ++ chunk) chunks in
    if ltb max_bytes (length (content ++ chunk)) then none else more

unfoldable pub read_body : ℕ → List (List ℕ) → Option (List ℕ)
unfolding read_chunks
read_body max_bytes chunks = read_chunks max_bytes [] chunks

-- What the handler goes on to do, if the body is what it should be.
unfoldable pub with_decoded : {A B : Type 0} → Decoded A → Db → (A → Db × Reply B) → Db × Reply B
with_decoded (decoded a) db go = go a
with_decoded not_json db go = (db, failure 422 invalid_json)
with_decoded not_valid db go = (db, failure 422 invalid_payload)

unfoldable pub with_body :
    {B : Type 0} → Option (List ℕ) → Db → (List ℕ → Db × Reply B) → Db × Reply B
with_body none db go = (db, failure 413 payload_too_large)
with_body (some content) db go = go content

-- `_read_json` and `model_validate`.
unfoldable pub with_json :
    {A B : Type 0}
    → ℕ
    → List (List ℕ)
    → (List ℕ → Decoded A)
    → Db
    → (A → Db × Reply B)
    → Db × Reply B
unfolding with_body with_decoded
with_json max_bytes chunks decode db go =
    with_body (read_body max_bytes chunks) db (λ content. with_decoded (decode content) db go)

unfoldable pub is_requester : HttpConfig → String → Bool
is_requester h provided =
    not (str_eq h.requester_credential "") && str_eq provided h.requester_credential

-- The reply of a call that writes.
unfoldable pub answer : {A B : Type 0} → ℕ → (A → B) → Db → Result (Db × A) → Db × Reply B
unfolding error_reply
answer status body db (ok (db', a)) = (db', reply status (body a))
answer status body db (err e) = (db, error_reply e)

-- The reply of a call that gives back the database in any case.
unfoldable pub answer_read : {A B : Type 0} → (A → B) → Db × Result A → Db × Reply B
unfolding error_reply
answer_read body (db, ok a) = (db, reply 200 (body a))
answer_read body (db, err e) = (db, error_reply e)

-- `status=202 if created else 200`.
unfoldable pub created_status : Bool → ℕ
created_status true = 202
created_status false = 200

pub data Answer : Type 0 where
  worker_answer : Worker → Answer
  job_answer : Job → Answer
  submitted : Job → Bool → Answer
  view_answer : JobView → Answer
  result_answer : JobView → Option ResultEnvelope → Answer
  deleted : ℕ → Answer
  claimed : Option Attempt → Answer
  lease_answer : LeaseState → Answer
  uploaded : ArtifactRef → Answer
  document : ArtifactRef → List ℕ → Answer

unfoldable pub answer_submit : Db → Result (Db × Job × Bool) → Db × Reply Answer
unfolding error_reply created_status
answer_submit db (ok (db', row, created)) =
    (db', reply (created_status created) (submitted row created))
answer_submit db (err e) = (db, error_reply e)
