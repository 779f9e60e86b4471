-- ===== src/Contract/Result.antt =====
-- Usage, artifact references and the result of an attempt (contracts.py).
use native.Mathlib.Decide.{ℕ_discrete}
use ephy_worker.Prelude.{ℕ, String, Bool, ◌&&◌, List, Option, ◌==◌, str_eq, String-discrete}
use ephy_worker.Contract.Input.{Mode, search, extract, observe, Role, Candidate}
use ephy_worker.Contract.Observation.{ObservePayload}

pub record JobUsage : Type 0 where
  pub search_requests : ℕ
  pub search_credits : ℕ
  pub fetch_requests : ℕ
  pub document_bytes : ℕ
  pub model_requests : ℕ

-- `JobUsage()`.
abbrev pub no_usage : JobUsage
no_usage = record {
  search_requests = 0;
  search_credits = 0;
  fetch_requests = 0;
  document_bytes = 0;
  model_requests = 0;
}

pub record ArtifactRef : Type 0 where
  pub artifact_id : ℕ
  pub name : String
  pub media_type : String
  pub bytes : ℕ
  pub sha256 : ℕ
  pub schema_version : ℕ

-- The five columns that an upload and a manifest compare.
unfoldable pub same_content : ArtifactRef → ArtifactRef → Bool
same_content a b =
    str_eq a.name b.name
    && str_eq a.media_type b.media_type
    && a.bytes == b.bytes
    && a.sha256 == b.sha256
    && a.schema_version == b.schema_version

pub data QueryStatus : Type 0 where
  ok failed limit : QueryStatus

-- Without the diagnostic.
pub record QueryResult : Type 0 where
  pub query_id : String
  pub text : String
  pub role : Role
  pub reason : String
  pub status : QueryStatus
  pub result_count : ℕ

pub data FailureStage : Type 0 where
  search_stage fetch_stage worker_stage artifact_stage : FailureStage

pub record Failure : Type 0 where
  pub stage : FailureStage
  pub query_id : Option String
  pub source_id : Option String
  pub code : String
  pub detail : Option String

pub data SourceStatus : Type 0 where
  ok partial blocked http_error network_error unsupported extraction_failed image_only encrypted
        invalid timeout limit :
      SourceStatus

-- `Source` of schema.py, with the fields that the manager, the worker and the stages read. The others
-- (title, final URL, passages, metadata and the like) count in `others` of the envelope.
pub record Source : Type 0 where
  pub source_id : String
  pub requested_url : String
  pub status : SourceStatus
  pub body_hash : Option ℕ
  pub bytes_received : ℕ

pub data Payload : Type 0 where
  search_payload : List QueryResult → List Candidate → List Failure → Payload
  extract_payload : List Source → List Failure → Payload
  observe_payload : ObservePayload → Payload

unfoldable pub payload_mode : Payload → Mode
payload_mode (search_payload queries candidates failures) = search
payload_mode (extract_payload sources failures) = extract
payload_mode (observe_payload p) = observe

pub data Status : Type 0 where
  succeeded partial failed cancelled : Status

-- `others` stands for the fields, at any depth, that the records here leave out: their JSON text in
-- canonical form. Two envelopes are the same JSON when the records are equal.
pub record ResultEnvelope : Type 0 where
  pub job_id : ℕ
  pub attempt_id : ℕ
  pub status : Status
  pub stop_reason : Option String
  pub usage : JobUsage
  pub elapsed_seconds : ℕ
  pub payload : Payload
  pub manifest : List ArtifactRef
  pub others : String

-- `stored == result.model_dump(mode="json")` compares every field; those that are left out are compared as one text.
unfoldable pub ResultEnvelope-discrete : Discrete ResultEnvelope
ResultEnvelope-discrete = hlevel (ℕ_discrete, String-discrete)
