-- ===== src/Manager/Tables.antt =====
-- The tables of the database, the files beside it, the settings, and the errors of manager.py.
-- JSON columns hold the values that they encode. A clock reading is an argument of a call.
use ephy_worker.Prelude.{
  ℕ, String, ◌≡◌, refl, ◌⊎◌, inl, inr, Bool, true, false, List, [], Option, none, some, ◌==◌,
}
use ephy_worker.Prelude.Table.{find}
use ephy_worker.Contract.Limits.{Limits}
use ephy_worker.Contract.Input.{Kind, JobInput, Capability}
use ephy_worker.Contract.Observation.{ObservePayload}
use ephy_worker.Contract.Result.{ArtifactRef, ResultEnvelope, JobUsage, no_usage}

pub data State : Type 0 where
  queued running cancel_requested completed partial failed cancelled lost : State

-- `TERMINAL_STATES`.
unfoldable pub is_terminal : State → Bool
is_terminal State.queued = false
is_terminal State.running = false
is_terminal State.cancel_requested = false
is_terminal _ = true

-- The states of a job that occupies its worker.
unfoldable pub is_active : State → Bool
is_active State.running = true
is_active State.cancel_requested = true
is_active _ = false

unfoldable pub is_queued : State → Bool
is_queued State.queued = true
is_queued _ = false

unfoldable pub is_running : State → Bool
is_running State.running = true
is_running _ = false

pub record Job : Type 0 where
  pub job_id : ℕ
  pub submit_key : String
  pub parent_job_id : Option ℕ
  pub kind : Kind
  pub input : JobInput
  pub target_worker_id : ℕ
  pub budget : Limits
  pub deadline_seconds : ℕ
  pub input_hash : ℕ
  pub created_at : ℕ
  pub deadline_at : ℕ
  pub state : State
  pub worker_id : Option ℕ
  pub attempt_id : Option ℕ
  pub attempt_number : ℕ
  pub stop_reason : Option String
  pub result : Option ResultEnvelope

pub record Attempt : Type 0 where
  pub attempt_id : ℕ
  pub job_id : ℕ
  pub worker_id : ℕ
  pub lease_token : ℕ
  pub lease_expires_at : ℕ
  pub attempt_number : ℕ
  pub created_at : ℕ
  pub finalized_at : Option ℕ

pub record Worker : Type 0 where
  pub worker_id : ℕ
  pub capabilities : List Capability
  pub implementation_version : String
  pub contract_version : ℕ
  pub os : String
  pub architecture : String
  pub concurrency : ℕ
  pub online : Bool
  pub last_heartbeat_at : ℕ

-- `artifact_dir / job_id / attempt_id / name`.
pub record StoredPath : Type 0 where
  pub job_id : ℕ
  pub attempt_id : ℕ
  pub name : String

pub record Artifact : Type 0 where
  pub ref : ArtifactRef
  pub job_id : ℕ
  pub attempt_id : ℕ
  pub stored_path : StoredPath

pub record Observation : Type 0 where
  pub job_id : ℕ
  pub attempt_id : ℕ
  pub collected_at : ℕ
  pub expires_at : ℕ
  pub payload : ObservePayload

pub record StoredFile : Type 0 where
  pub path : StoredPath
  pub content : List ℕ

pub record Db : Type 0 where
  pub jobs : List Job
  pub attempts : List Attempt
  pub workers : List Worker
  pub artifacts : List Artifact
  pub observations : List Observation
  pub files : List StoredFile

abbrev pub empty_db : Db
empty_db = record {
  jobs = [];
  attempts = [];
  workers = [];
  artifacts = [];
  observations = [];
  files = [];
}

-- The settings, the process environment, and the digests that the manager computes.
pub record Config : Type 0 where
  pub lease_seconds : ℕ
  pub offline_after_seconds : ℕ
  pub max_artifacts_per_job : ℕ
  pub worker_credentials_env : ℕ → Option String
  pub environ : String → String
  pub input_hash : JobInput → ℕ
  pub sha256 : List ℕ → ℕ

pub data Code : Type 0 where
  unknown_worker unauthorized worker_id_mismatch unsupported_contract unknown_job not_terminal
        result_unavailable observation_retention_expired unknown_parent_job parent_not_terminal
        child_deadline_exceeds_parent child_budget_exceeds_parent submit_key_conflict
        parent_kind_mismatch claim_conflict lease_conflict attempt_not_active lease_expired
        result_conflict attempt_mismatch mode_mismatch result_conflicts_with_cancel not_runnable
        artifact_missing artifact_mismatch not_retryable no_remaining_time no_remaining_budget
        observation_payload_mismatch observation_scope_mismatch observation_collection_time_invalid
        observation_status_or_usage_mismatch observation_budget_exceeded
        observation_coverage_mismatch observation_activity_mismatch unknown_attempt
        artifact_size_mismatch artifact_sha_mismatch invalid_artifact_name
        invalid_artifact_media_type artifact_id_conflict artifact_bytes_limit artifact_limit
        artifact_name_conflict unknown_artifact artifact_missing_on_disk :
      Code

-- `ManagerError` is `refused`; a pydantic `ValidationError` is `invalid`. A walk over parents that
-- never ends is `diverges`: no call of the code comes back with it.
pub data Error : Type 0 where
  refused : Code → ℕ → Error
  invalid : Error
  diverges : Error

pub data Result {ℓ} (Value : Type ℓ) : Type ℓ where
  err : Error → Result Value
  ok : Value → Result Value

-- A method that raises skips the statements that follow.
infixl 5 ◌>>◌ ◌>>=◌
abbrev pub ◌>>=◌ {ℓ κ} :
    {Before : Type ℓ} {After : Type κ} → Result Before → (Before → Result After) → Result After
err problem >>= following = err problem
ok value >>= following = following value

abbrev pub ◌>>◌ {ℓ} : {After : Type ℓ} → Result (Unit {0}) → Result After → Result After
check >> following = check >>= λ _. following

pub Result-cases {ℓ} :
    {Value : Type ℓ} (outcome : Result Value)
    → ((value : Value) × (outcome ≡ ok value)) ⊎ ((problem : Error) × (outcome ≡ err problem))
Result-cases (err problem) = inr (problem, refl)
Result-cases (ok value) = inl (value, refl)

-- `if test: raise ManagerError(code, status)`.
abbrev pub raise_if : Bool → Code → ℕ → Result (Unit {0})
raise_if true code status = err (refused code status)
raise_if false code status = ok tt

-- A row that must be there.
abbrev pub or_raise {ℓ} : {A : Type ℓ} → Option A → Code → ℕ → Result A
or_raise none code status = err (refused code status)
or_raise (some a) code status = ok a

-- Conditions of the statements.
abbrev pub job_is : ℕ → Job → Bool
job_is id j = j.job_id == id

abbrev pub worker_is : ℕ → Worker → Bool
worker_is id w = w.worker_id == id

abbrev pub attempt_is : ℕ → Attempt → Bool
attempt_is id a = a.attempt_id == id

-- `_job_row`, `_worker_row`.
abbrev pub job_row : Db → ℕ → Option Job
job_row db id = find (job_is id) db.jobs

abbrev pub worker_row : Db → ℕ → Option Worker
worker_row db id = find (worker_is id) db.workers

-- `x == y` where `x` may be NULL.
abbrev pub is_value : Option ℕ → ℕ → Bool
is_value none n = false
is_value (some m) n = m == n

-- The usage that a stored result reports, or none of it.
unfoldable pub usage_of : Option ResultEnvelope → JobUsage
usage_of none = no_usage
usage_of (some r) = r.usage
