-- ===== src/Manager/Artifacts.antt =====
-- Artifacts: names, upload and download (manager.py: `add_artifact`, `get_artifact`).
use Prim.Native.Char.{code}
use ephy_worker.Prelude.{
  ℕ, ◌+◌, String, Bool, false, not, ◌&&◌, ◌||◌, List, [], ◌∷◌, none, some, ◌==◌, ltb, leb, is_some,
  str_eq, length, all, any, if◌then◌else◌,
}
use ephy_worker.Prelude.Table.{find, count, sum, update, insert}
use ephy_worker.Contract.Result.{ArtifactRef, same_content}
use ephy_worker.Manager.Tables.{
  Db, Config, Job, Attempt, Artifact, StoredFile, StoredPath, Result, ok, err, refused, raise_if,
  or_raise, ◌>>=◌, ◌>>◌, job_row, is_value, is_active, unknown_job, unknown_attempt, lease_conflict,
  attempt_not_active, lease_expired, artifact_size_mismatch, artifact_sha_mismatch,
  invalid_artifact_name, invalid_artifact_media_type, artifact_id_conflict, artifact_bytes_limit,
  artifact_limit, artifact_name_conflict, unknown_artifact, artifact_missing_on_disk,
}
use ephy_worker.Manager.Workers.{check_worker_credential}
use ephy_worker.Manager.Lease.{attempt_row, holds_lease}
use ephy_worker.Manager.Retention.{same_path, of_job, expire_observations}

-- The code points of a text.
abbrev pub codes : String → List ℕ
codes String.[] = []
codes (String.◌∷◌ c s) = code c ∷ codes s

-- [A-Za-z0-9].
unfoldable pub is_alphanumeric : ℕ → Bool
is_alphanumeric c =
    (leb b'A' c && leb c b'Z') || (leb b'a' c && leb c b'z') || (leb b'0' c && leb c b'9')

-- [A-Za-z0-9._-].
unfoldable pub is_name_char : ℕ → Bool
unfolding is_alphanumeric
is_name_char c = is_alphanumeric c || c == b'.' || c == b'_' || c == b'-'

-- `ARTIFACT_NAME_PATTERN.fullmatch`.
unfoldable pub matches_pattern : List ℕ → Bool
unfolding is_name_char
matches_pattern [] = false
matches_pattern (c ∷ cs) = is_alphanumeric c && all is_name_char cs && leb (length cs) 199

-- `text.split(".")`, as the first piece and the others.
unfoldable pub split_dots : List ℕ → List ℕ × List (List ℕ)
split_dots [] = ([], [])
split_dots (c ∷ cs) =
    let (piece, pieces) = split_dots cs in
    if c == b'.' then ([], piece ∷ pieces) else (c ∷ piece, pieces)

is_two_dots : List ℕ → Bool
is_two_dots (a ∷ b ∷ []) = a == b'.' && b == b'.'
is_two_dots _ = false

-- `".." in name.split(".")`.
unfoldable pub has_parent_piece : List ℕ → Bool
unfolding split_dots is_two_dots
has_parent_piece cs =
    let (piece, pieces) = split_dots cs in is_two_dots piece || any is_two_dots pieces

-- `ARTIFACT_MEDIA_TYPES`.
unfoldable pub media_type_allowed : String → Bool
media_type_allowed t =
    str_eq t "application/json"
    || str_eq t "text/html"
    || str_eq t "application/pdf"
    || str_eq t "text/plain"

-- The checks on the reference and the bytes alone.
unfoldable pub check_upload : Config → ArtifactRef → List ℕ → Result (Unit {0})
unfolding matches_pattern has_parent_piece media_type_allowed
check_upload c ref content = do
  raise_if (not (length content == ref.bytes)) artifact_size_mismatch 409
  raise_if (not (c.sha256 content == ref.sha256)) artifact_sha_mismatch 409
  raise_if (not (matches_pattern (codes ref.name))) invalid_artifact_name 400
  raise_if (has_parent_piece (codes ref.name)) invalid_artifact_name 400
  raise_if (not (media_type_allowed ref.media_type)) invalid_artifact_media_type 400

-- The upload comes from the holder of the active lease.
unfoldable pub check_uploader : ℕ → Job → Attempt → ℕ → ℕ → Result (Unit {0})
check_uploader now job a worker_id lease_token = do
  raise_if (not (holds_lease a worker_id lease_token && is_value job.attempt_id a.attempt_id))
      lease_conflict 409
  raise_if (is_some a.finalized_at || not (is_active job.state)) attempt_not_active 409
  raise_if (ltb a.lease_expires_at now) lease_expired 410

abbrev pub artifact_is : ℕ → Artifact → Bool
artifact_is artifact_id a = a.ref.artifact_id == artifact_id

-- The artifact of that id is the same one: a repeated upload.
unfoldable pub same_upload : ℕ → ℕ → ArtifactRef → Artifact → Bool
same_upload job_id attempt_id ref a =
    a.job_id == job_id && a.attempt_id == attempt_id && same_content a.ref ref

abbrev pub named : ℕ → String → Artifact → Bool
named job_id name a = a.job_id == job_id && str_eq a.ref.name name

-- Bytes, number and name of a new artifact of the job.
unfoldable pub check_room : Config → Job → ArtifactRef → Db → Result (Unit {0})
check_room c job ref db = do
  raise_if
      (ltb job.budget.cache_bytes
        (sum (of_job job.job_id) (λ a. a.ref.bytes) db.artifacts + ref.bytes))
      artifact_bytes_limit 409
  raise_if (leb c.max_artifacts_per_job (count (of_job job.job_id) db.artifacts)) artifact_limit 409
  raise_if (is_some (find (named job.job_id ref.name) db.artifacts)) artifact_name_conflict 409

abbrev pub file_at : StoredPath → StoredFile → Bool
file_at p f = same_path p f.path

-- `os.replace` puts the file in the place of any that is there.
unfoldable pub write_file : StoredPath → List ℕ → List StoredFile → List StoredFile
write_file p content files =
    if is_some (find (file_at p) files)
    then update (file_at p) (λ f. record f { content = content }) files
    else insert (record { path = p; content = content }) files

unfoldable pub path_of : ℕ → ℕ → ArtifactRef → StoredPath
path_of job_id attempt_id ref = record { job_id = job_id; attempt_id = attempt_id; name = ref.name }

unfoldable pub store_artifact : ℕ → ℕ → ArtifactRef → List ℕ → Db → Db
unfolding path_of write_file
store_artifact job_id attempt_id ref content db =
    let p = path_of job_id attempt_id ref in
    record db {
      files = write_file p content db.files;
      artifacts =
          insert (record { ref = ref; job_id = job_id; attempt_id = attempt_id; stored_path = p })
            db.artifacts;
    }

-- `add_artifact`.
unfoldable pub add_artifact :
    Config → ℕ → ℕ → ℕ → String → ℕ → ℕ → ArtifactRef → List ℕ → Db → Result (Db × ArtifactRef)
add_artifact c now job_id worker_id credential attempt_id lease_token ref content db = do
  check_worker_credential c worker_id credential
  check_upload c ref content
  job ← or_raise (job_row db job_id) unknown_job 404
  a ← or_raise (attempt_row db job_id (some attempt_id)) unknown_attempt 404
  check_uploader now job a worker_id lease_token
  elim (find (artifact_is ref.artifact_id) db.artifacts) [
    | some existing ↦
        if same_upload job_id attempt_id ref existing
        then ok (db, ref)
        else err (refused artifact_id_conflict 409)
    | none ↦ do check_room c job ref db; ok (store_artifact job_id a.attempt_id ref content db, ref)
  ]

abbrev pub artifact_in : ℕ → ℕ → Artifact → Bool
artifact_in job_id artifact_id a = a.ref.artifact_id == artifact_id && a.job_id == job_id

-- `get_artifact`, with the content that the download sends. Observations expire first, also where
-- the call then fails.
unfoldable pub get_artifact : ℕ → ℕ → ℕ → Db → Db × Result (ArtifactRef × List ℕ)
get_artifact now job_id artifact_id db =
    let db' = expire_observations now db in
    (
      db',
      do
        row ← or_raise (job_row db' job_id) unknown_job 404
        a ← or_raise (find (artifact_in job_id artifact_id) db'.artifacts) unknown_artifact 404
        f ← or_raise (find (file_at a.stored_path) db'.files) artifact_missing_on_disk 500
        ok (a.ref, f.content),
    )
