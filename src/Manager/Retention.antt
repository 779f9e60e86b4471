-- ===== src/Manager/Retention.antt =====
-- The thirty days' retention of observations (manager.py, `_expire_observations`).
use ephy_worker.Prelude.{
  ℕ, String, ◌+◌, ◌*◌, Bool, false, not, ◌&&◌, List, [], ◌∷◌, Option, none, some, ◌==◌, leb, any,
  str_eq,
}
use ephy_worker.Prelude.Table.{find, select, update, delete}
use ephy_worker.Contract.Input.{discord_observe, kind_eq}
use ephy_worker.Manager.Tables.{Db, Job, Artifact, Observation, StoredFile, StoredPath, job_is}
use ephy_worker.Manager.Activity.{day}

unfoldable pub same_path : StoredPath → StoredPath → Bool
same_path p q = p.job_id == q.job_id && p.attempt_id == q.attempt_id && str_eq p.name q.name

abbrev pub of_job : ℕ → Artifact → Bool
of_job job_id a = a.job_id == job_id

-- The file is that of one of the job's artifacts.
unfoldable pub is_file_of : List Artifact → ℕ → StoredFile → Bool
unfolding same_path
is_file_of artifacts job_id f =
    any (λ a. of_job job_id a && same_path a.stored_path f.path) artifacts

abbrev pub observation_of : ℕ → Observation → Bool
observation_of job_id o = o.job_id == job_id

-- `stop_reason IS NOT ?`.
unfoldable pub reason_is : String → Option String → Bool
reason_is text none = false
reason_is text (some s) = str_eq s text

abbrev pub retention_expired : String
retention_expired = "observation_retention_expired"

-- The WHERE clause of `_expire_observations`.
unfoldable pub is_expired : ℕ → List Observation → Job → Bool
unfolding reason_is
is_expired now observations j =
    kind_eq j.kind discord_observe && elim (find (observation_of j.job_id) observations) [
      | some o ↦ leb o.expires_at now
      | none ↦ leb (j.created_at + 30 * day) now && not (reason_is retention_expired j.stop_reason)
    ]

unfoldable pub expire_job : Job → Job
expire_job j = record j { result = none; stop_reason = some retention_expired }

-- One turn of the loop: the job's files, artifacts, observation and result go.
unfoldable pub forget : ℕ → Db → Db
unfolding expire_job
forget job_id db = record db {
  files = delete (is_file_of db.artifacts job_id) db.files;
  artifacts = delete (of_job job_id) db.artifacts;
  observations = delete (observation_of job_id) db.observations;
  jobs = update (job_is job_id) expire_job db.jobs;
}

unfoldable pub forget_all : List Job → Db → Db
forget_all [] db = db
forget_all (j ∷ rest) db = forget_all rest (forget j.job_id db)

-- `_expire_observations`.
unfoldable pub expire_observations : ℕ → Db → Db
unfolding forget_all
expire_observations now db = forget_all (select (is_expired now db.observations) db.jobs) db
