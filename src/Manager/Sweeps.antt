-- ===== src/Manager/Sweeps.antt =====
-- What a sweep and a deletion leave behind.
use ephy_worker.Prelude.{
  not, ℕ, ◌&&◌, ◌≡◌, ◌≢◌, refl, Bool, Bool-cases, true, false, none, some, List, [], ◌∷◌, All, inl,
  inr, arith, ==_iff, if◌then◌else◌, Option-cases,
}
use ephy_worker.Manager.Lease.{attempt_row}
use ephy_worker.Prelude.Table.{All-update, update, delete, select, find-delete}
use ephy_worker.Manager.Tables.{
  StoredFile, Db, Config, Job, Worker, ok, is_queued, is_running, is_terminal, job_is, job_row,
}
use ephy_worker.Manager.Retention.{expire_observations, of_job, observation_of}
use ephy_worker.Manager.Sweeper.{
  sweep, sweep_once, lease_is_over, has_lost_lease, lose_lease, missed_deadline, lose_deadline,
  is_silent, set_offline, attempt_for, file_under, remove_job, delete_job,
}

All-updated {ℓ} :
    {A : Type ℓ} (P : A → Type 0) (test : A → Bool) (f : A → A) (xs : List A)
    → ((x : A) → P (if test x then f x else x))
    → All P (update test f xs)
unfolding update
All-updated P test f [] h = tt
All-updated P test f (x ∷ xs) h = (h x, All-updated P test f xs h)

All-deleted {ℓ} :
    {A : Type ℓ} (test : A → Bool) (xs : List A) → All (λ x. test x ≡ false) (delete test xs)
unfolding delete select
All-deleted test [] = tt
All-deleted test (x ∷ xs) = elim (Bool-cases (test x)) [
  | inl gone ↦ rw gone (All-deleted test xs)
  | inr kept ↦ rw kept (kept, All-deleted test xs)
]

lost_is_not_running :
    (now : ℕ) (db : Db) (j : Job)
    → has_lost_lease now db (if has_lost_lease now db j then lose_lease j else j) ≡ false
unfolding has_lost_lease lose_lease is_running
lost_is_not_running now db j = elim (Bool-cases (is_running j.state && lease_is_over now db j)) [
  | inl lost ↦ rw lost refl
  | inr safe ↦ rw (safe, safe) refl
]

expired_is_not_queued :
    (now : ℕ) (j : Job)
    → missed_deadline now (if missed_deadline now j then lose_deadline j else j) ≡ false
unfolding missed_deadline lose_deadline is_queued
expired_is_not_queued now j = ground arith

offline_is_not_silent :
    (c : Config) (now : ℕ) (w : Worker)
    → is_silent c now (if is_silent c now w then set_offline w else w) ≡ false
unfolding is_silent set_offline
offline_is_not_silent c now w = ground arith

expiry_loses_none :
    (now : ℕ) (db : Db) (j : Job)
    → has_lost_lease now db j ≡ false
    → has_lost_lease now db (lose_deadline j) ≡ false
unfolding has_lost_lease lose_deadline is_running
expiry_loses_none now db j h = refl

-- A sweep leaves no running job whose lease is over, no queued job whose deadline has passed, and no
-- worker online that has been silent for too long.
pub sweep_once_leaves :
    (c : Config) (expiring now : ℕ) (db : Db)
    → All
        (λ j. has_lost_lease now (sweep_once c expiring now db).0 j ≡ false)
        (sweep_once c expiring now db).0.jobs
      × All (λ j. missed_deadline now j ≡ false) (sweep_once c expiring now db).0.jobs
      × All (λ w. is_silent c now w ≡ false) (sweep_once c expiring now db).0.workers
unfolding sweep_once sweep has_lost_lease lease_is_over attempt_row
sweep_once_leaves c expiring now db =
    let db' : Db = expire_observations expiring db in
    (
      All-update (λ j. has_lost_lease now db' j ≡ false) _ _ _
          (λ j _ h. expiry_loses_none now db' j h)
          (All-updated (λ j. has_lost_lease now db' j ≡ false) _ _ db'.jobs
            (lost_is_not_running now db')),
      All-updated (λ j. missed_deadline now j ≡ false) _ _ _ (expired_is_not_queued now),
      All-updated (λ w. is_silent c now w ≡ false) _ _ db'.workers (offline_is_not_silent c now),
    )

-- Nothing in the database is of the job, nor is a file under it but those that the disk will not remove,
-- and the other jobs' rows are those of `db`.
pub record IsGone (stays : StoredFile → Bool) (id : ℕ) (db db' : Db) : Type 0 where
  pub no_job : All (λ j. job_is id j ≡ false) db'.jobs
  pub no_attempt : All (λ a. attempt_for id a ≡ false) db'.attempts
  pub no_artifact : All (λ a. of_job id a ≡ false) db'.artifacts
  pub no_observation : All (λ o. observation_of id o ≡ false) db'.observations
  pub no_file : All (λ f. (file_under id f && not (stays f)) ≡ false) db'.files
  pub others : (other : ℕ) → other ≢ id → job_row db' other ≡ job_row db other

remove_job-IsGone :
    (stays : StoredFile → Bool) (id : ℕ) (db : Db) → IsGone stays id db (remove_job stays id db)
unfolding remove_job
remove_job-IsGone stays id db = record {
  no_job = All-deleted (job_is id) db.jobs;
  no_attempt = All-deleted (attempt_for id) db.attempts;
  no_artifact = All-deleted (of_job id) db.artifacts;
  no_observation = All-deleted (observation_of id) db.observations;
  no_file = All-deleted (λ f. file_under id f && not (stays f)) _;
  others = λ other apart.
      find-delete (job_is other) (job_is id) db.jobs
        (λ r h. ground (arith, ==_iff r.job_id id, ==_iff r.job_id other));
}

deletion_writes :
    (stays : StoredFile → Bool) (id n : ℕ) (db db' : Db) (j : Job)
    → job_row db id ≡ some j
    → delete_job stays id db ≡ ok (db', n)
    → (is_terminal j.state ≡ true) × (db' ≡ remove_job stays id db)
unfolding delete_job
deletion_writes stays id n db db' j there e = ground arith

deletion_finds :
    (stays : StoredFile → Bool) (id n : ℕ) (db db' : Db)
    → delete_job stays id db ≡ ok (db', n)
    → job_row db id ≢ none
unfolding delete_job
deletion_finds stays id n db db' e missing = ground arith

-- A deletion that is granted is of a job that has ended. It takes the job's row, every attempt, artifact
-- and observation of it, and every file under its directory but those that the disk will not remove, whose
-- errors are passed over. It leaves the rows of all other jobs as they were.
pub delete_job-IsGone :
    (stays : StoredFile → Bool) (id n : ℕ) (db db' : Db)
    → delete_job stays id db ≡ ok (db', n)
    → (j : Job) × (job_row db id ≡ some j) × (is_terminal j.state ≡ true) × IsGone stays id db db'
delete_job-IsGone stays id n db db' e = elim (Option-cases (job_row db id)) [
  | inl missing ↦ absurd (deletion_finds stays id n db db' e missing)
  | inr (j, there) ↦
      let (ended, written) = deletion_writes stays id n db db' j there e in
      (j, there, ended, rw written (remove_job-IsGone stays id db))
]
