-- ===== src/Manager/Children.antt =====
-- What the submission of a child is checked against.
use ephy_worker.Prelude.{ℕ, suc, ◌+◌, ◌≡◌, ◌≤◌, inl, inr, true, some, arith, Option-cases, length}
use ephy_worker.Prelude.Table.{find}
use ephy_worker.Contract.Limits.{Limits}
use ephy_worker.Contract.Input.{Kind, kind_eq, SubmitJob}
use ephy_worker.Manager.Tables.{Db, Config, Job, ok, job_row, is_terminal, Result-cases}
use ephy_worker.Manager.Submission.{
  root_job, spent_search, spent_fetch, spent_model, fits, validate_child_allocation, check_parent,
  submit, key_is,
}

-- The child's budget, with what the lineage of the root has spent or reserved, is within the root's.
pub record IsAllowed (budget : Limits) (root : Job) (db : Db) : Type 0 where
  pub queries : budget.max_queries + spent_search root.job_id db.jobs ≤ root.budget.max_queries
  pub searches :
      budget.search_requests + spent_search root.job_id db.jobs ≤ root.budget.search_requests
  pub fetches : budget.fetch_requests + spent_fetch root.job_id db.jobs ≤ root.budget.fetch_requests
  pub models : budget.model_requests + spent_model root.job_id db.jobs ≤ root.budget.model_requests

fits-IsAllowed :
    (kind : Kind) (budget : Limits) (root : Job) (db : Db)
    → fits kind budget root.budget
        (spent_search root.job_id db.jobs)
        (spent_fetch root.job_id db.jobs)
        (spent_model root.job_id db.jobs)
      ≡ true
    → IsAllowed budget root db
unfolding fits
fits-IsAllowed kind budget root db h = record {
  queries = ground arith;
  searches = ground arith;
  fetches = ground arith;
  models = ground arith;
}

validated :
    (now : ℕ) (db : Db) (parent root : Job) (s : SubmitJob)
    → root_job (suc (length db.jobs)) db.jobs parent ≡ ok root
    → validate_child_allocation now db parent s ≡ ok tt
    → (is_terminal parent.state ≡ true)
      × (now + s.deadline_seconds ≤ root.deadline_at)
      × (fits parent.kind s.budget root.budget
            (spent_search root.job_id db.jobs)
            (spent_fetch root.job_id db.jobs)
            (spent_model root.job_id db.jobs)
          ≡ true)
unfolding validate_child_allocation
validated now db parent root s er h = (ground arith, ground arith, ground arith)

validation_finds_root :
    (now : ℕ) (db : Db) (parent : Job) (s : SubmitJob)
    → validate_child_allocation now db parent s ≡ ok tt
    → (root : Job) × (root_job (suc (length db.jobs)) db.jobs parent ≡ ok root)
unfolding validate_child_allocation
validation_finds_root now db parent s h =
    elim (Result-cases (root_job (suc (length db.jobs)) db.jobs parent)) [
      | inl found ↦ found
      | inr (e, failed) ↦ ground arith
    ]

parent_checks :
    (now : ℕ) (db : Db) (s : SubmitJob) (p : ℕ)
    → s.parent_job_id ≡ some p
    → check_parent now db s ≡ ok tt
    → (parent : Job) × (job_row db p ≡ some parent)
      × (validate_child_allocation now db parent s ≡ ok tt)
      × (kind_eq parent.kind s.kind ≡ true)
unfolding check_parent
parent_checks now db s p child h = elim (Option-cases (job_row db p)) [
  | inl missing ↦ ground arith
  | inr (parent, there) ↦ (parent, there, ground arith, ground arith)
]

new_is_checked :
    (c : Config) (checked now id : ℕ) (s : SubmitJob) (db db' : Db) (row : Job)
    → submit c checked now id s db ≡ ok (db', row, true)
    → check_parent checked db s ≡ ok tt
unfolding submit
new_is_checked c checked now id s db db' row e =
    elim (Option-cases (find (key_is s.submit_key) db.jobs)) [
      | inl new ↦ ground arith
      | inr (old, there) ↦ ground arith
    ]

-- A new job with a parent is accepted only if the parent has ended and is of the same kind, the
-- walk up its parents ends at a root, the job's time fits in the root's deadline, and its budget,
-- with what the root's whole lineage has spent or reserved so far, is within the root's: queries,
-- searches, fetches and model requests.
pub submit-IsAllowed :
    (c : Config) (checked now id p : ℕ) (s : SubmitJob) (db db' : Db) (row : Job)
    → s.parent_job_id ≡ some p
    → submit c checked now id s db ≡ ok (db', row, true)
    → (parent : Job) × (root : Job) × (job_row db p ≡ some parent)
      × (is_terminal parent.state ≡ true)
      × (kind_eq parent.kind s.kind ≡ true)
      × (root_job (suc (length db.jobs)) db.jobs parent ≡ ok root)
      × (checked + s.deadline_seconds ≤ root.deadline_at)
      × IsAllowed s.budget root db
submit-IsAllowed c checked now id p s db db' row child e =
    let (parent, there, valid, kind) =
      parent_checks checked db s p child (new_is_checked c checked now id s db db' row e) in
    let (root, at_root) = validation_finds_root checked db parent s valid in
    let (ended, time, room) = validated checked db parent root s at_root valid in
    (
      parent,
      root,
      there,
      ended,
      kind,
      at_root,
      time,
      fits-IsAllowed parent.kind s.budget root db room,
    )
