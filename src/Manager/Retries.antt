-- ===== src/Manager/Retries.antt =====
-- What a retry may spend.
use ephy_worker.Prelude.{
  ℕ, ◌+◌, ◌-◌, refl, subst, inl, inr, String, ◌≡◌, ◌≤◌, true, false, some, Option, arith,
  Option-cases,
}
use ephy_worker.Prelude.Table.{find}
use ephy_worker.Contract.Limits.{Limits}
use ephy_worker.Contract.Result.{JobUsage}
use ephy_worker.Contract.Input.{web_collect, kind_eq, SubmitJob}
use ephy_worker.Manager.Tables.{Db, Config, Job, State, ok, job_row, usage_of}
use ephy_worker.Manager.Submission.{
  submit, new_job, key_is, retry, retry_submission, child_budget, left, exhausted, is_retryable,
}

child_budget_fits :
    (p : Limits) (u : JobUsage) (remaining : ℕ)
    → exhausted (child_budget web_collect p u remaining) ≡ false
    → ((child_budget web_collect p u remaining).search_requests + u.search_requests + 1
        ≡ p.search_requests)
      × ((child_budget web_collect p u remaining).fetch_requests + u.fetch_requests + 1
          ≡ p.fetch_requests)
unfolding exhausted child_budget left kind_eq
child_budget_fits p u remaining h = (ground arith, ground arith)

new_row :
    (c : Config) (checked now id : ℕ) (s : SubmitJob) (db db' : Db) (row : Job)
    → submit c checked now id s db ≡ ok (db', row, true)
    → row ≡ new_job c now id s
unfolding submit
new_row c checked now id s db db' row e = elim (Option-cases (find (key_is s.submit_key) db.jobs)) [
  | inl new ↦ ground arith
  | inr (old, there) ↦ ground arith
]

retried :
    (c : Config) (asked checked now id job_id : ℕ) (key : Option String) (db db' : Db)
    (row new : Job)
    → job_row db job_id ≡ some row
    → retry c asked checked now id job_id key db ≡ ok (db', new, true)
    → (submit c checked now id
          (retry_submission db row key
            (child_budget row.kind row.budget (usage_of row.result) (row.deadline_at - asked))
            (row.deadline_at - asked))
          db
        ≡ ok (db', new, true))
      × (exhausted
            (child_budget row.kind row.budget (usage_of row.result) (row.deadline_at - asked))
          ≡ false)
      × (is_retryable row.state ≡ true)
      × (asked + 30000 ≤ row.deadline_at)
unfolding retry
retried c asked checked now id job_id key db db' row new er e =
    (ground arith, ground arith, ground arith, ground arith)

-- A retry of a web job that makes a new job does so for a job that failed, was partial or was lost,
-- at least 30 seconds before its deadline. The new job is a queued child of the old one with the
-- same input, and of the old one's search and fetch requests it gets what its result left, less one
-- kept in reserve.
pub retry_fits :
    (c : Config) (asked checked now id job_id : ℕ) (key : Option String) (db db' : Db)
    (row new : Job)
    → job_row db job_id ≡ some row
    → row.kind ≡ web_collect
    → retry c asked checked now id job_id key db ≡ ok (db', new, true)
    → (is_retryable row.state ≡ true)
      × (asked + 30000 ≤ row.deadline_at)
      × (new.state ≡ State.queued)
      × (new.parent_job_id ≡ some row.job_id)
      × (new.input ≡ row.input)
      × (new.budget.search_requests + (usage_of row.result).search_requests + 1
          ≡ row.budget.search_requests)
      × (new.budget.fetch_requests + (usage_of row.result).fetch_requests + 1
          ≡ row.budget.fetch_requests)
unfolding new_job retry_submission
retry_fits c asked checked now id job_id key db db' row new er web e =
    let (submitted, some_left, state, time) =
      retried c asked checked now id job_id key db db' row new er e in
    let it = new_row c checked now id _ db db' new submitted in
    let (search, fetch) =
      child_budget_fits row.budget (usage_of row.result) (row.deadline_at - asked) (
        subst
          (λ k.
            exhausted (child_budget k row.budget (usage_of row.result) (row.deadline_at - asked))
            ≡ false)
          web some_left) in
    (state, time, rw it refl, rw it refl, rw it refl, rw (it, web) search, rw (it, web) fetch)
