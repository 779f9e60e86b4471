-- ===== src/Tests/Layers.antt =====
-- Sweeps, deletions, uploads, retries, reports and requests at concrete inputs.
use ephy_worker.Prelude.{
  ℕ, ◌+◌, ◌≡◌, ◌≢◌, ◌≤◌, refl, true, false, none, some, List, [], ◌∷◌, All, inl, inr, arith, length,
  map,
}
use ephy_worker.Contract.Limits.{default_limits}
use ephy_worker.Contract.Input.{JobQuery, Candidate}
use ephy_worker.Contract.Result.{ArtifactRef}
use ephy_worker.Manager.Tables.{Db, Job, State, ok, job_row, is_terminal, usage_of, empty_db}
use ephy_worker.Manager.Lease.{renew_lease, renewed, attempt_row}
use ephy_worker.Manager.Artifacts.{check_upload, codes}
use ephy_worker.Manager.Submission.{submit, root_job, retry, is_retryable}
use ephy_worker.Manager.Sweeper.{sweep_once, has_lost_lease, missed_deadline, is_silent, delete_job}
use ephy_worker.Manager.Sweeps.{sweep_once_leaves, delete_job-IsGone, IsGone}
use ephy_worker.Manager.Uploads.{IsPlain, check_upload_lem}
use ephy_worker.Contract.Input.{SubmitJob, kind_eq}
use ephy_worker.Manager.Children.{IsAllowed, submit-IsAllowed}
use ephy_worker.Manager.Retries.{retry_fits}
use ephy_worker.Tests.World.{
  submission, world, the_worker, the_attempt, queued_one, running_db, finished_db, finished_one,
}

sweep_once_leaves_example :
    All
      (λ j. has_lost_lease 90000 (sweep_once world 90000 90000 running_db).0 j ≡ false)
      (sweep_once world 90000 90000 running_db).0.jobs
    × All (λ j. missed_deadline 90000 j ≡ false) (sweep_once world 90000 90000 running_db).0.jobs
    × All (λ w. is_silent world 90000 w ≡ false) (sweep_once world 90000 90000 running_db).0.workers
sweep_once_leaves_example = sweep_once_leaves world 90000 90000 running_db

deletes_one :
    delete_job (λ f. false) 10 finished_db ≡ ok (record empty_db { workers = the_worker ∷ [] }, 0)
unfolding delete_job ephy_worker.Prelude.Table.find is_terminal ephy_worker.Prelude.Table.delete
    ephy_worker.Prelude.Table.count
deletes_one = refl

delete_job-IsGone_example :
    (j : Job) × (job_row finished_db 10 ≡ some j)
    × (is_terminal j.state ≡ true)
    × IsGone (λ f. false) 10 finished_db (record empty_db { workers = the_worker ∷ [] })
delete_job-IsGone_example =
    delete_job-IsGone (λ f. false) 10 0 finished_db (record empty_db { workers = the_worker ∷ [] })
      deletes_one

abbrev some_ref : ArtifactRef
some_ref = record {
  artifact_id = 40;
  name = "s1.html";
  media_type = "text/html";
  bytes = 2;
  sha256 = 2;
  schema_version = 1;
}

abbrev some_content : List ℕ
some_content = 60 ∷ 62 ∷ []

upload_is_fine : check_upload world some_ref some_content ≡ ok tt
unfolding check_upload
upload_is_fine = refl

check_upload_lem_example :
    (length some_content ≡ some_ref.bytes)
    × (world.sha256 some_content ≡ some_ref.sha256)
    × All IsPlain (codes some_ref.name)
    × (length (codes some_ref.name) ≤ 200)
check_upload_lem_example = check_upload_lem world some_ref some_content upload_is_fine

abbrev renewed_db : Db
renewed_db = record running_db { attempts = record the_attempt { lease_expires_at = 65000 } ∷ [] }

renews_one :
    renew_lease world 20000 10 5 "secret" 20 30 running_db
    ≡ ok (renewed_db, renewed State.running 65000)
unfolding renew_lease ephy_worker.Manager.Workers.check_worker_credential
    ephy_worker.Prelude.Table.find attempt_row ephy_worker.Manager.Lease.holds_lease
    ephy_worker.Manager.Lease.renew_active is_terminal ephy_worker.Prelude.Table.update
renews_one = refl

abbrev failed_one : Job
failed_one = record finished_one { state = State.failed }

abbrev failed_db : Db
failed_db = record finished_db { jobs = failed_one ∷ [] }

abbrev retried_one : Job
retried_one = record queued_one {
  job_id = 11;
  submit_key = "key:retry:1";
  parent_job_id = some 10;
  budget = record default_limits {
    max_queries = 9;
    search_requests = 19;
    max_sources = 11;
    fetch_requests = 35;
    job_seconds = 87000;
  };
  deadline_seconds = 87000;
  created_at = 5000;
  deadline_at = 92000;
}

abbrev retried_db : Db
retried_db = record failed_db { jobs = failed_one ∷ retried_one ∷ [] }

retries_one : retry world 5000 5000 5000 11 10 none failed_db ≡ ok (retried_db, retried_one, true)
unfolding retry ephy_worker.Prelude.Table.find ephy_worker.Manager.Submission.exhausted
    ephy_worker.Manager.Submission.child_budget ephy_worker.Contract.Input.kind_eq default_limits
    usage_of ephy_worker.Contract.Limits.limits_valid ephy_worker.Contract.Limits.counts_in_range
    ephy_worker.Contract.Limits.times_in_range ephy_worker.Contract.Limits.sizes_in_range
    ephy_worker.Contract.Input.submit_valid ephy_worker.Manager.Submission.retry_submission
    ephy_worker.Prelude.decimal ephy_worker.Prelude.Table.count
    ephy_worker.Contract.Input.input_valid ephy_worker.Contract.Input.kind_matches_input
    ephy_worker.Manager.Submission.submit ephy_worker.Manager.Submission.check_parent
    ephy_worker.Manager.Submission.validate_child_allocation is_terminal
    ephy_worker.Manager.Submission.root_job ephy_worker.Manager.Submission.fits
    ephy_worker.Manager.Submission.spent_search ephy_worker.Manager.Submission.spent
    ephy_worker.Prelude.Table.sum ephy_worker.Manager.Submission.in_lineage
    ephy_worker.Manager.Submission.charge ephy_worker.Manager.Submission.spent_fetch
    ephy_worker.Manager.Submission.spent_model ephy_worker.Prelude.Table.insert
    ephy_worker.Manager.Submission.new_job
retries_one = refl

failed_is_there : job_row failed_db 10 ≡ some failed_one
unfolding ephy_worker.Prelude.Table.find
failed_is_there = refl

retry_fits_example :
    (is_retryable failed_one.state ≡ true)
    × (5000 + 30000 ≤ failed_one.deadline_at)
    × (retried_one.state ≡ State.queued)
    × (retried_one.parent_job_id ≡ some failed_one.job_id)
    × (retried_one.input ≡ failed_one.input)
    × (retried_one.budget.search_requests + (usage_of failed_one.result).search_requests + 1
        ≡ failed_one.budget.search_requests)
    × (retried_one.budget.fetch_requests + (usage_of failed_one.result).fetch_requests + 1
        ≡ failed_one.budget.fetch_requests)
retry_fits_example =
    retry_fits world 5000 5000 5000 11 10 none failed_db retried_db failed_one retried_one
      failed_is_there refl retries_one

abbrev child_submission : SubmitJob
child_submission = record submission {
  submit_key = "child";
  parent_job_id = some 10;
  deadline_seconds = 50000;
}

abbrev child_one : Job
child_one = record queued_one {
  job_id = 11;
  submit_key = "child";
  parent_job_id = some 10;
  deadline_seconds = 50000;
  created_at = 5000;
  deadline_at = 55000;
}

abbrev child_db : Db
child_db = record failed_db { jobs = failed_one ∷ child_one ∷ [] }

submits_child :
    submit world 5000 5000 11 child_submission failed_db ≡ ok (child_db, child_one, true)
unfolding submit ephy_worker.Prelude.Table.find ephy_worker.Manager.Submission.check_parent
    ephy_worker.Manager.Submission.validate_child_allocation is_terminal root_job
    ephy_worker.Manager.Submission.fits default_limits ephy_worker.Manager.Submission.spent_search
    ephy_worker.Manager.Submission.spent ephy_worker.Prelude.Table.sum
    ephy_worker.Manager.Submission.in_lineage ephy_worker.Manager.Submission.charge usage_of kind_eq
    ephy_worker.Manager.Submission.spent_fetch ephy_worker.Manager.Submission.spent_model
    ephy_worker.Prelude.Table.insert ephy_worker.Manager.Submission.new_job
submits_child = refl

submit-IsAllowed_example :
    (parent : Job) × (root : Job) × (job_row failed_db 10 ≡ some parent)
    × (is_terminal parent.state ≡ true)
    × (kind_eq parent.kind child_submission.kind ≡ true)
    × (root_job 2 failed_db.jobs parent ≡ ok root)
    × (5000 + child_submission.deadline_seconds ≤ root.deadline_at)
    × IsAllowed child_submission.budget root failed_db
submit-IsAllowed_example =
    submit-IsAllowed world 5000 5000 11 10 child_submission failed_db child_db child_one refl
      submits_child
