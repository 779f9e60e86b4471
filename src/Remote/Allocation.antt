-- ===== src/Remote/Allocation.antt =====
-- The budgets that the collector sends, and the manager's test of them.
use ephy_worker.Prelude.{
  ℕ, String, suc, ◌+◌, ◌≤◌, ◌≡◌, refl, Bool, true, false, ◌&&◌, ltb, leb, min, length, arith,
  if◌then◌else◌, some,
}
use ephy_worker.Contract.Input.{web_collect, kind_eq, JobInput}
use ephy_worker.Manager.Tables.{Db, Job, ok, err, refused, child_budget_exceeds_parent, is_terminal}
use ephy_worker.Manager.Submission.{
  root_job, spent_search, spent_fetch, spent_model, fits, validate_child_allocation,
}
use ephy_worker.Remote.Collector.{
  Collector, Stage, Parent, remaining_limits, payload, job_deadline, at_least_one,
}

-- Each of the three allowances has something left.
unfoldable pub has_left : Collector → Bool
has_left c =
    ltb c.used.search_requests (min c.limits.max_queries c.limits.search_requests)
    && ltb c.used.fetch_requests (min c.limits.max_sources c.limits.fetch_requests)
    && ltb c.used.model_requests c.limits.model_requests

room : (limit used : ℕ) → leb (at_least_one limit used + used) limit ≡ ltb used limit
room limit used = ground arith

ltb-min : (n a b : ℕ) → ltb n (min a b) ≡ (ltb n a && ltb n b)
ltb-min n a b = ground arith

all_of : (a b x y m : Bool) → (a && b && x && y && m) ≡ ((a && b) && (x && y) && m)
all_of true true x y m = ground arith
all_of true false x y m = refl
all_of false b x y m = refl

fits_exactly :
    (c : Collector)
    → fits web_collect
        (remaining_limits c)
        c.limits
        c.used.search_requests
        c.used.fetch_requests
        c.used.model_requests
      ≡ has_left c
unfolding fits remaining_limits has_left kind_eq
fits_exactly c =
    let l = c.limits in
    let u = c.used in
    rw
      (
        room l.max_queries u.search_requests,
        room l.search_requests u.search_requests,
        room l.max_sources u.fetch_requests,
        room l.fetch_requests u.fetch_requests,
        room l.model_requests u.model_requests,
        ltb-min u.search_requests l.max_queries l.search_requests,
        ltb-min u.fetch_requests l.max_sources l.fetch_requests,
      )
      (all_of (ltb u.search_requests l.max_queries) (ltb u.search_requests l.search_requests)
        (ltb u.fetch_requests l.max_sources) (ltb u.fetch_requests l.fetch_requests)
        (ltb u.model_requests l.model_requests))

in_time :
    (c : Collector) (p : Parent) (now at : ℕ)
    → c.parent ≡ some p
    → at ≤ now + 100
    → now + 101 ≤ p.deadline_at
    → at + job_deadline now c ≤ p.deadline_at
unfolding job_deadline
in_time c p now at e late early = rw (job_deadline, e) (ground arith)

-- The manager's answer to a further job of the collector. Let the collector know its first job, the root
-- of its lineage, with the limits of that job, its deadline and the usage that the manager has counted, and
-- let the message reach the manager within a tenth of a second, before the deadline. Then the manager
-- accepts the job's budget exactly if each of the three allowances of the root has something left:
-- queries and search requests, sources and fetch requests, model requests. So it refuses a search job
-- when the fetches are used up, and an extract job when the searches are.
pub allocation_exact :
    (c : Collector) (p : Parent) (stage : Stage) (round_index now at : ℕ) (token : String)
    (input : JobInput) (db : Db) (parent root : Job)
    → c.parent ≡ some p
    → at ≤ now + 100
    → now + 101 ≤ p.deadline_at
    → is_terminal parent.state ≡ true
    → parent.kind ≡ web_collect
    → root_job (suc (length db.jobs)) db.jobs parent ≡ ok root
    → p.deadline_at ≡ root.deadline_at
    → root.budget ≡ c.limits
    → spent_search root.job_id db.jobs ≡ c.used.search_requests
    → spent_fetch root.job_id db.jobs ≡ c.used.fetch_requests
    → spent_model root.job_id db.jobs ≡ c.used.model_requests
    → validate_child_allocation at db parent (payload stage round_index now token input c)
      ≡ (if has_left c then ok tt else err (refused child_budget_exceeds_parent 409))
unfolding validate_child_allocation payload
allocation_exact c p stage round_index now at token input db parent root known late early ended kind
      at_root deadline limits searches fetches models =
    let time : ltb root.deadline_at (at + job_deadline now c) ≡ false =
      ground (arith, in_time c p now at known late early, deadline) in
    let exact : fits parent.kind (remaining_limits c) root.budget (spent_search root.job_id db.jobs)
          (spent_fetch root.job_id db.jobs) (spent_model root.job_id db.jobs)
        ≡ has_left c =
      rw (kind, limits, searches, fetches, models) (fits_exactly c) in
    ground (arith, ended, at_root, time, exact)
