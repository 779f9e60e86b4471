-- ===== src/Manager/Submission.antt =====
-- Submission, children and retries (manager.py: `_root_job`, `_validate_child_allocation`,
-- `submit`, `retry`).
use Prim.Native.String.{◌++◌}
use ephy_worker.Prelude.{
  ℕ, zero, suc, ◌+◌, ◌-◌, String, Bool, true, false, not, ◌&&◌, ◌||◌, List, Option, none, some,
  ◌==◌, ltb, leb, min, max, is_some, str_eq, decimal, length, if◌then◌else◌,
}
use ephy_worker.Prelude.Table.{find, count, sum, insert}
use ephy_worker.Contract.Limits.{Limits, limits_valid}
use ephy_worker.Contract.Input.{
  Kind, discord_observe, kind_eq, SubmitJob, submit_valid, contract_version,
}
use ephy_worker.Contract.Result.{JobUsage}
use ephy_worker.Manager.Tables.{
  Db, Config, Job, State, Result, ok, err, refused, invalid, diverges, raise_if, or_raise, ◌>>=◌,
  ◌>>◌, job_is, job_row, is_value, is_terminal, usage_of, unsupported_contract, submit_key_conflict,
  unknown_parent_job, parent_kind_mismatch, parent_not_terminal, child_deadline_exceeds_parent,
  child_budget_exceeds_parent, unknown_job, not_retryable, no_remaining_time, no_remaining_budget,
}

-- `_root_job`: up the parents, with fuel.
unfoldable pub root_job : ℕ → List Job → Job → Result Job
root_job zero jobs row = err diverges
root_job (suc fuel) jobs row = elim row.parent_job_id [
  | none ↦ ok row
  | some p ↦ elim (find (job_is p) jobs) [
    | none ↦ err (refused unknown_parent_job 404)
    | some parent ↦ root_job fuel jobs parent
  ]
]

-- The rows of the recursive query: the root, and each row whose parent is one of them.
unfoldable pub in_lineage : ℕ → List Job → ℕ → Job → Bool
in_lineage zero jobs root row = false
in_lineage (suc fuel) jobs root row = elim (row.job_id == root) [
  | true ↦ true
  | false ↦ elim row.parent_job_id [
    | none ↦ false
    | some p ↦ elim (find (job_is p) jobs) [
      | none ↦ false
      | some parent ↦ in_lineage fuel jobs root parent
    ]
  ]
]

is_cancelled : State → Bool
is_cancelled State.cancelled = true
is_cancelled _ = false

-- What a row takes of the root's allowance: its reported usage, or else its whole budget, if it is
-- no root and was not cancelled.
unfoldable pub charge : (JobUsage → ℕ) → (Limits → ℕ) → ℕ → Job → ℕ
unfolding is_cancelled
charge used reserved root row =
    if is_some row.result
    then used (usage_of row.result)
    else if not (row.job_id == root) && not (is_cancelled row.state)
    then reserved row.budget
    else 0

-- The sum over the lineage, for one of the three counters.
unfoldable pub spent : (JobUsage → ℕ) → (Limits → ℕ) → ℕ → List Job → ℕ
spent used reserved root jobs =
    sum (in_lineage (suc (length jobs)) jobs root) (charge used reserved root) jobs

unfoldable pub spent_search : ℕ → List Job → ℕ
spent_search = spent (λ u. u.search_requests) (λ l. l.search_requests)

unfoldable pub spent_fetch : ℕ → List Job → ℕ
spent_fetch = spent (λ u. u.fetch_requests) (λ l. l.fetch_requests)

unfoldable pub spent_model : ℕ → List Job → ℕ
spent_model = spent (λ u. u.model_requests) (λ l. l.model_requests)

-- No field of the budget is above what the root has left of it.
unfoldable pub fits : Kind → Limits → Limits → ℕ → ℕ → ℕ → Bool
fits kind budget root search fetch model =
    leb (budget.max_queries + search) root.max_queries
    && leb (budget.search_requests + search) root.search_requests
    && leb (budget.max_sources + (if kind_eq kind discord_observe then 0 else fetch))
        root.max_sources
    && leb (budget.fetch_requests + fetch) root.fetch_requests
    && leb (budget.model_requests + model) root.model_requests

-- `_validate_child_allocation`.
unfoldable pub validate_child_allocation : ℕ → Db → Job → SubmitJob → Result (Unit {0})
validate_child_allocation now db parent s = do
  raise_if (not (is_terminal parent.state)) parent_not_terminal 409
  root ← root_job (suc (length db.jobs)) db.jobs parent
  raise_if (ltb root.deadline_at (now + s.deadline_seconds)) child_deadline_exceeds_parent 409
  raise_if
      (not (
        fits parent.kind s.budget root.budget (spent_search root.job_id db.jobs)
          (spent_fetch root.job_id db.jobs) (spent_model root.job_id db.jobs)))
      child_budget_exceeds_parent 409

-- The checks on `parent_job_id`.
unfoldable pub check_parent : ℕ → Db → SubmitJob → Result (Unit {0})
check_parent now db s = elim s.parent_job_id [
  | none ↦ ok tt
  | some p ↦ do
    parent ← or_raise (job_row db p) unknown_parent_job 404
    validate_child_allocation now db parent s
    raise_if (not (kind_eq parent.kind s.kind)) parent_kind_mismatch 409
]

unfoldable pub new_job : Config → ℕ → ℕ → SubmitJob → Job
new_job c now job_id s = record {
  job_id = job_id;
  submit_key = s.submit_key;
  parent_job_id = s.parent_job_id;
  kind = s.kind;
  input = s.input;
  target_worker_id = s.target_worker_id;
  budget = s.budget;
  deadline_seconds = s.deadline_seconds;
  input_hash = c.input_hash s.input;
  created_at = now;
  deadline_at = now + s.deadline_seconds;
  state = State.queued;
  worker_id = none;
  attempt_id = none;
  attempt_number = 0;
  stop_reason = none;
  result = none;
}

abbrev pub key_is : String → Job → Bool
key_is key j = str_eq j.submit_key key

-- `submit`: the row, and whether it is new. `checked` and `now` are the two readings of the clock.
unfoldable pub submit : Config → ℕ → ℕ → ℕ → SubmitJob → Db → Result (Db × Job × Bool)
submit c checked now job_id s db = do
  raise_if (not (s.contract == contract_version)) unsupported_contract 409
  elim (find (key_is s.submit_key) db.jobs) [
    | some existing ↦ do
      raise_if (not (existing.input_hash == c.input_hash s.input)) submit_key_conflict 409
      ok (db, existing, false)
    | none ↦ do
      check_parent checked db s
      let row = new_job c now job_id s
      ok (record db { jobs = insert row db.jobs }, row, true)
  ]

pub is_retryable : State → Bool
is_retryable State.failed = true
is_retryable State.partial = true
is_retryable State.lost = true
is_retryable _ = false

is_lost : State → Bool
is_lost State.lost = true
is_lost _ = false

-- The budget that is left less one request in reserve; `-` stops at 0, which the test for 1 refuses
-- like a negative number.
unfoldable pub left : ℕ → ℕ → ℕ
left limit used = limit - used - 1

unfoldable pub child_budget : Kind → Limits → JobUsage → ℕ → Limits
unfolding left
child_budget kind parent usage remaining =
    let observe = kind_eq kind discord_observe in
    record parent {
      max_queries =
          if observe then parent.max_queries else left parent.max_queries usage.search_requests;
      search_requests =
          if observe
          then parent.search_requests
          else left parent.search_requests usage.search_requests;
      max_sources =
          if observe then parent.max_sources else left parent.max_sources usage.fetch_requests;
      fetch_requests = left parent.fetch_requests usage.fetch_requests;
      model_requests = parent.model_requests - usage.model_requests;
      job_seconds = max 15000 (min parent.job_seconds (remaining - 10000));
    }

-- `min(...) < 1` of the four counters.
unfoldable pub exhausted : Limits → Bool
exhausted b =
    ltb b.max_queries 1 || ltb b.search_requests 1 || ltb b.max_sources 1 || ltb b.fetch_requests 1

-- `f"{submit_key}:retry:{children + 1}"`.
unfoldable pub default_key : Db → Job → String
default_key db row =
    row.submit_key
    ++ ":retry:"
    ++ decimal (count (λ j. is_value j.parent_job_id row.job_id) db.jobs + 1)

-- `submit_key or default`: an empty text counts as none.
unfoldable pub retry_key : Db → Job → Option String → String
unfolding default_key
retry_key db row none = default_key db row
retry_key db row (some key) = if str_eq key "" then default_key db row else key

unfoldable pub retry_submission : Db → Job → Option String → Limits → ℕ → SubmitJob
unfolding retry_key
retry_submission db row key budget remaining = record {
  contract = contract_version;
  submit_key = retry_key db row key;
  parent_job_id = some row.job_id;
  kind = row.kind;
  input = row.input;
  target_worker_id = row.target_worker_id;
  budget = budget;
  deadline_seconds = max 15000 (min (remaining - 10000) 3600000);
}

-- `retry`. `asked` is its own reading of the clock, `checked` and `now` are those of `submit`.
unfoldable pub retry : Config → ℕ → ℕ → ℕ → ℕ → ℕ → Option String → Db → Result (Db × Job × Bool)
unfolding is_retryable is_lost
retry c asked checked now new_id job_id key db = do
  row ← or_raise (job_row db job_id) unknown_job 404
  raise_if (not (is_retryable row.state)) not_retryable 409
  let remaining = row.deadline_at - asked
  raise_if (ltb remaining 30000) no_remaining_time 409
  raise_if (is_lost row.state && not (is_some row.result)) no_remaining_budget 409
  let budget = child_budget row.kind row.budget (usage_of row.result) remaining
  raise_if (exhausted budget) no_remaining_budget 409
  let s = retry_submission db row key budget remaining
  if limits_valid budget && submit_valid s then submit c checked now new_id s db else err invalid
