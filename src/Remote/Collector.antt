-- ===== src/Remote/Collector.antt =====
-- `RemoteCollector` (remote_collector.py). The client's exchanges with the manager are arguments, times
-- are milliseconds, and elapsed times and worker ids of results are left out.
use Prim.Native.String.{String, ◌++◌}
use ephy_worker.Prelude.{
  ℕ, zero, suc, ◌+◌, ◌-◌, Bool, false, leb, min, max, List, [], ◌∷◌, Option, none, some, map,
  decimal, if◌then◌else◌,
}
use ephy_worker.Contract.Limits.{Limits}
use ephy_worker.Contract.Input.{
  web_collect, JobQuery, Candidate, JobInput, search_input, extract_input, SubmitJob,
  contract_version,
}
use ephy_worker.Contract.Result.{
  JobUsage, Status, search_payload, extract_payload, observe_payload, ResultEnvelope,
}
use ephy_worker.Manager.Tables.{State}
use ephy_worker.Collect.Searxng.{clip}
use ephy_worker.Collect.Search.{SearchStage, new_search_stage}
use ephy_worker.Collect.Extract.{ExtractStage, new_extract_stage}

-- `_used`.
pub record Used : Type 0 where
  pub search_requests : ℕ
  pub fetch_requests : ℕ
  pub model_requests : ℕ

-- The first job, which is the parent of the others, and its deadline.
pub record Parent : Type 0 where
  pub job_id : ℕ
  pub deadline_at : ℕ

pub record Collector : Type 0 where
  pub limits : Limits
  pub target_worker_id : ℕ
  pub max_wait_seconds : Option ℕ
  pub deadline_seconds : ℕ
  pub submit_key_prefix : String
  pub closed : Bool
  pub parent : Option Parent
  pub used : Used

pub data Stage : Type 0 where
  search_job extract_job : Stage

-- The codes of `RemoteCollectorError`; what the client raises is one of them here.
pub data RemoteCode : Type 0 where
  collector_closed search_budget_exhausted fetch_budget_exhausted invalid_result_envelope job_failed
        job_cancelled job_lost timed_out client_error :
      RemoteCode

unfoldable pub stage_text : Stage → String
stage_text search_job = "search"
stage_text extract_job = "extract"

-- `_submit_key`, with the random token.
unfoldable pub remote_key : Collector → Stage → ℕ → String → String
unfolding clip stage_text decimal
remote_key c stage round_index token =
    clip 200 (
      c.submit_key_prefix ++ (stage_text stage ++ ("-" ++ (decimal round_index ++ ("-" ++ token)))))

-- `max(1, limit - used)`.
abbrev pub at_least_one : ℕ → ℕ → ℕ
at_least_one limit used = max 1 (limit - used)

-- `_remaining_limits`.
unfoldable pub remaining_limits : Collector → Limits
remaining_limits c = record c.limits {
  max_queries = at_least_one c.limits.max_queries c.used.search_requests;
  search_requests = at_least_one c.limits.search_requests c.used.search_requests;
  max_sources = at_least_one c.limits.max_sources c.used.fetch_requests;
  fetch_requests = at_least_one c.limits.fetch_requests c.used.fetch_requests;
  model_requests = at_least_one c.limits.model_requests c.used.model_requests;
}

-- The tests at the head of `_payload_base`: the error, if any.
unfoldable pub exhausted_code : Stage → Collector → Option RemoteCode
exhausted_code search_job c =
    if leb (min c.limits.max_queries c.limits.search_requests) c.used.search_requests
    then some search_budget_exhausted
    else none
exhausted_code extract_job c =
    if leb (min c.limits.max_sources c.limits.fetch_requests) c.used.fetch_requests
    then some fetch_budget_exhausted
    else none

-- The deadline of a job: a tenth of a second is kept for the way to the manager.
unfoldable pub job_deadline : ℕ → Collector → ℕ
job_deadline now c = elim c.parent [
  | none ↦ c.deadline_seconds
  | some p ↦ min c.deadline_seconds (max 1 (p.deadline_at - now - 100))
]

unfoldable pub parent_id : Option Parent → Option ℕ
parent_id none = none
parent_id (some p) = some p.job_id

-- `_payload_base` with an input.
unfoldable pub payload : Stage → ℕ → ℕ → String → JobInput → Collector → SubmitJob
unfolding remote_key parent_id remaining_limits job_deadline
payload stage round_index now token input c = record {
  contract = contract_version;
  submit_key = remote_key c stage round_index token;
  parent_job_id = parent_id c.parent;
  kind = web_collect;
  input = input;
  target_worker_id = c.target_worker_id;
  budget = remaining_limits c;
  deadline_seconds = job_deadline now c;
}

-- `_record_usage`.
unfoldable pub record_usage : JobUsage → Used → Used
record_usage u used = record {
  search_requests = used.search_requests + u.search_requests;
  fetch_requests = used.fetch_requests + u.fetch_requests;
  model_requests = used.model_requests + u.model_requests;
}

-- A view of the job, when it comes, with the clock behind it and what `job_result` would answer.
pub record Poll : Type 0 where
  pub job_id : ℕ
  pub deadline_at : ℕ
  pub state : State
  pub now : ℕ
  pub result : Option ResultEnvelope

-- What a stage comes to; `undecided` is the model's own, for fuel that runs out.
pub data Ran (A : Type 0) : Type 0 where
  ran : Collector → A → Ran A
  failed : RemoteCode → Ran A
  undecided : Ran A

unfoldable pub set_parent : Poll → Collector → Collector
set_parent p c = elim c.parent [
  | none ↦ record c { parent = some (record { job_id = p.job_id; deadline_at = p.deadline_at }) }
  | some old ↦ c
]

-- The branch on "completed" and "partial".
unfoldable pub take_result : Poll → Collector → Ran ResultEnvelope
unfolding record_usage set_parent
take_result p c = elim p.result [
  | none ↦ failed invalid_result_envelope
  | some r ↦ ran (set_parent p (record c { used = record_usage r.usage c.used })) r
]

-- What one view of the job decides, by its state.
unfoldable pub look : State → ℕ → Poll → Collector → Option (Ran ResultEnvelope)
unfolding take_result
look State.completed deadline p c = some (take_result p c)
look State.partial deadline p c = some (take_result p c)
look State.failed deadline p c = some (failed job_failed)
look State.cancelled deadline p c = some (failed job_cancelled)
look State.lost deadline p c = some (failed job_lost)
look _ deadline p c = if leb deadline p.now then some (failed timed_out) else none

-- The loop of `_run_job`, from the poll of this number on: the first is the answer to the submission.
unfoldable pub poll_job : ℕ → ℕ → ℕ → (ℕ → Option Poll) → Collector → Ran ResultEnvelope
unfolding look
poll_job zero n deadline polls c = undecided
poll_job (suc fuel) n deadline polls c = elim (polls n) [
  | none ↦ failed client_error
  | some p ↦ elim (look p.state deadline p c) [
    | some answer ↦ answer
    | none ↦ poll_job fuel (suc n) deadline polls c
  ]
]

-- How long `_run_job` waits.
unfoldable pub wait_of : Collector → ℕ
wait_of c = elim c.max_wait_seconds [
  | none ↦ c.deadline_seconds
  | some w ↦ min c.deadline_seconds w
]

-- `_run_job`. The clock moves on with every poll, so that a poll for each millisecond is enough.
unfoldable pub run_job : ℕ → (ℕ → Option Poll) → Collector → Ran ResultEnvelope
unfolding wait_of poll_job
run_job started polls c = poll_job (suc (wait_of c)) 0 (started + wait_of c) polls c

unfoldable pub exhausted_of : ResultEnvelope → Option String
exhausted_of r = elim r.status [ Status.partial ↦ r.stop_reason | _ ↦ none ]

-- `_stage_result` for a search. A payload of another mode has none of the lists.
unfoldable pub search_result : ResultEnvelope → SearchStage
unfolding exhausted_of
search_result r = elim r.payload [
  | search_payload queries candidates failures ↦ record {
    queries = queries;
    candidates = candidates;
    failures = failures;
    budget_exhausted = exhausted_of r;
  }
  | extract_payload sources failures ↦ record {
    queries = [];
    candidates = [];
    failures = failures;
    budget_exhausted = exhausted_of r;
  }
  | observe_payload p ↦ record {
    queries = [];
    candidates = [];
    failures = [];
    budget_exhausted = exhausted_of r;
  }
]

unfoldable pub extract_result : ResultEnvelope → ExtractStage
unfolding exhausted_of
extract_result r = elim r.payload [
  | extract_payload sources failures ↦ record {
    sources = sources;
    failures = failures;
    budget_exhausted = exhausted_of r;
  }
  | search_payload queries candidates failures ↦ record {
    sources = [];
    failures = failures;
    budget_exhausted = exhausted_of r;
  }
  | observe_payload p ↦ record { sources = []; failures = []; budget_exhausted = exhausted_of r }
]

unfoldable pub map_ran : {A B : Type 0} → (A → B) → Ran A → Ran B
map_ran f (ran c a) = ran c (f a)
map_ran f (failed code) = failed code
map_ran f undecided = undecided

-- `_candidate_input`: a candidate of a job has these fields alone.
unfoldable pub candidate_input : Candidate → Candidate
candidate_input c = record c { rank = 0; discovered_at = ""; supplied = false }

-- `search`. `polls` is what the manager answers to the job that is submitted.
unfoldable pub remote_search :
    ℕ
    → ℕ
    → ℕ
    → String
    → String
    → List JobQuery
    → (SubmitJob → ℕ → Option Poll)
    → Collector
    → Ran SearchStage
unfolding exhausted_code payload run_job search_result map_ran new_search_stage
remote_search now started round_index token topic queries polls c =
    if c.closed then failed collector_closed else elim queries [
      | [] ↦ ran c new_search_stage
      | q ∷ qs ↦ elim (exhausted_code search_job c) [
        | some code ↦ failed code
        | none ↦ map_ran search_result (
            run_job started
              (polls (
                payload search_job round_index now token
                  (search_input
                    (record { topic = topic; round_index = round_index; queries = q ∷ qs }))
                  c))
              c)
      ]
    ]

-- `extract`.
unfoldable pub remote_extract :
    ℕ
    → ℕ
    → ℕ
    → String
    → String
    → List Candidate
    → (SubmitJob → ℕ → Option Poll)
    → Collector
    → Ran ExtractStage
unfolding exhausted_code payload run_job extract_result map_ran new_extract_stage candidate_input
remote_extract now started round_index token topic candidates polls c =
    if c.closed then failed collector_closed else elim candidates [
      | [] ↦ ran c new_extract_stage
      | x ∷ xs ↦ elim (exhausted_code extract_job c) [
        | some code ↦ failed code
        | none ↦ map_ran extract_result (
            run_job started
              (polls (
                payload extract_job round_index now token
                  (extract_input (record {
                    topic = topic;
                    round_index = round_index;
                    candidates = map candidate_input (x ∷ xs);
                  }))
                  c))
              c)
      ]
    ]
