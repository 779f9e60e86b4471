-- ===== src/Collect/Search.antt =====
-- The search stage (collector.py, `run_search_stage`). The diagnostics of the provider and the
-- elapsed time are left out.
use ephy_worker.Prelude.{
  ℕ, String, Bool, true, false, List, [], ◌∷◌, ◌++◌, Option, none, some, length,
}
use ephy_worker.Contract.Input.{JobQuery, Candidate}
use ephy_worker.Contract.Result.{
  QueryStatus, QueryResult, search_stage, Failure, JobUsage, no_usage,
}
use ephy_worker.Collect.Budget.{Budget, Category, allowed, exceeded, query}

-- What a provider's `search` comes back with; last, the `CancelledError` of a stage that is cancelled.
pub data Found : Type 0 where
  found : List Candidate → Found
  over_budget : Found
  search_failed : String → Found
  search_cancelled : Found

-- What the stage is given: the key of a text (`casefold` and `split`), `validate_query`, and the
-- provider, which takes from the same budget.
pub record Provider : Type 0 where
  pub key : String → String
  pub is_private : String → Bool
  pub search : JobQuery → Budget → Budget × Found

-- An item of the plan, with the answer of `cancel_check` and the clock when its turn comes.
pub record Turn : Type 0 where
  pub item : JobQuery
  pub cancelled : Bool
  pub now : ℕ

pub record SearchStage : Type 0 where
  pub queries : List QueryResult
  pub candidates : List Candidate
  pub failures : List Failure
  pub budget_exhausted : Option String

unfoldable pub new_search_stage : SearchStage
new_search_stage = record { queries = []; candidates = []; failures = []; budget_exhausted = none }

-- `_query_entry`.
unfoldable pub query_entry : JobQuery → QueryStatus → ℕ → QueryResult
query_entry q status result_count = record {
  query_id = q.query_id;
  text = q.text;
  role = q.role;
  reason = q.reason;
  status = status;
  result_count = result_count;
}

unfoldable pub search_failure : JobQuery → String → Failure
search_failure q why = record {
  stage = search_stage;
  query_id = some q.query_id;
  source_id = none;
  code = why;
  detail = none;
}

-- An entry and a failure for a query that gave nothing.
unfoldable pub note_query : JobQuery → QueryStatus → String → SearchStage → SearchStage
unfolding query_entry search_failure
note_query q status why r = record r {
  queries = r.queries ++ (query_entry q status 0 ∷ []);
  failures = r.failures ++ (search_failure q why ∷ []);
}

unfoldable pub stop_search : JobQuery → String → SearchStage → SearchStage
unfolding note_query
stop_search q why r = record (note_query q QueryStatus.limit why r) {
  budget_exhausted = some "max_queries";
}

unfoldable pub add_found : JobQuery → List Candidate → SearchStage → SearchStage
unfolding query_entry
add_found q cs r = record r {
  queries = r.queries ++ (query_entry q QueryStatus.ok (length cs) ∷ []);
  candidates = r.candidates ++ cs;
}

-- How a stage comes back: with its result, with a `BudgetExceeded` that it lets through, or cancelled.
-- The result object outlives an exception: its caller holds it too.
pub data Ended (R : Type 0) : Type 0 where
  returned : R → Budget → Ended R
  raised : R → Budget → Ended R
  interrupted : R → Budget → Ended R

-- `run_search_stage`. The call of `budget.query` stands outside every `try`.
unfoldable pub run_search_stage : Provider → List Turn → SearchStage → Budget → Ended SearchStage
unfolding note_query stop_search add_found
run_search_stage p [] r b = returned r b
run_search_stage p (t ∷ ts) r b = elim t.cancelled [
  | true ↦ returned r b
  | false ↦ elim (p.is_private t.item.text) [
    | true ↦
        run_search_stage p ts (note_query t.item QueryStatus.failed "query_rejected_privacy" r) b
    | false ↦ elim (query (p.key t.item.text) t.now b) [
      | exceeded _ ↦ raised r b
      | allowed answer ↦
          let (b', accepted) = answer in
          elim accepted [
            | false ↦ returned (stop_search t.item "max_queries" r) b'
            | true ↦
                let (b'', came) = p.search t.item b' in
                elim came [
                  | search_cancelled ↦ interrupted r b''
                  | over_budget ↦ returned (stop_search t.item "budget_exhausted" r) b''
                  | search_failed why ↦
                      run_search_stage p ts (note_query t.item QueryStatus.failed why r) b''
                  | found cs ↦ run_search_stage p ts (add_found t.item cs r) b''
                ]
          ]
    ]
  ]
]

-- `_search_usage`.
unfoldable pub search_usage : Budget → JobUsage
search_usage b = record no_usage {
  search_requests = b.counts Category.search_requests;
  search_credits = b.counts Category.search_requests;
}
