-- ===== src/Collect/Searxng.antt =====
-- The SearXNG provider (search.py, class `SearchProvider`). The exchange with the server is a
-- parameter; the texts of errors and the diagnostics are left out.
use Prim.Native.String.{String}
use ephy_worker.Prelude.{
  ℕ, zero, suc, ◌+◌, Bool, true, false, not, ◌&&◌, ◌||◌, List, [], ◌∷◌, ◌++◌, Option, none, some,
  ◌==◌, ltb, length, any, str_eq, if◌then◌else◌,
}
use ephy_worker.Contract.Input.{JobQuery, Candidate}
use ephy_worker.Collect.Budget.{Budget, Category, allowed, exceeded, Reason, take}
use ephy_worker.Collect.Search.{
  Provider, Found, found, over_budget, search_failed, search_cancelled,
}

-- The fields of `SearchConfig` that the provider reads.
pub record SearchConfig : Type 0 where
  pub engine : String
  pub max_results : ℕ
  pub retries : ℕ
  pub response_bytes : ℕ

-- An entry of `results`: its engines, its URL as `normalize_url` leaves it, and its texts.
pub data ResultItem : Type 0 where
  not_an_object : ResultItem
  item : List String → Option String → String → String → ResultItem

-- A decoded response: the engines that did not respond, and the results, if they are a list.
pub record SearchResponse : Type 0 where
  pub unresponsive_engines : List String
  pub results : Option (List ResultItem)

pub data Body : Type 0 where
  not_json not_an_object : Body
  decoded : SearchResponse → Body

-- What one request, or the pause behind it, meets: the sizes of the chunks that come, and the body that
-- they make; or the `CancelledError` of a stage that is cancelled.
pub data Exchange : Type 0 where
  timed_out request_error task_cancelled : Exchange
  responded : ℕ → List ℕ → Body → Exchange

-- The codes of `SearchError`.
pub data SearchCode : Type 0 where
  forbidden http_error size_limit invalid_json invalid_response timeout network_error
        retry_exhausted engine_unresponsive missing_results invalid_result unexpected_engine :
      SearchCode

unfoldable pub code_text : SearchCode → String
code_text forbidden = "searxng_forbidden_json_or_access_disabled"
code_text http_error = "searxng_http_error"
code_text size_limit = "searxng_response_size_limit"
code_text invalid_json = "searxng_invalid_json"
code_text invalid_response = "searxng_invalid_response"
code_text timeout = "searxng_timeout"
code_text network_error = "searxng_network_error"
code_text retry_exhausted = "searxng_retry_exhausted"
code_text engine_unresponsive = "searxng_engine_unresponsive"
code_text missing_results = "searxng_missing_results"
code_text invalid_result = "searxng_invalid_result"
code_text unexpected_engine = "searxng_unexpected_engine"

-- One round of the loop: a payload, an error with whether another round may follow, or a cancellation.
pub data Round : Type 0 where
  got : SearchResponse → Round
  failed : SearchCode → Bool → Round
  halted : Round

unfoldable pub total_size : List ℕ → ℕ
total_size [] = 0
total_size (n ∷ ns) = n + total_size ns

unfoldable pub decode_body : Body → Round
decode_body not_json = failed invalid_json false
decode_body Body.not_an_object = failed invalid_response false
decode_body (decoded r) = got r

-- The statuses after which the loop goes on.
unfoldable pub retry_status : ℕ → Bool
retry_status status = status == 429 || status == 502 || status == 503 || status == 504

-- The body of the `try`, and which of its errors are retried.
unfoldable pub round_of : SearchConfig → Exchange → Round
unfolding total_size decode_body retry_status
round_of c timed_out = failed timeout true
round_of c request_error = failed network_error true
round_of c task_cancelled = halted
round_of c (responded status chunks body) =
    if status == 403
    then failed forbidden false
    else if not (status == 200)
    then failed http_error (retry_status status)
    else if ltb c.response_bytes (total_size chunks)
    then failed size_limit false
    else decode_body body

-- What meets each round: the exchange, and the clock when the round takes its request. Rounds are
-- numbered by how many may follow.
pub record Rounds : Type 0 where
  pub exchange : ℕ → Exchange
  pub now : ℕ → ℕ

pub data Fetched : Type 0 where
  fetched : SearchResponse → Fetched
  broken : SearchCode → Fetched
  out_of_budget : Reason → Fetched
  interrupted : Fetched

-- `_json`, over the rounds that are left. Each round takes one request of the budget first.
unfoldable pub json_rounds : SearchConfig → Rounds → ℕ → Budget → Budget × Fetched
unfolding round_of
json_rounds c rounds zero b = (b, broken retry_exhausted)
json_rounds c rounds (suc left) b = elim (take Category.search_requests 1 (rounds.now left) b) [
  | exceeded reason ↦ (b, out_of_budget reason)
  | allowed b' ↦ elim (round_of c (rounds.exchange left)) [
    | got r ↦ (b', fetched r)
    | halted ↦ (b', interrupted)
    | failed why again ↦ elim (again && not (left == 0)) [
      | true ↦ json_rounds c rounds left b'
      | false ↦ (b', broken why)
    ]
  ]
]

unfoldable pub fetch_json : SearchConfig → Rounds → Budget → Budget × Fetched
unfolding json_rounds
fetch_json c rounds b = json_rounds c rounds (c.retries + 1) b

-- `text[:n]`.
unfoldable pub clip : ℕ → String → String
clip zero s = String.[]
clip (suc n) String.[] = String.[]
clip (suc n) (String.◌∷◌ ch s) = String.◌∷◌ ch (clip n s)

unfoldable pub candidate : SearchConfig → String → ℕ → String → String → String → Candidate
unfolding clip
candidate c query_id rank url title snippet = record {
  url = url;
  title = clip 500 title;
  snippet = clip 1000 snippet;
  query_id = query_id;
  engine = c.engine;
  rank = rank;
  discovered_at = "";
  supplied = false;
}

pub data Collected : Type 0 where
  collected : List Candidate → Collected
  refused : SearchCode → Collected

-- The engines of an entry are none, or the configured one is among them.
unfoldable pub engine_fits : SearchConfig → List String → Bool
engine_fits c [] = true
engine_fits c engines = any (str_eq c.engine) engines

-- The new list, if the entry has a usable URL.
unfoldable pub add_result :
    SearchConfig → String → ℕ → Option String → String → String → List Candidate → List Candidate
unfolding candidate
add_result c query_id rank none title snippet so_far = so_far
add_result c query_id rank (some url) title snippet so_far =
    so_far ++ (candidate c query_id rank url title snippet ∷ [])

-- The loop over the results, from a rank on.
unfoldable pub collect : SearchConfig → String → ℕ → List ResultItem → List Candidate → Collected
unfolding engine_fits add_result
collect c query_id rank [] so_far = collected so_far
collect c query_id rank (not_an_object ∷ items) so_far = refused invalid_result
collect c query_id rank (item engines url title snippet ∷ items) so_far =
    elim (engine_fits c engines) [
      | false ↦ refused unexpected_engine
      | true ↦
          let more = add_result c query_id rank url title snippet so_far in
          elim (length more == c.max_results) [
            | true ↦ collected more
            | false ↦ collect c query_id (rank + 1) items more
          ]
    ]

-- The checks of `search` on a decoded response.
unfoldable pub read_response : SearchConfig → String → SearchResponse → Collected
unfolding collect
read_response c query_id r = elim (any (str_eq c.engine) r.unresponsive_engines) [
  | true ↦ refused engine_unresponsive
  | false ↦ elim r.results [
    | none ↦ refused missing_results
    | some items ↦ collect c query_id 1 items []
  ]
]

unfoldable pub as_found : Collected → Found
unfolding code_text
as_found (collected cs) = found cs
as_found (refused why) = search_failed (code_text why)

unfoldable pub answer_search : SearchConfig → String → Fetched → Found
unfolding read_response as_found code_text
answer_search c query_id (fetched r) = as_found (read_response c query_id r)
answer_search c query_id (broken why) = search_failed (code_text why)
answer_search c query_id (out_of_budget reason) = over_budget
answer_search c query_id interrupted = search_cancelled

-- `search`, as the stage sees it. `validate_query` has passed the text already.
unfoldable pub search_once : SearchConfig → Rounds → JobQuery → Budget → Budget × Found
unfolding fetch_json answer_search
search_once c rounds q b =
    let (b', came) = fetch_json c rounds b in (b', answer_search c q.query_id came)

-- The provider of a worker, with what meets each query.
unfoldable pub searxng :
    SearchConfig → (JobQuery → Rounds) → (String → String) → (String → Bool) → Provider
unfolding search_once
searxng c rounds key is_private = record {
  key = key;
  is_private = is_private;
  search = λ q b. search_once c (rounds q) q b;
}
