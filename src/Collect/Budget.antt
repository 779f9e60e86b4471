-- ===== src/Collect/Budget.antt =====
-- The budget that all requests of a job share (budget.py). Token counts, stage seconds and the
-- snapshot for the report are not modelled.
use ephy_worker.Prelude.{
  ℕ, String, ◌+◌, ◌-◌, Bool, true, false, List, [], ◌∷◌, ◌==◌, ltb, any, str_eq, if◌then◌else◌,
}
use ephy_worker.Contract.Limits.{Limits}

-- The categories of `take`: names of fields of `Limits`.
pub data Category : Type 0 where
  max_queries search_requests max_sources fetch_requests cache_bytes : Category

unfoldable pub category_eq : Category → Category → Bool
category_eq Category.max_queries Category.max_queries = true
category_eq Category.search_requests Category.search_requests = true
category_eq Category.max_sources Category.max_sources = true
category_eq Category.fetch_requests Category.fetch_requests = true
category_eq Category.cache_bytes Category.cache_bytes = true
category_eq _ _ = false

-- `getattr(self.limits, category)`.
unfoldable pub limit_of : Limits → Category → ℕ
limit_of l Category.max_queries = l.max_queries
limit_of l Category.search_requests = l.search_requests
limit_of l Category.max_sources = l.max_sources
limit_of l Category.fetch_requests = l.fetch_requests
limit_of l Category.cache_bytes = l.cache_bytes

pub record Budget : Type 0 where
  pub limits : Limits
  pub started : ℕ
  pub counts : Category → ℕ
  pub query_keys : List String
  pub source_keys : List String

unfoldable pub new_budget : Limits → ℕ → Budget
new_budget l now = record {
  limits = l;
  started = now;
  counts = λ _. 0;
  query_keys = [];
  source_keys = [];
}

-- `BudgetExceeded`, with its text: "job_timeout" or the category.
pub data Reason : Type 0 where
  job_timeout : Reason
  over : Category → Reason

pub data Taken {ℓ} (A : Type ℓ) : Type ℓ where
  allowed : A → Taken A
  exceeded : Reason → Taken A

-- `max(0, …)`: the clock is monotonic, and `-` stops at 0.
unfoldable pub remaining_seconds : ℕ → Budget → ℕ
remaining_seconds now b = b.limits.job_seconds - (now - b.started)

unfoldable pub raise_count : Category → ℕ → (Category → ℕ) → Category → ℕ
raise_count category amount counts k =
    if category_eq category k then counts k + amount else counts k

-- `take`, which calls `check` first.
unfoldable pub take : Category → ℕ → ℕ → Budget → Taken Budget
unfolding remaining_seconds raise_count
take category amount now b =
    if remaining_seconds now b == 0
    then exceeded job_timeout
    else if ltb (limit_of b.limits category) (b.counts category + amount)
    then exceeded (over category)
    else allowed (record b { counts = raise_count category amount b.counts })

unfoldable pub mark_query : String → Budget → Budget
mark_query key b = record b { query_keys = key ∷ b.query_keys }

unfoldable pub mark_source : String → Budget → Budget
mark_source key b = record b { source_keys = key ∷ b.source_keys }

unfoldable pub then_mark : (Budget → Budget) → Taken Budget → Taken (Budget × Bool)
then_mark mark (allowed b) = allowed (mark b, true)
then_mark mark (exceeded reason) = exceeded reason

-- `query`, on the key that it makes of the text.
unfoldable pub query : String → ℕ → Budget → Taken (Budget × Bool)
unfolding take mark_query then_mark
query key now b =
    if any (str_eq key) b.query_keys
    then allowed (b, false)
    else then_mark (mark_query key) (take Category.max_queries 1 now b)

-- `source`.
unfoldable pub source : String → ℕ → Budget → Taken (Budget × Bool)
unfolding take mark_source then_mark
source url now b =
    if any (str_eq url) b.source_keys
    then allowed (b, false)
    else then_mark (mark_source url) (take Category.max_sources 1 now b)
