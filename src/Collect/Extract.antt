-- ===== src/Collect/Extract.antt =====
-- The extract stage (collector.py, `run_extract_stage`).
use ephy_worker.Prelude.{
  ℕ, String, Bool, true, false, List, [], ◌∷◌, ◌++◌, Option, none, some, if◌then◌else◌,
}
use ephy_worker.Prelude.Table.{sum}
use ephy_worker.Contract.Input.{Candidate}
use ephy_worker.Contract.Result.{SourceStatus, Source, fetch_stage, Failure, JobUsage, no_usage}
use ephy_worker.Collect.Budget.{Budget, Category, allowed, exceeded, source}
use ephy_worker.Collect.Search.{Ended, returned, interrupted}

-- What `fetch` comes back with; last, the `CancelledError` of a stage that is cancelled.
pub data Fetched : Type 0 where
  fetched : Source → Fetched
  over_budget : String → Fetched
  fetch_failed : String → Fetched
  fetch_cancelled : Fetched

-- `normalize_url` (no result counts as a text of its own) and the fetcher, which takes from the
-- same budget.
pub record Fetcher : Type 0 where
  pub normalize_url : String → String
  pub fetch : Candidate → String → Budget → Budget × Fetched

pub record Turn : Type 0 where
  pub source_id : String
  pub candidate : Candidate
  pub cancelled : Bool
  pub now : ℕ

pub record ExtractStage : Type 0 where
  pub sources : List Source
  pub failures : List Failure
  pub budget_exhausted : Option String

unfoldable pub new_extract_stage : ExtractStage
new_extract_stage = record { sources = []; failures = []; budget_exhausted = none }

-- `status in {"ok", "partial"}`.
unfoldable pub is_readable : SourceStatus → Bool
is_readable SourceStatus.ok = true
is_readable SourceStatus.partial = true
is_readable _ = false

unfoldable pub status_text : SourceStatus → String
status_text SourceStatus.ok = "ok"
status_text SourceStatus.partial = "partial"
status_text SourceStatus.blocked = "blocked"
status_text SourceStatus.http_error = "http_error"
status_text SourceStatus.network_error = "network_error"
status_text SourceStatus.unsupported = "unsupported"
status_text SourceStatus.extraction_failed = "extraction_failed"
status_text SourceStatus.image_only = "image_only"
status_text SourceStatus.encrypted = "encrypted"
status_text SourceStatus.invalid = "invalid"
status_text SourceStatus.timeout = "timeout"
status_text SourceStatus.limit = "limit"

unfoldable pub fetch_failure : String → String → String → Failure
fetch_failure source_id url why = record {
  stage = fetch_stage;
  query_id = none;
  source_id = some source_id;
  code = why;
  detail = some url;
}

unfoldable pub empty_source : String → String → SourceStatus → Source
empty_source source_id url status = record {
  source_id = source_id;
  requested_url = url;
  status = status;
  body_hash = none;
  bytes_received = 0;
}

unfoldable pub fail_source : Turn → String → ExtractStage → ExtractStage
unfolding fetch_failure
fail_source t why r = record r {
  failures = r.failures ++ (fetch_failure t.source_id t.candidate.url why ∷ []);
}

unfoldable pub add_source : Source → ExtractStage → ExtractStage
add_source s r = record r { sources = r.sources ++ (s ∷ []) }

unfoldable pub stop_extract : String → ExtractStage → ExtractStage
stop_extract why r = record r { budget_exhausted = some why }

-- A source that came back, and a failure if it is not readable.
unfoldable pub keep_source : Turn → Source → ExtractStage → ExtractStage
unfolding add_source fetch_failure is_readable status_text
keep_source t s r = if is_readable s.status then add_source s r else record (add_source s r) {
  failures = r.failures ++ (fetch_failure s.source_id t.candidate.url (status_text s.status) ∷ []);
}

-- `run_extract_stage`.
unfoldable pub run_extract_stage : Fetcher → List Turn → ExtractStage → Budget → Ended ExtractStage
unfolding fail_source add_source stop_extract empty_source keep_source
run_extract_stage f [] r b = returned r b
run_extract_stage f (t ∷ ts) r b = elim t.cancelled [
  | true ↦ returned r b
  | false ↦ elim (source (f.normalize_url t.candidate.url) t.now b) [
    | exceeded _ ↦ returned (stop_extract "max_sources" (fail_source t "max_sources" r)) b
    | allowed answer ↦
        let (b', accepted) = answer in
        elim accepted [
          | false ↦ run_extract_stage f ts r b'
          | true ↦
              let (b'', came) = f.fetch t.candidate t.source_id b' in
              elim came [
                | fetch_cancelled ↦ interrupted r b''
                | over_budget why ↦
                    returned
                      (stop_extract why (
                        fail_source t why (
                          add_source (empty_source t.source_id t.candidate.url SourceStatus.limit)
                            r)))
                      b''
                | fetch_failed why ↦
                    run_extract_stage f ts
                      (fail_source t why (
                        add_source
                          (empty_source t.source_id t.candidate.url SourceStatus.network_error) r))
                      b''
                | fetched s ↦ run_extract_stage f ts (keep_source t s r) b''
              ]
        ]
  ]
]

-- `_extract_usage`.
unfoldable pub extract_usage : Budget → List Source → JobUsage
extract_usage b sources = record no_usage {
  fetch_requests = b.counts Category.fetch_requests;
  document_bytes = sum (λ _. true) (λ s. s.bytes_received) sources;
}
