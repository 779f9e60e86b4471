-- ===== src/Worker/Report.antt =====
-- How the outcome of a stage becomes a result (worker_service.py: `_stage_status`,
-- `_stage_failures`, `_job_usage`, `_run_stage`, `_execute_job`, `_execute_observation`).
use ephy_worker.Prelude.{
  ℕ, String, Bool, true, false, not, ◌&&◌, List, [], ◌∷◌, ◌++◌, Option, none, some, map, length,
  all, is_some, if◌then◌else◌, zero, suc,
}
use ephy_worker.Contract.Input.{JobQuery}
use ephy_worker.Contract.Observation.{Completeness, ObservePayload}
use ephy_worker.Contract.Result.{
  Status, QueryStatus, artifact_stage, Failure, Payload, search_payload, extract_payload,
  observe_payload, ResultEnvelope, JobUsage, ArtifactRef,
}
use ephy_worker.Contract.Input.{ObserveInput}
use ephy_worker.Manager.Activity.{activity}
use ephy_worker.Collect.Search.{SearchStage, note_query}
use ephy_worker.Collect.Extract.{ExtractStage, is_readable}
use ephy_worker.Worker.Leases.{Events}

-- A status and a stop reason.
pub record Verdict : Type 0 where
  pub status : Status
  pub stop_reason : Option String

unfoldable pub because : Status → String → Verdict
because s why = record { status = s; stop_reason = some why }

unfoldable pub success : Verdict
success = record { status = Status.succeeded; stop_reason = none }

unfoldable pub is_ok : QueryStatus → Bool
is_ok QueryStatus.ok = true
is_ok _ = false

abbrev pub is_empty {ℓ} : {A : Type ℓ} → List A → Bool
is_empty [] = true
is_empty (x ∷ xs) = false

-- `_stage_status("search", stage)`.
unfoldable pub search_status : SearchStage → Verdict
unfolding because success is_ok
search_status s =
    if is_some s.budget_exhausted
    then because Status.partial "budget_exhausted"
    else if not (is_empty s.queries) && all (λ q. not (is_ok q.status)) s.queries
    then because Status.failed "no_results"
    else success

-- `_stage_status("extract", stage)`.
unfoldable pub extract_status : ExtractStage → Verdict
unfolding because success is_readable
extract_status s =
    if is_some s.budget_exhausted
    then because Status.partial "budget_exhausted"
    else if is_empty s.sources
    then because Status.partial "no_sources"
    else if all (λ x. not (is_readable x.status)) s.sources
    then because Status.failed "all_fetches_failed"
    else success

-- What the events of the lease make of the verdict. A lost lease counts for a search only.
unfoldable pub search_verdict : Events → SearchStage → Verdict
unfolding search_status because
search_verdict e s =
    if e.cancel
    then because Status.cancelled "cancelled_by_requester"
    else if e.lost
    then because Status.failed "worker_lease_lost"
    else search_status s

unfoldable pub extract_verdict : Events → ExtractStage → Verdict
unfolding extract_status because
extract_verdict e s =
    if e.cancel then because Status.cancelled "cancelled_by_requester" else extract_status s

-- `list(failures)[:MAX_FAILURES_REPORTED]`.
unfoldable pub first_failures : ℕ → List Failure → List Failure
first_failures zero fs = []
first_failures (suc n) [] = []
first_failures (suc n) (f ∷ fs) = f ∷ first_failures n fs

unfoldable pub upload_failure : String → Failure
upload_failure detail = record {
  stage = artifact_stage;
  query_id = none;
  source_id = none;
  code = "artifact_upload_failed";
  detail = some detail;
}

-- `_stage_failures`, and the errors of `_document_hook` after them.
unfoldable pub reported_failures : List Failure → List String → List Failure
unfolding first_failures upload_failure
reported_failures fs hook_errors = first_failures 200 fs ++ map upload_failure hook_errors

-- `queries[len(stage.queries):]`.
unfoldable pub after_first : ℕ → List JobQuery → List JobQuery
after_first zero qs = qs
after_first (suc n) [] = []
after_first (suc n) (q ∷ qs) = after_first n qs

-- The queries whose turn did not come are reported as failed, in one code.
unfoldable pub pad : String → List JobQuery → SearchStage → SearchStage
pad why [] s = s
pad why (q ∷ qs) s = pad why qs (note_query q QueryStatus.failed why s)

-- The end of `_run_stage` for a search.
unfoldable pub close_search : Events → List JobQuery → SearchStage → SearchStage
unfolding pad after_first
close_search e qs s =
    if e.cancel
    then pad "cancelled_by_requester" (after_first (length s.queries) qs) s
    else if e.lost
    then pad "worker_lease_lost" (after_first (length s.queries) qs) s
    else s

-- `others` is what the records leave out, as text.
unfoldable pub envelope :
    ℕ → ℕ → ℕ → String → Verdict → JobUsage → Payload → List ArtifactRef → ResultEnvelope
envelope job_id attempt_id elapsed others v usage payload manifest = record {
  job_id = job_id;
  attempt_id = attempt_id;
  status = v.status;
  stop_reason = v.stop_reason;
  usage = usage;
  elapsed_seconds = elapsed;
  payload = payload;
  manifest = manifest;
  others = others;
}

-- The envelope of `_execute_job` for a search that came back.
unfoldable pub search_report :
    ℕ
    → ℕ
    → ℕ
    → String
    → Events
    → List JobQuery
    → SearchStage
    → JobUsage
    → List String
    → ResultEnvelope
unfolding close_search search_verdict reported_failures envelope
search_report job_id attempt_id elapsed others e qs s usage hook_errors =
    let closed = close_search e qs s in
    envelope job_id attempt_id elapsed others (search_verdict e closed) usage
      (search_payload closed.queries closed.candidates
        (reported_failures closed.failures hook_errors))
      []

unfoldable pub extract_report :
    ℕ
    → ℕ
    → ℕ
    → String
    → Events
    → ExtractStage
    → JobUsage
    → List String
    → List ArtifactRef
    → ResultEnvelope
unfolding extract_verdict reported_failures envelope
extract_report job_id attempt_id elapsed others e s usage hook_errors refs =
    envelope job_id attempt_id elapsed others (extract_verdict e s) usage
      (extract_payload s.sources (reported_failures s.failures hook_errors)) refs

unfoldable pub is_complete : Completeness → Bool
is_complete Completeness.complete = true
is_complete _ = false

-- The verdict of `_execute_observation`.
unfoldable pub observe_verdict : Events → ObservePayload → Verdict
unfolding because success is_complete
observe_verdict e p =
    if e.cancel
    then because Status.cancelled "cancelled_by_requester"
    else if e.lost
    then because Status.failed "worker_lease_lost"
    else if is_complete p.coverage.status
    then success
    else if is_some p.snapshot.guild
    then because Status.partial "observation_incomplete"
    else if is_empty p.messages
    then because Status.failed "observation_unavailable"
    else because Status.partial "observation_incomplete"

-- A stop makes the coverage partial. The activity is counted anew from the messages.
unfoldable pub observed : Events → ObserveInput → ObservePayload → ObservePayload
observed e input p =
    let counted : ObservePayload = record p { activity = activity p.messages input } in
    if e.cancel
    then record counted { coverage = record counted.coverage { status = Completeness.partial } }
    else if e.lost
    then record counted { coverage = record counted.coverage { status = Completeness.partial } }
    else counted

-- The envelope of `_execute_observation`.
unfoldable pub observe_report :
    ℕ → ℕ → ℕ → String → Events → ObserveInput → ObservePayload → JobUsage → ResultEnvelope
unfolding observed observe_verdict envelope
observe_report job_id attempt_id elapsed others e input p usage =
    let seen = observed e input p in
    envelope job_id attempt_id elapsed others (observe_verdict e seen) usage (observe_payload seen)
      []
