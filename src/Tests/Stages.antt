-- ===== src/Tests/Stages.antt =====
-- Stages, reports and requests at concrete inputs.
use ephy_worker.Prelude.{
  ℕ, String, subst, ap, ◌≡◌, ◌≢◌, ◌≤◌, refl, true, false, none, some, List, [], ◌∷◌, inl, inr,
  arith, map, Bool,
}
use ephy_worker.Contract.Limits.{default_limits}
use ephy_worker.Contract.Input.{JobQuery, Candidate, SubmitJob, submit_valid}
use ephy_worker.Contract.Result.{SourceStatus, Status, ResultEnvelope}
use ephy_worker.Manager.Tables.{Db, Job, State, empty_db}
use ephy_worker.Manager.Finalization.{record_result}
use ephy_worker.Manager.Run.{Reach, start}
use ephy_worker.Collect.Budget.{Budget, new_budget}
use ephy_worker.Collect.Search.{
  add_found, SearchStage, returned, Provider, Turn, found, run_search_stage, new_search_stage,
}
use ephy_worker.Collect.Allowance.{IsWithin, budget_after, run_search_stage-IsWithin}
use ephy_worker.Collect.Extract.{Fetcher, Turn as FetchTurn, fetched, empty_source}
use ephy_worker.Worker.Leases.{Events}
use ephy_worker.Worker.Report.{close_search}
use ephy_worker.Worker.Service.{Course, Holder, finalize_or_cancel, as_cancelled}
use ephy_worker.Worker.Fallback.{IsRaced, finalize_or_cancel_confirms}
use ephy_worker.Worker.Plan.{close_search_covers, reported_ids, asked_ids}
use ephy_worker.Http.Replies.{HttpConfig, Decoded, decoded, not_valid}
use ephy_worker.Http.Handlers.{handle, submit_job}
use ephy_worker.Http.Reachable.{Validates, IsFresh, handle-Reach}
use ephy_worker.Tests.World.{
  world, one_query, submission, the_attempt, the_result, running_one, running_db,
}

-- A provider that takes nothing and finds one page.
abbrev pub one_page : Candidate
one_page = record {
  url = "https://example.org";
  title = "";
  snippet = "";
  query_id = "q1";
  engine = "";
  rank = 0;
  discovered_at = "";
  supplied = false;
}

abbrev provider : Provider
provider = record {
  key = λ text. text;
  is_private = λ text. false;
  search = λ q b. (b, found (one_page ∷ []));
}

abbrev pub two_turns : List Turn
two_turns =
    record { item = one_query; cancelled = false; now = 0 }
    ∷ record { item = record one_query { query_id = "q2"; text = "go" }; cancelled = true; now = 1 }
    ∷ []

pub fresh-IsWithin : IsWithin (new_budget default_limits 0)
unfolding new_budget ephy_worker.Collect.Budget.limit_of
fresh-IsWithin k = omega arith

run_search_stage-IsWithin_example : IsWithin (
    budget_after
      (run_search_stage provider two_turns new_search_stage (new_budget default_limits 0)))
run_search_stage-IsWithin_example =
    run_search_stage-IsWithin provider two_turns new_search_stage (new_budget default_limits 0)
      (λ q b h. h) fresh-IsWithin

abbrev cancelled_events : Events
cancelled_events = record { cancel = true; lost = false }

-- The stage comes back, with the first query.
abbrev two_found : SearchStage
two_found = add_found one_query (one_page ∷ []) new_search_stage

two_ended :
    run_search_stage provider two_turns new_search_stage (new_budget default_limits 0)
    ≡ returned two_found (
        budget_after
          (run_search_stage provider two_turns new_search_stage (new_budget default_limits 0)))
unfolding run_search_stage ephy_worker.Collect.Budget.query new_budget default_limits
    ephy_worker.Collect.Budget.limit_of
two_ended = refl

close_search_covers_example :
    reported_ids (close_search cancelled_events (map (λ t. t.item) two_turns) two_found)
    ≡ asked_ids (map (λ t. t.item) two_turns)
close_search_covers_example =
    close_search_covers provider two_turns (new_budget default_limits 0)
      (budget_after
        (run_search_stage provider two_turns new_search_stage (new_budget default_limits 0)))
      two_found cancelled_events (inl refl) (inl two_ended)

abbrev asked_one : Job
asked_one = record running_one { state = State.cancel_requested }

abbrev asked_db : Db
asked_db = record running_db { jobs = asked_one ∷ [] }

abbrev course : Course
course = record {
  encode = λ r. [];
  pack_id = 70;
  uploaded_at = 4000;
  now = 4000;
  now_again = 4100;
  before_finalize = [];
  before_fallback = [];
}

abbrev holder_of_lease : Holder
holder_of_lease = record { job_id = 10; worker_id = 5; credential = "secret"; lease_token = 30 }

asked-IsRaced : IsRaced world course holder_of_lease the_result asked_one the_attempt asked_db
unfolding ephy_worker.Prelude.Table.find ephy_worker.Manager.Lease.attempt_row
    ephy_worker.Manager.Workers.check_worker_credential ephy_worker.Manager.Lease.holds_lease
    ephy_worker.Contract.Input.mode_eq ephy_worker.Contract.Result.payload_mode
    ephy_worker.Contract.Input.mode_of ephy_worker.Manager.Finalization.check_manifest
asked-IsRaced = record {
  web = refl;
  asked = refl;
  its_row = refl;
  its_attempt = refl;
  known = refl;
  holder = refl;
  new = refl;
  in_time = omega arith;
  in_time_again = omega arith;
  of_job = refl;
  of_attempt = refl;
  fits = refl;
  stored = refl;
}

result_succeeded : the_result.status ≢ Status.cancelled
result_succeeded = λ e. cc e

finalize_or_cancel_confirms_example :
    finalize_or_cancel world course holder_of_lease the_result asked_db ≡ (
      record_result 4100 asked_one the_attempt State.cancelled (as_cancelled the_result) asked_db,
      none,
    )
finalize_or_cancel_confirms_example =
    finalize_or_cancel_confirms world course holder_of_lease the_result asked_one the_attempt
      asked_db asked-IsRaced result_succeeded refl

abbrev http : HttpConfig
http = record {
  config = world;
  requester_credential = "secret";
  artifact_limit = 1000;
  decode_submit = λ content. decoded submission;
  decode_registration = λ content. not_valid;
  decode_result = λ content. decoded the_result;
  decode_key = λ content. decoded none;
}

submission_is_valid : submit_valid submission ≡ true
unfolding submit_valid ephy_worker.Contract.Input.input_valid
    ephy_worker.Contract.Limits.limits_valid ephy_worker.Contract.Limits.counts_in_range
    default_limits ephy_worker.Contract.Limits.times_in_range
    ephy_worker.Contract.Limits.sizes_in_range ephy_worker.Contract.Input.kind_matches_input
submission_is_valid = refl

abbrev submission_of : Decoded SubmitJob → SubmitJob
submission_of (decoded s) = s
submission_of _ = submission

decoded_is_valid : (s : SubmitJob) → decoded submission ≡ decoded s → submit_valid s ≡ true
decoded_is_valid s e = subst (λ x. submit_valid x ≡ true) (ap submission_of e) submission_is_valid

http-Validates : Validates http
http-Validates = record {
  submissions = λ content s e. decoded_is_valid s e;
  registrations = λ content r e. cc e;
}

request-IsFresh : IsFresh (submit_job "secret" 2000 2000 10 []) empty_db
unfolding ephy_worker.Prelude.Table.find
request-IsFresh = (refl, refl)

handle-Reach_example : Reach world (handle http (submit_job "secret" 2000 2000 10 []) empty_db).0
handle-Reach_example =
    handle-Reach http (submit_job "secret" 2000 2000 10 []) empty_db http-Validates request-IsFresh
      start

-- A fetcher that takes nothing and reads every page.
abbrev fetcher : Fetcher
fetcher = record {
  normalize_url = λ url. url;
  fetch = λ q id b. (b, fetched (empty_source id q.url SourceStatus.ok));
}

abbrev one_fetch : List FetchTurn
one_fetch = record { source_id = "s1"; candidate = one_page; cancelled = false; now = 0 } ∷ []
