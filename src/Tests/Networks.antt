-- ===== src/Tests/Networks.antt =====
-- The remote collector and the fetcher at concrete inputs.
use ephy_worker.Prelude.{
  ℕ, ◌+◌, ◌≤◌, ◌≡◌, ◌≢◌, refl, true, false, none, some, List, [], ◌∷◌, arith, Bool, Option, length,
  if◌then◌else◌, ◌==◌, suc,
}
use ephy_worker.Contract.Limits.{default_limits}
use ephy_worker.Contract.Result.{SourceStatus}
use ephy_worker.Manager.Tables.{Db, Job, State, ok, err, refused, child_budget_exceeds_parent}
use ephy_worker.Manager.Submission.{
  validate_child_allocation, root_job, spent_search, spent_fetch, spent_model,
}
use ephy_worker.Collect.Budget.{new_budget, Budget}
use ephy_worker.Collect.Extract.{Turn}
use ephy_worker.Remote.Collector.{Collector, Poll, Parent, search_job, run_job, undecided, payload}
use ephy_worker.Remote.Polling.{run_job_ends}
use ephy_worker.Remote.Allocation.{allocation_exact, has_left}
use ephy_worker.Fetch.Urls.{Parsers, Address, no_port}
use ephy_worker.Fetch.Fetcher.{Network, Response, met, whole, fetch}
use ephy_worker.Fetch.Steps.{IsFair}
use ephy_worker.Fetch.Requests.{fetch-IsFair}
use ephy_worker.Tests.Stages.{fresh-IsWithin, one_page}
use ephy_worker.Tests.World.{some_input, finished_one, finished_db}

abbrev first_parent : Parent
first_parent = record { job_id = 10; deadline_at = 102000 }

abbrev some_collector : Collector
some_collector = record {
  limits = default_limits;
  target_worker_id = 5;
  max_wait_seconds = none;
  deadline_seconds = 60000;
  submit_key_prefix = "ephv4.";
  closed = false;
  parent = some first_parent;
  used = record { search_requests = 0; fetch_requests = 0; model_requests = 0 };
}

-- A job that stays in the queue.
abbrev waiting : ℕ → Option Poll
waiting n = some (record {
  job_id = 11;
  deadline_at = 102000;
  state = State.queued;
  now = 500 + n;
  result = none;
})

waiting_clock : (n : ℕ) (p : Poll) → waiting n ≡ some p → 500 + n ≤ p.now
waiting_clock n p e = ground arith

run_job_ends_example : run_job 500 waiting some_collector ≢ undecided
run_job_ends_example = run_job_ends 500 waiting some_collector waiting_clock

finished_root :
    root_job (suc (length finished_db.jobs)) finished_db.jobs finished_one ≡ ok finished_one
unfolding root_job
finished_root = refl

no_searches : spent_search 10 finished_db.jobs ≡ 0
unfolding spent_search ephy_worker.Manager.Submission.spent ephy_worker.Prelude.Table.sum
    ephy_worker.Manager.Submission.in_lineage ephy_worker.Manager.Submission.charge
    ephy_worker.Manager.Tables.usage_of
no_searches = refl

no_fetches : spent_fetch 10 finished_db.jobs ≡ 0
unfolding spent_fetch ephy_worker.Manager.Submission.spent ephy_worker.Prelude.Table.sum
    ephy_worker.Manager.Submission.in_lineage ephy_worker.Manager.Submission.charge
    ephy_worker.Manager.Tables.usage_of
no_fetches = refl

no_models : spent_model 10 finished_db.jobs ≡ 0
unfolding spent_model ephy_worker.Manager.Submission.spent ephy_worker.Prelude.Table.sum
    ephy_worker.Manager.Submission.in_lineage ephy_worker.Manager.Submission.charge
    ephy_worker.Manager.Tables.usage_of
no_models = refl

allocation_exact_example :
    validate_child_allocation 3050 finished_db finished_one
      (payload search_job 1 3000 "t" some_input some_collector)
    ≡ (if has_left some_collector then ok tt else err (refused child_budget_exceeds_parent 409))
unfolding ephy_worker.Manager.Tables.is_terminal
allocation_exact_example =
    allocation_exact some_collector first_parent search_job 1 3000 3050 "t" some_input finished_db
      finished_one finished_one refl (omega arith) (omega arith) refl refl finished_root refl refl
      no_searches no_fetches no_models

-- A public address, and a server that answers with a small page.
abbrev some_address : Address
some_address = record {
  text = "93.184.216.34";
  is_global = true;
  is_multicast = false;
  is_reserved = false;
  is_unspecified = false;
  is_ipv6 = false;
  ipv4_mapped = false;
  sixtofour = false;
  teredo = false;
  in_translation = false;
}

abbrev some_parsers : Parsers
some_parsers = record {
  ip_address =
      λ text. if ephy_worker.Prelude.str_eq text "93.184.216.34" then some some_address else none;
  urlsplit = λ url. some (record {
    scheme = "https";
    hostname = some "example.org";
    has_credentials = false;
    port = no_port;
  });
  idna = λ host. some host;
  urldefrag = λ url. url;
  urljoin = λ base url. some url;
}

abbrev some_response : Response
some_response = record {
  status = 200;
  location = none;
  content_type = "text/html";
  encoding = "identity";
  body =
      record {
        raw = record { bytes = b'<' ∷ b'p' ∷ b'>' ∷ []; now = 3 };
        decoded = [];
        broken = none;
      }
      ∷ [];
  closing = whole;
}

abbrev some_network : Network
some_network = record {
  parsers = some_parsers;
  resolve = λ t left. met ("93.184.216.34" ∷ []);
  request = λ t addresses left. met some_response;
  now = λ left. 2;
  extract = λ body kind.
      met (record { status = SourceStatus.ok; text_bytes = 10; body_hash = some 7; valid = true });
  parsed_at = 4;
}

fetch-IsFair_example :
    IsFair some_parsers
      (new_budget default_limits 0)
      6
      (fetch some_network "https://example.org/" (new_budget default_limits 0))
unfolding new_budget default_limits
fetch-IsFair_example =
    fetch-IsFair some_network "https://example.org/" (new_budget default_limits 0) fresh-IsWithin

-- The page is fetched with one request.
page_fetched :
    length (fetch some_network "https://example.org/" (new_budget default_limits 0)).requests ≡ 1
unfolding fetch new_budget default_limits ephy_worker.Collect.Budget.limit_of
    ephy_worker.Collect.Budget.category_eq
page_fetched = refl

abbrev one_turn : List Turn
one_turn = record { source_id = "s1"; candidate = one_page; cancelled = false; now = 1 } ∷ []
