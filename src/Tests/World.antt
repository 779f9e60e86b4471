-- ===== src/Tests/World.antt =====
-- A small world: one worker, one search job, and the databases of a run over them.
use ephy_worker.Prelude.{true, [], ◌∷◌, none, some, length}
use ephy_worker.Contract.Limits.{default_limits}
use ephy_worker.Contract.Input.{
  contract_version, JobInput, search_input, JobQuery, Role, collect, web_collect,
  WorkerRegistration, SubmitJob, auto,
}
use ephy_worker.Contract.Result.{Status, ResultEnvelope, no_usage, search_payload}
use ephy_worker.Manager.Tables.{Config, Db, Job, Attempt, Worker, State, empty_db}

abbrev pub world : Config
world = record {
  lease_seconds = 45000;
  offline_after_seconds = 60000;
  max_artifacts_per_job = 20;
  worker_credentials_env = λ _. some "EPHY_WORKER";
  environ = λ _. "secret";
  input_hash = λ _. 7;
  sha256 = length;
}

abbrev pub one_query : JobQuery
one_query = record { query_id = "q1"; text = "rust"; role = Role.overview; reason = "topic" }

abbrev pub some_input : JobInput
some_input = search_input (record { topic = "rust"; round_index = 0; queries = one_query ∷ [] })

abbrev pub submission : SubmitJob
submission = record {
  contract = contract_version;
  submit_key = "key";
  parent_job_id = none;
  kind = web_collect;
  input = some_input;
  target_worker_id = auto;
  budget = default_limits;
  deadline_seconds = 100000;
}

abbrev pub registration : WorkerRegistration
registration = record {
  contract = contract_version;
  worker_id = 5;
  capabilities = collect ∷ [];
  implementation_version = "0.4";
  os = "Linux";
  architecture = "x86_64";
  concurrency = 1;
}

abbrev pub the_worker : Worker
the_worker = record {
  worker_id = 5;
  capabilities = collect ∷ [];
  implementation_version = "0.4";
  contract_version = contract_version;
  os = "Linux";
  architecture = "x86_64";
  concurrency = 1;
  online = true;
  last_heartbeat_at = 1000;
}

abbrev pub queued_one : Job
queued_one = record {
  job_id = 10;
  submit_key = "key";
  parent_job_id = none;
  kind = web_collect;
  input = some_input;
  target_worker_id = auto;
  budget = default_limits;
  deadline_seconds = 100000;
  input_hash = 7;
  created_at = 2000;
  deadline_at = 102000;
  state = State.queued;
  worker_id = none;
  attempt_id = none;
  attempt_number = 0;
  stop_reason = none;
  result = none;
}

abbrev pub running_one : Job
running_one = record queued_one {
  state = State.running;
  worker_id = some 5;
  attempt_id = some 20;
  attempt_number = 1;
}

abbrev pub the_attempt : Attempt
the_attempt = record {
  attempt_id = 20;
  job_id = 10;
  worker_id = 5;
  lease_token = 30;
  lease_expires_at = 48000;
  attempt_number = 1;
  created_at = 3000;
  finalized_at = none;
}

abbrev pub the_result : ResultEnvelope
the_result = record {
  job_id = 10;
  attempt_id = 20;
  status = Status.succeeded;
  stop_reason = none;
  usage = no_usage;
  elapsed_seconds = 1;
  payload = search_payload [] [] [];
  manifest = [];
  others = "";
}

abbrev pub registered_db : Db
registered_db = record empty_db { workers = the_worker ∷ [] }

abbrev pub queued_db : Db
queued_db = record registered_db { jobs = queued_one ∷ [] }

abbrev pub running_db : Db
running_db = record registered_db { jobs = running_one ∷ []; attempts = the_attempt ∷ [] }

abbrev pub finished_one : Job
finished_one = record running_one { state = State.completed; result = some the_result }

abbrev pub finished_db : Db
finished_db = record registered_db {
  jobs = finished_one ∷ [];
  attempts = record the_attempt { finalized_at = some 4000 } ∷ [];
}
