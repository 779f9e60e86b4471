-- ===== src/Lib.antt =====
-- A model of the job manager and the worker of ephy-worker, and proofs about them.
--
-- The program is a queue of web and Discord collection jobs. A requester submits jobs to a manager
-- over HTTP; workers register, claim jobs, renew their leases, upload artifacts and report results.
-- The manager (src/ephy_worker/manager.py) keeps everything in one SQLite database and a directory
-- of artifacts. Its public methods are serialised by a lock, so that a run is a sequence of calls.
--
-- - Prelude: Boolean tests on numbers, lists, tables (SQL's SELECT, UPDATE, DELETE, INSERT and COUNT
--   as `select`, `update`, `delete`, `insert`, `count`), stable sorting.
-- - Contract: src/ephy_worker/contracts.py and `Limits` of schema.py. A model's validators are one
--   Boolean function each: `submit_valid`, `limits_valid`, `registration_valid`, `bounded_evidence`.
-- - Manager: src/ephy_worker/manager.py. Tables has the state `Db` (a list for each table, and the
--   files), the settings and the errors. Workers, Queue, Submission, Lease, Observations, Retention,
--   Finalization, Artifacts and Sweeper have one function for each method, named after it. Activity
--   is `activity` of discord_observer.py. Run has the calls, `perform`, and the reachable databases.
--   The other modules are proofs: Writes gives each call as a chain of SQL statements, and the
--   invariants go by cases on that chain.
-- - Collect: src/ephy_worker/budget.py, the two stages of collector.py, and in Searxng the provider of
--   search.py, which fills the stage's interface `Provider`.
-- - Fetch: src/ephy_worker/fetch.py. Urls has the tests on URLs and addresses, Documents the
--   classification of bodies, Fetcher the rounds of `_fetch`, which fill the interface `Fetcher`; Steps
--   and Requests are proofs.
-- - Remote: src/ephy_worker/remote_collector.py, whose jobs go to the Manager's `submit`.
-- - Bridge: `BridgeLedger` and `RuntimeDiscordBridge` of src/ephy_worker/discord_runtime.py. Ledger and
--   Answers have the tables and a function for each method, Machine the calls in any order. Admission
--   has `handle`, Inbox a round of `recover_inbox`, Intakes `process_intake`, Recovery `recover_intakes`,
--   and Desk the steps that they share: chains of steps that may raise, with what is awaited as arguments.
--   The others are proofs. Steps of two works at once are not interleaved.
-- - Repair: `RepairStore` of src/ephy_worker/owner_repair.py. Rows has the tables, Intakes, Jobs and
--   Outbox a function for each method, Machine the calls in any order; the others are proofs.
-- - Worker: src/ephy_worker/worker_service.py: what a worker makes of its lease, how a stage becomes
--   a result, and how it is reported, against the manager's own `add_artifact` and `finalize`.
-- - Http: the handlers of `ManagerApp` in src/ephy_worker/manager.py.
-- - Tests: the theorems at concrete inputs.
--
-- A method is a function from its arguments, the settings and the database to a result: `ok` with
-- the new database, or `err`, where the code raises and nothing is written. Each reading of the
-- clock and each drawn uuid is an argument. Times are natural numbers of milliseconds. Job, worker,
-- attempt and artifact ids are numbers, and so are digests; the worker id "auto" is 0. Texts that
-- are compared or matched are strings. JSON columns hold the values that they encode.
--
-- Bounds. `root_job` and `in_lineage` walk up the parents on fuel: one more than the number of jobs,
-- which is enough while the parents form no cycle; on a cycle the code itself never ends, and the
-- model says `diverges`. `run_job` polls on fuel: one poll for each millisecond of its wait and one
-- more, which is enough when the clock moves on between polls. `json_rounds` and `fetch_rounds` count
-- the rounds that are left, as their `range` does. All other loops are recursions on lists.
--
-- Parameters: the process environment, SHA-256 and the hash of an input are fields of `Config`; the
-- JSON parsing and validation of bodies are fields of `HttpConfig`; the privacy test of queries and
-- the normalisation of texts and URLs are fields of `Provider` and `Fetcher`. What the SearXNG server
-- answers is `Rounds`, and what Discord and the gateway do is `Visit` and `Arrival`; what `ipaddress` and `urllib.parse` make of a text is `Parsers`, and what DNS,
-- the servers, zlib and the parser's process give or raise is `Network`; which files the disk will not
-- remove is `stays`. The fields of a result's JSON that the records leave out are one text, `others`. The id of an intake is made by
-- `identify`, and what psutil says of a process is `alive`. What uuid4 and the validation give is
-- `IsAdmissible`.
--
-- Not modelled: SQLite itself, the checks on database files and the migration of old databases,
-- temporary files, the sizes of serialised payloads, permalinks and free texts of observations, pauses
-- and heartbeats of the worker, the gateway and the splitting of the Discord bot's texts, and the other programs
-- of the repository (research, models, formal and coding runtimes, triage, evaluation, releases, the
-- command line), which only call the modelled parts or run external tools.
pub mod Prelude
pub mod Contract
pub mod Manager
pub mod Collect
pub mod Worker
pub mod Http
pub mod Fetch
pub mod Remote
pub mod Bridge
pub mod Repair
pub mod Tests
