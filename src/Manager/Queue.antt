-- ===== src/Manager/Queue.antt =====
-- Who may run a job, and how a worker takes one (manager.py: `_wait_reason`,
-- `_eligible_workers`, `claim`).
use ephy_worker.Prelude.{
  ℕ, ◌+◌, ◌*◌, String, Bool, false, not, ◌&&◌, ◌||◌, List, [], ◌∷◌, Option, none, some, ◌==◌, ltb,
  leb, max, sort, if◌then◌else◌,
}
use ephy_worker.Prelude.Table.{find, select, count, update, insert}
use ephy_worker.Contract.Input.{
  Capability, required_job_capabilities, covers, auto, contract_version,
}
use ephy_worker.Manager.Tables.{
  Db, Config, Worker, Job, Attempt, State, Result, ok, raise_if, ◌>>◌, claim_conflict, worker_row,
  is_value, is_active, is_queued,
}
use ephy_worker.Manager.Workers.{check_worker_credential}

-- `_required_capabilities`. `submit` takes no job whose kind and input do not fit.
unfoldable pub required_capabilities : Job → List Capability
required_capabilities j = elim (required_job_capabilities j.kind j.input) [
  | none ↦ []
  | some capabilities ↦ capabilities
]

-- The jobs that occupy a worker.
unfoldable pub occupies : ℕ → Job → Bool
occupies worker_id j = is_value j.worker_id worker_id && is_active j.state

unfoldable pub active_jobs : Db → ℕ → ℕ
active_jobs db worker_id = count (occupies worker_id) db.jobs

latest : ℕ → List Attempt → ℕ
latest worker_id [] = 0
latest worker_id (a ∷ older) =
    let rest = latest worker_id older in
    if a.worker_id == worker_id then max a.created_at rest else rest

-- When the worker was last given a job.
unfoldable pub assigned : Db → ℕ → ℕ
unfolding latest
assigned db worker_id = latest worker_id db.attempts

-- Online, with a heartbeat that is not older than the limit.
unfoldable pub is_alive : Config → ℕ → Worker → Bool
is_alive c now w = w.online && leb now (w.last_heartbeat_at + c.offline_after_seconds)

unfoldable pub is_eligible : Config → ℕ → Db → Job → Worker → Bool
is_eligible c now db j w =
    is_alive c now w
    && w.contract_version == contract_version
    && not (w.worker_id == auto)
    && ltb (active_jobs db w.worker_id) w.concurrency
    && covers w.capabilities (required_capabilities j)

-- The sort key (active / concurrency, assigned, worker_id), with the quotients multiplied out.
unfoldable pub better : Db → Worker → Worker → Bool
better db v w =
    let a = active_jobs db v.worker_id * w.concurrency in
    let b = active_jobs db w.worker_id * v.concurrency in
    ltb a b
    || (a == b
        && (ltb (assigned db v.worker_id) (assigned db w.worker_id)
            || (assigned db v.worker_id == assigned db w.worker_id && ltb v.worker_id w.worker_id)))

-- `_eligible_workers`.
unfoldable pub eligible_workers : Config → ℕ → Db → Job → List Worker
eligible_workers c now db j = sort (better db) (select (is_eligible c now db j) db.workers)

pub data WaitReason : Type 0 where
  no_eligible_worker target_worker_unregistered target_worker_offline
        target_worker_contract_mismatch target_worker_capability_mismatch :
      WaitReason

unfoldable pub target_wait_reason : Config → ℕ → Job → Option Worker → Option WaitReason
target_wait_reason c now j none = some target_worker_unregistered
target_wait_reason c now j (some w) =
    if not (is_alive c now w)
    then some target_worker_offline
    else if not (w.contract_version == contract_version)
    then some target_worker_contract_mismatch
    else if not (covers w.capabilities (required_capabilities j))
    then some target_worker_capability_mismatch
    else none

auto_wait_reason : List Worker → Option WaitReason
auto_wait_reason [] = some no_eligible_worker
auto_wait_reason (w ∷ ws) = none

-- `_wait_reason`.
unfoldable pub wait_reason : Config → ℕ → Db → Job → Option WaitReason
unfolding target_wait_reason auto_wait_reason
wait_reason c now db j =
    if j.target_worker_id == auto
    then auto_wait_reason (eligible_workers c now db j)
    else target_wait_reason c now j (worker_row db j.target_worker_id)

-- ORDER BY created_at ASC, job_id ASC.
unfoldable pub earlier : Job → Job → Bool
earlier i j =
    ltb i.created_at j.created_at || (i.created_at == j.created_at && ltb i.job_id j.job_id)

-- WHERE state = 'queued' AND target_worker_id IN (?, 'auto') AND deadline_at > ?.
unfoldable pub is_claimable : ℕ → ℕ → Job → Bool
is_claimable worker_id now j =
    is_queued j.state
    && (j.target_worker_id == worker_id || j.target_worker_id == auto)
    && ltb now j.deadline_at

is_first : ℕ → List Worker → Bool
is_first worker_id [] = false
is_first worker_id (w ∷ ws) = w.worker_id == worker_id

-- The tests of the loop over the queue: capabilities, and for an `auto` job to be the best worker.
unfoldable pub may_take : Config → ℕ → Db → Worker → Job → Bool
unfolding is_first
may_take c now db w j =
    covers w.capabilities (required_capabilities j)
    && (not (j.target_worker_id == auto) || is_first w.worker_id (eligible_workers c now db j))

-- The jobs in the order in which a worker looks at them.
unfoldable pub queue : ℕ → ℕ → Db → List Job
queue worker_id now db = sort earlier (select (is_claimable worker_id now) db.jobs)

unfoldable pub next_job : Config → ℕ → Db → Worker → Option Job
next_job c now db w = find (may_take c now db w) (queue w.worker_id now db)

unfoldable pub take_job : ℕ → ℕ → ℕ → Job → Job
take_job worker_id attempt_id number j = record j {
  state = State.running;
  worker_id = some worker_id;
  attempt_id = some attempt_id;
  attempt_number = number;
}

unfoldable pub new_attempt : Config → ℕ → ℕ → ℕ → ℕ → Job → Attempt
new_attempt c now worker_id attempt_id lease_token j = record {
  attempt_id = attempt_id;
  job_id = j.job_id;
  worker_id = worker_id;
  lease_token = lease_token;
  lease_expires_at = now + c.lease_seconds;
  attempt_number = j.attempt_number + 1;
  created_at = now;
  finalized_at = none;
}

-- The UPDATE's condition, `job_id = ? AND state = 'queued'`.
abbrev pub queued_job : ℕ → Job → Bool
queued_job id j = j.job_id == id && is_queued j.state

-- The two writes of `claim`. A `rowcount` other than 1 rolls the attempt back.
unfoldable pub assign : Config → ℕ → ℕ → ℕ → ℕ → Job → Db → Result (Db × Option Attempt)
unfolding take_job new_attempt
assign c now worker_id attempt_id lease_token j db = do
  raise_if (not (count (queued_job j.job_id) db.jobs == 1)) claim_conflict 409
  let attempt = new_attempt c now worker_id attempt_id lease_token j
  ok (
    record db {
      attempts = insert attempt db.attempts;
      jobs =
          update (queued_job j.job_id) (take_job worker_id attempt_id (j.attempt_number + 1))
            db.jobs;
    },
    some attempt,
  )

unfoldable pub assign_next : Config → ℕ → ℕ → ℕ → ℕ → Option Job → Db → Result (Db × Option Attempt)
assign_next c now worker_id attempt_id lease_token none db = ok (db, none)
assign_next c now worker_id attempt_id lease_token (some j) db =
    assign c now worker_id attempt_id lease_token j db

-- The worker may take a job at all.
unfoldable pub can_claim : Config → ℕ → Db → Worker → Bool
can_claim c seen db w =
    is_alive c seen w
    && w.contract_version == contract_version
    && ltb (active_jobs db w.worker_id) w.concurrency

unfoldable pub claim_as : Config → ℕ → ℕ → ℕ → ℕ → Option Worker → Db → Result (Db × Option Attempt)
claim_as c seen now attempt_id lease_token none db = ok (db, none)
claim_as c seen now attempt_id lease_token (some w) db =
    if can_claim c seen db w
    then assign_next c now w.worker_id attempt_id lease_token (next_job c now db w) db
    else ok (db, none)

-- `claim`. `seen` and `now` are the two readings of the clock; the ids are fresh uuids.
unfoldable pub claim : Config → ℕ → String → ℕ → ℕ → ℕ → ℕ → Db → Result (Db × Option Attempt)
claim c worker_id credential seen now attempt_id lease_token db = do
  check_worker_credential c worker_id credential
  claim_as c seen now attempt_id lease_token (worker_row db worker_id) db
