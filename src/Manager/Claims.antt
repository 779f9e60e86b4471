-- ===== src/Manager/Claims.antt =====
-- What a successful claim gives: which job, to whom, and within which limits.
use mathlib.Core.List.{Memᴰ}
use mathlib.Core.List.Memᴰ.{head, tail}
use ephy_worker.Prelude.{
  refl, List, [], ◌∷◌, ℕ, ◌+◌, String, ◌≡◌, ◌≢◌, ◌<◌, ◌≤◌, ap, true, false, some, arith, inl, inr,
  ◌==◌, ==_refl, ◌||◌, Option-cases, All, ltb, ◌⊎◌, Bool, Bool-cases,
}
use ephy_worker.Prelude.Table.{
  All-map, select, update, insert, count, find-holds, All-find, count-update_into,
  count-update_same,
}
use ephy_worker.Prelude.Sorting.{All-select, All-of_select, All-sort, find-sort}
use ephy_worker.Contract.Input.{covers, auto, contract_version}
use ephy_worker.Manager.Tables.{
  Db, Config, Job, Attempt, Worker, ok, is_queued, is_active, worker_row,
}
use ephy_worker.Manager.Queue.{
  take_job, queued_job, active_jobs, occupies, can_claim, claim, claim_as, assign_next, assign,
  next_job, new_attempt, queue, is_claimable, may_take, earlier, required_capabilities, is_alive,
}

-- What is known of a job that worker `w` is given at time `now`.
pub record IsGranted (c : Config) (seen now id token : ℕ) (w : Worker) (j : Job) (db db' : Db)
    (a : Attempt) : Type 0 where
  pub allowed : can_claim c seen db w ≡ true
  pub chosen : next_job c now db w ≡ some j
  pub alone : count (queued_job j.job_id) db.jobs ≡ 1
  pub its_attempt : a ≡ new_attempt c now w.worker_id id token j
  pub attempts_after : db'.attempts ≡ insert a db.attempts
  pub jobs_after :
      db'.jobs
      ≡ update (queued_job j.job_id) (take_job w.worker_id id (j.attempt_number + 1)) db.jobs

-- The inversion of `claim`.
claim-IsGranted :
    (c : Config) (worker_id : ℕ) (credential : String) (seen now id token : ℕ) (db db' : Db)
    (a : Attempt)
    → claim c worker_id credential seen now id token db ≡ ok (db', some a)
    → (w : Worker) × (j : Job) × (worker_row db worker_id ≡ some w)
      × IsGranted c seen now id token w j db db' a
unfolding claim claim_as assign_next assign
claim-IsGranted c worker_id credential seen now id token db db' a e =
    elim (Option-cases (worker_row db worker_id)) [
      | inl e' ↦ absurd (ground arith)
      | inr (w, e') ↦ elim (Option-cases (next_job c now db w)) [
        | inl e'' ↦ absurd (ground arith)
        | inr (j, e'') ↦ (w, j, e', ground arith)
      ]
    ]

earlier_asym : (i j : Job) → earlier j i ≡ true → earlier i j ≡ false
unfolding earlier
earlier_asym i j h = ground arith

earlier_trans : (i j k : Job) → earlier k j ≡ false → earlier j i ≡ false → earlier k i ≡ false
unfolding earlier
earlier_trans i j k h h' = ground arith

earlier_irrefl : (i : Job) → earlier i i ≡ false
unfolding earlier
earlier_irrefl i = ground arith

All-Mem : {A : Type 0} (P : A → Type 0) (xs : List A) → ((x : A) → Memᴰ x xs → P x) → All P xs
All-Mem P [] h = tt
All-Mem P (x ∷ xs) h = (h x (head refl), All-Mem P xs (λ y m. h y (tail m)))

All-select_of :
    {A : Type 0} (P : A → Type 0) (test : A → Bool) (xs : List A)
    → All P xs
    → All P (select test xs)
unfolding select
All-select_of P test [] h = tt
All-select_of P test (x ∷ xs) h = elim (Bool-cases (test x)) [
  | inl hit ↦ rw hit (h.0, All-select_of P test xs h.1)
  | inr miss ↦ rw miss (All-select_of P test xs h.1)
]

-- The next job is a row of the table.
next_job-Mem :
    (c : Config) (now : ℕ) (db : Db) (w : Worker) (j : Job)
    → next_job c now db w ≡ some j
    → Memᴰ j db.jobs
unfolding next_job queue
next_job-Mem c now db w j e =
    All-find (λ k. Memᴰ k db.jobs) (may_take c now db w) _ j
      (All-sort earlier _ _ (
        All-select_of (λ k. Memᴰ k db.jobs) (is_claimable w.worker_id now) db.jobs
          (All-Mem (λ k. Memᴰ k db.jobs) db.jobs (λ k m. m))))
      e

next_claimable :
    (c : Config) (now : ℕ) (db : Db) (w : Worker) (j : Job)
    → next_job c now db w ≡ some j
    → (is_claimable w.worker_id now j ≡ true) × (may_take c now db w j ≡ true)
unfolding next_job queue
next_claimable c now db w j e = (
  All-find (λ k. is_claimable w.worker_id now k ≡ true) (may_take c now db w) _ j
      (All-sort earlier _ _ (All-select _ (is_claimable w.worker_id now) db.jobs (λ k h. h))) e,
  find-holds (may_take c now db w) _ j e,
)

-- A worker that claims is alive, speaks this contract and has a free place. The job it gets is a row of
-- the table, the only queued one of its id, and that row is what the claim changes. It was queued, for
-- this worker or for any, before its deadline, and the worker's capabilities cover the job's. The attempt
-- is the job's, with the lease that starts now.
pub claim_is_sound :
    (c : Config) (worker_id : ℕ) (credential : String) (seen now id token : ℕ) (db db' : Db)
    (a : Attempt)
    → claim c worker_id credential seen now id token db ≡ ok (db', some a)
    → (w : Worker) × (j : Job) × (worker_row db worker_id ≡ some w)
      × (is_alive c seen w ≡ true)
      × (w.contract_version ≡ contract_version)
      × (active_jobs db w.worker_id < w.concurrency)
      × Memᴰ j db.jobs
      × (count (queued_job j.job_id) db.jobs ≡ 1)
      × (db'.jobs
          ≡ update (queued_job j.job_id) (take_job w.worker_id id (j.attempt_number + 1)) db.jobs)
      × (is_queued j.state ≡ true)
      × (((j.target_worker_id == w.worker_id) || (j.target_worker_id == auto)) ≡ true)
      × (now < j.deadline_at)
      × (covers w.capabilities (required_capabilities j) ≡ true)
      × (a.job_id ≡ j.job_id)
      × (a.worker_id ≡ w.worker_id)
      × (a.lease_expires_at ≡ now + c.lease_seconds)
unfolding can_claim is_claimable may_take new_attempt
claim_is_sound c worker_id credential seen now id token db db' a e =
    let (w, j, ew, g) = claim-IsGranted c worker_id credential seen now id token db db' a e in
    let (claimable, takeable) = next_claimable c now db w j g.chosen in
    (
      w,
      j,
      ew,
      ground (arith, g.allowed),
      ground (arith, g.allowed),
      ground (arith, g.allowed),
      next_job-Mem c now db w j g.chosen,
      g.alone,
      g.jobs_after,
      ground (arith, claimable),
      ground (arith, claimable),
      ground (arith, claimable),
      ground (arith, takeable),
      ap (λ (x : Attempt). x.job_id) g.its_attempt,
      ap (λ (x : Attempt). x.worker_id) g.its_attempt,
      ap (λ (x : Attempt). x.lease_expires_at) g.its_attempt,
    )

-- `j` was created before `k`, or at the same time with an id that is not greater.
abbrev pub ComesFirst : Job → Job → Type 0
ComesFirst j k =
    (j.created_at < k.created_at) ⊎ ((j.created_at ≡ k.created_at) × (j.job_id ≤ k.job_id))

not_earlier : (j k : Job) → earlier k j ≡ false → ComesFirst j k
unfolding earlier
not_earlier j k h = elim (Bool-cases (ltb j.created_at k.created_at)) [
  | inl less ↦ inl (ground arith)
  | inr other ↦ inr (ground arith, ground arith)
]

-- First come, first served: the job that a worker gets is a queued row of the table, the only one of its
-- id and the one that the claim changes, and of the queued jobs that the worker could be given, none was
-- created before it, or at the same time with a smaller id.
pub claim_takes_earliest :
    (c : Config) (worker_id : ℕ) (credential : String) (seen now id token : ℕ) (db db' : Db)
    (a : Attempt)
    → claim c worker_id credential seen now id token db ≡ ok (db', some a)
    → (w : Worker) × (j : Job) × (worker_row db worker_id ≡ some w)
      × (a.job_id ≡ j.job_id)
      × Memᴰ j db.jobs
      × (is_queued j.state ≡ true)
      × (count (queued_job j.job_id) db.jobs ≡ 1)
      × (db'.jobs
          ≡ update (queued_job j.job_id) (take_job w.worker_id id (j.attempt_number + 1)) db.jobs)
      × All
          (λ k.
            is_claimable w.worker_id now k ≡ true → may_take c now db w k ≡ true → ComesFirst j k)
          db.jobs
claim_takes_earliest c worker_id credential seen now id token db db' a e =
    let (w, j, ew, g) = claim-IsGranted c worker_id credential seen now id token db db' a e in
    (
      w,
      j,
      ew,
      unfold new_attempt in ap (λ (x : Attempt). x.job_id) g.its_attempt,
      next_job-Mem c now db w j g.chosen,
      unfold is_claimable in ground (arith, (next_claimable c now db w j g.chosen).0),
      g.alone,
      g.jobs_after,
      All-of_select (λ k. may_take c now db w k ≡ true → ComesFirst j k)
          (is_claimable w.worker_id now) db.jobs
          (All-map (λ k. may_take c now db w k ≡ true → earlier k j ≡ false)
            (λ k. may_take c now db w k ≡ true → ComesFirst j k)
            (select (is_claimable w.worker_id now) db.jobs) (λ k h may. not_earlier j k (h may))
            (find-sort earlier earlier_asym earlier_trans (may_take c now db w)
              (select (is_claimable w.worker_id now) db.jobs) j (unfold next_job queue in g.chosen)
              (earlier_irrefl j))),
    )

take_occupies :
    (w id number k : ℕ) (j : Job)
    → queued_job k j ≡ true
    → (occupies w j ≡ false) × (occupies w (take_job w id number j) ≡ true)
unfolding occupies take_job is_active is_queued
take_occupies w id number k j h = ground (arith, ==_refl w)

take_other :
    (v w id number k : ℕ) (j : Job)
    → v ≢ w
    → queued_job k j ≡ true
    → occupies v (take_job w id number j) ≡ occupies v j
unfolding occupies take_job is_active is_queued
take_other v w id number k j other h = ground arith

-- A claim occupies one place more of its worker, within the worker's concurrency, and no place of
-- any other worker.
pub claim_keeps_capacity :
    (c : Config) (worker_id : ℕ) (credential : String) (seen now id token : ℕ) (db db' : Db)
    (a : Attempt)
    → claim c worker_id credential seen now id token db ≡ ok (db', some a)
    → (w : Worker) × (worker_row db worker_id ≡ some w)
      × (active_jobs db' w.worker_id ≡ active_jobs db w.worker_id + 1)
      × (active_jobs db' w.worker_id ≤ w.concurrency)
      × ((v : ℕ) → v ≢ w.worker_id → active_jobs db' v ≡ active_jobs db v)
unfolding active_jobs
claim_keeps_capacity c worker_id credential seen now id token db db' a e =
    let (w, j, ew, g) = claim-IsGranted c worker_id credential seen now id token db db' a e in
    let more : count (occupies w.worker_id) db'.jobs ≡ count (occupies w.worker_id) db.jobs + 1 =
      rw (
        g.jobs_after,
        count-update_into (occupies w.worker_id) _ _ db.jobs
            (take_occupies w.worker_id id (j.attempt_number + 1) j.job_id),
        g.alone,
      ) in
    let room : count (occupies w.worker_id) db.jobs < w.concurrency =
      unfold can_claim active_jobs in ground (arith, g.allowed) in
    (
      w,
      ew,
      more,
      omega arith,
      λ v other. rw g.jobs_after (
          count-update_same (occupies v) _ _ db.jobs
            (λ k. take_other v w.worker_id id (j.attempt_number + 1) j.job_id k other)),
    )
