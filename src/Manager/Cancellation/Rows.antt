-- ===== src/Manager/Cancellation/Rows.antt =====
-- The rows of a job whose requested stop is not confirmed, and of its attempt.
use mathlib.Core.Option
use ephy_worker.Prelude.{
  ℕ, ap, ◌≡◌, ◌<◌, ◌≤◌, refl, sym, ◌∙◌, true, false, some, List, arith, inl, inr, ◌==◌, ==_iff,
  Bool, Bool-cases,
}
use ephy_worker.Prelude.Table.{find, update, find-update, find-Distinct, Distinct}
use ephy_worker.Manager.Tables.{Db, Job, Attempt, State, job_is, attempt_is}
use ephy_worker.Manager.Lease.{attempt_of, attempt_row, extend}
use ephy_worker.Manager.Lifecycle.{row_id}

-- The job's worker was asked to stop, and its lease ran out before `since`.
pub record IsUnconfirmed (since id worker attempt_id : ℕ) (db : Db) : Type 0 where
  pub job : Job
  pub attempt : Attempt
  pub found : find (job_is id) db.jobs ≡ some job
  pub asked : job.state ≡ State.cancel_requested
  pub assigned : job.worker_id ≡ some worker
  pub attempted : job.attempt_id ≡ some attempt_id
  pub its_attempt : find (attempt_of id attempt_id) db.attempts ≡ some attempt
  pub over : attempt.lease_expires_at < since

-- An UPDATE of jobs leaves such a job in its state, with its worker and attempt.
abbrev pub Leaves : ℕ → ℕ → ℕ → List Job → Type 0
Leaves id worker attempt_id jobs =
    (j : Job) × (find (job_is id) jobs ≡ some j)
    × (j.state ≡ State.cancel_requested)
    × (j.worker_id ≡ some worker)
    × (j.attempt_id ≡ some attempt_id)

pub Leaves-update :
    (q : Job → Bool) (f : Job → Job) (jobs : List Job) (id worker attempt_id : ℕ) (j : Job)
    → ((r : Job) → (f r).job_id ≡ r.job_id)
    → find (job_is id) jobs ≡ some j
    → j.state ≡ State.cancel_requested
    → j.worker_id ≡ some worker
    → j.attempt_id ≡ some attempt_id
    → (q j ≡ true
        → ((f j).state ≡ State.cancel_requested)
          × ((f j).worker_id ≡ some worker)
          × ((f j).attempt_id ≡ some attempt_id))
    → Leaves id worker attempt_id (update q f jobs)
Leaves-update q f jobs id worker attempt_id j keep e s w a same = elim (Bool-cases (q j)) [
  | inl hit ↦ (
    f j,
    find-update (job_is id) q f jobs (λ r. rw (keep r)) ∙ rw (e, hit),
    (same hit).0,
    (same hit).1,
    (same hit).2,
  )
  | inr miss ↦ (j, find-update (job_is id) q f jobs (λ r. rw (keep r)) ∙ rw (e, miss), s, w, a)
]

-- The attempt's lease is as it was, or longer only if it had not run out.
pub lease_stays :
    (p : Attempt → Bool) (f : Attempt → Attempt) (attempts : List Attempt) (id attempt_id : ℕ)
    (a : Attempt)
    → ((r : Attempt) → attempt_of id attempt_id (f r) ≡ attempt_of id attempt_id r)
    → find (attempt_of id attempt_id) attempts ≡ some a
    → (p a ≡ true → (f a).lease_expires_at ≡ a.lease_expires_at)
    → (b : Attempt) × (find (attempt_of id attempt_id) (update p f attempts) ≡ some b)
      × (b.lease_expires_at ≡ a.lease_expires_at)
lease_stays p f attempts id attempt_id a keep e same = elim (Bool-cases (p a)) [
  | inl hit ↦ (f a, find-update _ p f attempts keep ∙ rw (e, hit), same hit)
  | inr miss ↦ (a, find-update _ p f attempts keep ∙ rw (e, miss), refl)
]

-- Two rows that are found for attempts of one id are the same row.
pub same_attempt :
    (attempts : List Attempt) (p q : Attempt → Bool) (a b : Attempt)
    → Distinct (λ x. x.attempt_id) attempts
    → find p attempts ≡ some a
    → find q attempts ≡ some b
    → a.attempt_id ≡ b.attempt_id
    → a ≡ b
same_attempt attempts p q a b keys ea eb same =
    let first : find (λ x. x.attempt_id == a.attempt_id) attempts ≡ some a =
      find-Distinct (λ x. x.attempt_id) p attempts a keys ea in
    let second : find (λ x. x.attempt_id == b.attempt_id) attempts ≡ some b =
      find-Distinct (λ x. x.attempt_id) q attempts b keys eb in
    Option.some-injective a b (sym first ∙ rw same second)

-- No UPDATE of the attempts touches a lease that ran out: a renewal is of another attempt.
pub renewal_is_other :
    (since now until id attempt_id other_job other_attempt : ℕ) (attempts : List Attempt)
    (a b : Attempt)
    → Distinct (λ x. x.attempt_id) attempts
    → find (attempt_of id attempt_id) attempts ≡ some a
    → find (attempt_of other_job other_attempt) attempts ≡ some b
    → a.lease_expires_at < since
    → since ≤ now
    → now ≤ b.lease_expires_at
    → attempt_is b.attempt_id a ≡ true
    → (extend until a).lease_expires_at ≡ a.lease_expires_at
renewal_is_other since now until id attempt_id other_job other_attempt attempts a b keys ea eb over
      late live hit =
    let same : a ≡ b =
      same_attempt attempts _ _ a b keys ea eb ((==_iff a.attempt_id b.attempt_id).0 hit) in
    absurd (omega (arith, ap (λ (x : Attempt). x.lease_expires_at) same))

pub attempt_row-some :
    (db : Db) (id attempt_id : ℕ)
    → attempt_row db id (some attempt_id) ≡ find (attempt_of id attempt_id) db.attempts
unfolding attempt_row
attempt_row-some db id attempt_id = refl

-- A result cannot come for such a job: it would have to come in time.
pub result_is_other :
    (db : Db) (since now id worker attempt_id id' : ℕ) (row : Job) (b : Attempt)
    (u : IsUnconfirmed since id worker attempt_id db)
    → since ≤ now
    → now ≤ b.lease_expires_at
    → find (job_is id') db.jobs ≡ some row
    → attempt_row db id' row.attempt_id ≡ some b
    → (u.job.job_id == row.job_id) ≡ false
result_is_other db since now id worker attempt_id id' row b u late live er eb =
    elim (Bool-cases (u.job.job_id == row.job_id)) [
      | inr other ↦ other
      | inl hit ↦
          let same_id : id' ≡ id =
            sym (row_id id' db.jobs row er)
            ∙ sym ((==_iff u.job.job_id row.job_id).0 hit)
            ∙ row_id id db.jobs u.job u.found in
          let same : row ≡ u.job = Option.some-injective row u.job (sym er ∙ rw same_id u.found) in
          let its : attempt_row db id (some attempt_id) ≡ some b =
            cc (eb, same_id, u.attempted, ap (λ (x : Job). x.attempt_id) same) in
          let one : u.attempt ≡ b =
            Option.some-injective u.attempt b
              (sym u.its_attempt ∙ sym (attempt_row-some db id attempt_id) ∙ its) in
          absurd (omega (arith, u.over, ap (λ (x : Attempt). x.lease_expires_at) one))
    ]

pub IsUnconfirmed-of :
    (since id worker attempt_id : ℕ) (db : Db) (a : Attempt)
    → Leaves id worker attempt_id db.jobs
    → (b : Attempt) × (find (attempt_of id attempt_id) db.attempts ≡ some b)
      × (b.lease_expires_at ≡ a.lease_expires_at)
    → a.lease_expires_at < since
    → IsUnconfirmed since id worker attempt_id db
IsUnconfirmed-of since id worker attempt_id db a (j, e, s, w, n) (b, eb, same) over = record {
  job = j;
  attempt = b;
  found = e;
  asked = s;
  assigned = w;
  attempted = n;
  its_attempt = eb;
  over = omega arith;
}
