-- ===== src/Manager/Endings.antt =====
-- The end of an attempt: who may report it, what is stored, and what a second report gets.
use ephy_worker.Prelude.{
  ℕ, String, ◌↔◌, ◌≡◌, ◌≢◌, ◌≤◌, refl, sym, ◌∙◌, ap, true, none, some, Option, arith, ==_refl,
  is_some,
}
use ephy_worker.Prelude.Table.{find, find-update}
use ephy_worker.Contract.Result.{ResultEnvelope, ResultEnvelope-discrete}
use ephy_worker.Manager.Tables.{
  Db, Config, Job, Attempt, ok, err, refused, result_conflict, job_is, job_row, attempt_is,
}
use ephy_worker.Manager.Workers.{check_worker_credential}
use ephy_worker.Manager.Lease.{attempt_row, attempt_of, holds_lease}
use ephy_worker.Manager.Finalization.{
  finalize, finalize_active, finalize_again, decided, same_result, record_result, finish_job,
  finish_attempt, check_result, outcome_state,
}
use ephy_worker.Manager.Lifecycle.{row_id}

-- The inversion of `finalize` at an attempt that has no result yet.
record IsFirst (c : Config) (now checked ended id worker_id : ℕ) (credential : String) (token : ℕ)
    (r : ResultEnvelope) (row : Job) (a : Attempt) (db db' : Db) (row' : Job) : Type 0 where
  credential_fits : check_worker_credential c worker_id credential ≡ ok tt
  holder : holds_lease a worker_id token ≡ true
  checks : check_result now checked row a r ≡ ok tt
  state_follows : outcome_state row.state r.status ≡ ok row'.state
  row_after : row' ≡ finish_job row'.state r row
  db_after : db' ≡ record_result ended row a row'.state r db

finalize-IsFirst :
    (c : Config) (now checked ended id worker_id : ℕ) (credential : String) (token : ℕ)
    (r : ResultEnvelope) (row row' : Job) (a : Attempt) (db db' : Db)
    → job_row db id ≡ some row
    → attempt_row db id row.attempt_id ≡ some a
    → a.finalized_at ≡ none
    → finalize c now checked ended id worker_id credential token r db ≡ ok (db', row')
    → IsFirst c now checked ended id worker_id credential token r row a db db' row'
unfolding finalize finalize_active finish_job
finalize-IsFirst c now checked ended id worker_id credential token r row row' a db db' er ea new e =
    ground arith

-- The row that the writes leave, and the attempt with its end.
stored_row :
    (id : ℕ) (db db' : Db) (row row' : Job) (a : Attempt) (r : ResultEnvelope) (ended : ℕ)
    → job_row db id ≡ some row
    → row' ≡ finish_job row'.state r row
    → db' ≡ record_result ended row a row'.state r db
    → job_row db' id ≡ some row'
unfolding record_result
stored_row id db db' row row' a r ended er after stored =
    ap (λ (x : Db). job_row x id) stored
    ∙ find-update (job_is id) (job_is row.job_id) (finish_job row'.state r) db.jobs
        (λ x. unfold finish_job in refl)
    ∙ rw er (rw (==_refl row.job_id) (ap some (sym after)))

stored_attempt :
    (id n : ℕ) (db db' : Db) (row row' : Job) (a : Attempt) (r : ResultEnvelope) (ended : ℕ)
    → find (attempt_of id n) db.attempts ≡ some a
    → db' ≡ record_result ended row a row'.state r db
    → find (attempt_of id n) db'.attempts ≡ some (finish_attempt ended a)
unfolding record_result
stored_attempt id n db db' row row' a r ended ea stored =
    ap (λ (x : Db). find (attempt_of id n) x.attempts) stored
    ∙ find-update (attempt_of id n) (attempt_is a.attempt_id) (finish_attempt ended) db.attempts
        (λ x. unfold finish_attempt in refl)
    ∙ rw ea (rw (==_refl a.attempt_id))

-- A first result is taken only from the holder of the attempt's lease, before the lease runs out
-- and for this job and attempt. The job then has the state that its old state and the result's
-- status give, and the result is in its row.
pub finalize_is_sound :
    (c : Config) (now checked ended id worker_id : ℕ) (credential : String) (token : ℕ)
    (r : ResultEnvelope) (row row' : Job) (a : Attempt) (db db' : Db)
    → job_row db id ≡ some row
    → attempt_row db id row.attempt_id ≡ some a
    → a.finalized_at ≡ none
    → finalize c now checked ended id worker_id credential token r db ≡ ok (db', row')
    → (a.worker_id ≡ worker_id)
      × (a.lease_token ≡ token)
      × (now ≤ a.lease_expires_at)
      × (r.job_id ≡ id)
      × (r.attempt_id ≡ a.attempt_id)
      × (outcome_state row.state r.status ≡ ok row'.state)
      × (row'.result ≡ some r)
      × (job_row db' id ≡ some row')
unfolding holds_lease check_result
finalize_is_sound c now checked ended id worker_id credential token r row row' a db db' er ea new
      e =
    let f =
      finalize-IsFirst c now checked ended id worker_id credential token r row row' a db db' er ea
        new e in
    (
      ground (arith, f.holder),
      ground (arith, f.holder),
      ground (arith, f.checks),
      ground (arith, f.checks, row_id id db.jobs row er),
      ground (arith, f.checks),
      f.state_follows,
      rw f.row_after (unfold finish_job in refl),
      stored_row id db db' row row' a r ended er f.row_after f.db_after,
    )

decided_lem {ℓ} : {A : Type ℓ} (d : Dec A) → (decided d ≡ true) ↔ A
decided_lem (yes p) = (λ _. p, λ _. refl)
decided_lem (no p) = (λ e. cc, λ q. absurd (p q))

same_result_lem : (r s : ResultEnvelope) → (same_result (some r) s ≡ true) ↔ (r ≡ s)
unfolding same_result
same_result_lem r s = decided_lem (ResultEnvelope-discrete r s)

attempt_after :
    (id : ℕ) (o : Option ℕ) (db db' : Db) (row row' : Job) (a : Attempt) (r : ResultEnvelope)
    (ended : ℕ)
    → attempt_row db id o ≡ some a
    → db' ≡ record_result ended row a row'.state r db
    → attempt_row db' id o ≡ some (finish_attempt ended a)
unfolding attempt_row
attempt_after id none db db' row row' a r ended ea stored = cc
attempt_after id (some n) db db' row row' a r ended ea stored =
    stored_attempt id n db db' row row' a r ended ea stored

finished_facts :
    (ended worker_id token : ℕ) (a : Attempt)
    → holds_lease a worker_id token ≡ true
    → (holds_lease (finish_attempt ended a) worker_id token ≡ true)
      × (is_some (finish_attempt ended a).finalized_at ≡ true)
unfolding holds_lease finish_attempt
finished_facts ended worker_id token a h = (h, refl)

-- After a first result has been taken, the same result again is answered with the same row and
-- stores nothing, and any other result from that worker is a conflict.
pub finalize_again_lem :
    (c : Config) (now checked ended id worker_id : ℕ) (credential : String) (token : ℕ)
    (r : ResultEnvelope) (row row' : Job) (a : Attempt) (db db' : Db)
    → job_row db id ≡ some row
    → attempt_row db id row.attempt_id ≡ some a
    → a.finalized_at ≡ none
    → finalize c now checked ended id worker_id credential token r db ≡ ok (db', row')
    → (now' checked' ended' : ℕ) (s : ResultEnvelope)
    → ((r ≡ s)
        → finalize c now' checked' ended' id worker_id credential token s db' ≡ ok (db', row'))
      × ((r ≢ s)
          → finalize c now' checked' ended' id worker_id credential token s db'
            ≡ err (refused result_conflict 409))
unfolding finalize finalize_again
finalize_again_lem c now checked ended id worker_id credential token r row row' a db db' er ea new e
      now' checked' ended' s =
    let f =
      finalize-IsFirst c now checked ended id worker_id credential token r row row' a db db' er ea
        new e in
    let there = stored_row id db db' row row' a r ended er f.row_after f.db_after in
    let its : attempt_row db' id row'.attempt_id ≡ some (finish_attempt ended a) = rw f.row_after (
      unfold finish_job in
      attempt_after id row.attempt_id db db' row row' a r ended ea f.db_after) in
    let kept : row'.result ≡ some r = rw f.row_after (unfold finish_job in refl) in
    let over = finished_facts ended worker_id token a f.holder in
    (
      λ same.
          ground (arith, f.credential_fits, there, its, over, kept, (same_result_lem r s).1 same),
      λ other. ground (arith, f.credential_fits, there, its, over, kept, same_result_lem r s),
    )
