-- ===== src/Manager/Idempotence.antt =====
-- Submitting and finalizing again: what the second call of a pair answers.
use text.Mathlib.TextPositions.{eq_refl}
use ephy_worker.Prelude.{
  ℕ, ◌≡◌, false, some, arith, inl, inr, ◌==◌, Bool, if◌then◌else◌, Option-cases,
}
use ephy_worker.Prelude.Table.{find, find-insert-none}
use ephy_worker.Contract.Input.{SubmitJob, contract_version}
use ephy_worker.Manager.Tables.{Db, Config, Job, ok, err, refused, submit_key_conflict}
use ephy_worker.Manager.Submission.{submit, new_job, key_is}

-- What a submission that is accepted leaves under its key.
submit_stores :
    (c : Config) (checked now id : ℕ) (s : SubmitJob) (db db' : Db) (row : Job) (fresh : Bool)
    → submit c checked now id s db ≡ ok (db', row, fresh)
    → (find (key_is s.submit_key) db'.jobs ≡ some row)
      × (row.input_hash ≡ c.input_hash s.input)
      × (s.contract ≡ contract_version)
unfolding submit new_job
submit_stores c checked now id s db db' row fresh e =
    elim (Option-cases (find (key_is s.submit_key) db.jobs)) [
      | inl new ↦ ground (
        arith,
        find-insert-none (key_is s.submit_key) (new_job c now id s) db.jobs new,
        eq_refl s.submit_key,
      )
      | inr (old, e') ↦ ground arith
    ]

-- Submission is idempotent in its key. After an accepted submission a second one under the same
-- key is answered from the table, and stores nothing: with the row of the first and "not created"
-- if its input has the same hash, and with a conflict if it has another.
pub submit_again :
    (c : Config) (checked now id checked' now' id' : ℕ) (s s' : SubmitJob) (db db' : Db) (row : Job)
    (created : Bool)
    → submit c checked now id s db ≡ ok (db', row, created)
    → s'.submit_key ≡ s.submit_key
    → s'.contract ≡ contract_version
    → submit c checked' now' id' s' db' ≡ (
        if c.input_hash s.input == c.input_hash s'.input
        then ok (db', row, false)
        else err (refused submit_key_conflict 409))
unfolding submit
submit_again c checked now id checked' now' id' s s' db db' row created e same version =
    let (there, hash, _) = submit_stores c checked now id s db db' row created e in
    let there' : find (key_is s'.submit_key) db'.jobs ≡ some row = rw same there in
    ground (arith, there', hash, version)
