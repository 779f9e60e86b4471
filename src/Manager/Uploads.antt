-- ===== src/Manager/Uploads.antt =====
-- Uploads and renewals: what an accepted one satisfies.
use ephy_worker.Prelude.{
  ℕ, ◌+◌, String, ◌≡◌, ◌≢◌, ◌≤◌, true, false, none, some, List, [], ◌∷◌, All, arith, all, length,
  &&-eq-true,
}
use ephy_worker.Contract.Result.{ArtifactRef}
use ephy_worker.Manager.Tables.{Db, Config, Job, Attempt, State, ok, job_row, is_terminal}
use ephy_worker.Manager.Lease.{attempt_row, holds_lease, renew_lease, renew_active, renewed}
use ephy_worker.Manager.Artifacts.{
  codes, is_alphanumeric, is_name_char, matches_pattern, check_upload,
}

-- A code point that is no path separator and no NUL.
abbrev pub IsPlain : ℕ → Type 0
IsPlain ch = (ch ≢ 47) × (ch ≢ 92) × (ch ≢ 0)

name_char-IsPlain : (ch : ℕ) → is_name_char ch ≡ true → IsPlain ch
unfolding is_name_char is_alphanumeric
name_char-IsPlain ch h = (ground arith, ground arith, ground arith)

alphanumeric-IsPlain : (ch : ℕ) → is_alphanumeric ch ≡ true → IsPlain ch
unfolding is_alphanumeric
alphanumeric-IsPlain ch h = (ground arith, ground arith, ground arith)

all-IsPlain : (cs : List ℕ) → all is_name_char cs ≡ true → All IsPlain cs
all-IsPlain [] h = tt
all-IsPlain (ch ∷ cs) h =
    let (first, others) = &&-eq-true (is_name_char ch) _ h in
    (name_char-IsPlain ch first, all-IsPlain cs others)

pattern-IsPlain : (cs : List ℕ) → matches_pattern cs ≡ true → All IsPlain cs × (length cs ≤ 200)
unfolding matches_pattern
pattern-IsPlain [] h = (tt, omega arith)
pattern-IsPlain (ch ∷ cs) h =
    ((alphanumeric-IsPlain ch (ground arith), all-IsPlain cs (ground arith)), ground arith)

upload_checks :
    (c : Config) (ref : ArtifactRef) (content : List ℕ)
    → check_upload c ref content ≡ ok tt
    → (length content ≡ ref.bytes)
      × (c.sha256 content ≡ ref.sha256)
      × (matches_pattern (codes ref.name) ≡ true)
unfolding check_upload
upload_checks c ref content h = (ground arith, ground arith, ground arith)

-- An upload that is let through has the bytes and the digest of its reference, and a name of at most
-- 200 code points, none of which is a path separator (of either kind) or NUL.
pub check_upload_lem :
    (c : Config) (ref : ArtifactRef) (content : List ℕ)
    → check_upload c ref content ≡ ok tt
    → (length content ≡ ref.bytes)
      × (c.sha256 content ≡ ref.sha256)
      × All IsPlain (codes ref.name)
      × (length (codes ref.name) ≤ 200)
check_upload_lem c ref content h =
    let (size, digest, name) = upload_checks c ref content h in
    let (plain, short) = pattern-IsPlain (codes ref.name) name in (size, digest, plain, short)

-- A renewal that is granted is asked for by the holder of the job's current attempt, before its
-- lease has run out; the new lease ends at the deadline at the latest, and at most one lease time
-- from now. No job row changes.
renew_lease_lem :
    (c : Config) (now job_id worker_id : ℕ) (credential : String) (attempt_id token until : ℕ)
    (s : State) (db db' : Db) (row : Job) (a : Attempt)
    → job_row db job_id ≡ some row
    → attempt_row db job_id (some attempt_id) ≡ some a
    → renew_lease c now job_id worker_id credential attempt_id token db ≡ ok (db', renewed s until)
    → (a.worker_id ≡ worker_id)
      × (a.lease_token ≡ token)
      × (a.finalized_at ≡ none)
      × (row.attempt_id ≡ some attempt_id)
      × (s ≡ row.state)
      × (is_terminal row.state ≡ false)
      × (now ≤ a.lease_expires_at)
      × (until ≤ row.deadline_at)
      × (until ≤ now + c.lease_seconds)
      × (db'.jobs ≡ db.jobs)
unfolding renew_lease renew_active holds_lease
renew_lease_lem c now job_id worker_id credential attempt_id token until s db db' row a er ea e = (
  ground arith,
  ground arith,
  ground arith,
  ground arith,
  ground arith,
  ground arith,
  ground arith,
  ground arith,
  ground arith,
  ground arith,
)
