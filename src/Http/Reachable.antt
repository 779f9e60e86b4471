-- ===== src/Http/Reachable.antt =====
-- The HTTP layer changes the database by the manager's calls alone.
use ephy_worker.Prelude.{
  ℕ, length, ltb, ◌||◌, ◌==◌, String, ◌≡◌, refl, sym, subst, true, Bool, Bool-cases, inl, inr, none,
  some, List, Option, Option-cases,
}
use ephy_worker.Prelude.Table.{find}
use ephy_worker.Contract.Input.{SubmitJob, submit_valid, WorkerRegistration, registration_valid}
use ephy_worker.Contract.Result.{ArtifactRef}
use ephy_worker.Manager.Tables.{Result-cases, is_terminal, Db, Job, Result, ok, err, attempt_is}
use ephy_worker.Manager.Lease.{LeaseState, renew_lease}
use ephy_worker.Manager.Artifacts.{add_artifact}
use ephy_worker.Manager.Run.{
  register, submits, retries, claims, renews, cancels, finalizes, uploads, downloads, views,
  results, deletes, perform, after, after_submit, IsNew, Reach, next,
}
use ephy_worker.Manager.Sweeper.{JobView, job_result}
use ephy_worker.Manager.Workers.{check_worker_credential}
use ephy_worker.Http.Replies.{
  HttpConfig, Reply, Decoded, decoded, not_json, not_valid, Answer, worker_answer, job_answer,
  view_answer, deleted, claimed, uploaded, answer, answer_read, answer_submit, with_json, with_body,
  with_decoded, read_body, is_requester,
}
use ephy_worker.Http.Handlers.{
  Request, Caller, handle, submit_job, retry_job, get_job, cancel_job, get_result, remove_job,
  download_artifact, register_worker, claim_job, renew, finalize_job, upload_artifact, as_requester,
  as_worker, get_result_of, result_reply, lease_reply, upload, store_upload, UploadHeaders,
  with_length, document_of,
}

-- What the validators let through is valid.
pub record Validates (h : HttpConfig) : Type 0 where
  pub submissions :
      (content : List ℕ) (s : SubmitJob)
      → h.decode_submit content ≡ decoded s
      → submit_valid s ≡ true
  pub registrations :
      (content : List ℕ) (r : WorkerRegistration)
      → h.decode_registration content ≡ decoded r
      → registration_valid r ≡ true

-- The uuids that the request draws are new.
abbrev pub IsFresh : Request → Db → Type 0
IsFresh (submit_job provided checked now id chunks) db = IsNew id db
IsFresh (retry_job provided asked checked now id job_id chunks) db = IsNew id db
IsFresh (claim_job w seen now id token) db = find (attempt_is id) db.attempts ≡ none
IsFresh _ db = Unit

answer_lem :
    {A B : Type 0} (status : ℕ) (body : A → B) (db : Db) (r : Result (Db × A))
    → (answer status body db r).0 ≡ after db r
unfolding answer
answer_lem status body db (ok (db', a)) = refl
answer_lem status body db (err e) = refl

answer_submit_lem :
    (db : Db) (r : Result (Db × Job × Bool)) → (answer_submit db r).0 ≡ after_submit db r
unfolding answer_submit
answer_submit_lem db (ok (db', row, created)) = refl
answer_submit_lem db (err e) = refl

answer_read_lem : {A B : Type 0} (body : A → B) (r : Db × Result A) → (answer_read body r).0 ≡ r.0
unfolding answer_read
answer_read_lem body (db, ok a) = refl
answer_read_lem body (db, err e) = refl

lease_reply_lem : (db : Db) (r : Result (Db × LeaseState)) → (lease_reply db r).0 ≡ after db r
unfolding lease_reply
lease_reply_lem db (ok (db', info)) = refl
lease_reply_lem db (err e) = refl

get_result_of_lem :
    (first second job_id : ℕ) (r : Db × Result JobView) (P : Db → Type 0)
    → P r.0
    → P (job_result first second job_id r.0).0
    → P (get_result_of first second job_id r).0
unfolding get_result_of result_reply
get_result_of_lem first second job_id (db, err e) P viewed read = viewed
get_result_of_lem first second job_id (db, ok view) P viewed read =
    elim (Bool-cases (is_terminal view.row.state)) [
      | inl over ↦ rw over read
      | inr running ↦ rw running viewed
    ]

-- The guards of a handler leave the database alone where they refuse.
module _ (P : Db → Type 0) (h : HttpConfig) (db : Db) (here : P db) where
  as_requester_lem :
      (provided : String) (go : Db × Reply Answer) → P go.0 → P (as_requester h provided db go).0
  unfolding as_requester
  as_requester_lem provided go there = elim (Bool-cases (is_requester h provided)) [
    | inl known ↦ rw known there
    | inr unknown ↦ rw unknown here
  ]

  as_worker_lem : (w : Caller) (go : Db × Reply Answer) → P go.0 → P (as_worker h w db go).0
  unfolding as_worker
  as_worker_lem w go there =
      elim (Result-cases (check_worker_credential h.config w.worker_id w.credential)) [
        | inl known ↦ rw (as_worker, known.1) there
        | inr unknown ↦ rw (as_worker, unknown.1) here
      ]

  with_decoded_lem :
      {A : Type 0} (d : Decoded A) (go : A → Db × Reply Answer)
      → ((a : A) → d ≡ decoded a → P (go a).0)
      → P (with_decoded d db go).0
  unfolding with_decoded
  with_decoded_lem (decoded a) go there = there a refl
  with_decoded_lem not_json go there = here
  with_decoded_lem not_valid go there = here

  with_body_lem :
      (content : Option (List ℕ)) (go : List ℕ → Db × Reply Answer)
      → ((data' : List ℕ) → P (go data').0)
      → P (with_body content db go).0
  unfolding with_body
  with_body_lem none go there = here
  with_body_lem (some content) go there = there content

  with_json_lem :
      {A : Type 0} (max_bytes : ℕ) (chunks : List (List ℕ)) (decode : List ℕ → Decoded A)
      (go : A → Db × Reply Answer)
      → ((content : List ℕ) (a : A) → decode content ≡ decoded a → P (go a).0)
      → P (with_json max_bytes chunks decode db go).0
  unfolding with_json
  with_json_lem max_bytes chunks decode go there =
      with_body_lem (read_body max_bytes chunks) (λ content. with_decoded (decode content) db go)
        λ content. with_decoded_lem (decode content) go (there content)

  store_upload_lem :
      (w : Caller) (now job_id declared : ℕ) (ref : Option ArtifactRef) (content : List ℕ)
      → ((r : ArtifactRef)
          → P (
              after db (
                add_artifact h.config now job_id w.worker_id w.credential w.attempt_id w.lease_token
                  r content db)))
      → P (store_upload h w now job_id declared ref db content).0
  unfolding store_upload
  store_upload_lem w now job_id declared ref content there =
      elim (Bool-cases (length content == declared)) [
        | inr other ↦ rw other here
        | inl same ↦ elim (Option-cases ref) [
          | inl bad ↦ rw (same, bad) here
          | inr (r, good) ↦
              rw (same, good)
                (subst P (sym (answer_lem 201 uploaded db _)) (there (with_length content r)))
        ]
      ]

  upload_lem :
      (w : Caller) (now job_id : ℕ) (headers : UploadHeaders) (chunks : List (List ℕ))
      → ((r : ArtifactRef) (content : List ℕ)
          → P (
              after db (
                add_artifact h.config now job_id w.worker_id w.credential w.attempt_id w.lease_token
                  r content db)))
      → P (upload h w now job_id headers chunks db).0
  unfolding upload
  upload_lem w now job_id headers chunks there = elim (Option-cases headers.declared_bytes) [
    | inl bad ↦ rw bad here
    | inr (n, good) ↦ elim (Bool-cases (ltb n 1 || ltb h.artifact_limit n)) [
      | inl out ↦ rw (good, out) here
      | inr fine ↦
          rw (good, fine)
            (with_body_lem (read_body h.artifact_limit chunks)
              (store_upload h w now job_id n headers.ref db)
              λ content. store_upload_lem w now job_id n headers.ref content λ r. there r content)
    ]
  ]

-- Every request, whatever its credentials and its body, takes a reachable database to a reachable
-- one, if the validators let valid values through and drawn ids are new. So what holds of every
-- reachable database holds behind the HTTP layer.
pub handle-Reach :
    (h : HttpConfig) (request : Request) (db : Db)
    → Validates h
    → IsFresh request db
    → Reach h.config db
    → Reach h.config (handle h request db).0
unfolding handle perform
handle-Reach h (submit_job provided checked now id chunks) db v fresh r =
    as_requester_lem (Reach h.config) h db r provided _ (
      with_json_lem (Reach h.config) h db r 262144 chunks h.decode_submit _ λ content s e.
        subst (Reach h.config) (sym (answer_submit_lem db _))
          (next r (submits checked now id s) (v.submissions content s e, fresh)))
handle-Reach h (retry_job provided asked checked now id job_id chunks) db v fresh r =
    as_requester_lem (Reach h.config) h db r provided _ (
      with_json_lem (Reach h.config) h db r 65536 chunks h.decode_key _ λ content key e.
        subst (Reach h.config) (sym (answer_submit_lem db _))
          (next r (retries asked checked now id job_id key) fresh))
handle-Reach h (get_job provided expiring now job_id) db v fresh r =
    as_requester_lem (Reach h.config) h db r provided _ (
      subst (Reach h.config) (sym (answer_read_lem view_answer _))
        (next r (views expiring now job_id) tt))
handle-Reach h (cancel_job provided job_id) db v fresh r =
    as_requester_lem (Reach h.config) h db r provided _
      (subst (Reach h.config) (sym (answer_lem 200 job_answer db _)) (next r (cancels job_id) tt))
handle-Reach h (get_result provided expiring now first second job_id) db v fresh r =
    let viewed = next r (views expiring now job_id) tt in
    as_requester_lem (Reach h.config) h db r provided _ (
      get_result_of_lem first second job_id _ (Reach h.config) viewed
        (next viewed (results first second job_id) tt))
handle-Reach h (remove_job provided stays job_id) db v fresh r =
    as_requester_lem (Reach h.config) h db r provided _ (
      subst (Reach h.config) (sym (answer_lem 202 deleted db _)) (next r (deletes stays job_id) tt))
handle-Reach h (download_artifact provided now job_id artifact_id) db v fresh r =
    as_requester_lem (Reach h.config) h db r provided _ (
      subst (Reach h.config) (sym (answer_read_lem document_of _))
        (next r (downloads now job_id artifact_id) tt))
handle-Reach h (register_worker w now chunks) db v fresh r =
    with_json_lem (Reach h.config) h db r 1048576 chunks h.decode_registration _ λ content reg e.
      as_worker_lem (Reach h.config) h db r w _ (
        subst (Reach h.config) (sym (answer_lem 200 worker_answer db _))
          (next r (register w.worker_id w.credential reg now) (v.registrations content reg e)))
handle-Reach h (claim_job w seen now id token) db v fresh r =
    as_worker_lem (Reach h.config) h db r w _ (
      subst (Reach h.config) (sym (answer_lem 200 claimed db _))
        (next r (claims w.worker_id w.credential seen now id token) fresh))
handle-Reach h (renew w now job_id) db v fresh r = as_worker_lem (Reach h.config) h db r w _ (
    subst (Reach h.config)
      (sym (
        lease_reply_lem db
          (renew_lease h.config now job_id w.worker_id w.credential w.attempt_id w.lease_token db)))
      (next r (renews now job_id w.worker_id w.credential w.attempt_id w.lease_token) tt))
handle-Reach h (finalize_job w now checked ended job_id chunks) db v fresh r =
    as_worker_lem (Reach h.config) h db r w _ (
      with_json_lem (Reach h.config) h db r 8388608 chunks h.decode_result _ λ content res e.
        subst (Reach h.config) (sym (answer_lem 200 job_answer db _)) (
          next r (finalizes now checked ended job_id w.worker_id w.credential w.lease_token res)
            tt))
handle-Reach h (upload_artifact w now job_id headers chunks) db v fresh r =
    as_worker_lem (Reach h.config) h db r w _ (
      upload_lem (Reach h.config) h db r w now job_id headers chunks λ ref content.
        next r (uploads now job_id w.worker_id w.credential w.attempt_id w.lease_token ref content)
          tt)
