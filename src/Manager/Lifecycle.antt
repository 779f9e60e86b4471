-- ===== src/Manager/Lifecycle.antt =====
-- The life of a job: which states follow which (the `state` column of manager.py).
use mathlib.Core.Option
use ephy_worker.Prelude.{
  ℕ, ◌+◌, ◌≡◌, ◌≢◌, refl, sym, ◌∙◌, true, false, some, Option, List, [], ◌∷◌, ◌⊎◌, inl, inr, arith,
  ◌==◌, ==_iff, subst, Bool, Bool-cases, &&-eq-true, All,
}
use ephy_worker.Prelude.Table.{find, update, find-update, find-insert-some, find-delete, find-holds}
use ephy_worker.Manager.Tables.{
  Db, Config, Job, State, is_terminal, is_queued, is_running, job_is, job_row, ok,
}
use ephy_worker.Manager.Queue.{take_job, queued_job}
use ephy_worker.Manager.Lease.{cancel_job}
use ephy_worker.Manager.Retention.{forget, expire_job}
use ephy_worker.Contract.Result.{Status, ResultEnvelope}
use ephy_worker.Manager.Finalization.{finish_job, record_result, outcome_state}
use ephy_worker.Manager.Artifacts.{store_artifact}
use ephy_worker.Manager.Sweeper.{
  lose_lease, lose_deadline, has_lost_lease, missed_deadline, remove_job,
}
use ephy_worker.Manager.Run.{Call, perform, run, IsAdmissible}
use ephy_worker.Manager.Writes.{removal_of, perform-Write, IsSince-zero}
use ephy_worker.Manager.Writes.Cases.{
  Write, unchanged, also, workers_set, job_added, job_taken, lease_renewed, job_cancelled,
  job_finished, artifact_stored, job_forgotten, leases_lost, deadlines_missed, job_removed,
}

-- The edges of the diagram: contracts.py and the head of manager.py.
infix 40 ◌⟶◌ ◌⟶*◌
pub data ◌⟶◌ : State → State → Type 0 where
  claimed : State.queued ⟶ State.running
  cancelled_in_queue : State.queued ⟶ State.cancelled
  expired : State.queued ⟶ State.lost
  asked_to_stop : State.running ⟶ State.cancel_requested
  succeeded : State.running ⟶ State.completed
  succeeded_in_part : State.running ⟶ State.partial
  failed : State.running ⟶ State.failed
  lease_lost : State.running ⟶ State.lost
  stopped : State.cancel_requested ⟶ State.cancelled

pub data ◌⟶*◌ : State → State → Type 0 where
  here : {s : State} → s ⟶* s
  via : {s t u : State} → s ⟶ t → t ⟶* u → s ⟶* u

chain : {s t u : State} → s ⟶* t → t ⟶* u → s ⟶* u
chain here q = q
chain (via e p) q = via e (chain p q)

no_edge : {s t : State} → s ⟶ t → is_terminal s ≡ false
unfolding is_terminal
no_edge claimed = refl
no_edge cancelled_in_queue = refl
no_edge expired = refl
no_edge asked_to_stop = refl
no_edge succeeded = refl
no_edge succeeded_in_part = refl
no_edge failed = refl
no_edge lease_lost = refl
no_edge stopped = refl

pub terminal_is_last : {s t : State} → s ⟶* t → is_terminal s ≡ true → t ≡ s
terminal_is_last here h = refl
terminal_is_last (via e p) h = cc (no_edge e)

from_queued : (s t : State) → is_queued s ≡ true → State.queued ⟶ t → s ⟶* t
unfolding is_queued
from_queued State.queued t h e = via e here
from_queued _ t h e = cc

from_running : (s t : State) → is_running s ≡ true → State.running ⟶ t → s ⟶* t
unfolding is_running
from_running State.running t h e = via e here
from_running _ t h e = cc

-- An outcome follows by an edge.
outcome_edge : (s u t : State) → s ⟶ u → ok u ≡ ok t → s ⟶* t
outcome_edge s u t e p = subst (λ x. s ⟶* x) (cc) (via e here)

outcome-⟶ : (s t : State) (status : Status) → outcome_state s status ≡ ok t → s ⟶* t
unfolding outcome_state
outcome-⟶ State.running t Status.succeeded e = outcome_edge _ _ t succeeded e
outcome-⟶ State.running t Status.partial e = outcome_edge _ _ t succeeded_in_part e
outcome-⟶ State.running t Status.failed e = outcome_edge _ _ t failed e
outcome-⟶ State.cancel_requested t Status.cancelled e = outcome_edge _ _ t stopped e
outcome-⟶ State.running t Status.cancelled e = cc
outcome-⟶ _ t _ e = cc

-- After a write a job is there, further along the diagram, unless the call deletes it.
abbrev Follows : ℕ → Option ℕ → Job → Db → Type 0
Follows id removed j db =
    (removed ≡ some id) ⊎ ((j' : Job) × (job_row db id ≡ some j') × (j.state ⟶* j'.state))

-- An UPDATE that keeps the ids, at the row of one id.
follow_update :
    (q : Job → Bool) (f : Job → Job) (jobs : List Job) (id : ℕ) (j : Job)
    → ((r : Job) → (f r).job_id ≡ r.job_id)
    → find (job_is id) jobs ≡ some j
    → (q j ≡ true → j.state ⟶* (f j).state)
    → (j' : Job) × (find (job_is id) (update q f jobs) ≡ some j') × (j.state ⟶* j'.state)
follow_update q f jobs id j keep e move = elim (Bool-cases (q j)) [
  | inl hit ↦ (f j, find-update (job_is id) q f jobs (λ r. rw (keep r)) ∙ rw (e, hit), move hit)
  | inr miss ↦ (j, find-update (job_is id) q f jobs (λ r. rw (keep r)) ∙ rw (e, miss), here)
]

take_moves :
    (id worker attempt number : ℕ) (j : Job)
    → queued_job id j ≡ true
    → j.state ⟶* (take_job worker attempt number j).state
unfolding take_job
take_moves id worker attempt number j h =
    from_queued j.state _ (&&-eq-true (j.job_id == id) _ h).1 claimed

cancel_moves : (j : Job) → j.state ⟶* (cancel_job j).state
unfolding cancel_job
cancel_moves j = elim (Bool-cases (is_queued j.state)) [
  | inl hit ↦ rw hit (from_queued j.state _ hit cancelled_in_queue)
  | inr miss ↦ rw miss (elim (Bool-cases (is_running j.state)) [
    | inl hit ↦ rw hit (from_running j.state _ hit asked_to_stop)
    | inr miss' ↦ rw miss' here
  ])
]

lose_lease_moves :
    (now : ℕ) (db : Db) (j : Job) → has_lost_lease now db j ≡ true → j.state ⟶* (lose_lease j).state
unfolding has_lost_lease lose_lease
lose_lease_moves now db j h =
    from_running j.state _ (&&-eq-true (is_running j.state) _ h).0 lease_lost

lose_deadline_moves :
    (now : ℕ) (j : Job) → missed_deadline now j ≡ true → j.state ⟶* (lose_deadline j).state
unfolding missed_deadline lose_deadline
lose_deadline_moves now j h = from_queued j.state _ (&&-eq-true (is_queued j.state) _ h).0 expired

cancel_keeps_id : (j : Job) → (cancel_job j).job_id ≡ j.job_id
unfolding cancel_job
cancel_keeps_id j = ground arith

-- The row of an id is the one whose id it is.
pub row_id : (id : ℕ) (jobs : List Job) (j : Job) → find (job_is id) jobs ≡ some j → j.job_id ≡ id
row_id id jobs j e = (==_iff j.job_id id).0 (find-holds (job_is id) jobs j e)

finish_moves :
    (db : Db) (id id' : ℕ) (row j : Job) (state : State) (r : ResultEnvelope)
    → find (job_is id') db.jobs ≡ some row
    → outcome_state row.state r.status ≡ ok state
    → find (job_is id) db.jobs ≡ some j
    → job_is row.job_id j ≡ true
    → j.state ⟶* (finish_job state r j).state
unfolding finish_job
finish_moves db id id' row j state r er eo ej hit =
    let same : id ≡ id' =
      cc (row_id id' db.jobs row er, row_id id db.jobs j ej, (==_iff j.job_id row.job_id).0 hit) in
    let whole : row ≡ j = Option.some-injective row j (sym er ∙ rw (← same) ej) in
    subst (λ x. x.state ⟶* state) whole (outcome-⟶ row.state state r.status eo)

-- Every write moves a job along the diagram.
pub Write-Follows :
    {c : Config} {removed : Option ℕ} {since : ℕ} {db db' : Db} (id : ℕ) (j : Job)
    → Write c removed since db db'
    → job_row db id ≡ some j
    → Follows id removed j db'
unfolding forget expire_job store_artifact record_result remove_job take_job lose_lease
    lose_deadline finish_job
Write-Follows id j (unchanged db) e = inr (j, e, here)
Write-Follows id j (also w v) e = elim (Write-Follows id j w e) [
  | inl gone ↦ inl gone
  | inr (j', e', p) ↦ elim (Write-Follows id j' v e') [
    | inl gone ↦ inl gone
    | inr (j'', e'', q) ↦ inr (j'', e'', chain p q)
  ]
]
Write-Follows id j (workers_set db ws) e = inr (j, e, here)
Write-Follows id j (job_added db checked now new s valid fresh key parent) e =
    inr (j, find-insert-some _ _ _ j e, here)
Write-Follows id j (job_taken db seen now attempt token w t fresh can taken one) e = inr (
    follow_update _ _ db.jobs id j (λ r. refl) e
      (take_moves t.job_id w.worker_id attempt (t.attempt_number + 1) j))
Write-Follows id j (lease_renewed db job_id attempt now until a late found live) e =
    inr (j, e, here)
Write-Follows id j (job_cancelled db id') e =
    inr (follow_update _ _ db.jobs id j cancel_keeps_id e (λ _. cancel_moves j))
Write-Follows id j (job_finished db id' now ended row a state r late live er ea unfinished eo) e =
    inr
      (follow_update _ _ db.jobs id j (λ r. refl) e (finish_moves db id id' row j state r er eo e))
Write-Follows id j (artifact_stored db job a id' ref content ej up fresh room) e = inr (j, e, here)
Write-Follows id j (job_forgotten db id') e =
    inr (follow_update _ _ db.jobs id j (λ r. refl) e (λ _. here))
Write-Follows id j (leases_lost db now) e =
    inr (follow_update _ _ db.jobs id j (λ r. refl) e (lose_lease_moves now db j))
Write-Follows id j (deadlines_missed db now) e =
    inr (follow_update _ _ db.jobs id j (λ r. refl) e (lose_deadline_moves now j))
Write-Follows id j (job_removed db stays id' row er over gone) e = elim (Bool-cases (id' == id)) [
  | inl same ↦ inl (rw (← (==_iff id' id).0 same) gone)
  | inr other ↦ inr (
    j,
    find-delete (job_is id) (job_is id') db.jobs (λ r h. ground (arith, ==_iff r.job_id id)) ∙ e,
    here,
  )
]

-- Each call moves every job along the diagram, and only `delete_job` takes it away.
pub perform-Follows :
    (c : Config) (call : Call) (db : Db) (id : ℕ) (j : Job)
    → IsAdmissible call db
    → job_row db id ≡ some j
    → removal_of call ≢ some id
    → (j' : Job) × (job_row (perform c call db) id ≡ some j') × (j.state ⟶* j'.state)
perform-Follows c call db id j fine e keep =
    elim (Write-Follows id j (perform-Write c call db 0 fine (IsSince-zero call)) e) [
      | inl gone ↦ absurd (keep gone)
      | inr there ↦ there
    ]

-- Every call of the run is admissible where it is made.
abbrev pub AllAdmissible : Config → List Call → Db → Type 0
AllAdmissible c [] db = Unit
AllAdmissible c (call ∷ calls) db = IsAdmissible call db × AllAdmissible c calls (perform c call db)

abbrev pub NeverDeletes : ℕ → List Call → Type 0
NeverDeletes id calls = All (λ call. removal_of call ≢ some id) calls

-- In any run of calls, none of which deletes the job, its state goes along the diagram.
pub run_follows :
    (c : Config) (calls : List Call) (db : Db) (id : ℕ) (j : Job)
    → AllAdmissible c calls db
    → NeverDeletes id calls
    → job_row db id ≡ some j
    → (j' : Job) × (job_row (run c calls db) id ≡ some j') × (j.state ⟶* j'.state)
unfolding run
run_follows c [] db id j fine keep e = (j, e, here)
run_follows c (call ∷ calls) db id j fine keep e =
    let (j', e', p) = perform-Follows c call db id j fine.0 e keep.0 in
    let (j'', e'', q) = run_follows c calls (perform c call db) id j' fine.1 keep.1 e' in
    (j'', e'', chain p q)

-- In any run of calls, none of which deletes the job, a job that has ended is still there at the
-- end, in the state in which it ended.
pub run_keeps_ended :
    (c : Config) (calls : List Call) (db : Db) (id : ℕ) (j : Job)
    → AllAdmissible c calls db
    → NeverDeletes id calls
    → job_row db id ≡ some j
    → is_terminal j.state ≡ true
    → (j' : Job) × (job_row (run c calls db) id ≡ some j') × (j'.state ≡ j.state)
run_keeps_ended c calls db id j fine keep e over =
    let (j', e', p) = run_follows c calls db id j fine keep e in (j', e', terminal_is_last p over)
