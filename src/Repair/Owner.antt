-- ===== src/Repair/Owner.antt =====
-- Only what the owner wrote comes into the store, and the store stays within its bounds.
use Prim.Native.String.{String}
use ephy_worker.Prelude.{
  ℕ, ◌+◌, ◌≤◌, ◌≡◌, refl, subst, sym, Bool, List, [], ◌∷◌, length, length-append, All, arith,
}
use ephy_worker.Prelude.Table.{update, insert, All-update, All-insert}
use ephy_worker.Repair.Rows.{Identity, Intake, RepairJob, Store, empty_store, Field}
use ephy_worker.Repair.Intakes.{new_intake, hold_intake, update_intake, change_intake, mark_receipt}
use ephy_worker.Repair.Jobs.{new_repair, job_is, set_stage}
use ephy_worker.Repair.Outbox.{notify, claim_delivery, delivered}
use ephy_worker.Repair.Machine.{
  Call, captures, holds, marks, updates, enqueues, transitions, notifies, finishes, claims,
  delivers, perform, run,
}
use ephy_worker.Repair.Writes.{
  IsAccepted, after-capture_intake, after-enqueue, after-claim_intake, after-transition,
  after-finish, after-delivered,
}

abbrev pub intake_identity : Intake → Identity
intake_identity i = record {
  guild_id = i.guild;
  channel_id = i.channel;
  message_id = i.message;
  author_id = i.author;
}

abbrev pub job_identity : RepairJob → Identity
job_identity j = record {
  guild_id = j.guild;
  channel_id = j.channel;
  message_id = j.message;
  author_id = j.author;
}

-- Every row of a request is one that the owner could make.
pub record IsOwned (s : Store) : Type 0 where
  pub intakes : All (λ i. IsAccepted (intake_identity i) i.text) s.intakes
  pub jobs : All (λ j. IsAccepted (job_identity j) j.text) s.jobs
  pub few_intakes : length s.intakes ≤ 10000
  pub few_jobs : length s.jobs ≤ 10000

length-update :
    {A : Type 0} (q : A → Bool) (f : A → A) (rs : List A) → length (update q f rs) ≡ length rs
unfolding update
length-update q f [] = refl
length-update q f (r ∷ rs) = omega (arith, length-update q f rs)

length-insert : {A : Type 0} (r : A) (rs : List A) → length (insert r rs) ≡ length rs + 1
unfolding insert
length-insert r rs = length-append rs (r ∷ [])

-- An UPDATE of intakes or of jobs that leaves what the request said.
update_intakes :
    (q : Intake → Bool) (f : Intake → Intake) (s : Store)
    → ((i : Intake)
        → IsAccepted (intake_identity i) i.text
        → IsAccepted (intake_identity (f i)) (f i).text)
    → IsOwned s
    → IsOwned (record s { intakes = update q f s.intakes })
update_intakes q f s keeps h = record {
  intakes =
      All-update (λ i. IsAccepted (intake_identity i) i.text) q f s.intakes (λ i _ k. keeps i k)
        h.intakes;
  jobs = h.jobs;
  few_intakes = omega (arith, h.few_intakes, length-update q f s.intakes);
  few_jobs = h.few_jobs;
}

update_jobs :
    (id stage : String) (fields : List Field) (now : ℕ) (s : Store)
    → IsOwned s
    → IsOwned (record s { jobs = update (job_is id) (set_stage stage fields now) s.jobs })
unfolding set_stage
update_jobs id stage fields now s h = record {
  intakes = h.intakes;
  jobs =
      All-update (λ j. IsAccepted (job_identity j) j.text) (job_is id) (set_stage stage fields now)
        s.jobs (λ j _ k. k) h.jobs;
  few_intakes = h.few_intakes;
  few_jobs =
      omega (arith, h.few_jobs, length-update (job_is id) (set_stage stage fields now) s.jobs);
}

same_rows : (s s' : Store) → s'.intakes ≡ s.intakes → s'.jobs ≡ s.jobs → IsOwned s → IsOwned s'
same_rows s s' e e' h = record {
  intakes = subst (All (λ i. IsAccepted (intake_identity i) i.text)) (sym e) h.intakes;
  jobs = subst (All (λ j. IsAccepted (job_identity j) j.text)) (sym e') h.jobs;
  few_intakes = rw e h.few_intakes;
  few_jobs = rw e' h.few_jobs;
}

perform-IsOwned :
    (identify : Identity → String) (call : Call) (s : Store)
    → IsOwned s
    → IsOwned (perform identify call s)
unfolding perform hold_intake update_intake change_intake mark_receipt notify claim_delivery
    delivered new_intake new_repair
perform-IsOwned identify (captures who text previous context now) s h =
    after-capture_intake IsOwned identify who text previous context now s h (λ accepted _ room.
      record {
        intakes =
            All-insert (λ i. IsAccepted (intake_identity i) i.text)
              (new_intake (identify who) who text previous context now) s.intakes h.intakes
              accepted;
        jobs = h.jobs;
        few_intakes = omega (
          arith,
          room,
          length-insert (new_intake (identify who) who text previous context now) s.intakes,
        );
        few_jobs = h.few_jobs;
      })
perform-IsOwned identify (enqueues who text previous now) s h =
    after-enqueue IsOwned identify who text previous now s h (λ accepted _ room. record {
      intakes = h.intakes;
      jobs =
          All-insert (λ j. IsAccepted (job_identity j) j.text)
            (new_repair (identify who) who text previous now) s.jobs h.jobs accepted;
      few_intakes = h.few_intakes;
      few_jobs =
          omega
            (arith, room, length-insert (new_repair (identify who) who text previous now) s.jobs);
    })
perform-IsOwned identify (holds alive id consumer) s h =
    after-claim_intake IsOwned alive id consumer s h (update_intakes _ _ s (λ i k. k) h)
perform-IsOwned identify (marks id) s h = update_intakes _ _ s (λ i k. k) h
perform-IsOwned identify (updates id consumer route receipt finished release) s h =
    update_intakes _ _ s (λ i k. k) h
perform-IsOwned identify (transitions id stage fields now) s h =
    after-transition IsOwned id stage fields now s h (update_jobs id stage fields now s h)
perform-IsOwned identify (notifies id parts) s h = same_rows s _ refl refl h
perform-IsOwned identify (finishes id stage parts fields now) s h =
    after-finish IsOwned id stage parts fields now s h (
      same_rows (record s { jobs = update (job_is id) (set_stage stage fields now) s.jobs }) _ refl
        refl (update_jobs id stage fields now s h))
perform-IsOwned identify (claims id ordinal) s h = same_rows s _ refl refl h
perform-IsOwned identify (delivers id ordinal message_id) s h =
    after-delivered IsOwned id ordinal message_id s h (same_rows s _ refl refl h)

run-IsOwned :
    (identify : Identity → String) (calls : List Call) (s : Store)
    → IsOwned s
    → IsOwned (run identify calls s)
unfolding run
run-IsOwned identify [] s h = h
run-IsOwned identify (call ∷ calls) s h =
    run-IsOwned identify calls (perform identify call s) (perform-IsOwned identify call s h)

-- Whatever calls an empty store receives, every intake and every job in it names the owner as its author
-- and numbers from 1 to 2 ** 64 - 1 as its guild, channel and message, has a text that is neither blank
-- nor longer than 4000 characters, and there are no more than 10000 of each.
pub all-IsOwned :
    (identify : Identity → String) (calls : List Call) → IsOwned (run identify calls empty_store)
all-IsOwned identify calls =
    run-IsOwned identify calls empty_store
      (record { intakes = tt; jobs = tt; few_intakes = omega arith; few_jobs = omega arith })
