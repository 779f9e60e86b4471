-- ===== src/Repair/Machine.antt =====
-- The store as a machine: its calls, in any order and from any process, each a transaction.
use Prim.Native.String.{String}
use ephy_worker.Prelude.{ℕ, Bool, List, [], ◌∷◌, Option}
use ephy_worker.Bridge.Context.{Context}
use ephy_worker.Repair.Rows.{Identity, Route, Field, Store, Outcome, done, failed}
use ephy_worker.Repair.Intakes.{capture_intake, claim_intake, update_intake, mark_receipt}
use ephy_worker.Repair.Jobs.{enqueue, transition}
use ephy_worker.Repair.Outbox.{notify, finish, claim_delivery, delivered}

-- A call that may write, with what it reads from outside.
pub data Call : Type 0 where
  captures : Identity → String → Option String → Option Context → ℕ → Call
  holds : (String → Bool) → String → String → Call
  marks : String → Call
  updates : String → String → Option Route → Bool → Bool → Bool → Call
  enqueues : Identity → String → Option String → ℕ → Call
  transitions : String → String → List Field → ℕ → Call
  notifies : String → List String → Call
  finishes : String → String → List String → List Field → ℕ → Call
  claims : String → ℕ → Call
  delivers : String → ℕ → ℕ → Call

-- Where a method raises, nothing was written.
abbrev pub after {ℓ} : {A : Type ℓ} → Store → Outcome (Store × A) → Store
after s (done (s', a)) = s'
after s (failed code) = s

abbrev pub or_old : Store → Outcome Store → Store
or_old s (done s') = s'
or_old s (failed code) = s

unfoldable pub perform : (Identity → String) → Call → Store → Store
perform identify (captures who text previous context now) s =
    after s (capture_intake identify who text previous context now s)
perform identify (holds alive id consumer) s = (claim_intake alive id consumer s).0
perform identify (marks id) s = mark_receipt id s
perform identify (updates id consumer route receipt finished release) s =
    update_intake id consumer route receipt finished release s
perform identify (enqueues who text previous now) s =
    after s (enqueue identify who text previous now s)
perform identify (transitions id stage fields now) s = or_old s (transition id stage fields now s)
perform identify (notifies id parts) s = notify id parts s
perform identify (finishes id stage parts fields now) s =
    or_old s (finish id stage parts fields now s)
perform identify (claims id ordinal) s = (claim_delivery id ordinal s).0
perform identify (delivers id ordinal message_id) s = or_old s (delivered id ordinal message_id s)

unfoldable pub run : (Identity → String) → List Call → Store → Store
run identify [] s = s
run identify (call ∷ calls) s = run identify calls (perform identify call s)
