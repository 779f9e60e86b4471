-- ===== src/Bridge/Machine.antt =====
-- The ledger as a machine: its calls in any order, and the ledgers that they reach.
use Prim.Native.String.{String}
use ephy_worker.Prelude.{ℕ, Bool, true, false, ◌≡◌, List, [], ◌∷◌, Option, some}
use ephy_worker.Bridge.Context.{Event, Outcome, done, failed, Context}
use ephy_worker.Bridge.Ledger.{
  Ledger, empty_ledger, open_ledger, enqueue, claim_next, inbox_update, claim, inbox_pending,
}
use ephy_worker.Bridge.Answers.{remember}

-- A call that may write, with what it reads from outside.
pub data Call : Type 0 where
  opens : Call
  enqueues : Event → String → Option String → Option String → Option String → Option Context → Call
  claims_next : (String → Bool) → String → Call
  updates : ℕ → Bool → Bool → Bool → Call
  claims : ℕ → Call
  remembers : ℕ → Event → String → Option Context → ℕ → Call

-- Where a method raises, nothing was written.
abbrev pub after {ℓ} : {A : Type ℓ} → Ledger → Outcome (Ledger × A) → Ledger
after l (done (l', a)) = l'
after l (failed code) = l

abbrev pub or_old : Ledger → Outcome Ledger → Ledger
or_old l (done l') = l'
or_old l (failed code) = l

unfoldable pub perform : Call → Ledger → Ledger
perform opens l = open_ledger l
perform (enqueues event question previous intake consumer context) l =
    after l (enqueue event question previous intake consumer context l)
perform (claims_next alive consumer) l = (claim_next alive consumer l).0
perform (updates message receipt finished release) l =
    inbox_update message receipt finished release l
perform (claims message) l = after l (claim message l)
perform (remembers answer_id event content context now) l =
    or_old l (remember answer_id event content context now l)

unfoldable pub run : List Call → Ledger → Ledger
run [] l = l
run (call ∷ calls) l = run calls (perform call l)

-- `recover_inbox` claims the message of a row that it has just taken, so one that is pending. A bridge
-- with a store for repairs also works on intakes of its own accord (`recover_intakes`), and then claims
-- messages of which the inbox has no row: there any message may be claimed.
abbrev pub IsAdmissible : Bool → Call → Ledger → Type 0
IsAdmissible has_repairs (claims message) l =
    has_repairs ≡ false → inbox_pending (some message) l ≡ true
IsAdmissible has_repairs _ l = Unit

pub data Reach (has_repairs : Bool) : Ledger → Type 0 where
  start : Reach has_repairs empty_ledger
  next :
      {l : Ledger}
      → Reach has_repairs l
      → (call : Call) → IsAdmissible has_repairs call l
      → Reach has_repairs (perform call l)
