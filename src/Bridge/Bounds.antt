-- ===== src/Bridge/Bounds.antt =====
-- The bounds of the ledger (discord_runtime.py, `BridgeLedger`), call by call.
use Prim.Native.String.{String}
use ephy_worker.Prelude.{
  ℕ, ◌≡◌, refl, Bool, Option-cases, true, false, ◌&&◌, ◌==◌, Option, none, some, arith, inl, inr,
}
use ephy_worker.Prelude.Table.{find, count, update}
use ephy_worker.Bridge.Context.{Event, Context}
use ephy_worker.Bridge.Ledger.{
  InboxRow, Ledger, empty_ledger, is_pending, message_is, prune_inbox, clear, close_row,
  open_ledger, check_capacity, is_known, inbox_has, seen, new_row, add_row, inbox_pending,
  hand_over, set_receipt, set_done, set_free, claim,
}
use ephy_worker.Bridge.Answers.{store_answer}
use ephy_worker.Bridge.Machine.{
  Call, opens, enqueues, claims_next, updates, claims, remembers, perform, after, IsAdmissible,
  Reach, start, next,
}
use ephy_worker.Bridge.Writes.{
  after-enqueue, after-claim, after-claim_next, after-inbox_update, after-remember,
}
use ephy_worker.Bridge.Sound.{
  IsSound, update-IsSound, delete-IsSound, insert-IsSound, request-IsSound,
}

abbrev pub IsWell : Bool → Ledger → Type 0
IsWell has_repairs l = IsSound has_repairs l.requests l.inbox l.last_sequence

pub pending_row :
    (message : ℕ) (l : Ledger)
    → inbox_pending (some message) l ≡ true
    → (r : InboxRow) × (find (λ x. is_pending x && message_is message x) l.inbox ≡ some r)
unfolding inbox_pending
pending_row message l there =
    elim (Option-cases (find (λ x. is_pending x && message_is message x) l.inbox)) [
      | inl nothing ↦ absurd (ground (arith, nothing))
      | inr row ↦ row
    ]

module _ (has_repairs : Bool) where
  add_row-IsWell :
      (event : Event) (question : String) (previous intake consumer : Option String)
      (context : Option Context) (l : Ledger)
      → is_known event.message_id l ≡ false
      → check_capacity l ≡ none
      → IsWell has_repairs l
      → IsWell has_repairs (add_row (new_row event question previous intake consumer context) l)
  unfolding add_row new_row is_known check_capacity inbox_has seen
  add_row-IsWell event question previous intake consumer context l new room s =
      let fresh : find (message_is event.message_id) l.inbox ≡ none =
        elim (Option-cases (find (message_is event.message_id) l.inbox)) [
          | inl nothing ↦ nothing
          | inr row ↦ absurd (ground (arith, row.1))
        ] in
      insert-IsSound has_repairs l.requests l.inbox l.last_sequence _ refl refl fresh (ground arith)
        (ground arith) (ground arith) s

  open_ledger-IsWell : (l : Ledger) → IsWell has_repairs l → IsWell has_repairs (open_ledger l)
  unfolding open_ledger prune_inbox clear
  open_ledger-IsWell l s =
      delete-IsSound has_repairs l.requests (update (λ r. r.finished) clear l.inbox) l.last_sequence
        _
        (update-IsSound has_repairs l.requests l.inbox l.last_sequence (λ r. r.finished) clear
          (record {
            message = λ r. refl;
            sequence = λ r. refl;
            finished = λ r e. e;
            cleared = λ r _ _ _. (refl, refl, refl);
          })
          s)

  -- An UPDATE of the receipts and the consumers of some rows.
  touch-IsWell :
      (q receipt : InboxRow → Bool) (consumer : InboxRow → Option String) (l : Ledger)
      → IsWell has_repairs l
      → IsSound has_repairs l.requests
          (update q (λ r. record r { receipt = receipt r; consumer = consumer r }) l.inbox)
          l.last_sequence
  touch-IsWell q receipt consumer l s =
      update-IsSound has_repairs l.requests l.inbox l.last_sequence q _
        (record {
          message = λ r. refl;
          sequence = λ r. refl;
          finished = λ r e. e;
          cleared = λ r _ h. h;
        })
        s

  set_receipt-IsWell :
      (message : ℕ) (l : Ledger) → IsWell has_repairs l → IsWell has_repairs (set_receipt message l)
  unfolding set_receipt
  set_receipt-IsWell message l s =
      touch-IsWell (message_is message) (λ _. true) (λ r. r.consumer) l s

  set_free-IsWell :
      (message : ℕ) (l : Ledger) → IsWell has_repairs l → IsWell has_repairs (set_free message l)
  unfolding set_free
  set_free-IsWell message l s = touch-IsWell (message_is message) (λ r. r.receipt) (λ _. none) l s

  hand_over-IsWell :
      (consumer : Option String) (sequence : ℕ) (l : Ledger)
      → IsWell has_repairs l
      → IsWell has_repairs (hand_over consumer sequence l)
  unfolding hand_over
  hand_over-IsWell consumer sequence l s =
      touch-IsWell (λ r. r.sequence == sequence) (λ r. r.receipt) (λ _. consumer) l s

  set_done-IsWell :
      (message : ℕ) (l : Ledger) → IsWell has_repairs l → IsWell has_repairs (set_done message l)
  unfolding set_done prune_inbox close_row clear
  set_done-IsWell message l s =
      delete-IsSound has_repairs l.requests (update (message_is message) close_row l.inbox)
        l.last_sequence _
        (update-IsSound has_repairs l.requests l.inbox l.last_sequence (message_is message)
          close_row
          (record {
            message = λ r. refl;
            sequence = λ r. refl;
            finished = λ r _. refl;
            cleared = λ r _ _ _. (refl, refl, refl);
          })
          s)

  claim-IsWell :
      (message : ℕ) (l : Ledger)
      → IsAdmissible has_repairs (claims message) l
      → IsWell has_repairs l
      → IsWell has_repairs (after l (claim message l))
  claim-IsWell message l there s = after-claim (IsWell has_repairs) message l s (λ new room.
      request-IsSound has_repairs l.requests l.inbox l.last_sequence message
        (λ alone. pending_row message l (there alone)) new room s)

  perform-IsWell :
      (call : Call) (l : Ledger)
      → IsAdmissible has_repairs call l
      → IsWell has_repairs l
      → IsWell has_repairs (perform call l)
  unfolding perform
  perform-IsWell opens l ok s = open_ledger-IsWell l s
  perform-IsWell (enqueues event question previous intake consumer given) l ok s =
      after-enqueue (IsWell has_repairs) event question previous intake consumer given l s
        (λ context new room.
          add_row-IsWell event question previous intake consumer context l new room s)
  perform-IsWell (claims_next alive consumer) l ok s =
      after-claim_next (IsWell has_repairs) alive consumer l s
        (λ n. hand_over-IsWell (some consumer) n l s)
  perform-IsWell (updates message receipt finished release) l ok s =
      after-inbox_update (IsWell has_repairs) message receipt finished release l s
        (set_receipt-IsWell message) (set_done-IsWell message) (set_free-IsWell message)
  perform-IsWell (claims message) l ok s = claim-IsWell message l ok s
  perform-IsWell (remembers answer_id event content given now) l ok s =
      after-remember (IsWell has_repairs) answer_id event content given now l s
        (unfold store_answer in λ context. s)

  empty-IsWell : IsWell has_repairs empty_ledger
  unfolding count
  empty-IsWell = record {
    capacity = omega arith;
    bounded = omega arith;
    reserve = λ alone. omega arith;
    single = tt;
    ordered = tt;
    counted = tt;
    cleared = tt;
  }

-- In every ledger that the calls reach, in any order and with any arguments but for the claims: no more
-- than 128 messages are pending; there are no more than 10000 requests; each message has one row; the rows
-- stand in the order of their sequence numbers, which the counter bounds; and a finished row holds neither
-- question nor earlier answer nor context. In a bridge without a store for repairs, whose claims are of
-- pending messages, the requests and the pending messages that will need one are together no more than
-- 10000; with such a store any message may be claimed, and that last bound is not stated.
pub Reach-IsWell : (has_repairs : Bool) (l : Ledger) → Reach has_repairs l → IsWell has_repairs l
Reach-IsWell has_repairs l start = empty-IsWell has_repairs
Reach-IsWell has_repairs l (next before call ok) =
    perform-IsWell has_repairs call _ ok (Reach-IsWell has_repairs _ before)
