-- ===== src/Bridge/Executions.antt =====
-- Over all the work of the bridge, a question goes to the gateway for an answer once.
use Prim.Native.String.{String}
use ephy_worker.Prelude.{
  refl, Bool, Bool-cases, Option-cases, true, false, ◌&&◌, List, [], ◌∷◌, Option, none, some,
  member, inl, inr,
}
use ephy_worker.Contract.Input.{distinct_numbers}
use ephy_worker.Bridge.Context.{Context}
use ephy_worker.Bridge.Ledger.{Ledger, InboxRow, claim_next}
use ephy_worker.Bridge.Machine.{perform, updates, claims_next}
use ephy_worker.Bridge.Machine
use ephy_worker.Bridge.Once.{perform-Keeps}
use ephy_worker.Bridge.Desk.{
  Settings, Desk, bridge, crashed, cancelled, Act, go_on, leave, raised, Part, Visit, await,
  set_ledger, set_store, ask_row, send_parts, event_of, allows_channel,
}
use ephy_worker.Bridge.Intakes.{process_intake}
use ephy_worker.Bridge.Inbox.{
  note_row, send_first, in_repair_scope, intake_done, serve_intake, answer_row, serve_question,
  serve_row, is_terminal_after, close_row_work, Round, recover_round,
}
use ephy_worker.Bridge.Steps.{IsOnce, ledger-IsOnce, send_parts-AllActs, ask_row-AllActs}
use ephy_worker.Bridge.Working.{
  Holds, Holds-bind, Holds-await, store-IsOnce, note_row-IsOnce, process_intake-Holds,
}
use ephy_worker.Bridge.Recovery.{IntakeTurn, recover_intakes, recover_intakes-IsOnce}
use ephy_worker.Repair.Rows.{Store, Intake}
use ephy_worker.Repair.Intakes.{mark_receipt}

send_first-Holds : (v : Visit) (r : InboxRow) (d : Desk) → IsOnce d → Holds (send_first v r d)
unfolding send_first
send_first-Holds v r d h = elim (Bool-cases r.receipt) [
  | inl sent' ↦ rw (send_first, sent') h
  | inr first ↦
      rw (send_first, first)
        (Holds-bind (await v.receipt d) (λ d' _. go_on (note_row r.message true false false d') tt)
          (Holds-await v.receipt d h) (λ d' _ k. note_row-IsOnce r.message true false false d' k))
]

serve_intake-Holds :
    (s : Settings) (v : Visit) (consumer : String) (r : InboxRow) (id : String) (d : Desk)
    → IsOnce d
    → Holds (serve_intake s v consumer r id d)
unfolding serve_intake
serve_intake-Holds s v consumer r id d h = elim (Bool-cases (in_repair_scope s r)) [
  | inr outside ↦ rw (serve_intake, outside) h
  | inl inside ↦
      rw (serve_intake, inside)
        (Holds-bind (process_intake s v consumer id (set_store (mark_receipt id d.store) d))
          (λ d' _. go_on d' (intake_done id d'.store))
          (process_intake-Holds s v consumer id (set_store (mark_receipt id d.store) d)
            (store-IsOnce d (mark_receipt id d.store) h))
          (λ d' _ k. k))
]

answer_row-Holds :
    (v : Visit) (r : InboxRow) (d : Desk) (answer : Option (Option Context × List Part))
    → IsOnce d
    → Holds (answer_row v r d answer)
unfolding answer_row
answer_row-Holds v r d none h =
    Holds-bind (await v.notice (note_row r.message false true false d)) (λ d' _. go_on d' true)
      (Holds-await v.notice (note_row r.message false true false d)
        (note_row-IsOnce r.message false true false d h))
      (λ d' _ k. k)
answer_row-Holds v r d (some answer) h =
    Holds-bind
      (send_parts v (event_of r.message r.guild r.channel r.user r.question) answer.0 answer.1
        (note_row r.message false true false d))
      (λ d' _. go_on d' true)
      (send_parts-AllActs v (event_of r.message r.guild r.channel r.user r.question) answer.0
        answer.1 (note_row r.message false true false d)
        (note_row-IsOnce r.message false true false d h))
      (λ d' _ k. k)

serve_row-Holds :
    (s : Settings) (v : Visit) (consumer : String) (r : InboxRow) (d : Desk)
    → IsOnce d
    → Holds (serve_row s v consumer r d)
unfolding serve_row serve_question
serve_row-Holds s v consumer r d h = elim (Option-cases r.intake) [
  | inr (id, e) ↦
      rw (serve_row, e)
        (Holds-bind (send_first v r d) (λ d' _. serve_intake s v consumer r id d')
          (send_first-Holds v r d h) (λ d' _ k. serve_intake-Holds s v consumer r id d' k))
  | inl question ↦
      rw (serve_row, question)
        (Holds-bind (send_first v r d) (λ d' _. serve_question s v r d') (send_first-Holds v r d h)
          (λ d' _ k.
            Holds-bind (ask_row s v r d') (λ d'' answer. answer_row v r d'' answer)
              (ask_row-AllActs s v r d' k) (λ d'' answer k'. answer_row-Holds v r d'' answer k')))
]

close_row_work-IsOnce :
    (v : Visit) (r : InboxRow) (act : Act Bool) → Holds act → IsOnce (close_row_work v r act).0
unfolding close_row_work
close_row_work-IsOnce v r (go_on d terminal) h = note_row-IsOnce r.message false terminal true d h
close_row_work-IsOnce v r (leave d) h = note_row-IsOnce r.message false false true d h
close_row_work-IsOnce v r (raised d cancelled) h =
    note_row-IsOnce r.message false (is_terminal_after r cancelled d) true d h
close_row_work-IsOnce v r (raised d crashed) h =
    note_row-IsOnce r.message false (is_terminal_after r crashed d) true d h
close_row_work-IsOnce v r (raised d (bridge code)) h =
    note_row-IsOnce r.message false (is_terminal_after r (bridge code) d) true d h

taken-IsOnce :
    (alive : String → Bool) (consumer : String) (d : Desk)
    → IsOnce d
    → IsOnce (record (set_ledger (claim_next alive consumer d.ledger).0 d) { recorded = false })
unfolding perform
taken-IsOnce alive consumer d h =
    let k =
      ledger-IsOnce d (claim_next alive consumer d.ledger).0
        (λ m. perform-Keeps m (claims_next alive consumer) d.ledger) h in
    record { distinct = k.distinct; recorded = k.recorded }

round-IsOnce :
    (s : Settings) (consumer : String) (t : Round) (d : Desk)
    → IsOnce d
    → IsOnce (recover_round s consumer t d).0
unfolding recover_round
round-IsOnce s consumer t d h = elim (Bool-cases t.draining) [
  | inl drain ↦ rw (recover_round, drain) h
  | inr go ↦
      let d' = record (set_ledger (claim_next t.visit.alive consumer d.ledger).0 d) {
        recorded = false;
      } in
      let h' : IsOnce d' = taken-IsOnce t.visit.alive consumer d h in
      elim (Option-cases (claim_next t.visit.alive consumer d.ledger).1) [
        | inl nothing ↦ rw (recover_round, go, nothing) h'
        | inr (r, e) ↦ elim (Bool-cases t.has_sender) [
          | inr mute ↦
              rw (recover_round, go, e, mute) (note_row-IsOnce r.message false false true d' h')
          | inl can ↦
              elim (Bool-cases
                (allows_channel s r.guild r.channel && member r.user s.allowed_user_ids)) [
                  | inr stranger ↦
                      rw (recover_round, go, e, can, stranger)
                        (note_row-IsOnce r.message false true true d' h')
                  | inl known ↦
                      rw (recover_round, go, e, can, known)
                        (close_row_work-IsOnce t.visit r (serve_row s t.visit consumer r d')
                          (serve_row-Holds s t.visit consumer r d' h'))
                ]
        ]
      ]
]

-- What may happen to the desk: a round of `recover_inbox`, the rest of `recover_intakes`, or a call of the ledger or of the store from
-- anywhere else, by this process or the next.
pub data Happening : Type 0 where
  round : Round → Happening
  intakes : (Intake → IntakeTurn) → Happening
  ledger_call : Machine.Call → Happening
  store_changed : Store → Happening

unfoldable pub happen : Settings → String → Happening → Desk → Desk
happen s consumer (round t) d = (recover_round s consumer t d).0
happen s consumer (intakes turn) d = recover_intakes s consumer turn d
happen s consumer (ledger_call call) d = set_ledger (perform call d.ledger) d
happen s consumer (store_changed store) d = set_store store d

unfoldable pub work : Settings → String → List Happening → Desk → Desk
unfolding happen
work s consumer [] d = d
work s consumer (x ∷ xs) d = work s consumer xs (happen s consumer x d)

happen-IsOnce :
    (s : Settings) (consumer : String) (x : Happening) (d : Desk)
    → IsOnce d
    → IsOnce (happen s consumer x d)
unfolding happen
happen-IsOnce s consumer (round t) d h = round-IsOnce s consumer t d h
happen-IsOnce s consumer (intakes turn) d h = recover_intakes-IsOnce s consumer turn d h
happen-IsOnce s consumer (ledger_call call) d h =
    ledger-IsOnce d (perform call d.ledger) (λ m. perform-Keeps m call d.ledger) h
happen-IsOnce s consumer (store_changed store) d h = store-IsOnce d store h

work-IsOnce :
    (s : Settings) (consumer : String) (xs : List Happening) (d : Desk)
    → IsOnce d
    → IsOnce (work s consumer xs d)
unfolding work
work-IsOnce s consumer [] d h = h
work-IsOnce s consumer (x ∷ xs) d h =
    work-IsOnce s consumer xs (happen s consumer x d) (happen-IsOnce s consumer x d h)

-- A question goes to the gateway for an answer (`answer` or `observe`) at most once. Begin with any two
-- databases and let rounds of `recover_inbox`, the work of `recover_intakes` on the intakes that wait, in
-- both of which everything awaited may fail, other calls of the ledger and other changes of the store
-- follow each other, one after another and in any order: the messages that were answered so are distinct,
-- and each is on record as a request. The classification of an intake (`classify_repair`), which comes
-- before its claim and is repeated after a failure, is not counted.
pub work_asks-IsOnce :
    (s : Settings) (consumer : String) (xs : List Happening) (ledger : Ledger) (store : Store)
    → IsOnce (
        work s consumer xs
          (record { ledger = ledger; store = store; recorded = false; asked = [] }))
unfolding distinct_numbers
work_asks-IsOnce s consumer xs ledger store =
    work-IsOnce s consumer xs
      (record { ledger = ledger; store = store; recorded = false; asked = [] })
      (record { distinct = refl; recorded = tt })
