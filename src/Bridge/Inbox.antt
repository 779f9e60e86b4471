-- ===== src/Bridge/Inbox.antt =====
-- One round of the bridge's work on its inbox (discord_runtime.py, `RuntimeDiscordBridge`:
-- `recover_inbox`).
use Prim.Native.String.{String}
use ephy_worker.Prelude.{
  ℕ, Bool, true, false, not, ◌&&◌, ◌==◌, member, List, [], ◌∷◌, none, some, if◌then◌else◌, Option,
}
use ephy_worker.Prelude.Table.{find}
use ephy_worker.Bridge.Context.{Context, scope_mismatch}
use ephy_worker.Bridge.Ledger.{InboxRow, claim_next, inbox_update}
use ephy_worker.Bridge.Desk.{
  Settings, is_guild, allows_channel, Desk, Failure, bridge, crashed, cancelled, Act, go_on, leave,
  raised, ◌>>=◌, Visit, await, set_ledger, set_store, ask_row, send_parts, event_of, Part,
}
use ephy_worker.Bridge.Intakes.{process_intake, is_unclassified}
use ephy_worker.Repair.Rows.{owner_user_id, Store}
use ephy_worker.Repair.Intakes.{intake_is, mark_receipt}

unfoldable pub note_row : ℕ → Bool → Bool → Bool → Desk → Desk
unfolding inbox_update set_ledger
note_row message receipt finished release d =
    set_ledger (inbox_update message receipt finished release d.ledger) d

unfoldable pub send_first : Visit → InboxRow → Desk → Act (Unit {0})
unfolding await note_row
send_first v r d =
    if r.receipt
    then go_on d tt
    else await v.receipt d >>= λ d' _. go_on (note_row r.message true false false d') tt

-- Whether an intake may be worked on: a row of the owner in the guild and the channels of repairs.
unfoldable pub in_repair_scope : Settings → InboxRow → Bool
in_repair_scope s r =
    s.has_repairs
    && r.user == owner_user_id
    && is_guild s.guild_id r.guild
    && member r.channel s.allowed_channel_ids

-- `intake is not None and bool(intake[0])`.
unfoldable pub intake_done : String → Store → Bool
intake_done id s = elim (find (intake_is id) s.intakes) [ none ↦ false | some i ↦ i.finished ]

-- The branch on a row with an intake: whether the row is done with.
unfoldable pub serve_intake : Settings → Visit → String → InboxRow → String → Desk → Act Bool
unfolding in_repair_scope mark_receipt set_store process_intake intake_done
serve_intake s v consumer r id d =
    if in_repair_scope s r
    then (process_intake s v consumer id (set_store (mark_receipt id d.store) d) >>= λ d' _.
        go_on d' (intake_done id d'.store))
    else raised d (bridge scope_mismatch)

-- The answer is sent, or the note that there will be none; either way the row is done first.
unfoldable pub answer_row : Visit → InboxRow → Desk → Option (Option Context × List Part) → Act Bool
unfolding await note_row send_parts event_of
answer_row v r d none =
    await v.notice (note_row r.message false true false d) >>= λ d' _. go_on d' true
answer_row v r d (some answer) =
    send_parts v (event_of r.message r.guild r.channel r.user r.question) answer.0 answer.1
      (note_row r.message false true false d)
    >>= λ d' _. go_on d' true

-- The branch on a question.
unfoldable pub serve_question : Settings → Visit → InboxRow → Desk → Act Bool
unfolding ask_row answer_row
serve_question s v r d = ask_row s v r d >>= λ d' answer. answer_row v r d' answer

-- The body of the `try`.
unfoldable pub serve_row : Settings → Visit → String → InboxRow → Desk → Act Bool
unfolding send_first serve_intake serve_question
serve_row s v consumer r d = send_first v r d >>= λ d1 _. elim r.intake [
  | some id ↦ serve_intake s v consumer r id d1
  | none ↦ serve_question s v r d1
]

-- `terminal` after an error.
unfoldable pub is_terminal_after : InboxRow → Failure → Desk → Bool
unfolding is_unclassified intake_done
is_terminal_after r (bridge code) d = elim r.intake [
  | none ↦ d.recorded
  | some id ↦ not (is_unclassified code)
]
is_terminal_after r crashed d = elim r.intake [
  | none ↦ d.recorded
  | some id ↦ intake_done id d.store
]
is_terminal_after r cancelled d = elim r.intake [ none ↦ d.recorded | some id ↦ false ]

-- The `except` and `finally` clauses: the desk, and whether the loop goes on. The message about an error
-- may fail in its turn; that ends the loop.
unfoldable pub close_row_work : Visit → InboxRow → Act Bool → Desk × Bool
unfolding note_row is_terminal_after
close_row_work v r (go_on d terminal) = (note_row r.message false terminal true d, terminal)
close_row_work v r (leave d) = (note_row r.message false false true d, false)
close_row_work v r (raised d cancelled) =
    (note_row r.message false (is_terminal_after r cancelled d) true d, false)
close_row_work v r (raised d why) =
    let terminal = is_terminal_after r why d in
    (
      note_row r.message false terminal true d,
      elim v.notice [
        | ephy_worker.Bridge.Desk.got a ↦ terminal
        | ephy_worker.Bridge.Desk.lost why' ↦ false
      ],
    )

-- What a round meets besides: the drain marker, and whether there is a way to send to the row's channel.
pub record Round : Type 0 where
  pub draining : Bool
  pub has_sender : Bool
  pub visit : Visit

-- One round of the loop of `recover_inbox`: the desk, and whether another round follows.
unfoldable pub recover_round : Settings → String → Round → Desk → Desk × Bool
unfolding claim_next set_ledger note_row serve_row close_row_work allows_channel
recover_round s consumer t d = elim t.draining [
  | true ↦ (d, false)
  | false ↦
      let (l, taken) = claim_next t.visit.alive consumer d.ledger in
      let d' = record (set_ledger l d) { recorded = false } in
      elim taken [
        | none ↦ (d', false)
        | some r ↦ elim t.has_sender [
          | false ↦ (note_row r.message false false true d', false)
          | true ↦ elim (allows_channel s r.guild r.channel && member r.user s.allowed_user_ids) [
            | false ↦ (note_row r.message false true true d', true)
            | true ↦ close_row_work t.visit r (serve_row s t.visit consumer r d')
          ]
        ]
      ]
]

-- Rounds of any calls of `recover_inbox`, one after the other: the lock keeps them apart.
unfoldable pub recover : Settings → String → List Round → Desk → Desk
unfolding recover_round
recover s consumer [] d = d
recover s consumer (t ∷ ts) d = recover s consumer ts (recover_round s consumer t d).0
