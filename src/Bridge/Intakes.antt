-- ===== src/Bridge/Intakes.antt =====
-- The work on an intake (discord_runtime.py, `RuntimeDiscordBridge`: `process_intake`).
use Prim.Native.String.{String}
use ephy_worker.Prelude.{Bool, true, false, ◌&&◌, List, Option, none, some, is_some, if◌then◌else◌}
use ephy_worker.Prelude.Table.{find}
use ephy_worker.Bridge.Context.{BridgeCode, classification_failed, Context}
use ephy_worker.Bridge.Ledger.{seen}
use ephy_worker.Repair.Rows
use ephy_worker.Repair.Rows.{Store, Intake, Route, repair, conversation, Identity}
use ephy_worker.Repair.Intakes.{claim_intake, update_intake}
use ephy_worker.Repair.Jobs.{enqueue, job_is}
use ephy_worker.Bridge.Desk.{
  Settings, Desk, Act, ◌>>=◌, Part, Visit, await, set_store, claim_request, send_parts, event_of,
  ask_intake, bridge, crashed, go_on, leave, raised,
}

-- `update_intake(…, done=True)` and the like.
unfoldable pub note_intake : String → String → Option Route → Bool → Bool → Bool → Desk → Desk
unfolding update_intake set_store
note_intake id consumer route receipt finished release d =
    set_store (update_intake id consumer route receipt finished release d.store) d

abbrev pub close_intake : String → String → Desk → Desk
close_intake id consumer d = note_intake id consumer none false true false d

-- A classification as a conversation is written down.
unfoldable pub note_route : String → Intake → Desk → Route → Act Route
unfolding note_intake
note_route consumer i d conversation =
    go_on (note_intake i.id consumer (some conversation) false false false d) conversation
note_route consumer i d repair = go_on d repair

-- The classification by the gateway's `classify_repair`, or the route that was found before.
unfoldable pub find_route : Visit → String → Intake → Desk → Act Route
unfolding await note_route
find_route v consumer i d = elim i.route [
  | some route ↦ go_on d route
  | none ↦ await v.classified d >>= λ d' route. note_route consumer i d' route
]

-- The intake is closed, and a new request is told so.
unfoldable pub tell_if : Visit → String → Intake → Desk → Bool → Act (Unit {0})
unfolding await note_intake
tell_if v consumer i d false = go_on (close_intake i.id consumer d) tt
tell_if v consumer i d true = await v.notice (close_intake i.id consumer d)

unfoldable pub identity_of : Intake → Identity
identity_of i = record {
  guild_id = i.guild;
  channel_id = i.channel;
  message_id = i.message;
  author_id = i.author;
}

-- The branch on "repair".
unfoldable pub repair_intake : Visit → String → Intake → Desk → Act (Unit {0})
unfolding await note_intake enqueue claim_request set_store tell_if identity_of
repair_intake v consumer i d =
    if v.is_limited
    then (await v.notice d >>= λ d' _. go_on (close_intake i.id consumer d') tt)
    else elim (enqueue v.identify (identity_of i) i.text i.previous v.now d.store) [
      | ephy_worker.Repair.Rows.failed code ↦ raised d crashed
      | ephy_worker.Repair.Rows.done answer ↦
          claim_request i.message (set_store answer.0 d) >>= λ d1 fresh.
          tell_if v consumer i d1 fresh
    ]

-- The answer is sent, or the note that there will be none.
unfoldable pub answer_intake :
    Visit → String → Intake → Desk → Option (Option Context × List Part) → Act (Unit {0})
unfolding await note_intake send_parts event_of
answer_intake v consumer i d none = await v.notice (close_intake i.id consumer d)
answer_intake v consumer i d (some answer) =
    send_parts v (event_of i.message (some i.guild) i.channel i.author i.text) answer.0 answer.1 d
    >>= λ d' _. go_on (close_intake i.id consumer d') tt

-- The two branches by the route.
unfoldable pub follow_route : Settings → Visit → String → Intake → Desk → Route → Act (Unit {0})
unfolding repair_intake ask_intake answer_intake
follow_route s v consumer i d repair = repair_intake v consumer i d
follow_route s v consumer i d conversation =
    ask_intake s v i d >>= λ d' answer. answer_intake v consumer i d' answer

unfoldable pub send_receipt : Visit → String → Intake → Desk → Act (Unit {0})
unfolding await note_intake
send_receipt v consumer i d =
    if i.receipt
    then go_on d tt
    else await v.receipt d >>= λ d' _. go_on (note_intake i.id consumer none true false false d') tt

-- The body of the `try`.
unfoldable pub work_intake : Settings → Visit → String → Intake → Desk → Act (Unit {0})
unfolding send_receipt note_intake find_route follow_route
work_intake s v consumer i d =
    if seen i.message d.ledger && is_some (find (job_is i.id) d.store.jobs)
    then go_on (close_intake i.id consumer d) tt
    else send_receipt v consumer i d >>= λ d1 _.
        find_route v consumer i d1 >>= λ d2 route. follow_route s v consumer i d2 route

unfoldable pub is_unclassified : BridgeCode → Bool
is_unclassified classification_failed = true
is_unclassified _ = false

-- The `except` clause: the error ends the intake, unless it could not be classified.
unfoldable pub except_intake : String → String → Act (Unit {0}) → Act (Unit {0})
unfolding note_intake is_unclassified
except_intake id consumer (raised d (bridge code)) =
    raised (if is_unclassified code then d else close_intake id consumer d) (bridge code)
except_intake id consumer act = act

-- The `finally` clause.
unfoldable pub release_intake : String → String → Act (Unit {0}) → Act (Unit {0})
unfolding note_intake
release_intake id consumer (go_on d a) = go_on (note_intake id consumer none false false true d) a
release_intake id consumer (leave d) = leave (note_intake id consumer none false false true d)
release_intake id consumer (raised d why) =
    raised (note_intake id consumer none false false true d) why

-- `process_intake`, for an intake that this process is not at work on.
unfoldable pub process_intake : Settings → Visit → String → String → Desk → Act (Unit {0})
unfolding claim_intake set_store work_intake except_intake release_intake
process_intake s v consumer id d =
    let (store, taken) = claim_intake v.alive id consumer d.store in
    elim taken [
      | none ↦ go_on (set_store store d) tt
      | some i ↦
          release_intake id consumer
            (except_intake id consumer (work_intake s v consumer i (set_store store d)))
    ]
