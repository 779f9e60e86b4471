-- ===== src/Bridge/Admission.antt =====
-- How the bridge admits a message (discord_runtime.py, `RuntimeDiscordBridge`: `handle`). What the bot
-- says in return is left out, but for whether a message could be sent.
use Prim.Native.String.{String}
use ephy_worker.Prelude.{
  ℕ, Bool, true, false, not, ◌&&◌, ◌||◌, ◌==◌, member, any, Option, none, some, is_some,
  if◌then◌else◌,
}
use ephy_worker.Bridge.Context.{Event, question_not_public, Outcome, done, failed, Context}
use ephy_worker.Bridge.Ledger.{check_admission, enqueue, inbox_pending}
use ephy_worker.Bridge.Answers.{previous_context}
use ephy_worker.Bridge.Desk.{
  Settings, is_guild, allows_channel, Desk, bridge, crashed, Act, go_on, raised, ◌>>=◌, Reply, got,
  lost, set_ledger, set_store,
}
use ephy_worker.Bridge.Inbox.{note_row}
use ephy_worker.Repair.Rows
use ephy_worker.Repair.Rows.{owner_user_id, Identity}
use ephy_worker.Repair.Intakes.{capture_intake}

-- What the handling of a message meets outside: the question without the mention, the intent that
-- `community_intent` finds in it, the test of public texts, the drain marker, and Discord.
pub record Arrival : Type 0 where
  pub event : Event
  pub question : String
  pub intent : Option Context
  pub is_public : Bool
  pub identify : Identity → String
  pub consumer : String
  pub draining : Bool
  pub receipt : Reply (Unit {0})
  pub now : ℕ
  pub again : ℕ

-- The first `if`, negated.
unfoldable pub is_welcome : Settings → Event → Bool
unfolding allows_channel
is_welcome s e =
    not (e.author_bot || e.webhook || e.system || e.mention_everyone)
    && allows_channel s e.guild_id e.channel_id
    && member e.user_id s.allowed_user_ids

unfoldable pub is_owner_route : Settings → Event → Bool
is_owner_route s e =
    s.has_repairs
    && e.user_id == owner_user_id
    && is_guild s.guild_id e.guild_id
    && member e.channel_id s.allowed_channel_ids

-- The ledger's answers as steps.
unfoldable pub from_ledger : {A : Type 0} → Outcome A → Desk → Act A
from_ledger (done a) d = go_on d a
from_ledger (failed code) d = raised d (bridge code)

unfoldable pub admit : Arrival → Desk → Act (Unit {0})
unfolding check_admission
admit a d = elim (check_admission a.event.message_id d.ledger) [
  | none ↦ go_on d tt
  | some code ↦ raised d (bridge code)
]

unfoldable pub community_of : Settings → Arrival → Option Context → Option Context
community_of s a previous =
    if any (λ g. is_guild g a.event.guild_id) s.community_guild_ids && is_some a.intent
    then a.intent
    else previous

unfoldable pub guild_number : Option ℕ → ℕ
guild_number none = 0
guild_number (some g) = g

-- The intake of the owner, or the test of the text.
unfoldable pub capture :
    Settings → Arrival → Option String → Option Context → Desk → Act (Option String)
unfolding is_owner_route capture_intake set_store guild_number
capture s a previous community d =
    if is_owner_route s a.event
    then elim (capture_intake a.identify
        (record {
          guild_id = guild_number a.event.guild_id;
          channel_id = a.event.channel_id;
          message_id = a.event.message_id;
          author_id = a.event.user_id;
        })
        a.question previous community a.now d.store) [
          | ephy_worker.Repair.Rows.failed code ↦ raised d crashed
          | ephy_worker.Repair.Rows.done answer ↦ go_on (set_store answer.0 d) (some answer.1)
        ]
    else if not (is_some community) && not a.is_public
    then raised d (bridge question_not_public)
    else go_on d none

-- The receipt is sent, and then the row is free.
unfoldable pub acknowledge : Arrival → Desk → Act Bool
unfolding note_row
acknowledge a d = elim a.receipt [
  | got x ↦
      go_on
        (note_row a.event.message_id false false true
          (note_row a.event.message_id true false false d))
        true
  | lost why ↦ raised (note_row a.event.message_id false false true d) why
]

-- What follows on the answer of `enqueue`: whether the inbox is worked through next.
unfoldable pub enqueued : Arrival → Desk → Bool → Act Bool
unfolding note_row acknowledge
enqueued a d false = go_on d (inbox_pending (some a.event.message_id) d.ledger)
enqueued a d true =
    if a.draining
    then go_on (note_row a.event.message_id false false true d) false
    else acknowledge a d

unfoldable pub put_in_inbox :
    Arrival → Option String → Option Context → Option String → Desk → Act Bool
unfolding enqueue from_ledger set_ledger enqueued
put_in_inbox a previous community intake d =
    from_ledger (enqueue a.event a.question previous intake (some a.consumer) community d.ledger) d
    >>= λ d' answer. enqueued a (set_ledger answer.0 d') answer.1

-- `handle`, up to the call of `recover_inbox`: whether it is made.
unfoldable pub handle : Settings → Arrival → Desk → Act Bool
unfolding is_welcome from_ledger previous_context admit community_of capture put_in_inbox
handle s a d =
    if not (is_welcome s a.event)
    then go_on d false
    else (from_ledger (previous_context a.now a.again a.event d.ledger) d >>= λ d1 found'.
        if not a.event.mentioned && not (is_some found'.0)
        then go_on d1 false
        else (admit a d1 >>= λ d2 _.
            capture s a found'.0 (community_of s a found'.1) d2 >>= λ d3 intake.
            put_in_inbox a found'.0 (community_of s a found'.1) intake d3))
