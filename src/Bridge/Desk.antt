-- ===== src/Bridge/Desk.antt =====
-- How the bridge works through its inbox (discord_runtime.py, `RuntimeDiscordBridge`:
-- `allows_channel`, `_community_route`): the steps that a row and an intake share. What Discord, the gateway and the drain
-- marker do is an argument; texts that are only sent, pauses and progress notes are left out.
use Prim.Native.String.{String}
use ephy_worker.Prelude.{
  ℕ, Bool, true, false, ◌&&◌, ◌||◌, ◌==◌, member, any, List, [], ◌∷◌, Option, none, some, is_some,
  if◌then◌else◌,
}
use ephy_worker.Bridge.Context.{
  Event, BridgeCode, context_unavailable, question_not_public, done, failed, Context,
  community_context,
}
use ephy_worker.Bridge.Ledger.{Ledger, InboxRow, claim}
use ephy_worker.Bridge.Answers.{remember}
use ephy_worker.Repair.Rows.{Store, Intake, Route, Identity}

pub record Channel : Type 0 where
  pub guild_id : ℕ
  pub channel_id : ℕ

-- `DiscordRuntimeSettings`, and whether there is a store for repairs.
pub record Settings : Type 0 where
  pub guild_id : ℕ
  pub allowed_channel_ids : List ℕ
  pub allowed_user_ids : List ℕ
  pub additional_channels : List Channel
  pub community_guild_ids : List ℕ
  pub has_repairs : Bool

abbrev pub is_guild : ℕ → Option ℕ → Bool
is_guild guild_id none = false
is_guild guild_id (some g) = g == guild_id

-- `allows_channel`.
unfoldable pub allows_channel : Settings → Option ℕ → ℕ → Bool
allows_channel s guild_id channel_id =
    (is_guild s.guild_id guild_id && member channel_id s.allowed_channel_ids)
    || any (λ c. is_guild c.guild_id guild_id && c.channel_id == channel_id) s.additional_channels

-- The two databases, whether the execution of the row at hand is on record, and, for the statements, the
-- messages whose questions went to the gateway's `answer` or `observe`.
pub record Desk : Type 0 where
  pub ledger : Ledger
  pub store : Store
  pub recorded : Bool
  pub asked : List ℕ

-- `BridgeError`, another exception, `CancelledError`.
pub data Failure : Type 0 where
  bridge : BridgeCode → Failure
  crashed cancelled : Failure

-- A step that goes on, that returns from its function, or that raises. What was written stays.
pub data Act (A : Type 0) : Type 0 where
  go_on : Desk → A → Act A
  leave : Desk → Act A
  raised : Desk → Failure → Act A

infixl 20 ◌>>=◌
abbrev pub ◌>>=◌ : {A B : Type 0} → Act A → (Desk → A → Act B) → Act B
go_on d a >>= next = next d a
leave d >>= next = leave d
raised d why >>= next = raised d why

-- What awaits the bridge: whether a message could be sent, or what a call raised.
pub data Reply (A : Type 0) : Type 0 where
  got : A → Reply A
  lost : Failure → Reply A

-- A part of an answer, with the id that Discord gave it, if it gave one.
pub record Part : Type 0 where
  pub text : String
  pub answer_id : Option ℕ

-- What one row meets outside.
pub record Visit : Type 0 where
  pub alive : String → Bool
  pub receipt : Reply (Unit {0})
  pub classified : Reply Route
  pub is_limited : Bool
  pub identify : Identity → String
  pub intent : Option Context
  pub is_public : Bool
  pub gateway : Reply (List Part)
  pub delivery : Reply (Unit {0})
  pub notice : Reply (Unit {0})
  pub now : ℕ

unfoldable pub await : {A : Type 0} → Reply A → Desk → Act A
await (got a) d = go_on d a
await (lost why) d = raised d why

unfoldable pub set_ledger : Ledger → Desk → Desk
set_ledger l d = record d { ledger = l }

unfoldable pub set_store : Store → Desk → Desk
set_store s d = record d { store = s }

-- `self.ledger.claim`; behind it the execution is on record, whether new or not.
unfoldable pub claim_request : ℕ → Desk → Act Bool
unfolding claim set_ledger
claim_request message d = elim (claim message d.ledger) [
  | failed code ↦ raised d (bridge code)
  | done answer ↦
      let (l, fresh) = answer in go_on (record (set_ledger l d) { recorded = true }) fresh
]

-- `self.gateway.answer` or `self.gateway.observe`.
unfoldable pub ask_gateway : Visit → ℕ → Desk → Act (List Part)
unfolding await
ask_gateway v message d = await v.gateway (record d { asked = message ∷ d.asked })

-- `_community_route`: whether the question goes to the observation.
unfoldable pub community_route :
    Settings → Option Context → Option ℕ → Option Context → Desk → Act (Option Context)
unfolding community_context
community_route s intent guild_id given d = elim (community_context given) [
  | failed code ↦ raised d (bridge code)
  | done stored ↦
      if any (λ g. is_guild g guild_id) s.community_guild_ids
      then go_on d (if is_some stored then stored else intent)
      else if is_some stored
      then raised d (bridge context_unavailable)
      else go_on d none
]

-- `validate_public_text`, for questions that go to the public search.
unfoldable pub check_public : Visit → Option Context → Desk → Act (Unit {0})
check_public v (some c) d = go_on d tt
check_public v none d = if v.is_public then go_on d tt else raised d (bridge question_not_public)

unfoldable pub remember_part : Event → Option Context → ℕ → Part → Desk → Act (Unit {0})
unfolding remember set_ledger
remember_part event context now p d = elim p.answer_id [
  | none ↦ go_on d tt
  | some answer_id ↦ elim (remember answer_id event p.text context now d.ledger) [
    | failed code ↦ raised d (bridge code)
    | done l ↦ go_on (set_ledger l d) tt
  ]
]

-- The loop over the parts of an answer; `delivery` is how it ends.
unfoldable pub send_parts : Visit → Event → Option Context → List Part → Desk → Act (Unit {0})
unfolding remember_part await
send_parts v event context [] d = await v.delivery d
send_parts v event context (p ∷ ps) d =
    remember_part event context v.now p d >>= λ d' _. send_parts v event context ps d'

-- The event that the bridge makes of a row, for `remember`.
unfoldable pub event_of : ℕ → Option ℕ → ℕ → ℕ → String → Event
event_of message guild_id channel_id user_id content = record {
  message_id = message;
  guild_id = guild_id;
  channel_id = channel_id;
  user_id = user_id;
  content = content;
  mentioned = false;
  reply_to = none;
  author_bot = false;
  webhook = false;
  system = false;
  mention_everyone = false;
}

-- Behind a claim that was accepted: the answer, with the context of the question.
unfoldable pub ask_with :
    Visit → ℕ → Option Context → Desk → Act (Option (Option Context × List Part))
unfolding ask_gateway
ask_with v message context d =
    ask_gateway v message d >>= λ d' parts. go_on d' (some (context, parts))

-- For a row of the inbox, the route and the text are checked behind the claim.
unfoldable pub ask_claimed :
    Settings → Visit → InboxRow → Desk → Bool → Act (Option (Option Context × List Part))
unfolding community_route check_public ask_with
ask_claimed s v r d false = go_on d none
ask_claimed s v r d true = community_route s v.intent r.guild r.context d >>= λ d1 context.
    check_public v context d1 >>= λ d2 _. ask_with v r.message context d2

-- A question is claimed and asked; `none` stands for one that was claimed before.
unfoldable pub ask_row :
    Settings → Visit → InboxRow → Desk → Act (Option (Option Context × List Part))
unfolding claim_request ask_claimed
ask_row s v r d = claim_request r.message d >>= λ d1 fresh. ask_claimed s v r d1 fresh

unfoldable pub ask_if :
    Visit → ℕ → Option Context → Desk → Bool → Act (Option (Option Context × List Part))
unfolding ask_with
ask_if v message context d false = go_on d none
ask_if v message context d true = ask_with v message context d

-- The same for an intake, where the checks stand before the claim.
unfoldable pub ask_intake :
    Settings → Visit → Intake → Desk → Act (Option (Option Context × List Part))
unfolding claim_request community_route check_public ask_if
ask_intake s v i d = community_route s v.intent (some i.guild) i.context d >>= λ d1 context.
    check_public v context d1 >>= λ d2 _.
    claim_request i.message d2 >>= λ d3 fresh. ask_if v i.message context d3 fresh
