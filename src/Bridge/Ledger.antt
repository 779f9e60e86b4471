-- ===== src/Bridge/Ledger.antt =====
-- `BridgeLedger` (discord_runtime.py): its three tables and its methods. The checks of `_db` on the
-- file are left out, and an id stands for its decimal text.
use Prim.Native.String.{String}
use ephy_worker.Prelude.{
  ℕ, suc, ◌+◌, Bool, true, false, not, ◌&&◌, ◌||◌, ◌==◌, ltb, leb, member, List, [], ◌∷◌, Option,
  none, some, is_some, length, if◌then◌else◌, str_eq,
}
use ephy_worker.Prelude.Table.{find, count, update, delete, insert}
use ephy_worker.Bridge.Context.{
  Event, BridgeCode, queue_full, ledger_full, Outcome, done, failed, Context, community_context,
}

pub record InboxRow : Type 0 where
  pub sequence : ℕ
  pub message : ℕ
  pub guild : Option ℕ
  pub channel : ℕ
  pub user : ℕ
  pub question : String
  pub previous : Option String
  pub intake : Option String
  pub receipt : Bool
  pub finished : Bool
  pub consumer : Option String
  pub context : Option Context

pub record Answer : Type 0 where
  pub id : ℕ
  pub guild : Option ℕ
  pub channel : ℕ
  pub user : ℕ
  pub content : String
  pub created : ℕ
  pub context : Option Context

-- The tables; rows stand in the order of their insertion. `last_sequence` is the counter of
-- AUTOINCREMENT.
pub record Ledger : Type 0 where
  pub requests : List ℕ
  pub inbox : List InboxRow
  pub answers : List Answer
  pub last_sequence : ℕ

abbrev pub empty_ledger : Ledger
empty_ledger = record { requests = []; inbox = []; answers = []; last_sequence = 0 }

abbrev pub is_pending : InboxRow → Bool
is_pending r = not r.finished

abbrev pub message_is : ℕ → InboxRow → Bool
message_is message r = r.message == message

-- A finished row with 10000 later ones.
unfoldable pub is_old : List InboxRow → InboxRow → Bool
is_old inbox r =
    r.finished && leb 10000 (count (λ x. x.finished && ltb r.sequence x.sequence) inbox)

-- `_prune_inbox`.
unfoldable pub prune_inbox : List InboxRow → List InboxRow
unfolding is_old
prune_inbox inbox = delete (is_old inbox) inbox

unfoldable pub clear : InboxRow → InboxRow
clear r = record r { question = ""; previous = none; context = none }

-- What `__init__` does to tables that are there.
unfoldable pub open_ledger : Ledger → Ledger
unfolding prune_inbox clear
open_ledger l = record l { inbox = prune_inbox (update (λ r. r.finished) clear l.inbox) }

-- A pending message with no request yet, which will need one.
abbrev pub is_reserved : List ℕ → InboxRow → Bool
is_reserved requests r = not r.finished && not (member r.message requests)

-- `_check_capacity`: the error, if any.
unfoldable pub check_capacity : Ledger → Option BridgeCode
check_capacity l =
    if leb 128 (count is_pending l.inbox)
    then some queue_full
    else if leb 10000 (length l.requests + count (is_reserved l.requests) l.inbox)
    then some ledger_full
    else none

unfoldable pub inbox_has : ℕ → Ledger → Bool
inbox_has message l = is_some (find (message_is message) l.inbox)

unfoldable pub seen : ℕ → Ledger → Bool
seen message l = member message l.requests

unfoldable pub is_known : ℕ → Ledger → Bool
unfolding inbox_has seen
is_known message l = inbox_has message l || seen message l

-- `check_admission`: the error, if any.
unfoldable pub check_admission : ℕ → Ledger → Option BridgeCode
unfolding check_capacity is_known
check_admission message l = if is_known message l then none else check_capacity l

unfoldable pub new_row :
    Event → String → Option String → Option String → Option String → Option Context → ℕ → InboxRow
new_row event question previous intake consumer context sequence = record {
  sequence = sequence;
  message = event.message_id;
  guild = event.guild_id;
  channel = event.channel_id;
  user = event.user_id;
  question = question;
  previous = previous;
  intake = intake;
  receipt = false;
  finished = false;
  consumer = consumer;
  context = context;
}

unfoldable pub add_row : (ℕ → InboxRow) → Ledger → Ledger
add_row row l = record l {
  inbox = insert (row (suc l.last_sequence)) l.inbox;
  last_sequence = suc l.last_sequence;
}

-- `enqueue`: whether the message is a new one.
unfoldable pub enqueue :
    Event
    → String
    → Option String
    → Option String
    → Option String
    → Option Context
    → Ledger
    → Outcome (Ledger × Bool)
unfolding community_context is_known check_capacity new_row add_row
enqueue event question previous intake consumer given l = elim (community_context given) [
  | failed code ↦ failed code
  | done context ↦
      if is_known event.message_id l then done (l, false) else elim (check_capacity l) [
        | some code ↦ failed code
        | none ↦ done (add_row (new_row event question previous intake consumer context) l, true)
      ]
]

-- `inbox_pending`, with and without a message.
unfoldable pub inbox_pending : Option ℕ → Ledger → Bool
inbox_pending none l = is_some (find is_pending l.inbox)
inbox_pending (some message) l = is_some (find (λ r. is_pending r && message_is message r) l.inbox)

-- Whether the process that a row names as its consumer runs.
unfoldable pub is_held : (String → Bool) → Option String → Bool
is_held alive none = false
is_held alive (some consumer) = not (str_eq consumer "") && alive consumer

unfoldable pub hand_over : Option String → ℕ → Ledger → Ledger
hand_over consumer sequence l = record l {
  inbox = update (λ r. r.sequence == sequence) (λ r. record r { consumer = consumer }) l.inbox;
}

-- `claim_next`: the oldest pending row, unless a process that runs holds it. `alive` is what psutil
-- says of a consumer's process.
unfoldable pub claim_next : (String → Bool) → String → Ledger → Ledger × Option InboxRow
unfolding is_held hand_over
claim_next alive consumer l = elim (find is_pending l.inbox) [
  | none ↦ (l, none)
  | some r ↦
      if is_held alive r.consumer
      then (l, none)
      else (hand_over (some consumer) r.sequence l, some r)
]

unfoldable pub set_receipt : ℕ → Ledger → Ledger
set_receipt message l = record l {
  inbox = update (message_is message) (λ r. record r { receipt = true }) l.inbox;
}

unfoldable pub close_row : InboxRow → InboxRow
unfolding clear
close_row r = record (clear r) { finished = true }

unfoldable pub set_done : ℕ → Ledger → Ledger
unfolding close_row prune_inbox
set_done message l = record l {
  inbox = prune_inbox (update (message_is message) close_row l.inbox);
}

unfoldable pub set_free : ℕ → Ledger → Ledger
set_free message l = record l {
  inbox = update (message_is message) (λ r. record r { consumer = none }) l.inbox;
}

-- `inbox_update`, with its three switches.
unfoldable pub inbox_update : ℕ → Bool → Bool → Bool → Ledger → Ledger
unfolding set_receipt set_done set_free
inbox_update message receipt finished release l =
    let l' = if receipt then set_receipt message l else l in
    let l'' = if finished then set_done message l' else l' in
    if release then set_free message l'' else l''

-- `claim`: whether the request is a new one.
unfoldable pub claim : ℕ → Ledger → Outcome (Ledger × Bool)
claim message l =
    if member message l.requests
    then done (l, false)
    else if leb 10000 (length l.requests)
    then failed ledger_full
    else done (record l { requests = message ∷ l.requests }, true)
