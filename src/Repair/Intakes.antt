-- ===== src/Repair/Intakes.antt =====
-- The intakes of `RepairStore` (owner_repair.py): `capture_intake`, `pending_intakes`, `claim_intake`,
-- `update_intake`. A reading of the clock is an argument.
use Prim.Native.String.{String}
use ephy_worker.Prelude.{
  ℕ, Bool, true, false, not, ◌&&◌, ◌||◌, ◌==◌, ltb, leb, List, Option, none, some, length, member,
  sort, if◌then◌else◌, str_eq,
}
use ephy_worker.Prelude.Table.{find, select, update, insert}
use ephy_worker.Bridge.Context.{Context, context_valid}
use ephy_worker.Repair.Rows.{
  owner_user_id, Route, Intake, Store, Outcome, done, failed, owner_required, intake_invalid,
  context_invalid, payload_changed, queue_full, Identity, snowflakes, text_valid, previous_valid,
  same_text, same_context,
}

abbrev pub intake_is : String → Intake → Bool
intake_is id i = str_eq i.id id

unfoldable pub given_valid : Option Context → Bool
unfolding context_valid
given_valid none = true
given_valid (some c) = context_valid c

unfoldable pub same_intake : String → Option String → Option Context → Intake → Bool
unfolding same_text same_context
same_intake text previous context i =
    str_eq i.text text && same_text i.previous previous && same_context i.context context

unfoldable pub new_intake : String → Identity → String → Option String → Option Context → ℕ → Intake
new_intake id who text previous context now = record {
  id = id;
  guild = who.guild_id;
  channel = who.channel_id;
  message = who.message_id;
  author = who.author_id;
  text = text;
  previous = previous;
  route = none;
  receipt = false;
  finished = false;
  consumer = none;
  created = now;
  context = context;
}

-- The transaction of `capture_intake`, on the id that it has computed.
unfoldable pub store_intake :
    String
    → Identity
    → String
    → Option String
    → Option Context
    → ℕ
    → Store
    → Outcome (Store × String)
unfolding same_intake new_intake
store_intake id who text previous context now s = elim (find (intake_is id) s.intakes) [
  | some old ↦
      if same_intake text previous context old then done (s, id) else failed payload_changed
  | none ↦
      if leb 10000 (length s.intakes)
      then failed queue_full
      else done (
        record s { intakes = insert (new_intake id who text previous context now) s.intakes },
        id,
      )
]

-- `capture_intake`. `identify` makes the id of an identity.
unfoldable pub capture_intake :
    (Identity → String)
    → Identity
    → String
    → Option String
    → Option Context
    → ℕ
    → Store
    → Outcome (Store × String)
unfolding store_intake given_valid
capture_intake identify who text previous context now s =
    if not (who.author_id == owner_user_id)
    then failed owner_required
    else if not (snowflakes who && text_valid text && previous_valid previous)
    then failed intake_invalid
    else if not (given_valid context)
    then failed context_invalid
    else store_intake (identify who) who text previous context now s

abbrev pub before : Intake → Intake → Bool
before a b = ltb a.created b.created

abbrev pub in_scope : ℕ → List ℕ → Intake → Bool
in_scope guild_id channel_ids i =
    i.guild == guild_id && member i.channel channel_ids && i.author == owner_user_id

-- `pending_intakes`.
unfoldable pub pending_intakes : ℕ → List ℕ → Store → List Intake
pending_intakes guild_id channel_ids s =
    select (in_scope guild_id channel_ids) (sort before (select (λ i. not i.finished) s.intakes))

-- Whether another process holds an intake; `alive` is what psutil says of the one that is named.
unfoldable pub is_held_by_other : (String → Bool) → String → Option String → Bool
is_held_by_other alive consumer none = false
is_held_by_other alive consumer (some holder) =
    not (str_eq holder "") && not (str_eq holder consumer) && alive holder

unfoldable pub hold_intake : String → String → Store → Store
hold_intake id consumer s = record s {
  intakes = update (intake_is id) (λ i. record i { consumer = some consumer }) s.intakes;
}

-- `claim_intake`.
unfoldable pub claim_intake : (String → Bool) → String → String → Store → Store × Option Intake
unfolding is_held_by_other hold_intake
claim_intake alive id consumer s = elim (find (λ i. intake_is id i && not i.finished) s.intakes) [
  | none ↦ (s, none)
  | some i ↦
      if is_held_by_other alive consumer i.consumer
      then (s, none)
      else (hold_intake id consumer s, some i)
]

-- `COALESCE(?, route)`.
unfoldable pub coalesce : Option Route → Option Route → Option Route
coalesce none old = old
coalesce (some r) old = some r

-- The SET clause of `update_intake`.
unfoldable pub change_intake : Option Route → Bool → Bool → Bool → Intake → Intake
unfolding coalesce
change_intake route receipt finished release i = record i {
  route = coalesce route i.route;
  receipt = i.receipt || receipt;
  finished = i.finished || finished;
  consumer = if release then none else i.consumer;
}

unfoldable pub is_held_by : String → Intake → Bool
is_held_by consumer i = same_text i.consumer (some consumer)

-- `update_intake`. A route of another name is refused, and here no value at all.
unfoldable pub update_intake : String → String → Option Route → Bool → Bool → Bool → Store → Store
unfolding change_intake is_held_by
update_intake id consumer route receipt finished release s = record s {
  intakes =
      update (λ i. intake_is id i && is_held_by consumer i)
        (change_intake route receipt finished release) s.intakes;
}

-- The UPDATE that the bridge makes itself when it has sent a receipt.
unfoldable pub mark_receipt : String → Store → Store
mark_receipt id s = record s {
  intakes = update (intake_is id) (λ i. record i { receipt = true }) s.intakes;
}
