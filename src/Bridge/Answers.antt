-- ===== src/Bridge/Answers.antt =====
-- The answers that the ledger keeps for replies (discord_runtime.py, `BridgeLedger`: `previous`,
-- `previous_context`, `remember`).
use Prim.Native.String.{String}
use ephy_worker.Prelude.{
  take, ℕ, ◌+◌, Bool, true, false, not, ◌&&◌, ◌==◌, ltb, any, List, Option, none, some, sort,
  if◌then◌else◌, str_eq,
}
use ephy_worker.Prelude.Table.{find, delete, insert}
use ephy_worker.Bridge.Context.{
  Event, Outcome, done, failed, Context, community_context, bounded_text,
}
use ephy_worker.Bridge.Ledger.{Answer, Ledger}

abbrev pub same_guild : Option ℕ → Option ℕ → Bool
same_guild none none = true
same_guild (some g) (some g') = g == g'
same_guild _ _ = false

-- A day, in seconds.
abbrev pub answer_seconds : ℕ
answer_seconds = 86400

-- The WHERE clause of `previous`: the answer that is replied to, to the same user in the same place,
-- not a day old.
unfoldable pub is_reply_to : ℕ → Event → ℕ → Answer → Bool
is_reply_to now event answer_id a =
    a.id == answer_id
    && same_guild a.guild event.guild_id
    && a.channel == event.channel_id
    && a.user == event.user_id
    && ltb now (a.created + answer_seconds)

unfoldable pub content_of : Option Answer → Option String
content_of none = none
content_of (some a) = some a.content

-- `previous`.
unfoldable pub previous : ℕ → Event → Ledger → Option String
unfolding is_reply_to content_of
previous now event l = elim event.reply_to [
  | none ↦ none
  | some answer_id ↦ content_of (find (is_reply_to now event answer_id) l.answers)
]

unfoldable pub with_context : String → Answer → Outcome (Option String × Option Context)
with_context content a =
    if str_eq a.content content
    then elim (community_context a.context) [
      | failed code ↦ failed code
      | done context ↦ done (some a.content, context)
    ]
    else done (none, none)

-- `previous_context`, with the two readings of the clock.
unfoldable pub previous_context : ℕ → ℕ → Event → Ledger → Outcome (Option String × Option Context)
unfolding previous is_reply_to with_context
previous_context now again event l = elim (previous now event l) [
  | none ↦ done (none, none)
  | some content ↦ elim event.reply_to [
    | none ↦ done (none, none)
    | some answer_id ↦ elim (find (is_reply_to again event answer_id) l.answers) [
      | none ↦ done (none, none)
      | some a ↦ with_context content a
    ]
  ]
]

unfoldable pub new_answer : ℕ → Event → String → Option Context → ℕ → Answer
unfolding bounded_text
new_answer answer_id event content context now = record {
  id = answer_id;
  guild = event.guild_id;
  channel = event.channel_id;
  user = event.user_id;
  content = bounded_text content 1200;
  created = now;
  context = context;
}

abbrev pub newer : Answer → Answer → Bool
newer a b = ltb b.created a.created

-- ORDER BY created DESC LIMIT 128.
unfoldable pub newest : List Answer → List Answer
unfolding sort
newest answers = take 128 (sort newer answers)

-- The answers whose id is among those of the newest.
unfoldable pub keep_newest : List Answer → List Answer
unfolding newest
keep_newest answers = delete (λ a. not (any (λ x. x.id == a.id) (newest answers))) answers

-- INSERT OR REPLACE, and the DELETE behind it.
unfoldable pub store_answer : Answer → Ledger → Ledger
unfolding keep_newest
store_answer a l = record l {
  answers = keep_newest (insert a (delete (λ x. x.id == a.id) l.answers));
}

-- `remember`.
unfoldable pub remember : ℕ → Event → String → Option Context → ℕ → Ledger → Outcome Ledger
unfolding new_answer store_answer
remember answer_id event content given now l = elim (community_context given) [
  | failed code ↦ failed code
  | done context ↦ done (store_answer (new_answer answer_id event content context now) l)
]
