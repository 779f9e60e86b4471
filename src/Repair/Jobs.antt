-- ===== src/Repair/Jobs.antt =====
-- The jobs of `RepairStore` (owner_repair.py): `enqueue`, `get`, `next`, `transition`.
use Prim.Native.String.{String}
use ephy_worker.Prelude.{
  ℕ, Bool, not, ◌&&◌, ◌||◌, ◌==◌, ltb, leb, List, [], ◌∷◌, Option, none, some, length, sort, any,
  if◌then◌else◌, str_eq,
}
use ephy_worker.Prelude.Table.{find, select, update, insert}
use ephy_worker.Repair.Rows.{
  owner_user_id, RepairJob, Field, Store, Outcome, done, failed, owner_required, identity_invalid,
  directive_invalid, context_invalid, payload_changed, queue_full, not_found, Identity, snowflakes,
  text_valid, previous_valid, same_text,
}

abbrev pub job_is : String → RepairJob → Bool
job_is id j = str_eq j.id id

unfoldable pub new_repair : String → Identity → String → Option String → ℕ → RepairJob
new_repair id who text previous now = record {
  id = id;
  guild = who.guild_id;
  channel = who.channel_id;
  message = who.message_id;
  author = who.author_id;
  text = text;
  previous = previous;
  stage = "queued";
  fields = [];
  created = now;
  updated = now;
}

-- The transaction of `enqueue`, on the id that it has computed.
unfoldable pub store_repair :
    String → Identity → String → Option String → ℕ → Store → Outcome (Store × String)
unfolding new_repair same_text
store_repair id who text previous now s = elim (find (job_is id) s.jobs) [
  | some old ↦
      if str_eq old.text text && same_text old.previous previous
      then done (s, id)
      else failed payload_changed
  | none ↦
      if leb 10000 (length s.jobs)
      then failed queue_full
      else done (record s { jobs = insert (new_repair id who text previous now) s.jobs }, id)
]

-- `enqueue`.
unfoldable pub enqueue :
    (Identity → String) → Identity → String → Option String → ℕ → Store → Outcome (Store × String)
unfolding store_repair
enqueue identify who text previous now s =
    if not (who.author_id == owner_user_id)
    then failed owner_required
    else if not (snowflakes who)
    then failed identity_invalid
    else if not (text_valid text)
    then failed directive_invalid
    else if not (previous_valid previous)
    then failed context_invalid
    else store_repair (identify who) who text previous now s

-- `get`.
unfoldable pub get : String → Store → Outcome RepairJob
get id s = elim (find (job_is id) s.jobs) [ none ↦ failed not_found | some j ↦ done j ]

abbrev pub is_terminal_stage : String → Bool
is_terminal_stage stage = str_eq stage "completed" || str_eq stage "failed"

abbrev pub older : RepairJob → RepairJob → Bool
older a b = ltb a.created b.created

unfoldable pub first_of : List RepairJob → Option RepairJob
first_of [] = none
first_of (j ∷ js) = some j

-- `next`: the oldest job that has not ended.
unfoldable pub next_repair : Store → Option RepairJob
unfolding first_of
next_repair s = first_of (sort older (select (λ j. not (is_terminal_stage j.stage)) s.jobs))

-- `{**old, **new}`: a key keeps its place and takes the new value.
unfoldable pub put_field : List Field → Field → List Field
put_field old f =
    if any (λ o. str_eq o.key f.key) old
    then update (λ o. str_eq o.key f.key) (λ _. f) old
    else insert f old

unfoldable pub merge : List Field → List Field → List Field
unfolding put_field
merge old [] = old
merge old (f ∷ fs) = merge (put_field old f) fs

unfoldable pub set_stage : String → List Field → ℕ → RepairJob → RepairJob
unfolding merge
set_stage stage fields now j = record j {
  stage = stage;
  fields = merge j.fields fields;
  updated = now;
}

-- `transition`.
unfoldable pub transition : String → String → List Field → ℕ → Store → Outcome Store
unfolding set_stage
transition id stage fields now s = elim (find (job_is id) s.jobs) [
  | none ↦ failed not_found
  | some j ↦ done (record s { jobs = update (job_is id) (set_stage stage fields now) s.jobs })
]
