-- ===== src/Repair/Rows.antt =====
-- The three tables of `RepairStore` (owner_repair.py), and the tests of its arguments. The checks of
-- `db` on the file are left out.
use Prim.Native.Char.{code}
use Prim.Native.String.{String, count as count_chars}
use ephy_worker.Prelude.{
  ℕ, ◌^◌, Bool, true, false, not, ◌&&◌, ◌||◌, ◌==◌, ltb, leb, List, [], Option, none, some, str_eq,
}
use ephy_worker.Contract.Limits.{between}
use ephy_worker.Bridge.Context.{Context}

-- `OWNER_USER_ID`.
abbrev pub owner_user_id : ℕ
owner_user_id = 425581535748423680

pub data Route : Type 0 where
  repair conversation : Route

pub record Intake : Type 0 where
  pub id : String
  pub guild : ℕ
  pub channel : ℕ
  pub message : ℕ
  pub author : ℕ
  pub text : String
  pub previous : Option String
  pub route : Option Route
  pub receipt : Bool
  pub finished : Bool
  pub consumer : Option String
  pub created : ℕ
  pub context : Option Context

-- An entry of the JSON object in the column `data`.
pub record Field : Type 0 where
  pub key : String
  pub value : String

pub record RepairJob : Type 0 where
  pub id : String
  pub guild : ℕ
  pub channel : ℕ
  pub message : ℕ
  pub author : ℕ
  pub text : String
  pub previous : Option String
  pub stage : String
  pub fields : List Field
  pub created : ℕ
  pub updated : ℕ

pub data Delivery : Type 0 where
  pending sending sent : Delivery

pub record Outgoing : Type 0 where
  pub job : String
  pub ordinal : ℕ
  pub text : String
  pub state : Delivery
  pub message : Option ℕ

pub record Store : Type 0 where
  pub jobs : List RepairJob
  pub outbox : List Outgoing
  pub intakes : List Intake

abbrev pub empty_store : Store
empty_store = record { jobs = []; outbox = []; intakes = [] }

-- The texts of the errors that the store raises.
pub data RepairCode : Type 0 where
  owner_required intake_invalid context_invalid payload_changed queue_full identity_invalid
        directive_invalid not_found terminal_stage_required delivery_message_invalid :
      RepairCode

pub data Outcome {ℓ} (A : Type ℓ) : Type ℓ where
  done : A → Outcome A
  failed : RepairCode → Outcome A

-- What names a message, and the first 32 digits of the SHA-256 of its text form: the id of a row.
pub record Identity : Type 0 where
  pub guild_id : ℕ
  pub channel_id : ℕ
  pub message_id : ℕ
  pub author_id : ℕ

-- `0 < value < 2**64`.
abbrev pub is_snowflake : ℕ → Bool
is_snowflake n = ltb 0 n && ltb n (2 ^ 64)

unfoldable pub snowflakes : Identity → Bool
snowflakes i = is_snowflake i.guild_id && is_snowflake i.channel_id && is_snowflake i.message_id

-- The characters that `strip` removes.
abbrev pub is_space : ℕ → Bool
is_space c =
    between 9 13 c
    || between 28 32 c
    || c == 133
    || c == 160
    || c == 5760
    || between 8192 8202 c
    || c == 8232
    || c == 8233
    || c == 8239
    || c == 8287
    || c == 12288

-- `not text.strip()`.
unfoldable pub is_blank : String → Bool
is_blank String.[] = true
is_blank (String.◌∷◌ ch s) = is_space (code ch) && is_blank s

unfoldable pub text_valid : String → Bool
unfolding is_blank
text_valid text = not (is_blank text) && leb (count_chars text) 4000

unfoldable pub previous_valid : Option String → Bool
previous_valid none = true
previous_valid (some text) = leb (count_chars text) 8000

-- `a != b`, negated, for texts that may be missing and for contexts.
unfoldable pub same_text : Option String → Option String → Bool
same_text none none = true
same_text (some s) (some t) = str_eq s t
same_text _ _ = false

unfoldable pub same_context : Option Context → Option Context → Bool
same_context none none = true
same_context (some c) (some c') = str_eq c.operation c'.operation && c.period_days == c'.period_days
same_context _ _ = false
