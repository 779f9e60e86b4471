-- ===== src/Bridge/Context.antt =====
-- What the bridge keeps with a message (discord_runtime.py): the community context and bounded texts.
use Prim.Native.Char.{Char, code}
use Prim.Native.String
use ephy_worker.Prelude.{
  ℕ, ◌+◌, ◌-◌, Bool, ◌&&◌, ◌||◌, ◌==◌, leb, ltb, str_eq, Option, none, some, if◌then◌else◌, any, [],
  ◌∷◌,
}
use Prim.Native.String.{String}

-- `DiscordEvent`.
pub record Event : Type 0 where
  pub message_id : ℕ
  pub guild_id : Option ℕ
  pub channel_id : ℕ
  pub user_id : ℕ
  pub content : String
  pub mentioned : Bool
  pub reply_to : Option ℕ
  pub author_bot : Bool
  pub webhook : Bool
  pub system : Bool
  pub mention_everyone : Bool

-- The codes of `BridgeError` that the ledger and the intake raise.
pub data BridgeCode : Type 0 where
  queue_full ledger_full context_invalid question_not_public scope_mismatch context_unavailable
        classification_failed gateway_failed :
      BridgeCode

-- What a method gives back, or the error that it raises.
pub data Outcome {ℓ} (A : Type ℓ) : Type ℓ where
  done : A → Outcome A
  failed : BridgeCode → Outcome A

-- The keys of a community context; a dictionary with other keys is never one.
pub record Context : Type 0 where
  pub operation : String
  pub period_days : ℕ

unfoldable pub context_valid : Context → Bool
context_valid c =
    any (str_eq c.operation) ("report" ∷ "snapshot" ∷ "activity" ∷ "discussion" ∷ "unresolved" ∷ [])
    && (c.period_days == 7 || c.period_days == 30)

-- `_community_context`.
unfoldable pub community_context : Option Context → Outcome (Option Context)
unfolding context_valid
community_context none = done none
community_context (some c) = if context_valid c then done (some c) else failed context_invalid

-- How many UTF-16 units a character takes.
unfoldable pub units_of : Char → ℕ
units_of ch = if ltb 65535 (code ch) then 2 else 1

unfoldable pub units : String → ℕ
unfolding units_of
units String.[] = 0
units (String.◌∷◌ ch s) = units_of ch + units s

-- The characters that lie whole within so many units: `decode(errors="ignore")` drops half of a pair.
unfoldable pub retained : ℕ → String → String
unfolding units_of
retained n String.[] = String.[]
retained n (String.◌∷◌ ch s) =
    let rest = retained (n - units_of ch) s in
    if leb (units_of ch) n then String.◌∷◌ ch rest else String.[]

abbrev pub omitted : String
omitted = "\n（続きは省略しました．）"

-- `bounded_text`, for bounds that leave room for the 13 characters of the note.
unfoldable pub bounded_text : String → ℕ → String
unfolding units retained
bounded_text value bound =
    if leb (units value) bound then value else String.◌++◌ (retained (bound - 13) value) omitted
