-- ===== src/Contract/Observation.antt =====
-- The Discord observation payload (contracts.py). A permalink is a function of the other
-- identifiers, which `grounded_content` demands, and is left out; so are the fields that no code here
-- reads (edit times, roles, descriptions, limitations), which count in `others` of a result.
use ephy_worker.Prelude.{
  ℕ, String, Bool, true, not, ◌&&◌, ◌||◌, List, [], ◌∷◌, Option, ◌==◌, ltb, leb, all, any, member,
}

pub data ContentStatus : Type 0 where
  available empty_or_unavailable not_requested : ContentStatus

pub record Message : Type 0 where
  pub guild_id : ℕ
  pub channel_id : ℕ
  pub message_id : ℕ
  pub author_id : ℕ
  pub author_bot : Bool
  pub operator : Bool
  pub created_at : ℕ
  pub reply_to_message_id : Option ℕ
  pub content : Option String
  pub content_status : ContentStatus
  pub content_truncated : Bool

pub record ObservedChannel : Type 0 where
  pub id : ℕ
  pub guild_id : ℕ
  pub name : String

pub record Snapshot : Type 0 where
  pub guild : Option ℕ
  pub channels : List ObservedChannel

pub record ChannelActivity : Type 0 where
  pub channel_id : ℕ
  pub message_count : ℕ
  pub unique_authors : ℕ

pub record DailyActivity : Type 0 where
  pub date : ℕ
  pub message_count : ℕ

pub record Activity : Type 0 where
  pub period_days : ℕ
  pub message_count : ℕ
  pub unique_authors : ℕ
  pub human_messages : ℕ
  pub bot_messages : ℕ
  pub operator_messages : ℕ
  pub nonoperator_messages : ℕ
  pub reply_messages : ℕ
  pub operator_reply_messages : ℕ
  pub nonoperator_reply_messages : ℕ
  pub operator_conversation_starts : ℕ
  pub nonoperator_conversation_starts : ℕ
  pub channels : List ChannelActivity
  pub daily : List DailyActivity

pub data Completeness : Type 0 where
  complete partial unavailable : Completeness

pub data Permission : Type 0 where
  granted denied unknown : Permission

pub record ChannelCoverage : Type 0 where
  pub channel_id : ℕ
  pub status : Completeness
  pub message_count : ℕ
  pub history_permission : Permission

pub record Coverage : Type 0 where
  pub guild_id : ℕ
  pub channel_ids : List ℕ
  pub window_start : ℕ
  pub window_end : ℕ
  pub observed_at : ℕ
  pub content_requested : Bool
  pub status : Completeness
  pub channels : List ChannelCoverage

pub data ObservationStage : Type 0 where
  snapshot history worker : ObservationStage

pub record ObservationFailure : Type 0 where
  pub stage : ObservationStage
  pub code : String
  pub channel_id : Option ℕ

pub record ObservePayload : Type 0 where
  pub snapshot : Snapshot
  pub activity : List Activity
  pub messages : List Message
  pub coverage : Coverage
  pub failures : List ObservationFailure

-- The pairs of `identities`, without repetition.
same_message : Message → Message → Bool
same_message m n = m.channel_id == n.channel_id && m.message_id == n.message_id

unfoldable pub distinct_messages : List Message → Bool
unfolding same_message
distinct_messages [] = true
distinct_messages (m ∷ ms) = not (any (same_message m) ms) && distinct_messages ms

-- The scope and window test of one message.
unfoldable pub in_scope : Coverage → Message → Bool
in_scope c m =
    m.guild_id == c.guild_id
    && member m.channel_id c.channel_ids
    && leb c.window_start m.created_at
    && ltb m.created_at c.window_end

-- `bounded_evidence`, but for the size of the serialised payload.
unfoldable pub bounded_evidence : ObservePayload → Bool
unfolding distinct_messages in_scope
bounded_evidence p =
    all (λ a. a.period_days == 7 || a.period_days == 30) p.activity
    && any (λ a. a.period_days == 7) p.activity
    && any (λ a. a.period_days == 30) p.activity
    && distinct_messages p.messages
    && all (in_scope p.coverage) p.messages
