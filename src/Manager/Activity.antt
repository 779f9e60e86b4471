-- ===== src/Manager/Activity.antt =====
-- Counts over observed messages (discord_observer.py, `activity`), and how the manager compares
-- two of them (manager.py, `summary`).
use ephy_worker.Prelude.{
  ℕ, ◌+◌, ◌-◌, ◌*◌, ◌/◌, Bool, true, false, not, ◌&&◌, List, [], ◌∷◌, map, ◌==◌, ltb, leb, is_some,
  length, member, sort, if◌then◌else◌,
}
use ephy_worker.Prelude.Table.{select, count}
use ephy_worker.Contract.Input.{ObserveInput}
use ephy_worker.Contract.Observation.{Message, Activity, ChannelActivity, DailyActivity}

abbrev pub day : ℕ
day = 86400000

-- The values without repetition: `set(xs)`, in the order of the last occurrences.
unfoldable pub distinct : List ℕ → List ℕ
distinct [] = []
distinct (x ∷ xs) = let rest = distinct xs in if member x xs then rest else x ∷ rest

unfoldable pub is_human : Message → Bool
is_human m = not m.author_bot

unfoldable pub is_operator : Message → Bool
is_operator m = is_human m && m.operator

unfoldable pub is_other : Message → Bool
is_other m = is_human m && not m.operator

unfoldable pub is_reply : Message → Bool
is_reply m = is_some m.reply_to_message_id

-- Not earlier than so many days before the end of the window.
unfoldable pub in_last : ℕ → ObserveInput → Message → Bool
in_last days input m = leb input.observed_before (m.created_at + days * day)

unfoldable pub channel_activity : List Message → ℕ → ChannelActivity
unfolding distinct
channel_activity selected c = record {
  channel_id = c;
  message_count = count (λ m. m.channel_id == c) selected;
  unique_authors =
      length (distinct (map (λ m. m.author_id) (select (λ m. m.channel_id == c) selected)));
}

unfoldable pub daily_activity : List Message → List DailyActivity
unfolding distinct
daily_activity selected =
    map (λ d. record { date = d; message_count = count (λ m. m.created_at / day == d) selected })
      (sort ltb (distinct (map (λ m. m.created_at / day) selected)))

-- One turn of the loop of `activity`.
unfoldable pub activity_over : ℕ → List Message → ObserveInput → Activity
unfolding is_human is_operator is_other is_reply in_last channel_activity daily_activity distinct
activity_over days messages input =
    let selected = select (in_last days input) messages in
    record {
      period_days = days;
      message_count = length selected;
      unique_authors = length (distinct (map (λ m. m.author_id) selected));
      human_messages = count is_human selected;
      bot_messages = length selected - count is_human selected;
      operator_messages = count is_operator selected;
      nonoperator_messages = count is_other selected;
      reply_messages = count is_reply selected;
      operator_reply_messages = count (λ m. is_operator m && is_reply m) selected;
      nonoperator_reply_messages = count (λ m. is_other m && is_reply m) selected;
      operator_conversation_starts = count (λ m. is_operator m && not (is_reply m)) selected;
      nonoperator_conversation_starts = count (λ m. is_other m && not (is_reply m)) selected;
      channels = map (channel_activity selected) input.channel_ids;
      daily = daily_activity selected;
    }

-- `activity`.
unfoldable pub activity : List Message → ObserveInput → List Activity
unfolding activity_over
activity messages input = activity_over 7 messages input ∷ activity_over 30 messages input ∷ []

same_channel : ChannelActivity → ChannelActivity → Bool
same_channel a b =
    a.channel_id == b.channel_id
    && a.message_count == b.message_count
    && a.unique_authors == b.unique_authors

same_day : DailyActivity → DailyActivity → Bool
same_day a b = a.date == b.date && a.message_count == b.message_count

unfoldable pub same_lists {ℓ} : {A : Type ℓ} → (A → A → Bool) → List A → List A → Bool
same_lists eq [] [] = true
same_lists eq (x ∷ xs) (y ∷ ys) = eq x y && same_lists eq xs ys
same_lists eq _ _ = false

-- `summary(a) == summary(b)`: the channels and days are sorted before they are compared.
unfoldable pub same_activity : Activity → Activity → Bool
unfolding same_channel same_day same_lists
same_activity a b =
    a.period_days == b.period_days
    && a.message_count == b.message_count
    && a.unique_authors == b.unique_authors
    && a.human_messages == b.human_messages
    && a.bot_messages == b.bot_messages
    && a.operator_messages == b.operator_messages
    && a.nonoperator_messages == b.nonoperator_messages
    && a.reply_messages == b.reply_messages
    && a.operator_reply_messages == b.operator_reply_messages
    && a.nonoperator_reply_messages == b.nonoperator_reply_messages
    && a.operator_conversation_starts == b.operator_conversation_starts
    && a.nonoperator_conversation_starts == b.nonoperator_conversation_starts
    && same_lists same_channel (sort (λ c d. ltb c.channel_id d.channel_id) a.channels)
        (sort (λ c d. ltb c.channel_id d.channel_id) b.channels)
    && same_lists same_day (sort (λ c d. ltb c.date d.date) a.daily)
        (sort (λ c d. ltb c.date d.date) b.daily)
