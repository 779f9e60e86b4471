-- ===== src/Manager/Observations.antt =====
-- The checks on the result of an observation (manager.py, `_validate_observation_result`).
use ephy_worker.Prelude.{
  ℕ, ◌+◌, ◌*◌, Bool, true, false, not, ◌&&◌, ◌||◌, List, [], ◌∷◌, map, Option, none, some, ◌==◌,
  ltb, leb, length, all, any, member, sort,
}
use ephy_worker.Prelude.Table.{count}
use ephy_worker.Contract.Limits.{mib}
use ephy_worker.Contract.Input.{observe_input, search_input, extract_input, ObserveInput}
use ephy_worker.Contract.Observation.{Message, Coverage, Completeness, complete, ObservePayload}
use ephy_worker.Contract.Result.{
  ResultEnvelope, observe_payload, search_payload, extract_payload, Status,
}
use ephy_worker.Manager.Tables.{
  Job, Result, err, refused, invalid, raise_if, ◌>>◌, observation_payload_mismatch,
  observation_scope_mismatch, observation_collection_time_invalid,
  observation_status_or_usage_mismatch, observation_budget_exceeded, observation_coverage_mismatch,
  observation_activity_mismatch,
}
use ephy_worker.Manager.Activity.{day, activity, same_lists, same_activity}

-- `set(xs) == set(ys)`.
same_set : List ℕ → List ℕ → Bool
same_set xs ys = all (λ x. member x ys) xs && all (λ y. member y xs) ys

unfoldable pub scope_matches : ObserveInput → Coverage → Bool
unfolding same_set same_lists
scope_matches input v =
    v.guild_id == input.guild_id
    && same_lists (λ a b. a == b) v.channel_ids input.channel_ids
    && v.window_end == input.observed_before
    && v.window_end == v.window_start + 30 * day
    && same_set (map (λ c. c.channel_id) v.channels) input.channel_ids
    && length v.channels == length input.channel_ids

is_complete : Completeness → Bool
is_complete complete = true
is_complete _ = false

is_success : Status → Bool
is_success Status.succeeded = true
is_success _ = false

guild_matches : Option ℕ → ℕ → Bool
guild_matches none guild_id = true
guild_matches (some g) guild_id = g == guild_id

is_empty {ℓ} : {A : Type ℓ} → List A → Bool
is_empty [] = true
is_empty (x ∷ xs) = false

abbrev pub messages_in : List Message → ℕ → ℕ
messages_in messages channel_id = count (λ m. m.channel_id == channel_id) messages

-- The checks on an observation payload, in the order of the code. `created_at - 1` is a second.
unfoldable pub validate_observation :
    ℕ → Job → ObserveInput → ResultEnvelope → ObservePayload → Result (Unit {0})
unfolding is_complete is_success guild_matches is_empty
validate_observation now row input r p = do
  let v = p.coverage
  raise_if (not (scope_matches input v)) observation_scope_mismatch 409
  raise_if (not (leb row.created_at (v.observed_at + 1000) && leb v.observed_at (now + 60000)))
      observation_collection_time_invalid 409
  raise_if
      (is_success r.status && (not (is_complete v.status) || not (is_empty p.failures))
        || ltb 0 r.usage.search_requests
        || ltb 0 r.usage.model_requests)
      observation_status_or_usage_mismatch 409
  raise_if (not (guild_matches p.snapshot.guild input.guild_id)) observation_scope_mismatch 409
  raise_if (any (λ c. not (c.guild_id == input.guild_id)) p.snapshot.channels)
      observation_scope_mismatch 409
  raise_if
      (any (λ m. ltb input.max_messages_per_channel (messages_in p.messages m.channel_id))
          p.messages
        || any (λ c. ltb input.max_messages_per_channel c.message_count) v.channels)
      observation_budget_exceeded 409
  raise_if (any (λ c. not (c.message_count == messages_in p.messages c.channel_id)) v.channels)
      observation_coverage_mismatch 409
  raise_if
      (not (
        same_lists same_activity (sort (λ a b. ltb a.period_days b.period_days) p.activity)
          (activity p.messages input)))
      observation_activity_mismatch 409
  raise_if
      (ltb row.budget.fetch_requests r.usage.fetch_requests || ltb (8 * mib) r.usage.document_bytes)
      observation_budget_exceeded 409

-- `_validate_observation_result`. The input of a row of this kind is an observation's.
unfoldable pub validate_observation_result : ℕ → Job → ResultEnvelope → Result (Unit {0})
unfolding validate_observation
validate_observation_result now row r = elim r.payload [
  | search_payload q k f ↦ err (refused observation_payload_mismatch 409)
  | extract_payload s f ↦ err (refused observation_payload_mismatch 409)
  | observe_payload p ↦ elim row.input [
    | observe_input input ↦ validate_observation now row input r p
    | search_input i ↦ err invalid
    | extract_input i ↦ err invalid
  ]
]
