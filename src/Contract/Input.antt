-- ===== src/Contract/Input.antt =====
-- Job inputs, capabilities, registration and submission (contracts.py).
use Prim.Native.String.{count}
use ephy_worker.Prelude.{
  ℕ, String, Bool, true, false, not, ◌&&◌, List, [], ◌∷◌, Option, none, some, map, ◌==◌, leb,
  length, all, any, member, str_eq,
}
use ephy_worker.Contract.Limits.{Limits, between, limits_valid}

-- "0.4", in tenths.
abbrev pub contract_version : ℕ
contract_version = 4

pub data Kind : Type 0 where
  web_collect discord_observe : Kind

pub data Mode : Type 0 where
  search extract observe : Mode

pub data Role : Type 0 where
  overview primary limitations gap : Role

unfoldable pub kind_eq : Kind → Kind → Bool
kind_eq web_collect web_collect = true
kind_eq discord_observe discord_observe = true
kind_eq _ _ = false

unfoldable pub mode_eq : Mode → Mode → Bool
mode_eq search search = true
mode_eq extract extract = true
mode_eq observe observe = true
mode_eq _ _ = false

pub record JobQuery : Type 0 where
  pub query_id : String
  pub text : String
  pub role : Role
  pub reason : String

pub record Candidate : Type 0 where
  pub url : String
  pub title : String
  pub snippet : String
  pub query_id : String
  pub engine : String
  pub rank : ℕ
  pub discovered_at : String
  pub supplied : Bool

pub record SearchInput : Type 0 where
  pub topic : String
  pub round_index : ℕ
  pub queries : List JobQuery

pub record ExtractInput : Type 0 where
  pub topic : String
  pub round_index : ℕ
  pub candidates : List Candidate

pub record ObserveInput : Type 0 where
  pub guild_id : ℕ
  pub channel_ids : List ℕ
  pub observed_before : ℕ
  pub max_messages_per_channel : ℕ

pub data JobInput : Type 0 where
  search_input : SearchInput → JobInput
  extract_input : ExtractInput → JobInput
  observe_input : ObserveInput → JobInput

unfoldable pub mode_of : JobInput → Mode
mode_of (search_input i) = search
mode_of (extract_input i) = extract
mode_of (observe_input i) = observe

-- `len(set(xs)) == len(xs)`.
unfoldable pub distinct_numbers : List ℕ → Bool
distinct_numbers [] = true
distinct_numbers (x ∷ xs) = not (member x xs) && distinct_numbers xs

unfoldable pub distinct_texts : List String → Bool
distinct_texts [] = true
distinct_texts (x ∷ xs) = not (any (λ y. str_eq y x) xs) && distinct_texts xs

unfoldable pub search_valid : SearchInput → Bool
search_valid i =
    between 1 500 (count i.topic) && leb i.round_index 8 && between 1 10 (length i.queries)

unfoldable pub extract_valid : ExtractInput → Bool
unfolding distinct_texts
extract_valid i =
    between 1 500 (count i.topic)
    && leb i.round_index 8
    && between 1 30 (length i.candidates)
    && distinct_texts (map (λ c. c.url) i.candidates)

unfoldable pub observe_valid : ObserveInput → Bool
unfolding distinct_numbers
observe_valid i =
    between 1 30 (length i.channel_ids)
    && distinct_numbers i.channel_ids
    && between 1 2000 i.max_messages_per_channel

unfoldable pub input_valid : JobInput → Bool
unfolding search_valid extract_valid observe_valid
input_valid (search_input i) = search_valid i
input_valid (extract_input i) = extract_valid i
input_valid (observe_input i) = observe_valid i

-- The capability texts: "web.collect", "discord.observe",
-- "discord.observe.channel.<guild>.<channel>", and any other text.
pub data Capability : Type 0 where
  collect : Capability
  observer : Capability
  observer_channel : ℕ → ℕ → Capability
  other : ℕ → Capability

unfoldable pub capability_eq : Capability → Capability → Bool
capability_eq collect collect = true
capability_eq observer observer = true
capability_eq (observer_channel g c) (observer_channel g' c') = g == g' && c == c'
capability_eq (other n) (other n') = n == n'
capability_eq _ _ = false

unfoldable pub observation_capability : ℕ → ℕ → Capability
observation_capability guild_id channel_id = observer_channel guild_id channel_id

-- `required_job_capabilities`. A kind and a mode that do not fit raise `ValueError`: `none`.
unfoldable pub required_job_capabilities : Kind → JobInput → Option (List Capability)
unfolding observation_capability
required_job_capabilities discord_observe (observe_input i) =
    some (observer ∷ map (observation_capability i.guild_id) i.channel_ids)
required_job_capabilities discord_observe _ = none
required_job_capabilities web_collect (search_input i) = some (collect ∷ [])
required_job_capabilities web_collect (extract_input i) = some (collect ∷ [])
required_job_capabilities web_collect (observe_input i) = none

-- `required <= set(capabilities)`.
unfoldable pub covers : List Capability → List Capability → Bool
unfolding capability_eq
covers capabilities required = all (λ r. any (capability_eq r) capabilities) required

pub record WorkerRegistration : Type 0 where
  pub contract : ℕ
  pub worker_id : ℕ
  pub capabilities : List Capability
  pub implementation_version : String
  pub os : String
  pub architecture : String
  pub concurrency : ℕ

-- The worker id "auto", a scheduling target and the id of no worker.
abbrev pub auto : ℕ
auto = 0

unfoldable pub registration_valid : WorkerRegistration → Bool
unfolding capability_eq
registration_valid r =
    r.contract == contract_version
    && between 1 32 (length r.capabilities)
    && between 1 16 r.concurrency
    && any (capability_eq collect) r.capabilities
    && not (r.worker_id == auto)

pub record SubmitJob : Type 0 where
  pub contract : ℕ
  pub submit_key : String
  pub parent_job_id : Option ℕ
  pub kind : Kind
  pub input : JobInput
  pub target_worker_id : ℕ
  pub budget : Limits
  pub deadline_seconds : ℕ

-- `kind_matches_input`.
unfoldable pub kind_matches_input : Kind → JobInput → Bool
kind_matches_input discord_observe (observe_input i) = true
kind_matches_input discord_observe _ = false
kind_matches_input web_collect (observe_input i) = false
kind_matches_input web_collect _ = true

-- What pydantic checks when a `SubmitJob` is made, but for the patterns of the texts.
unfoldable pub submit_valid : SubmitJob → Bool
submit_valid s =
    s.contract == contract_version
    && between 1 200 (count s.submit_key)
    && input_valid s.input
    && limits_valid s.budget
    && between 1 3600000 s.deadline_seconds
    && kind_matches_input s.kind s.input
