-- ===== src/Tests/Bridges.antt =====
-- The bridge's ledger and the owner's store at concrete inputs.
use ephy_worker.Prelude.{
  ℕ, ◌≡◌, ◌≢◌, ◌≤◌, ◌<◌, refl, true, false, none, some, List, [], ◌∷◌, arith, Bool, Option, length,
  All, not, if◌then◌else◌,
}
use ephy_worker.Contract.Limits.{default_limits}
use ephy_worker.Collect.Budget.{new_budget}
use ephy_worker.Collect.Search.{run_search_stage, new_search_stage}
use ephy_worker.Collect.Allowance.{IsWithin, budget_after}
use ephy_worker.Collect.Searxng.{SearchConfig, Rounds, timed_out, responded, decoded, item, searxng}
use ephy_worker.Collect.Providers.{searxng-IsWithin}
use ephy_worker.Bridge.Context.{Event, done, bounded_text, Context}
use ephy_worker.Bridge.Ledger.{
  InboxRow, Ledger, empty_ledger, new_row, claim, enqueue, claim_next, hand_over, is_held,
  inbox_pending, seen,
}
use ephy_worker.Bridge.Answers.{previous, remember, new_answer, store_answer}
use ephy_worker.Bridge.Machine.{
  Call, opens, enqueues, updates, remembers, perform, run, Reach, start, next,
}
use ephy_worker.Bridge.Bounds.{IsWell, Reach-IsWell}
use ephy_worker.Bridge.Once.{claim_once, claim_pending, claim_next-IsOldest}
use ephy_worker.Bridge.Replies.{IsShort, remember_then_previous, may_see, answers_bounded}
use ephy_worker.Tests.Stages.{two_turns, fresh-IsWithin}

abbrev engine_config : SearchConfig
engine_config = record { engine = "e"; max_results = 5; retries = 1; response_bytes = 1000 }

-- The first round of a search times out, and the second answers.
abbrev some_rounds : Rounds
some_rounds = record {
  exchange = λ left. if◌then◌else◌ (ephy_worker.Prelude.◌==◌ left 1) timed_out (
      responded 200 (10 ∷ []) (
        decoded (record {
          unresponsive_engines = [];
          results = some (item [] (some "https://example.org") "t" "s" ∷ []);
        })));
  now = λ left. 2;
}

searxng-IsWithin_example : IsWithin (
    budget_after (
      run_search_stage
        (searxng engine_config (λ q. some_rounds) (λ text. text) (λ text. false))
        two_turns
        new_search_stage
        (new_budget default_limits 0)))
searxng-IsWithin_example =
    searxng-IsWithin engine_config (λ q. some_rounds) (λ text. text) (λ text. false) two_turns
      new_search_stage (new_budget default_limits 0) fresh-IsWithin

abbrev pub question_event : Event
question_event = record {
  message_id = 7;
  guild_id = some 1;
  channel_id = 2;
  user_id = 3;
  content = "what is new";
  mentioned = true;
  reply_to = none;
  author_bot = false;
  webhook = false;
  system = false;
  mention_everyone = false;
}

abbrev reply_event : Event
reply_event = record question_event { message_id = 8; reply_to = some 50 }

abbrev first_call : Call
first_call = enqueues question_event "what is new" none none (some "1:2:3") none

abbrev pub first_ledger : Ledger
first_ledger = perform first_call empty_ledger

first-Reach : (has_repairs : Bool) → Reach has_repairs first_ledger
first-Reach has_repairs = next start first_call tt

Reach-IsWell_example : IsWell false first_ledger
Reach-IsWell_example = Reach-IsWell false first_ledger (first-Reach false)

abbrev asked_row : InboxRow
asked_row = new_row question_event "what is new" none none (some "1:2:3") none 1

abbrev claimed_ledger : Ledger
claimed_ledger = record {
  requests = 7 ∷ [];
  inbox = asked_row ∷ [];
  answers = [];
  last_sequence = 1;
}

first_claim : claim 7 first_ledger ≡ done (claimed_ledger, true)
unfolding claim perform enqueue ephy_worker.Prelude.Table.find ephy_worker.Prelude.Table.count
    ephy_worker.Prelude.Table.insert
first_claim = refl

claim_once_example :
    (claim 7 (run (updates 7 true true true ∷ opens ∷ []) claimed_ledger)
      ≡ done (run (updates 7 true true true ∷ opens ∷ []) claimed_ledger, false))
    × (enqueue question_event "what is new" none none none none
          (run (updates 7 true true true ∷ opens ∷ []) claimed_ledger)
        ≡ done (run (updates 7 true true true ∷ opens ∷ []) claimed_ledger, false))
unfolding ephy_worker.Bridge.Context.community_context
claim_once_example =
    claim_once 7 first_ledger claimed_ledger (updates 7 true true true ∷ opens ∷ []) question_event
      "what is new" none none none none none first_claim refl refl

first_pending : inbox_pending (some 7) first_ledger ≡ true
unfolding inbox_pending ephy_worker.Prelude.Table.find perform enqueue
    ephy_worker.Prelude.Table.count ephy_worker.Prelude.Table.insert
first_pending = refl

claim_pending_example :
    (l' : Ledger) × (claim 7 first_ledger ≡ done (l', not (seen 7 first_ledger)))
    × (seen 7 l' ≡ true)
claim_pending_example = claim_pending first_ledger 7 (first-Reach false) first_pending

first_turn :
    claim_next (λ text. false) "9:9:9" first_ledger
    ≡ (hand_over (some "9:9:9") 1 first_ledger, some asked_row)
unfolding claim_next ephy_worker.Prelude.Table.find perform enqueue ephy_worker.Prelude.Table.count
    ephy_worker.Prelude.Table.insert
first_turn = refl

claim_next-IsOldest_example :
    (asked_row.finished ≡ false)
    × (is_held (λ text. false) asked_row.consumer ≡ false)
    × All (λ x. x.finished ≡ false → asked_row.sequence ≤ x.sequence) first_ledger.inbox
    × (hand_over (some "9:9:9") 1 first_ledger
        ≡ hand_over (some "9:9:9") asked_row.sequence first_ledger)
claim_next-IsOldest_example =
    claim_next-IsOldest true first_ledger (hand_over (some "9:9:9") 1 first_ledger) (λ text. false)
      "9:9:9" asked_row (first-Reach true) first_turn

abbrev answered_ledger : Ledger
answered_ledger = store_answer (new_answer 50 question_event "an answer" none 1000) first_ledger

first_answer : remember 50 question_event "an answer" none 1000 first_ledger ≡ done answered_ledger
unfolding remember ephy_worker.Bridge.Context.community_context
first_answer = refl

remember_then_previous_example : previous 2000 reply_event answered_ledger ≡ (
    if may_see 1000 question_event reply_event 2000
    then some (bounded_text "an answer" 1200)
    else none)
unfolding perform enqueue ephy_worker.Prelude.Table.find ephy_worker.Prelude.Table.count
remember_then_previous_example =
    remember_then_previous 50 question_event reply_event "an answer" none 1000 2000 first_ledger
      answered_ledger tt first_answer refl

abbrev answering_calls : List Call
answering_calls =
    first_call
    ∷ remembers 50 question_event "an answer" none 1000
    ∷ remembers 50 question_event "a later answer" none 2000
    ∷ opens
    ∷ []

answers_bounded_example : IsShort (run answering_calls empty_ledger)
answers_bounded_example = answers_bounded answering_calls
