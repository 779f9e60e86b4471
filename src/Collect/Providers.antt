-- ===== src/Collect/Providers.antt =====
-- The SearXNG provider keeps the promise that the search stage asks of a provider.
use ephy_worker.Prelude.{
  ℕ, zero, suc, ◌+◌, ◌≤◌, ◌≡◌, ◌≢◌, refl, subst, ◌⊎◌, inl, inr, String, Bool, Bool-cases, true, not,
  ◌&&◌, List, arith, ◌==◌,
}
use ephy_worker.Contract.Input.{JobQuery}
use ephy_worker.Collect.Budget.{Budget, Category, category_eq, allowed, take, raise_count}
use ephy_worker.Collect.Search.{Turn, SearchStage, run_search_stage}
use ephy_worker.Collect.Allowance.{
  IsWithin, AllTaken, Taken-cases, take-IsWithin, budget_after, run_search_stage-IsWithin,
}
use ephy_worker.Collect.Searxng.{
  SearchConfig, Exchange, timed_out, request_error, task_cancelled, halted, responded, Body,
  not_json, decoded, decode_body, SearchResponse, Rounds, Round, got, failed, round_of, json_rounds,
  fetch_json, Fetched, broken, SearchCode, retry_exhausted, searxng, search_once,
}

Round-cases :
    (r : Round)
    → ((p : SearchResponse) × (r ≡ got p))
      ⊎ (((why : SearchCode) × (again : Bool) × (r ≡ failed why again)) ⊎ (r ≡ halted))
Round-cases (got p) = inl (p, refl)
Round-cases (failed why again) = inr (inl (why, again, refl))
Round-cases halted = inr (inr refl)

-- What a request of the loop leaves: the limits hold, and it is one request more.
record IsAsked (b b' : Budget) : Type 0 where
  pub within : IsWithin b → IsWithin b'
  pub one_more : b'.counts Category.search_requests ≡ b.counts Category.search_requests + 1

take-IsAsked :
    (now : ℕ) (b b' : Budget) → take Category.search_requests 1 now b ≡ allowed b' → IsAsked b b'
take-IsAsked now b b' e = record {
  within = λ h. subst (AllTaken IsWithin) e (take-IsWithin Category.search_requests 1 now b h);
  one_more = unfold take raise_count category_eq in ground arith;
}

-- The loop keeps the limits, and takes at most one request for each round.
pub record IsBounded (rounds : ℕ) (b b' : Budget) : Type 0 where
  pub kept : IsWithin b → IsWithin b'
  pub requests : b'.counts Category.search_requests ≤ b.counts Category.search_requests + rounds

json_rounds-IsBounded :
    (c : SearchConfig) (rounds : Rounds) (n : ℕ) (b : Budget)
    → IsBounded n b (json_rounds c rounds n b).0
unfolding json_rounds
json_rounds-IsBounded c rounds zero b = record { kept = λ h. h; requests = omega arith }
json_rounds-IsBounded c rounds (suc left) b =
    elim (Taken-cases (take Category.search_requests 1 (rounds.now left) b)) [
      | inr refusal ↦ rw (json_rounds, refusal.1) (record { kept = λ h. h; requests = omega arith })
      | inl grant ↦
          let asked = take-IsAsked (rounds.now left) b grant.0 grant.1 in
          let stop : IsBounded (suc left) b grant.0 = record {
            kept = asked.within;
            requests = omega (arith, asked.one_more);
          } in
          elim (Round-cases (round_of c (rounds.exchange left))) [
            | inl answer ↦ rw (json_rounds, grant.1, answer.1) stop
            | inr (inr cut) ↦ rw (json_rounds, grant.1, cut) stop
            | inr (inl (why, again, e)) ↦ elim (Bool-cases (again && not (left == 0))) [
              | inr over ↦ rw (json_rounds, grant.1, e, over) stop
              | inl more ↦
                  let rest = json_rounds-IsBounded c rounds left grant.0 in
                  rw (json_rounds, grant.1, e, more)
                    (record {
                      kept = λ h. rest.kept (asked.within h);
                      requests = omega (arith, asked.one_more, rest.requests);
                    })
            ]
          ]
    ]

-- One search of the provider, whatever meets its rounds: it keeps every limit of the budget, and it
-- takes at most one request more than the configured retries.
pub search_once-IsBounded :
    (c : SearchConfig) (rounds : Rounds) (q : JobQuery) (b : Budget)
    → IsBounded (c.retries + 1) b (search_once c rounds q b).0
unfolding search_once fetch_json
search_once-IsBounded c rounds q b = json_rounds-IsBounded c rounds (c.retries + 1) b

-- The search stage with this provider, over any plan and whatever the server answers, leaves a budget
-- that is within its limits, however it ends (also cancelled), if it starts with one.
pub searxng-IsWithin :
    (c : SearchConfig) (rounds : JobQuery → Rounds) (key : String → String)
    (is_private : String → Bool) (turns : List Turn) (r : SearchStage) (b : Budget)
    → IsWithin b
    → IsWithin (budget_after (run_search_stage (searxng c rounds key is_private) turns r b))
searxng-IsWithin c rounds key is_private turns r b h =
    run_search_stage-IsWithin (searxng c rounds key is_private) turns r b
      (unfold searxng in λ q b' h'. (search_once-IsBounded c (rounds q) q b').kept h') h

-- The error after the loop is not raised while a round is left.
abbrev IsAnswered : Fetched → Type 0
IsAnswered (broken why) = why ≢ retry_exhausted
IsAnswered f = Unit

round_of-failed :
    (c : SearchConfig) (e : Exchange) (why : SearchCode) (again : Bool)
    → round_of c e ≡ failed why again
    → why ≢ retry_exhausted
unfolding round_of decode_body
round_of-failed c timed_out why again h q = cc
round_of-failed c request_error why again h q = cc
round_of-failed c task_cancelled why again h q = cc
round_of-failed c (responded status chunks not_json) why again h q = ground arith
round_of-failed c (responded status chunks Body.not_an_object) why again h q = ground arith
round_of-failed c (responded status chunks (decoded r)) why again h q = ground arith

first_round :
    (c : SearchConfig) (rounds : Rounds) (n : ℕ) (b : Budget)
    → ((b' : Budget) → not (n == 0) ≡ true → IsAnswered (json_rounds c rounds n b').1)
    → IsAnswered (json_rounds c rounds (suc n) b).1
unfolding json_rounds
first_round c rounds n b rest =
    elim (Taken-cases (take Category.search_requests 1 (rounds.now n) b)) [
      | inr refusal ↦ rw (json_rounds, refusal.1) tt
      | inl grant ↦ elim (Round-cases (round_of c (rounds.exchange n))) [
        | inl answer ↦ rw (json_rounds, grant.1, answer.1) tt
        | inr (inr cut) ↦ rw (json_rounds, grant.1, cut) tt
        | inr (inl (why, again, e)) ↦ elim (Bool-cases (again && not (n == 0))) [
          | inr over ↦
              rw (json_rounds, grant.1, e, over) (round_of-failed c (rounds.exchange n) why again e)
          | inl more ↦ rw (json_rounds, grant.1, e, more) (rest grant.0 (ground arith))
        ]
      ]
    ]

json_rounds-IsAnswered :
    (c : SearchConfig) (rounds : Rounds) (n : ℕ) (b : Budget)
    → IsAnswered (json_rounds c rounds (suc n) b).1
json_rounds-IsAnswered c rounds zero b =
    first_round c rounds zero b (λ b' more. absurd (ground arith))
json_rounds-IsAnswered c rounds (suc n) b =
    first_round c rounds (suc n) b (λ b' more. json_rounds-IsAnswered c rounds n b')

-- The loop of `_json` never gets past its last round: the error "searxng_retry_exhausted" that stands
-- after it is not raised, whatever the server answers.
pub fetch_json-IsAnswered :
    (c : SearchConfig) (rounds : Rounds) (b : Budget)
    → (fetch_json c rounds b).1 ≢ broken retry_exhausted
unfolding fetch_json
fetch_json-IsAnswered c rounds b e =
    let one_more : suc c.retries ≡ c.retries + 1 = omega arith in
    let answered : IsAnswered (json_rounds c rounds (c.retries + 1) b).1 =
      subst (λ n. IsAnswered (json_rounds c rounds n b).1) one_more
        (json_rounds-IsAnswered c rounds c.retries b) in
    subst IsAnswered e answered refl
