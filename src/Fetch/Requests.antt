-- ===== src/Fetch/Requests.antt =====
-- Which requests the fetcher makes, and what it takes from the budget.
use Prim.Native.String.{String}
use ephy_worker.Prelude.{
  ℕ, zero, suc, ◌+◌, ◌≤◌, ◌≡◌, ◌≢◌, ◌⊎◌, refl, subst, List, [], ◌∷◌, All, arith, inl, inr,
}
use ephy_worker.Contract.Result.{SourceStatus}
use ephy_worker.Collect.Budget.{
  Budget, Category, category_eq, allowed, raise_count, take as take_budget,
}
use ephy_worker.Collect.Allowance.{IsWithin, AllTaken, Taken-cases, take-IsWithin}
use ephy_worker.Fetch.Urls.{
  Parsers, Target, Checked, safe, unsafe, UnsafeCode, public_address, public_addresses,
  validate_public_url,
}
use ephy_worker.Fetch.Steps.{Met-cases, IsFair, AllSteps, AllSteps-bind, take_response-IsFair}
use ephy_worker.Fetch.Fetcher.{
  FetchError, Network, Fetching, Step, go_on, leave, stop, set_status, charge, ask, with_met,
  with_safe, log_request, some_address, hop, fetch_rounds, settle, catch_error, escapes, unsafe_url,
  budget_exceeded, document_limit, invalid_encoding, fetch_timeout, network_error, fetch,
  new_fetching,
}

Checked-cases {ℓ} :
    {A : Type ℓ} (c : Checked A)
    → ((a : A) × (c ≡ safe a)) ⊎ ((why : UnsafeCode) × (c ≡ unsafe why))
Checked-cases (safe a) = inl (a, refl)
Checked-cases (unsafe why) = inr (why, refl)

public_addresses-All :
    (lib : Parsers) (values addresses : List String)
    → public_addresses lib values ≡ safe addresses
    → All (λ a. (value : String) × (public_address lib value ≡ safe a)) addresses
unfolding public_addresses
public_addresses-All lib [] addresses e =
    let same : [] ≡ addresses = ground arith in
    subst (All (λ a. (value : String) × (public_address lib value ≡ safe a))) same tt
public_addresses-All lib (value ∷ values) addresses e =
    elim (Checked-cases (public_address lib value)) [
      | inr bad ↦ absurd (ground (arith, bad.1))
      | inl (a, good) ↦ elim (Checked-cases (public_addresses lib values)) [
        | inr bad ↦ absurd (ground (arith, good, bad.1))
        | inl (rest, good') ↦
            let same : a ∷ rest ≡ addresses = ground (arith, good, good') in
            subst (All (λ x. (v : String) × (public_address lib v ≡ safe x))) same
              ((value, good), public_addresses-All lib values rest good')
      ]
    ]

at_most :
    (lib : Parsers) (b : Budget) (n m : ℕ) (f : Fetching)
    → n ≤ m
    → IsFair lib b n f
    → IsFair lib b m f
at_most lib b n m f le h = record {
  public = h.public;
  within = h.within;
  taken = h.taken;
  few = omega (arith, h.few);
}

restate :
    (lib : Parsers) (b : Budget) (n : ℕ) (f : Fetching) (status : SourceStatus)
    → IsFair lib b n f
    → IsFair lib b n (record f { status = status })
restate lib b n f status h = record {
  public = h.public;
  within = h.within;
  taken = h.taken;
  few = h.few;
}

weaken :
    (lib : Parsers) (b : Budget) (n : ℕ) (f : Fetching) → IsFair lib b n f → IsFair lib b (suc n) f
weaken lib b n f h = at_most lib b n (suc n) f (omega arith) h

one_request :
    (now : ℕ) (b b' : Budget)
    → take_budget Category.fetch_requests 1 now b ≡ allowed b'
    → b'.counts Category.fetch_requests ≡ b.counts Category.fetch_requests + 1
unfolding take_budget raise_count category_eq
one_request now b b' e = ground arith

log_request-IsFair :
    (lib : Parsers) (b : Budget) (n now : ℕ) (f : Fetching) (b' : Budget) (url : String)
    (t : Target) (addresses : List String)
    → validate_public_url lib url ≡ safe t
    → All (λ a. (value : String) × (public_address lib value ≡ safe a)) addresses
    → addresses ≢ []
    → take_budget Category.fetch_requests 1 now f.budget ≡ allowed b'
    → IsFair lib b n f
    → IsFair lib b (suc n) (log_request t addresses (record f { budget = b' }))
unfolding log_request
log_request-IsFair lib b n now f b' url t addresses valid ok some' e h = record {
  public = (record { url = (url, valid); addresses = ok; reachable = some' }, h.public);
  within =
      subst (AllTaken IsWithin) e (take-IsWithin Category.fetch_requests 1 now f.budget h.within);
  taken = omega (arith, h.taken, one_request now f.budget b' e);
  few = omega (arith, h.few);
}

ask-IsFair :
    (net : Network) (b : Budget) (n left : ℕ) (url : String) (t : Target) (addresses : List String)
    (f : Fetching)
    → validate_public_url net.parsers url ≡ safe t
    → All (λ a. (value : String) × (public_address net.parsers value ≡ safe a)) addresses
    → IsFair net.parsers b n f
    → AllSteps (IsFair net.parsers b (suc n)) (ask net left t addresses f)
unfolding ask with_met some_address charge
ask-IsFair net b n left url t [] f valid ok' h = weaken net.parsers b n f h
ask-IsFair net b n left url t (a ∷ as') f valid ok' h =
    elim (Taken-cases (take_budget Category.fetch_requests 1 (net.now left) f.budget)) [
      | inr refusal ↦ rw (charge, refusal.1) (weaken net.parsers b n f h)
      | inl grant ↦
          let asked : IsFair net.parsers b (suc n)
              (log_request t (a ∷ as') (record f { budget = grant.0 })) =
            log_request-IsFair net.parsers b n (net.now left) f grant.0 url t (a ∷ as') valid ok'
              (λ e. cc e) grant.1 h in
          elim (Met-cases (net.request t (a ∷ as') left)) [
            | inr lost ↦ rw (charge, grant.1, lost.1) asked
            | inl answer ↦
                rw (charge, grant.1, answer.1)
                  (take_response-IsFair net.parsers b (suc n) net t left answer.0 _ asked)
          ]
    ]

hop-IsFair :
    (net : Network) (b : Budget) (n left : ℕ) (url : String) (f : Fetching)
    → IsFair net.parsers b n f
    → AllSteps (IsFair net.parsers b (suc n)) (hop net left url f)
unfolding hop with_safe with_met
hop-IsFair net b n left url f h = elim (Checked-cases (validate_public_url net.parsers url)) [
  | inr bad ↦ rw (hop, bad.1) (weaken net.parsers b n f h)
  | inl (t, valid) ↦ elim (Met-cases (net.resolve t left)) [
    | inr lost ↦ rw (hop, valid, lost.1) (weaken net.parsers b n f h)
    | inl (values, found') ↦ elim (Checked-cases (public_addresses net.parsers values)) [
      | inr bad ↦ rw (hop, valid, found', bad.1) (weaken net.parsers b n f h)
      | inl (addresses, ok') ↦
          rw (hop, valid, found', ok')
            (ask-IsFair net b n left url t addresses f valid
              (public_addresses-All net.parsers values addresses ok') h)
    ]
  ]
]

rounds-IsFair :
    (net : Network) (b : Budget) (left n : ℕ) (url : String) (f : Fetching)
    → IsFair net.parsers b n f
    → AllSteps (IsFair net.parsers b (left + n)) (fetch_rounds net left url f)
unfolding fetch_rounds
rounds-IsFair net b zero n url f h = at_most net.parsers b n (zero + n) f (omega arith) h
rounds-IsFair net b (suc left) n url f h =
    AllSteps-bind (IsFair net.parsers b (suc n)) (IsFair net.parsers b (suc left + n))
      (hop net left url f) (λ f' url'. fetch_rounds net left url' f')
      (hop-IsFair net b n left url f h)
      (λ f' k. at_most net.parsers b (suc n) (suc left + n) f' (omega arith) k)
      (λ f' url' k.
        subst (λ m. AllSteps (IsFair net.parsers b m) (fetch_rounds net left url' f')) (omega arith)
          (rounds-IsFair net b left (suc n) url' f' k))

caught :
    (lib : Parsers) (b : Budget) (n : ℕ) (f : Fetching) (e : FetchError)
    → IsFair lib b n f
    → IsFair lib b n (catch_error e f)
unfolding catch_error set_status
caught lib b n f (escapes x) h = record {
  public = h.public;
  within = h.within;
  taken = h.taken;
  few = h.few;
}
caught lib b n f (unsafe_url why) h = restate lib b n f _ h
caught lib b n f (budget_exceeded reason) h = restate lib b n f _ h
caught lib b n f (document_limit why) h = restate lib b n f _ h
caught lib b n f (invalid_encoding why) h = restate lib b n f _ h
caught lib b n f fetch_timeout h = restate lib b n f _ h
caught lib b n f (network_error why) h = restate lib b n f _ h

settled :
    (lib : Parsers) (b : Budget) (n : ℕ) (s : Step (Unit {0}))
    → AllSteps (IsFair lib b n) s
    → IsFair lib b n (settle s)
unfolding settle
settled lib b n (go_on f a) h = h
settled lib b n (leave f) h = h
settled lib b n (stop f e) h = caught lib b n f e h

-- What a fetch asks of the network, whatever it meets there: each request goes to a URL that
-- `validate_public_url` has passed, at one address at least, each of which `_public_address` has passed;
-- each is taken from the budget, which stays within its limits; and there are no more of them than
-- `max_redirects` and one.
pub fetch-IsFair :
    (net : Network) (url : String) (b : Budget)
    → IsWithin b
    → IsFair net.parsers b (b.limits.max_redirects + 1) (fetch net url b)
unfolding fetch
fetch-IsFair net url b h = settled net.parsers b (b.limits.max_redirects + 1) _ (
    subst
      (λ m.
        AllSteps (IsFair net.parsers b m)
          (fetch_rounds net (b.limits.max_redirects + 1) url (new_fetching b)))
      (omega arith)
      (rounds-IsFair net b (b.limits.max_redirects + 1) 0 url (new_fetching b)
        (record { public = tt; within = h; taken = omega arith; few = omega arith })))
