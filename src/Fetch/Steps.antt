-- ===== src/Fetch/Steps.antt =====
-- Each step of the fetcher keeps what holds of its requests and of its budget.
use Prim.Native.String.{String}
use ephy_worker.Prelude.{
  ℕ, ◌+◌, ◌≤◌, ◌≡◌, ◌≢◌, ◌⊎◌, refl, subst, Bool, Option-cases, true, false, not, ◌||◌, ◌==◌, ltb,
  max, List, [], ◌∷◌, ◌++◌, Option, none, some, All, length, take, str_eq, arith, inl, inr,
  if◌then◌else◌,
}
use ephy_worker.Contract.Limits.{between}
use ephy_worker.Contract.Result.{SourceStatus}
use ephy_worker.Collect.Budget.{
  Budget, Category, category_eq, allowed, raise_count, take as take_budget,
}
use ephy_worker.Collect.Allowance.{IsWithin, AllTaken, Taken-cases, take-IsWithin}
use ephy_worker.Fetch.Urls.{Parsers, Target, safe, public_address, validate_public_url}
use ephy_worker.Fetch.Documents.{Kind, pdf, html, invalid, unknown, identify_document}
use ephy_worker.Fetch.Fetcher.{
  Chunk, Wire, Closing, whole, cut_short, timed_out, connection_lost, broken_off, Met, met, raised,
  FetchError, Parsed, take_parsed, charge_text, join_url, with_met, Response, document_limit,
  invalid_encoding, Network, Request, Fetching, Step, go_on, leave, stop, ◌>>=◌, set_status, charge,
  limit_for, add_chunk, add_chunks, pieces, close_body, is_compressed, read_wire, resume, read_body,
  take_document, take_body, take_redirect, is_redirect, location_of, take_response,
}

-- A request that may be made: to a URL that `validate_public_url` gave, at addresses that
-- `_public_address` gave, and at one at least.
pub record IsPublic (lib : Parsers) (r : Request) : Type 0 where
  pub url : (given : String) × (validate_public_url lib given ≡ safe r.target)
  pub addresses : All (λ a. (value : String) × (public_address lib value ≡ safe a)) r.addresses
  pub reachable : r.addresses ≢ []

-- What holds of a fetch that began with `b`: each request is a public one and taken from the budget,
-- which stays within its limits, and there are no more than `n`.
pub record IsFair (lib : Parsers) (b : Budget) (n : ℕ) (f : Fetching) : Type 0 where
  pub public : All (IsPublic lib) f.requests
  pub within : IsWithin f.budget
  pub taken :
      f.budget.counts Category.fetch_requests ≡ b.counts Category.fetch_requests + length f.requests
  pub few : length f.requests ≤ n

-- However the step ends.
abbrev pub AllSteps : {A : Type 0} → (Fetching → Type 0) → Step A → Type 0
AllSteps P (go_on f a) = P f
AllSteps P (leave f) = P f
AllSteps P (stop f e) = P f

pub AllSteps-bind :
    {A B : Type 0} (P Q : Fetching → Type 0) (s : Step A) (next : Fetching → A → Step B)
    → AllSteps P s
    → ((f : Fetching) → P f → Q f)
    → ((f : Fetching) (a : A) → P f → AllSteps Q (next f a))
    → AllSteps Q (s >>= next)
AllSteps-bind P Q (go_on f a) next h weaken k = k f a h
AllSteps-bind P Q (leave f) next h weaken k = weaken f h
AllSteps-bind P Q (stop f e) next h weaken k = weaken f h

either :
    {A : Type 0} (P : Fetching → Type 0) (c : Bool) (s t : Step A)
    → AllSteps P s
    → AllSteps P t
    → AllSteps P (if c then s else t)
either P true s t h k = h
either P false s t h k = k

pub Met-cases {ℓ} :
    {A : Type ℓ} (m : Met A) → ((a : A) × (m ≡ met a)) ⊎ ((e : FetchError) × (m ≡ raised e))
Met-cases (met a) = inl (a, refl)
Met-cases (raised e) = inr (e, refl)

keeps_requests :
    (amount now : ℕ) (b b' : Budget)
    → take_budget Category.cache_bytes amount now b ≡ allowed b'
    → b'.counts Category.fetch_requests ≡ b.counts Category.fetch_requests
unfolding take_budget raise_count category_eq
keeps_requests amount now b b' e = ground arith

module _ (lib : Parsers) (b : Budget) (n : ℕ) where
  -- Bytes that are taken from the budget.
  spend_bytes :
      (amount now : ℕ) (f : Fetching) (b' : Budget)
      → take_budget Category.cache_bytes amount now f.budget ≡ allowed b'
      → IsFair lib b n f
      → IsFair lib b n (record f { budget = b' })
  spend_bytes amount now f b' e h = record {
    public = h.public;
    within =
        subst (AllTaken IsWithin) e
          (take-IsWithin Category.cache_bytes amount now f.budget h.within);
    taken = omega (arith, h.taken, keeps_requests amount now f.budget b' e);
    few = h.few;
  }

  -- What a change of the source alone leaves.
  same_requests :
      (f : Fetching) (status : SourceStatus) (bytes : ℕ) (hash : Option ℕ)
      → IsFair lib b n f
      → IsFair lib b n (record f { status = status; bytes_received = bytes; body_hash = hash })
  same_requests f status bytes hash h = record {
    public = h.public;
    within = h.within;
    taken = h.taken;
    few = h.few;
  }

  charge_bytes :
      (amount now : ℕ) (f : Fetching)
      → IsFair lib b n f
      → AllSteps (IsFair lib b n) (charge Category.cache_bytes amount now f)
  unfolding charge
  charge_bytes amount now f h =
      elim (Taken-cases (take_budget Category.cache_bytes amount now f.budget)) [
        | inr refusal ↦ rw (charge, refusal.1) h
        | inl grant ↦ rw (charge, grant.1) (spend_bytes amount now f grant.0 grant.1 h)
      ]

  add_chunk-IsFair :
      (media_type : String) (c : Chunk) (f : Fetching) (body : List ℕ)
      → IsFair lib b n f
      → AllSteps (IsFair lib b n) (add_chunk media_type c f body)
  unfolding add_chunk
  add_chunk-IsFair media_type c f body h =
      AllSteps-bind (IsFair lib b n) (IsFair lib b n)
        (charge Category.cache_bytes (length c.bytes) c.now
          (record f { bytes_received = f.bytes_received + length c.bytes }))
        _
        (charge_bytes (length c.bytes) c.now _
          (same_requests f f.status (f.bytes_received + length c.bytes) f.body_hash h))
        (λ f' k. k)
        (λ f' _ k.
          either (IsFair lib b n)
            (ltb
              (limit_for f'.budget.limits
                (identify_document media_type (take 1024 (body ++ c.bytes))).0)
              (length (body ++ c.bytes)))
            _ _ k k)

  add_chunks-IsFair :
      (media_type : String) (cs : List Chunk) (f : Fetching) (body : List ℕ)
      → IsFair lib b n f
      → AllSteps (IsFair lib b n) (add_chunks media_type cs f body)
  unfolding add_chunks
  add_chunks-IsFair media_type [] f body h = h
  add_chunks-IsFair media_type (c ∷ cs) f body h =
      AllSteps-bind (IsFair lib b n) (IsFair lib b n) (add_chunk media_type c f body) _
        (add_chunk-IsFair media_type c f body h) (λ f' k. k)
        (λ f' body' k. add_chunks-IsFair media_type cs f' body' k)

  close_body-IsFair :
      (compressed : Bool) (closing : Closing) (f : Fetching) (body : List ℕ)
      → IsFair lib b n f
      → AllSteps (IsFair lib b n) (close_body compressed closing f body)
  unfolding close_body
  close_body-IsFair compressed whole f body h = h
  close_body-IsFair compressed cut_short f body h = either (IsFair lib b n) compressed _ _ h h
  close_body-IsFair compressed timed_out f body h = h
  close_body-IsFair compressed (connection_lost why) f body h = h
  close_body-IsFair compressed (broken_off x) f body h = h

  resume-IsFair :
      (why : Option String) (f : Fetching) (rest : Step (List ℕ))
      → IsFair lib b n f
      → AllSteps (IsFair lib b n) rest
      → AllSteps (IsFair lib b n) (resume why f rest)
  unfolding resume
  resume-IsFair none f rest h k = k
  resume-IsFair (some why) f rest h k = h

  read_wire-IsFair :
      (media_type : String) (compressed : Bool) (closing : Closing) (ws : List Wire)
      (wire_bytes : ℕ) (f : Fetching) (body : List ℕ)
      → IsFair lib b n f
      → AllSteps (IsFair lib b n) (read_wire media_type compressed closing ws wire_bytes f body)
  unfolding read_wire
  read_wire-IsFair media_type compressed closing [] wire_bytes f body h =
      close_body-IsFair compressed closing f body h
  read_wire-IsFair media_type compressed closing (w ∷ ws) wire_bytes f body h =
      let size = wire_bytes + length w.raw.bytes in
      either (IsFair lib b n) (ltb (max f.budget.limits.html_bytes f.budget.limits.pdf_bytes) size)
        (stop f (document_limit "wire_bytes"))
        (add_chunks media_type (pieces compressed w) f body >>= λ f' body'.
          resume (if compressed then w.broken else none) f'
            (read_wire media_type compressed closing ws size f' body'))
        h
        (AllSteps-bind (IsFair lib b n) (IsFair lib b n)
          (add_chunks media_type (pieces compressed w) f body)
          (λ f' body'.
            resume (if compressed then w.broken else none) f'
              (read_wire media_type compressed closing ws size f' body'))
          (add_chunks-IsFair media_type (pieces compressed w) f body h) (λ f' k. k)
          (λ f' body' k.
            resume-IsFair (if compressed then w.broken else none) f' _ k
              (read_wire-IsFair media_type compressed closing ws size f' body' k)))

  read_body-IsFair :
      (media_type : String) (r : Response) (f : Fetching)
      → IsFair lib b n f
      → AllSteps (IsFair lib b n) (read_body media_type r f)
  unfolding read_body
  read_body-IsFair media_type r f h =
      either (IsFair lib b n)
        (not (is_compressed r.encoding || str_eq r.encoding "identity" || str_eq r.encoding ""))
        (stop f (invalid_encoding "unsupported_content_encoding"))
        (read_wire media_type (is_compressed r.encoding) r.closing r.body 0 f []) h
        (read_wire-IsFair media_type (is_compressed r.encoding) r.closing r.body 0 f [] h)

  charge_text-IsFair :
      (net : Network) (parsed : Parsed) (f : Fetching)
      → IsFair lib b n f
      → AllSteps (IsFair lib b n) (charge_text net parsed f)
  unfolding charge_text set_status take_parsed
  charge_text-IsFair net parsed f h =
      elim (Taken-cases
        (take_budget Category.cache_bytes parsed.text_bytes net.parsed_at f.budget)) [
          | inr refusal ↦
              rw (charge_text, refusal.1)
                (same_requests f SourceStatus.limit f.bytes_received f.body_hash h)
          | inl grant ↦
              let spent = spend_bytes parsed.text_bytes net.parsed_at f grant.0 grant.1 h in
              rw (charge_text, grant.1)
                (either (IsFair lib b n) parsed.valid _ _
                  (same_requests (record f { budget = grant.0 }) parsed.status f.bytes_received
                    parsed.body_hash spent)
                  spent)
        ]

  with_met-IsFair :
      {A : Type 0} (m : Met A) (f : Fetching)
      → IsFair lib b n f
      → AllSteps (IsFair lib b n) (with_met m f)
  unfolding with_met
  with_met-IsFair (met a) f h = h
  with_met-IsFair (raised e) f h = h

  take_document-IsFair :
      (net : Network) (body : List ℕ) (kind : Kind) (f : Fetching)
      → IsFair lib b n f
      → AllSteps (IsFair lib b n) (take_document net body kind f)
  unfolding take_document
  take_document-IsFair net body kind f h =
      AllSteps-bind (IsFair lib b n) (IsFair lib b n) (with_met (net.extract body kind) f) _
        (with_met-IsFair (net.extract body kind) f h) (λ f' k. k)
        (λ f' parsed k. charge_text-IsFair net parsed f' k)

  document-IsFair :
      (net : Network) (body : List ℕ) (kind : Kind) (f : Fetching)
      → IsFair lib b n f
      → AllSteps (IsFair lib b n) (take_body net body kind f)
  unfolding take_body set_status
  document-IsFair net body invalid f h =
      same_requests f SourceStatus.invalid f.bytes_received f.body_hash h
  document-IsFair net body unknown f h =
      same_requests f SourceStatus.unsupported f.bytes_received f.body_hash h
  document-IsFair net body pdf f h =
      AllSteps-bind (IsFair lib b n) (IsFair lib b n) (take_document net body pdf f) _
        (take_document-IsFair net body pdf f h) (λ f' k. k) (λ f' _ k. k)
  document-IsFair net body html f h =
      AllSteps-bind (IsFair lib b n) (IsFair lib b n) (take_document net body html f) _
        (take_document-IsFair net body html f h) (λ f' k. k) (λ f' _ k. k)

  join_url-IsFair :
      (url : Option String) (f : Fetching)
      → IsFair lib b n f
      → AllSteps (IsFair lib b n) (join_url url f)
  unfolding join_url
  join_url-IsFair none f h = h
  join_url-IsFair (some url) f h = h

  redirect-IsFair :
      (net : Network) (t : Target) (left : ℕ) (r : Response) (f : Fetching)
      → IsFair lib b n f
      → AllSteps (IsFair lib b n) (take_redirect net t left r f)
  unfolding take_redirect set_status
  redirect-IsFair net t left r f h = elim (Option-cases (location_of r)) [
    | inl nowhere ↦
        rw (take_redirect, nowhere)
          (same_requests f SourceStatus.http_error f.bytes_received f.body_hash h)
    | inr there ↦
        rw (take_redirect, there.1)
          (either (IsFair lib b n) (left == 0) _ _ h
            (join_url-IsFair (net.parsers.urljoin t.url there.0) f h))
  ]

  pub take_response-IsFair :
      (net : Network) (t : Target) (left : ℕ) (r : Response) (f : Fetching)
      → IsFair lib b n f
      → AllSteps (IsFair lib b n) (take_response net t left r f)
  unfolding take_response set_status
  take_response-IsFair net t left r f h =
      either (IsFair lib b n) (is_redirect r.status) _ _ (redirect-IsFair net t left r f h) (
        either (IsFair lib b n) (not (between 200 299 r.status))
          (leave (set_status SourceStatus.http_error f)) _
          (same_requests f SourceStatus.http_error f.bytes_received f.body_hash h)
          (AllSteps-bind (IsFair lib b n) (IsFair lib b n) (read_body r.content_type r f) _
            (read_body-IsFair r.content_type r f h) (λ f' k. k)
            (λ f' body k.
              document-IsFair net body (identify_document r.content_type (take 1024 body)).0 f' k)))
