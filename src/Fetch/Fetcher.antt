-- ===== src/Fetch/Fetcher.antt =====
-- `PublicFetcher` (fetch.py: `_decoded_chunks`, `fetch`, `_fetch`). The resolver, the transport, zlib and
-- the parser's process are arguments; the locks and the hook on documents are left out. A timeout shows
-- where an exchange is awaited.
use Prim.Native.String.{String}
use ephy_worker.Prelude.{
  ℕ, zero, suc, ◌+◌, Bool, not, ◌||◌, ◌==◌, ltb, max, List, [], ◌∷◌, ◌++◌, Option, none, some,
  member, length, take, str_eq, if◌then◌else◌,
}
use ephy_worker.Contract.Limits.{Limits, between}
use ephy_worker.Contract.Input.{Candidate}
use ephy_worker.Contract.Result.{SourceStatus, Source}
use ephy_worker.Collect.Budget.{Budget, Category, Reason, allowed, exceeded, take as take_budget}
use ephy_worker.Collect.Extract.{Fetcher, Fetched, fetched, fetch_failed, fetch_cancelled}
use ephy_worker.Fetch.Urls.{
  Parsers, Target, Checked, safe, unsafe, UnsafeCode, dns_empty_result, validate_public_url,
  public_addresses,
}
use ephy_worker.Fetch.Documents.{Kind, pdf, html, invalid, unknown, identify_document}

-- A piece of a body, with the clock when its bytes are taken from the budget.
pub record Chunk : Type 0 where
  pub bytes : List ℕ
  pub now : ℕ

-- A chunk from the wire, what the decompressor makes of it, and whether it then breaks off.
pub record Wire : Type 0 where
  pub raw : Chunk
  pub decoded : List Chunk
  pub broken : Option String

-- What `fetch` lets through: an exception that it does not name, and the `CancelledError` of a stage that
-- is cancelled.
pub data Escape : Type 0 where
  unexpected : String → Escape
  task_cancelled : Escape

-- How the reading of a body ends.
pub data Closing : Type 0 where
  whole cut_short timed_out : Closing
  connection_lost : String → Closing
  broken_off : Escape → Closing

-- The headers come stripped and in lower case, and `content_type` without its parameters.
pub record Response : Type 0 where
  pub status : ℕ
  pub location : Option String
  pub content_type : String
  pub encoding : String
  pub body : List Wire
  pub closing : Closing

-- The errors that `fetch` catches, and those that it does not.
pub data FetchError : Type 0 where
  unsafe_url : UnsafeCode → FetchError
  budget_exceeded : Reason → FetchError
  document_limit : String → FetchError
  invalid_encoding : String → FetchError
  fetch_timeout : FetchError
  network_error : String → FetchError
  escapes : Escape → FetchError

-- What an exchange brings, or the error that it raises.
pub data Met {ℓ} (A : Type ℓ) : Type ℓ where
  met : A → Met A
  raised : FetchError → Met A

-- What the parser's process gives back, and whether `Source` then accepts it.
pub record Parsed : Type 0 where
  pub status : SourceStatus
  pub text_bytes : ℕ
  pub valid : Bool
  pub body_hash : Option ℕ

-- The network and the parser; the number is that of the redirects that may still follow.
pub record Network : Type 0 where
  pub parsers : Parsers
  pub resolve : Target → ℕ → Met (List String)
  pub request : Target → List String → ℕ → Met Response
  pub now : ℕ → ℕ
  pub extract : List ℕ → Kind → Met Parsed
  pub parsed_at : ℕ

-- A request that was made, for the statements about them.
pub record Request : Type 0 where
  pub target : Target
  pub addresses : List String

-- The source that is being fetched, the budget, the requests so far, and what `fetch` has let through.
pub record Fetching : Type 0 where
  pub status : SourceStatus
  pub bytes_received : ℕ
  pub body_hash : Option ℕ
  pub budget : Budget
  pub requests : List Request
  pub escaped : Option Escape

-- A step that goes on with a value, or that ends: with the source as it stands, or with an error.
pub data Step (A : Type 0) : Type 0 where
  go_on : Fetching → A → Step A
  leave : Fetching → Step A
  stop : Fetching → FetchError → Step A

infixl 20 ◌>>=◌
abbrev pub ◌>>=◌ : {A B : Type 0} → Step A → (Fetching → A → Step B) → Step B
go_on f a >>= next = next f a
leave f >>= next = leave f
stop f e >>= next = stop f e

unfoldable pub set_status : SourceStatus → Fetching → Fetching
set_status status f = record f { status = status }

-- `self.budget.take`.
unfoldable pub charge : Category → ℕ → ℕ → Fetching → Step (Unit {0})
unfolding take_budget
charge category amount now f = elim (take_budget category amount now f.budget) [
  | exceeded reason ↦ stop f (budget_exceeded reason)
  | allowed b ↦ go_on (record f { budget = b }) tt
]

unfoldable pub limit_for : Limits → Kind → ℕ
limit_for l pdf = l.pdf_bytes
limit_for l _ = l.html_bytes

unfoldable pub limit_text : Kind → String
limit_text pdf = "pdf_bytes"
limit_text _ = "html_bytes"

-- The loop body on one decoded chunk.
unfoldable pub add_chunk : String → Chunk → Fetching → List ℕ → Step (List ℕ)
unfolding charge identify_document limit_for limit_text
add_chunk media_type chunk f body =
    let received = record f { bytes_received = f.bytes_received + length chunk.bytes } in
    charge Category.cache_bytes (length chunk.bytes) chunk.now received >>= λ f' _.
    let body' = body ++ chunk.bytes in
    let kind = (identify_document media_type (take 1024 body')).0 in
    if ltb (limit_for f'.budget.limits kind) (length body')
    then stop f' (document_limit (limit_text kind))
    else go_on f' body'

unfoldable pub add_chunks : String → List Chunk → Fetching → List ℕ → Step (List ℕ)
unfolding add_chunk
add_chunks media_type [] f body = go_on f body
add_chunks media_type (c ∷ cs) f body =
    add_chunk media_type c f body >>= λ f' body'. add_chunks media_type cs f' body'

unfoldable pub is_compressed : String → Bool
is_compressed encoding = str_eq encoding "gzip" || str_eq encoding "deflate"

unfoldable pub pieces : Bool → Wire → List Chunk
pieces compressed w = if compressed then w.decoded else w.raw ∷ []

unfoldable pub close_body : Bool → Closing → Fetching → List ℕ → Step (List ℕ)
close_body compressed whole f body = go_on f body
close_body compressed cut_short f body =
    if compressed then stop f (invalid_encoding "incomplete_compressed_body") else go_on f body
close_body compressed timed_out f body = stop f fetch_timeout
close_body compressed (connection_lost why) f body = stop f (network_error why)
close_body compressed (broken_off x) f body = stop f (escapes x)

-- Whether the decompressor goes on behind the chunks that it has made.
unfoldable pub resume : Option String → Fetching → Step (List ℕ) → Step (List ℕ)
resume none f rest = rest
resume (some why) f rest = stop f (invalid_encoding why)

-- `_decoded_chunks` and the loop over it, with the bytes that have come over the wire.
unfoldable pub read_wire :
    String → Bool → Closing → List Wire → ℕ → Fetching → List ℕ → Step (List ℕ)
unfolding add_chunks pieces close_body resume
read_wire media_type compressed closing [] wire_bytes f body = close_body compressed closing f body
read_wire media_type compressed closing (w ∷ ws) wire_bytes f body =
    let l = f.budget.limits in
    let size = wire_bytes + length w.raw.bytes in
    if ltb (max l.html_bytes l.pdf_bytes) size
    then stop f (document_limit "wire_bytes")
    else add_chunks media_type (pieces compressed w) f body >>= λ f' body'.
        resume (if compressed then w.broken else none) f'
          (read_wire media_type compressed closing ws size f' body')

unfoldable pub read_body : String → Response → Fetching → Step (List ℕ)
unfolding is_compressed read_wire
read_body media_type r f =
    if not (is_compressed r.encoding || str_eq r.encoding "identity" || str_eq r.encoding "")
    then stop f (invalid_encoding "unsupported_content_encoding")
    else read_wire media_type (is_compressed r.encoding) r.closing r.body 0 f []

unfoldable pub with_met : {A : Type 0} → Met A → Fetching → Step A
with_met (met a) f = go_on f a
with_met (raised e) f = stop f e

-- `Source.model_validate` of what the parser gave.
unfoldable pub take_parsed : Parsed → Fetching → Step (Unit {0})
take_parsed parsed f =
    if parsed.valid
    then leave (record f { status = parsed.status; body_hash = parsed.body_hash })
    else stop f (escapes (unexpected "ValidationError"))

-- The bytes of the parser's text are taken from the budget; where they are too many, the source is kept
-- without the text.
unfoldable pub charge_text : Network → Parsed → Fetching → Step (Unit {0})
unfolding set_status take_budget take_parsed
charge_text net parsed f =
    elim (take_budget Category.cache_bytes parsed.text_bytes net.parsed_at f.budget) [
      | exceeded reason ↦ leave (set_status SourceStatus.limit f)
      | allowed b ↦ take_parsed parsed (record f { budget = b })
    ]

-- What is done with a whole body of a kind: the parser, its text, the source.
unfoldable pub take_document : Network → List ℕ → Kind → Fetching → Step (Unit {0})
unfolding with_met charge_text
take_document net body kind f =
    with_met (net.extract body kind) f >>= λ f' parsed. charge_text net parsed f'

unfoldable pub is_redirect : ℕ → Bool
is_redirect status = member status (301 ∷ 302 ∷ 303 ∷ 307 ∷ 308 ∷ [])

-- `response.headers.get("location")`, where an empty text counts as none.
unfoldable pub location_of : Response → Option String
location_of r = elim r.location [
  | none ↦ none
  | some url ↦ if str_eq url "" then none else some url
]

-- `urljoin`, whose ValueError nothing catches.
unfoldable pub join_url : Option String → Fetching → Step String
join_url none f = stop f (escapes (unexpected "ValueError"))
join_url (some url) f = go_on f url

unfoldable pub take_redirect : Network → Target → ℕ → Response → Fetching → Step String
unfolding location_of set_status join_url
take_redirect net t left r f = elim (location_of r) [
  | none ↦ leave (set_status SourceStatus.http_error f)
  | some location ↦
      if left == 0
      then stop f (document_limit "max_redirects")
      else join_url (net.parsers.urljoin t.url location) f
]

-- By what the body is taken for.
unfoldable pub take_body : Network → List ℕ → Kind → Fetching → Step String
unfolding set_status take_document
take_body net body invalid f = leave (set_status SourceStatus.invalid f)
take_body net body unknown f = leave (set_status SourceStatus.unsupported f)
take_body net body pdf f = take_document net body pdf f >>= λ f' _. leave f'
take_body net body html f = take_document net body html f >>= λ f' _. leave f'

-- The part of the loop's body behind the request: the URL to go on with, if it is a redirect.
unfoldable pub take_response : Network → Target → ℕ → Response → Fetching → Step String
unfolding is_redirect take_redirect set_status read_body identify_document take_body
take_response net t left r f =
    if is_redirect r.status
    then take_redirect net t left r f
    else if not (between 200 299 r.status)
    then leave (set_status SourceStatus.http_error f)
    else read_body r.content_type r f >>= λ f' body.
        take_body net body (identify_document r.content_type (take 1024 body)).0 f'

unfoldable pub with_safe : {A : Type 0} → Checked A → Fetching → Step A
with_safe (safe a) f = go_on f a
with_safe (unsafe why) f = stop f (unsafe_url why)

unfoldable pub log_request : Target → List String → Fetching → Fetching
log_request t addresses f = record f {
  requests = record { target = t; addresses = addresses } ∷ f.requests;
}

-- The test that DNS gave an address.
unfoldable pub some_address : List String → Fetching → Step (Unit {0})
some_address [] f = stop f (unsafe_url dns_empty_result)
some_address (a ∷ as') f = go_on f tt

-- The request is made when there is an address and the budget has let it pass.
unfoldable pub ask : Network → ℕ → Target → List String → Fetching → Step String
unfolding with_met some_address charge log_request take_response
ask net left t addresses f = some_address addresses f >>= λ f1 _.
    charge Category.fetch_requests 1 (net.now left) f1 >>= λ f2 _.
    with_met (net.request t addresses left) (log_request t addresses f2) >>= λ f3 r.
    take_response net t left r f3

-- One round of the loop.
unfoldable pub hop : Network → ℕ → String → Fetching → Step String
unfolding with_safe with_met validate_public_url public_addresses ask
hop net left url f = with_safe (validate_public_url net.parsers url) f >>= λ f1 t.
    with_met (net.resolve t left) f1 >>= λ f2 values.
    with_safe (public_addresses net.parsers values) f2 >>= λ f3 addresses.
    ask net left t addresses f3

-- `_fetch`, over the rounds that are left.
unfoldable pub fetch_rounds : Network → ℕ → String → Fetching → Step (Unit {0})
unfolding hop
fetch_rounds net zero url f = stop f (document_limit "max_redirects")
fetch_rounds net (suc left) url f = hop net left url f >>= λ f' url'. fetch_rounds net left url' f'

unfoldable pub error_status : FetchError → SourceStatus
error_status (unsafe_url why) = SourceStatus.blocked
error_status (budget_exceeded reason) = SourceStatus.limit
error_status (document_limit why) = SourceStatus.limit
error_status (invalid_encoding why) = SourceStatus.invalid
error_status fetch_timeout = SourceStatus.timeout
error_status (network_error why) = SourceStatus.network_error
error_status (escapes x) = SourceStatus.extraction_failed

unfoldable pub catch_error : FetchError → Fetching → Fetching
unfolding set_status error_status
catch_error (escapes x) f = record f { escaped = some x }
catch_error e f = set_status (error_status e) f

-- The `except` clauses of `fetch`.
unfoldable pub settle : Step (Unit {0}) → Fetching
unfolding catch_error
settle (go_on f a) = f
settle (leave f) = f
settle (stop f e) = catch_error e f

abbrev pub new_fetching : Budget → Fetching
new_fetching b = record {
  status = SourceStatus.extraction_failed;
  bytes_received = 0;
  body_hash = none;
  budget = b;
  requests = [];
  escaped = none;
}

-- `fetch`.
unfoldable pub fetch : Network → String → Budget → Fetching
unfolding fetch_rounds settle
fetch net url b = settle (fetch_rounds net (b.limits.max_redirects + 1) url (new_fetching b))

unfoldable pub source_of : Candidate → String → Fetching → Source
source_of c source_id f = record {
  source_id = source_id;
  requested_url = c.url;
  status = f.status;
  body_hash = f.body_hash;
  bytes_received = f.bytes_received;
}

-- How a fetch comes back to the stage.
unfoldable pub come_back : Candidate → String → Fetching → Option Escape → Fetched
unfolding source_of
come_back c source_id f none = fetched (source_of c source_id f)
come_back c source_id f (some (unexpected why)) = fetch_failed why
come_back c source_id f (some task_cancelled) = fetch_cancelled

-- The fetcher of a worker, with what meets each candidate.
unfoldable pub public_fetcher : (Candidate → Network) → (String → String) → Fetcher
unfolding fetch come_back
public_fetcher nets normalize_url = record {
  normalize_url = normalize_url;
  fetch = λ c source_id b.
      let f = fetch (nets c) c.url b in (f.budget, come_back c source_id f f.escaped);
}
