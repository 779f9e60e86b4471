-- ===== src/Contract/Limits.antt =====
-- `Limits` of schema.py: the allowance of one job. The float seconds are milliseconds.
use ephy_worker.Prelude.{ℕ, ◌*◌, Bool, ◌&&◌, leb}

pub record Limits : Type 0 where
  pub max_queries : ℕ
  pub search_requests : ℕ
  pub max_sources : ℕ
  pub fetch_requests : ℕ
  pub model_requests : ℕ
  pub job_seconds : ℕ
  pub request_seconds : ℕ
  pub parser_seconds : ℕ
  pub parser_memory_mb : ℕ
  pub html_bytes : ℕ
  pub pdf_bytes : ℕ
  pub text_chars : ℕ
  pub pdf_pages : ℕ
  pub cache_bytes : ℕ
  pub initial_sources : ℕ
  pub passage_chars : ℕ
  pub selected_passages : ℕ
  pub max_redirects : ℕ

-- `Field(ge=lo, le=hi)`.
abbrev pub between : ℕ → ℕ → ℕ → Bool
between lo hi x = leb lo x && leb x hi

abbrev pub kib : ℕ
kib = 1024

abbrev pub mib : ℕ
mib = 1048576

-- The bounds on the request counts, which a retry computes anew.
unfoldable pub counts_in_range : Limits → Bool
counts_in_range l =
    between 1 30 l.max_queries
    && between 1 100 l.search_requests
    && between 1 30 l.max_sources
    && between 1 100 l.fetch_requests
    && between 1 100 l.model_requests

-- `gt=0` and `le=` on the times.
unfoldable pub times_in_range : Limits → Bool
times_in_range l =
    between 1 7200000 l.job_seconds
    && between 1 600000 l.request_seconds
    && between 1 120000 l.parser_seconds

unfoldable pub sizes_in_range : Limits → Bool
sizes_in_range l =
    between 128 2048 l.parser_memory_mb
    && between kib (20 * mib) l.html_bytes
    && between kib (50 * mib) l.pdf_bytes
    && between 1000 1000000 l.text_chars
    && between 1 500 l.pdf_pages
    && between kib (512 * mib) l.cache_bytes
    && between 4 6 l.initial_sources
    && between 200 4000 l.passage_chars
    && between 4 80 l.selected_passages
    && between 0 10 l.max_redirects

-- What pydantic checks when a `Limits` is made.
unfoldable pub limits_valid : Limits → Bool
limits_valid l = counts_in_range l && times_in_range l && sizes_in_range l

-- `Limits()`.
unfoldable pub default_limits : Limits
default_limits = record {
  max_queries = 10;
  search_requests = 20;
  max_sources = 12;
  fetch_requests = 36;
  model_requests = 40;
  job_seconds = 900000;
  request_seconds = 120000;
  parser_seconds = 20000;
  parser_memory_mb = 512;
  html_bytes = 5 * mib;
  pdf_bytes = 20 * mib;
  text_chars = 200000;
  pdf_pages = 100;
  cache_bytes = 128 * mib;
  initial_sources = 5;
  passage_chars = 1600;
  selected_passages = 24;
  max_redirects = 5;
}
