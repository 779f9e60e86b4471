-- ===== src/Fetch/Urls.antt =====
-- What the fetcher may ask for (fetch.py: `_public_address`, `validate_public_url`). What `ipaddress`,
-- `urllib.parse` and the codec "idna" make of a text is an argument.
use Prim.Native.Char.{code}
use Prim.Native.String.{String, count as count_chars}
use ephy_worker.Prelude.{
  ℕ, Bool, false, not, ◌&&◌, ◌||◌, ◌==◌, ltb, leb, all, List, [], ◌∷◌, Option, none, some, any,
  str_eq, if◌then◌else◌,
}
use ephy_worker.Contract.Limits.{between}
use ephy_worker.Manager.Artifacts.{codes, split_dots}

-- The properties of `ipaddress.ip_address(value)` that are read, and `str` of it. The last four are of
-- an IPv6 address alone: `ipv4_mapped`, `sixtofour`, `teredo`, and the two networks 64:ff9b.
pub record Address : Type 0 where
  pub text : String
  pub is_global : Bool
  pub is_multicast : Bool
  pub is_reserved : Bool
  pub is_unspecified : Bool
  pub is_ipv6 : Bool
  pub ipv4_mapped : Bool
  pub sixtofour : Bool
  pub teredo : Bool
  pub in_translation : Bool

-- `parts.port`, which raises `ValueError` out of range.
pub data Port : Type 0 where
  no_port bad_port : Port
  port_of : ℕ → Port

-- `urlsplit`: the host name comes in lower case.
pub record UrlParts : Type 0 where
  pub scheme : String
  pub hostname : Option String
  pub has_credentials : Bool
  pub port : Port

-- The library functions; `none` stands for a `ValueError`.
pub record Parsers : Type 0 where
  pub ip_address : String → Option Address
  pub urlsplit : String → Option UrlParts
  pub idna : String → Option String
  pub urldefrag : String → String
  pub urljoin : String → String → Option String

-- The texts of `UnsafeURL`.
pub data UnsafeCode : Type 0 where
  dns_non_ip_result non_public_address transition_address invalid_url ambiguous_url non_http_url
        url_credentials non_public_hostname invalid_port ambiguous_numeric_address
        dns_empty_result :
      UnsafeCode

pub data Checked {ℓ} (A : Type ℓ) : Type ℓ where
  safe : A → Checked A
  unsafe : UnsafeCode → Checked A

-- `c in text`.
abbrev pub has_char : ℕ → String → Bool
has_char c text = any (λ x. x == c) (codes text)

unfoldable pub not_public : String → Address → Bool
not_public value a =
    not a.is_global || a.is_multicast || a.is_reserved || a.is_unspecified || has_char b'%' value

unfoldable pub is_transition : Address → Bool
is_transition a = a.is_ipv6 && (a.ipv4_mapped || a.sixtofour || a.teredo || a.in_translation)

-- `_public_address`.
unfoldable pub public_address : Parsers → String → Checked String
unfolding not_public is_transition
public_address lib value = elim (lib.ip_address value) [
  | none ↦ unsafe dns_non_ip_result
  | some a ↦
      if not_public value a
      then unsafe non_public_address
      else if is_transition a
      then unsafe transition_address
      else safe a.text
]

-- `text.endswith(suffix)`.
unfoldable pub ends_with : String → String → Bool
ends_with suffix String.[] = str_eq suffix ""
ends_with suffix (String.◌∷◌ c s) = str_eq suffix (String.◌∷◌ c s) || ends_with suffix s

-- `text.rstrip(".")`.
unfoldable pub strip_dots : String → String
strip_dots String.[] = String.[]
strip_dots (String.◌∷◌ c s) =
    let rest = strip_dots s in
    if code c == b'.' && str_eq rest "" then String.[] else String.◌∷◌ c rest

unfoldable pub is_local : String → Bool
unfolding ends_with
is_local host =
    has_char b'%' host
    || str_eq host "localhost"
    || ends_with ".localhost" host
    || ends_with ".local" host
    || ends_with ".internal" host

is_digit : ℕ → Bool
is_digit c = between b'0' b'9' c

is_hex : ℕ → Bool
unfolding is_digit
is_hex c = is_digit c || between b'a' b'f' c || between b'A' b'F' c

-- `0[xX][0-9a-fA-F]+|[0-9]+`.
unfoldable pub is_number : List ℕ → Bool
unfolding is_digit is_hex
is_number [] = false
is_number (c ∷ []) = is_digit c
is_number (c ∷ x ∷ []) = is_digit c && is_digit x
is_number (c ∷ x ∷ h ∷ hs) =
    (c == b'0' && (x == b'x' || x == b'X') && all is_hex (h ∷ hs)) || all is_digit (c ∷ x ∷ h ∷ hs)

-- The pattern on numeric hosts: numbers with dots between them.
unfoldable pub is_numeric : String → Bool
unfolding split_dots is_number
is_numeric host =
    let (piece, pieces) = split_dots (codes host) in is_number piece && all is_number pieces

-- A URL, its host and its port.
pub record Target : Type 0 where
  pub url : String
  pub host : String
  pub port : ℕ

-- The test on the host's text, once it is known to be no name.
unfoldable pub check_host : Parsers → String → Target → Checked Target
unfolding public_address is_numeric
check_host lib host t = elim (lib.ip_address host) [
  | none ↦ if is_numeric host then unsafe ambiguous_numeric_address else safe t
  | some a ↦ elim (public_address lib host) [ unsafe why ↦ unsafe why | safe text ↦ safe t ]
]

-- `parts.port or (443 if parts.scheme == "https" else 80)`.
unfoldable pub port_number : UrlParts → Option ℕ
port_number parts =
    let usual = if str_eq parts.scheme "https" then 443 else 80 in
    elim parts.port [
      | no_port ↦ some usual
      | bad_port ↦ none
      | port_of n ↦ some (if n == 0 then usual else n)
    ]

unfoldable pub check_name : Parsers → String → UrlParts → String → Checked Target
unfolding strip_dots is_local port_number check_host
check_name lib url parts hostname =
    let host = strip_dots hostname in
    if is_local host then unsafe non_public_hostname else elim (lib.idna host) [
      | none ↦ unsafe invalid_url
      | some ascii ↦ elim (port_number parts) [
        | none ↦ unsafe invalid_url
        | some port ↦
            if between 1 65535 port
            then check_host lib ascii
                (record { url = lib.urldefrag url; host = ascii; port = port })
            else unsafe invalid_port
      ]
    ]

unfoldable pub is_web : String → Bool
is_web scheme = str_eq scheme "http" || str_eq scheme "https"

-- The part under `try`.
unfoldable pub check_parts : Parsers → String → Checked Target
unfolding is_web check_name
check_parts lib url = elim (lib.urlsplit url) [
  | none ↦ unsafe invalid_url
  | some parts ↦ elim parts.hostname [
    | none ↦ unsafe non_http_url
    | some hostname ↦
        if not (is_web parts.scheme) || str_eq hostname ""
        then unsafe non_http_url
        else if parts.has_credentials
        then unsafe url_credentials
        else check_name lib url parts hostname
  ]
]

-- `validate_public_url`.
unfoldable pub validate_public_url : Parsers → String → Checked Target
unfolding check_parts
validate_public_url lib url =
    if ltb 8192 (count_chars url) || any (λ c. leb c 32 || c == 127) (codes url)
    then unsafe invalid_url
    else if has_char b'\\' url
    then unsafe ambiguous_url
    else check_parts lib url

-- `tuple(_public_address(value) for value in …)`.
unfoldable pub public_addresses : Parsers → List String → Checked (List String)
unfolding public_address
public_addresses lib [] = safe []
public_addresses lib (value ∷ values) = elim (public_address lib value) [
  | unsafe why ↦ unsafe why
  | safe address ↦ elim (public_addresses lib values) [
    | unsafe why ↦ unsafe why
    | safe addresses ↦ safe (address ∷ addresses)
  ]
]
