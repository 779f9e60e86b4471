-- ===== src/Fetch/Documents.antt =====
-- What a body is taken for (fetch.py, `identify_document`).
use Prim.Native.String.{String}
use ephy_worker.Prelude.{
  ℕ, ◌+◌, Bool, true, false, ◌&&◌, ◌||◌, ◌==◌, List, [], ◌∷◌, Option, none, some, any, member,
  str_eq, take, if◌then◌else◌,
}
use ephy_worker.Contract.Limits.{between}
use ephy_worker.Manager.Artifacts.{codes}

pub data Kind : Type 0 where
  pdf html invalid unknown : Kind

-- `prefix.lstrip(…)`: the bytes of a mark, zero and white space.
unfoldable pub strip_mark : List ℕ → List ℕ
strip_mark [] = []
strip_mark (c ∷ cs) =
    let rest = strip_mark cs in
    if member c (239 ∷ 187 ∷ 191 ∷ 0 ∷ 9 ∷ 10 ∷ 13 ∷ 32 ∷ []) then rest else c ∷ cs

unfoldable pub starts_with : List ℕ → List ℕ → Bool
starts_with [] bytes = true
starts_with (c ∷ cs) [] = false
starts_with (c ∷ cs) (x ∷ xs) = c == x && starts_with cs xs

-- `\s` on bytes.
unfoldable pub is_blank_byte : ℕ → Bool
is_blank_byte c = c == 32 || between 9 13 c

unfoldable pub lower_byte : ℕ → ℕ
lower_byte c = if between 65 90 c then c + 32 else c

-- What follows a text, whatever its case; `none` if the text does not stand there.
unfoldable pub after_text : List ℕ → List ℕ → Option (List ℕ)
unfolding lower_byte
after_text [] bytes = some bytes
after_text (c ∷ cs) [] = none
after_text (c ∷ cs) (x ∷ xs) =
    let rest = after_text cs xs in if c == lower_byte x then rest else none

unfoldable pub closes : Option (List ℕ) → Bool
unfolding is_blank_byte
closes none = false
closes (some []) = false
closes (some (c ∷ cs)) = is_blank_byte c || c == b'>'

unfoldable pub skip_blanks : List ℕ → List ℕ
unfolding is_blank_byte
skip_blanks [] = []
skip_blanks (c ∷ cs) = let rest = skip_blanks cs in if is_blank_byte c then rest else c ∷ cs

-- `!doctype\s+html`, then white space or ">".
unfoldable pub is_doctype : List ℕ → Bool
unfolding after_text skip_blanks is_blank_byte closes
is_doctype bytes = elim (after_text (codes "!doctype") bytes) [
  | none ↦ false
  | some rest ↦ elim rest [
    | [] ↦ false
    | c ∷ cs ↦ is_blank_byte c && closes (after_text (codes "html") (skip_blanks cs))
  ]
]

unfoldable pub is_tag : List ℕ → Bool
unfolding is_doctype after_text closes
is_tag bytes =
    is_doctype bytes
    || any (λ name. closes (after_text (codes name) bytes))
        ("html" ∷ "head" ∷ "body" ∷ "article" ∷ "main" ∷ "p" ∷ [])

-- `re.search` for such a tag, at any place.
unfoldable pub has_tag : List ℕ → Bool
unfolding is_tag
has_tag [] = false
has_tag (c ∷ cs) = (c == b'<' && is_tag cs) || has_tag cs

-- `identify_document`: what it is, and the note.
unfoldable pub identify_document : String → List ℕ → Kind × Option String
unfolding strip_mark starts_with has_tag
identify_document media_type prefix =
    let stripped = strip_mark prefix in
    let is_pdf = str_eq media_type "application/pdf" in
    if starts_with (codes "%PDF-") stripped
    then (pdf, if is_pdf then none else some "PDF magicとContent-Typeが一致しない．")
    else if has_tag (take 1024 stripped)
        || (str_eq media_type "text/html" || str_eq media_type "application/xhtml+xml")
    then (html, if is_pdf then some "PDFではなくHTML応答を抽出した．" else none)
    else if is_pdf
    then (invalid, some "pdf_magic_missing")
    else (unknown, some "unsupported_media_type")
