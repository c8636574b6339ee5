-- ===== src/Mime.antt =====
-- ops/mime.ts: the MIME type of a path, and which bytes read as text. The extension's type is looked
-- up in a JavaScript object, which also answers to the inherited names "constructor" and "__proto__"
-- with a value that is no text; `none` stands for that value.
use agent_fs.Prelude.{
  trim, ℕ, suc, ◌+◌, ◌*◌, Bool, true, false, not, ◌&&◌, ◌||◌, Option, none, some, List, [], ◌∷◌,
  Text, text, ◌===◌, ◌==◌, ltb, leb, starts_with, length, find?, map, if◌then◌else◌,
}
use agent_fs.Errors.{Result, ok, err, plain}
use agent_fs.Paths.{split_on}
use agent_fs.Storage.{Bytes, Platform}

unfoldable mime_map : List (Text × Text)
mime_map =
    (text "png", text "image/png")
    ∷ (text "jpg", text "image/jpeg")
    ∷ (text "jpeg", text "image/jpeg")
    ∷ (text "gif", text "image/gif")
    ∷ (text "svg", text "image/svg+xml")
    ∷ (text "webp", text "image/webp")
    ∷ (text "ico", text "image/x-icon")
    ∷ (text "pdf", text "application/pdf")
    ∷ (text "txt", text "text/plain")
    ∷ (text "md", text "text/markdown")
    ∷ (text "mdx", text "text/markdown")
    ∷ (text "html", text "text/html")
    ∷ (text "css", text "text/css")
    ∷ (text "csv", text "text/csv")
    ∷ (text "tsv", text "text/tab-separated-values")
    ∷ (text "xml", text "application/xml")
    ∷ (text "json", text "application/json")
    ∷ (text "jsonl", text "application/x-ndjson")
    ∷ (text "ndjson", text "application/x-ndjson")
    ∷ (text "yaml", text "application/x-yaml")
    ∷ (text "yml", text "application/x-yaml")
    ∷ (text "toml", text "application/toml")
    ∷ (text "ts", text "text/plain")
    ∷ (text "tsx", text "text/plain")
    ∷ (text "js", text "text/javascript")
    ∷ (text "jsx", text "text/javascript")
    ∷ (text "py", text "text/x-python")
    ∷ (text "rb", text "text/x-ruby")
    ∷ (text "rs", text "text/x-rust")
    ∷ (text "go", text "text/x-go")
    ∷ (text "java", text "text/x-java")
    ∷ (text "c", text "text/x-c")
    ∷ (text "cpp", text "text/x-c++")
    ∷ (text "h", text "text/x-c")
    ∷ (text "hpp", text "text/x-c++")
    ∷ (text "sh", text "text/x-shellscript")
    ∷ (text "sql", text "text/x-sql")
    ∷ (text "graphql", text "text/x-graphql")
    ∷ (text "parquet", text "application/vnd.apache.parquet")
    ∷ (text "xlsx", text "application/vnd.openxmlformats-officedocument.spreadsheetml.sheet")
    ∷ (text "db", text "application/vnd.sqlite3")
    ∷ (text "sqlite", text "application/vnd.sqlite3")
    ∷ (text "sqlite3", text "application/vnd.sqlite3")
    ∷ (text "zip", text "application/zip")
    ∷ (text "tar", text "application/x-tar")
    ∷ (text "gz", text "application/gzip")
    ∷ []

abbrev lower : ℕ → ℕ
lower c = if leb b'A' c && leb c b'Z' then c + 32 else c

abbrev to_lower_case : Text → Text
to_lower_case s = map lower s

-- `.pop()` of a `split`, which is never empty
abbrev last : List Text → Text
last [] = []
last (s ∷ []) = s
last (s ∷ t ∷ rest) = last (t ∷ rest)

-- `split(sep)[0]`
abbrev first : List Text → Text
first [] = []
first (s ∷ rest) = s

abbrev is_inherited : Text → Bool
is_inherited ext = ext === text "constructor" || ext === text "__proto__"

abbrev type_of : Option (Text × Text) → Text
type_of none = text "application/octet-stream"
type_of (some row) = row.1

unfoldable pub detect_mime_type : Text → Option Text
unfolding mime_map
detect_mime_type path =
    let ext = to_lower_case (last (split_on (λ c. c == b'.') path)) in
    if is_inherited ext then none else some (type_of (find? (λ row. row.0 === ext) mime_map))

abbrev indexable_names : List Text
indexable_names =
    text "application/json"
    ∷ text "application/x-ndjson"
    ∷ text "application/xml"
    ∷ text "application/x-yaml"
    ∷ text "application/toml"
    ∷ text "image/svg+xml"
    ∷ []

unfoldable pub is_indexable_mime_type : Text → Bool
is_indexable_mime_type content_type =
    let normalized = to_lower_case (trim (first (split_on (λ c. c == b';') content_type))) in
    starts_with normalized (text "text/") || is_one_of normalized indexable_names
  where
    is_one_of : Text → List Text → Bool
    is_one_of s [] = false
    is_one_of s (t ∷ names) = s === t || is_one_of s names

abbrev is_allowed_control : ℕ → Bool
is_allowed_control b = b == 9 || b == 10 || b == 12 || b == 13

-- how many control bytes there are, if no byte is 0
unfoldable suspicious : Bytes → Option ℕ
suspicious [] = some 0
suspicious (b ∷ bytes) =
    let rest = suspicious bytes in
    if b == 0 then none else count (ltb b 32 && not (is_allowed_control b)) rest
  where
    count : Bool → Option ℕ → Option ℕ
    count c none = none
    count true (some n) = some (suc n)
    count false (some n) = some n

-- fewer than one byte in a hundred
unfoldable pub looks_like_text_bytes : Bytes → Bool
unfolding suspicious
looks_like_text_bytes [] = true
looks_like_text_bytes (b ∷ bytes) = elim (suspicious (b ∷ bytes)) [
  | none ↦ false
  | some n ↦ ltb (n * 100) (length (b ∷ bytes))
]

-- `null` for an unreadable text is `none`. A content type that is no string has no `split`.
unfoldable pub decode_indexable_text : Platform → Bytes → Option Text → Result (Option Text)
decode_indexable_text P bytes content_type = elim (P.decode_strict bytes) [
  | none ↦ ok none
  | some decoded ↦ elim content_type [
    | none ↦ err plain
    | some t ↦
        if is_indexable_mime_type t
        then ok (some decoded)
        else if t === text "application/octet-stream" && looks_like_text_bytes bytes
        then ok (some decoded)
        else ok none
  ]
]
