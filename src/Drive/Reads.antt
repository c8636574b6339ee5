-- ===== src/Drive/Reads.antt =====
-- cat, tail and stat of packages/core/src/ops. Offsets and counts are not negative.
pub mod Pages
pub mod Missing
use agent_fs.Prelude.{
  ℕ, ◌+◌, ◌-◌, Bool, true, false, Option, none, some, List, [], ◌∷◌, ◌++◌, Text, text, ◌==◌, ltb,
  length, take, drop, if◌then◌else◌,
}
use agent_fs.Errors.{Result, ok, err, validation, ◌>>=◌}
use agent_fs.Paths.{normalize_path, split_on}
use agent_fs.Storage.{Platform, StorageAdapter, GetObjectResult, HeadObjectResult}
use agent_fs.Mime.{detect_mime_type, decode_indexable_text}
use agent_fs.Files.{OpContext, File, file_of}
use agent_fs.Drive.{Drive, key_of, as_not_found, or_else, read_text}

pub record CatResult : Type 0 where
  pub content : Text
  pub total_lines : ℕ
  pub truncated : Bool

-- `content.split("\n")` and `lines.join("\n")`
abbrev pub lines_of : Text → List Text
lines_of content = split_on (λ c. c == 10) content

unfoldable pub join : List Text → Text
join [] = []
join (line ∷ []) = line
join (line ∷ next ∷ lines) = line ++ (10 ∷ join (next ∷ lines))

abbrev pub or_default : Option ℕ → ℕ → ℕ
or_default none n = n
or_default (some k) n = k

abbrev pub page : List Text → ℕ → ℕ → CatResult
page lines offset limit = record {
  content = join (take limit (drop offset lines));
  total_lines = length lines;
  truncated = ltb (offset + limit) (length lines);
}

abbrev pub last_page : List Text → ℕ → CatResult
last_page lines n = record {
  content = join (drop (length lines - n) lines);
  total_lines = length lines;
  truncated = ltb 0 (length lines - n);
}

module _ (A : StorageAdapter) (P : Platform) where
  abbrev pub readable : Option Text → Result Text
  readable none = err validation
  readable (some content) = ok content

  abbrev pub decoded : Text → GetObjectResult → Result Text
  decoded path o =
      decode_indexable_text P o.body
        (or_else o.content_type (detect_mime_type (normalize_path path)))
      >>= readable

  unfoldable pub cat : Drive A → OpContext → Text → Option ℕ → Option ℕ → Result CatResult
  cat d ctx path offset limit =
      as_not_found (A.get_object d.store (key_of ctx path) none >>= decoded path) >>= λ content.
      ok (page (lines_of content) (or_default offset 0) (or_default limit 200))

  unfoldable pub tail : Drive A → OpContext → Text → Option ℕ → Result CatResult
  tail d ctx path lines = read_text A P d ctx path >>= λ content.
      ok (last_page (lines_of content) (or_default lines 20))

  pub record StatResult : Type 0 where
    pub path : Text
    pub size : ℕ
    pub content_type : Option Text
    pub author : Text
    pub current_version : Option ℕ
    pub is_deleted : Bool
    pub etag : Option Text

  abbrev author_of : Option File → Text
  author_of none = text "unknown"
  author_of (some f) = f.author

  abbrev version_of : Option File → Option ℕ
  version_of none = none
  version_of (some f) = some f.current_version_id

  abbrev deleted_of : Option File → Bool
  deleted_of none = false
  deleted_of (some f) = f.is_deleted

  unfoldable pub stat : Drive A → OpContext → Text → Result StatResult
  stat d ctx path = as_not_found (A.head_object d.store (key_of ctx path)) >>= λ head.
      let file = file_of (normalize_path path) ctx.drive_id d.db.files in
      ok (record {
        path = normalize_path path;
        size = head.size;
        content_type = head.content_type;
        author = author_of file;
        current_version = version_of file;
        is_deleted = deleted_of file;
        etag = head.etag;
      })
