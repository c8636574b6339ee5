-- ===== src/Files.antt =====
-- The file tables of packages/core/src/db/schema.ts, `files` and `file_versions`, and the versions
-- of a file (ops/versioning.ts). The search index's columns, messages and diff summaries are left
-- out. A transaction also writes the webhook outbox, so the tables of Webhooks are part of the state.
pub mod Versions
pub mod Write
pub mod Edit
mod Tests
use agent_fs.Prelude.{
  ℕ, ◌+◌, Bool, true, false, ◌&&◌, Option, none, some, List, [], ◌∷◌, Text, ◌===◌, ltb, max, find?,
  if◌then◌else◌,
}
use agent_fs.Webhooks.{WebhookDb}

pub data Operation : Type 0 where
  write edit append delete revert : Operation

pub record FileVersion : Type 0 where
  pub path : Text
  pub drive_id : Text
  pub version : ℕ
  pub s3_version_id : Text
  pub author : Text
  pub operation : Operation
  pub size : Option ℕ
  pub etag : Option Text
  pub content_hash : Option Text
  pub created_at : ℕ

pub record File : Type 0 where
  pub path : Text
  pub drive_id : Text
  pub size : ℕ
  pub content_type : Option Text
  pub author : Text
  pub current_version_id : ℕ
  pub created_at : ℕ
  pub modified_at : ℕ
  pub is_deleted : Bool

pub record FileDb : Type 0 where
  pub versions : List FileVersion
  pub files : List File
  pub webhooks : WebhookDb

-- the caller and the drive (`OpContext` of ops/types.ts)
pub record OpContext : Type 0 where
  pub org_id : Text
  pub drive_id : Text
  pub user_id : Text

abbrev pub is_delete : Operation → Bool
is_delete write = false
is_delete edit = false
is_delete append = false
is_delete delete = true
is_delete revert = false

abbrev pub is_version_of : Text → Text → FileVersion → Bool
is_version_of path drive_id r = r.path === path && r.drive_id === drive_id

abbrev pub is_file : Text → Text → File → Bool
is_file path drive_id f = f.path === path && f.drive_id === drive_id

-- `MAX(version) ?? 0`
unfoldable pub max_version : Text → Text → List FileVersion → ℕ
max_version path drive_id [] = 0
max_version path drive_id (r ∷ rows) =
    max (if is_version_of path drive_id r then r.version else 0) (max_version path drive_id rows)

abbrev pub later : FileVersion → Option FileVersion → Option FileVersion
later r none = some r
later r (some h) = if ltb h.version r.version then some r else some h

-- ORDER BY version DESC LIMIT 1
unfoldable pub head_row : Text → Text → List FileVersion → Option FileVersion
head_row path drive_id [] = none
head_row path drive_id (r ∷ rows) =
    let rest = head_row path drive_id rows in
    if is_version_of path drive_id r then later r rest else rest

unfoldable pub file_of : Text → Text → List File → Option File
file_of path drive_id files = find? (is_file path drive_id) files
