-- ===== src/Files/Write.antt =====
-- `writeInternal` of ops/write.ts: the check before the upload, and the commit after it. Other
-- requests run while the upload is awaited, so the two are steps of their own. The upload's result,
-- the bytes' length and the SHA-256 of the bytes are arguments; search indexing and link warnings are
-- not modelled.
pub mod Laws
use agent_fs.Prelude.{
  ℕ, Bool, true, false, Option, none, some, Text, ◌===◌, ltb, if◌then◌else◌, ◌&&◌,
}
use agent_fs.Errors.{Result, ok, err, validation, ◌>>=◌}
use agent_fs.Paths.{normalize_path}
use agent_fs.Files.{Operation, FileDb, OpContext}
use agent_fs.Files.Versions.{
  VersionParams, Drawn, assert_expected_version, get_head_content_hash, create_version,
}

pub record WriteParams : Type 0 where
  pub path : Text
  pub size : ℕ
  pub content_hash : Text
  pub expected_version : Option ℕ

-- what `putObject` returns, and the MIME type of the path
pub record Uploaded : Type 0 where
  pub version_id : Text
  pub etag : Option Text
  pub content_type : Option Text

pub data Checked : Type 0 where
  deduped : ℕ → Checked
  upload : Checked

abbrev pub is_hash : Text → Option Text → Bool
is_hash hash none = false
is_hash hash (some h) = h === hash

abbrev dedup : ℕ → Bool → Checked
dedup current same = if ltb 0 current && same then deduped current else upload

-- Up to the upload.
unfoldable pub check_write : FileDb → OpContext → ℕ → WriteParams → Result Checked
check_write db ctx max_size params =
    if ltb max_size params.size then err validation else elim params.expected_version [
      | none ↦ ok upload
      | some v ↦ assert_expected_version db ctx (normalize_path params.path) (some v) >>= λ current.
          ok (
            dedup current (
              is_hash params.content_hash
                (get_head_content_hash db ctx (normalize_path params.path))))
    ]

abbrev pub write_version : WriteParams → Uploaded → VersionParams
write_version params uploaded = record {
  path = normalize_path params.path;
  s3_version_id = uploaded.version_id;
  operation = Operation.write;
  size = some params.size;
  etag = uploaded.etag;
  content_type = uploaded.content_type;
  content_hash = some params.content_hash;
}

-- After the upload.
unfoldable pub commit_write :
    FileDb → OpContext → WriteParams → Uploaded → Drawn → Result (FileDb × ℕ)
commit_write db ctx params uploaded drawn =
    create_version db ctx (write_version params uploaded) drawn

-- The whole write, with no other request between its parts.
unfoldable pub write_internal :
    FileDb → OpContext → ℕ → WriteParams → Uploaded → Drawn → Result (FileDb × ℕ)
write_internal db ctx max_size params uploaded drawn = check_write db ctx max_size params >>= λ c.
    elim c [
      | deduped version ↦ ok (db, version)
      | upload ↦ commit_write db ctx params uploaded drawn
    ]
