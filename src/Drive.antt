-- ===== src/Drive.antt =====
-- The file operations of packages/core/src/ops over the file tables and a storage backend: write,
-- append, edit, rm, cp, mv and revert. An operation gives the drive that it leaves, also when it
-- fails. No other request runs between its parts; Files.Versions.Interleaved and Files.Write.Laws say
-- what changes when one does. Search data, comments, favorites, events and glob listings, which these
-- operations also update, are not modelled, nor are messages.
pub mod Requests
pub mod Laws
pub mod Reads
pub mod Tests
use agent_fs.Prelude.{
  ℕ, Bool, true, false, not, Option, none, some, List, [], ◌∷◌, ◌++◌, Text, ◌===◌, ◌==◌, ◌&&◌,
  find?, length, if◌then◌else◌,
}
use agent_fs.Errors.{
  Result, ok, err, AgentError, not_found, permission_denied, edit_conflict, indexing_in_progress,
  validation, embedding_provider, unsupported_operation, presence_limit, agent_fs_error, plain,
  no_such_key, files_error, and_then, ◌>>=◌,
}
use agent_fs.Paths.{normalize_path, get_s3_key}
use agent_fs.Storage.{
  Bytes, Platform, StorageAdapter, PutObjectResult, GetObjectResult, HeadObjectResult,
}
use agent_fs.Mime.{detect_mime_type}
use agent_fs.Files.{FileDb, FileVersion, Operation, OpContext, is_version_of}
use agent_fs.Files.Versions.{VersionParams, Drawn, assert_expected_version, create_version}
use agent_fs.Files.Write.{WriteParams, Checked, check_write}
use agent_fs.Files.Edit.{edit_text}

pub record Drive (A : StorageAdapter) : Type 0 where
  pub db : FileDb
  pub store : A.State

abbrev pub key_of : OpContext → Text → Text
key_of ctx path = get_s3_key ctx.org_id ctx.drive_id (normalize_path path)

-- The handler that turns a missing object into `NotFoundError`.
abbrev pub as_not_found {ℓ} : {A : Type ℓ} → Result A → Result A
as_not_found (ok a) = ok a
as_not_found (err e) = err (translated e)
  where
    translated : AgentError → AgentError
    translated no_such_key = not_found
    translated not_found = not_found
    translated permission_denied = permission_denied
    translated edit_conflict = edit_conflict
    translated indexing_in_progress = indexing_in_progress
    translated validation = validation
    translated embedding_provider = embedding_provider
    translated unsupported_operation = unsupported_operation
    translated presence_limit = presence_limit
    translated agent_fs_error = agent_fs_error
    translated plain = plain
    translated files_error = files_error

abbrev pub or_else {ℓ} : {A : Type ℓ} → Option A → Option A → Option A
or_else none b = b
or_else (some a) b = some a

-- `versionId ?? ""`
abbrev pub handle_or_empty : Option Text → Text
handle_or_empty none = []
handle_or_empty (some v) = v

abbrev pub is_version : Text → Text → ℕ → FileVersion → Bool
is_version path drive_id version r = is_version_of path drive_id r && r.version == version

module _ (A : StorageAdapter) (P : Platform) where
  -- a call that changes the store
  abbrev pub with_store {ℓ} : {B : Type ℓ} → Drive A → A.State × Result B → Drive A × Result B
  with_store d out = (record { db = d.db; store = out.0 }, out.1)

  abbrev pub recorded : Drive A → Result (FileDb × ℕ) → Drive A × Result ℕ
  recorded d (ok made) = (record { db = made.0; store = d.store }, ok made.1)
  recorded d (err e) = (d, err e)

  abbrev pub record_version : Drive A → OpContext → VersionParams → Drawn → Drive A × Result ℕ
  record_version d ctx params drawn = recorded d (create_version d.db ctx params drawn)

  abbrev pub checked {ℓ} : {B : Type ℓ} → Drive A → Result B → Drive A × Result B
  checked d r = (d, r)

  abbrev pub stored_version : Text → Operation → Bytes → PutObjectResult → VersionParams
  stored_version path operation body r = record {
    path = normalize_path path;
    s3_version_id = handle_or_empty r.version_id;
    operation = operation;
    size = some (length body);
    etag = r.etag;
    content_type = detect_mime_type (normalize_path path);
    content_hash = some (P.sha256 body);
  }

  -- The end of write, append, edit and revert: the bytes are put, and then recorded.
  unfoldable pub store_version :
      Drive A → OpContext → Text → Operation → Bytes → Drawn → Drive A × Result ℕ
  store_version d ctx path operation body drawn =
      and_then
        (with_store d
          (A.put_object d.store (key_of ctx path) body (detect_mime_type (normalize_path path))))
        λ d1 r. record_version d1 ctx (stored_version path operation body r) drawn

  abbrev pub write_params : Text → Bytes → Option ℕ → WriteParams
  write_params path bytes expected = record {
    path = path;
    size = length bytes;
    content_hash = P.sha256 bytes;
    expected_version = expected;
  }

  abbrev pub after_check : Drive A → OpContext → Text → Bytes → Drawn → Checked → Drive A × Result ℕ
  after_check d ctx path bytes drawn (Checked.deduped version) = (d, ok version)
  after_check d ctx path bytes drawn Checked.upload =
      store_version d ctx path Operation.write bytes drawn

  -- `writeInternal`
  unfoldable pub write :
      Drive A → OpContext → ℕ → Text → Bytes → Option ℕ → Drawn → Drive A × Result ℕ
  write d ctx max_size path bytes expected drawn =
      and_then (checked d (check_write d.db ctx max_size (write_params path bytes expected)))
        λ d0 c. after_check d0 ctx path bytes drawn c

  abbrev pub expect : Drive A → OpContext → Text → Option ℕ → Drive A × Result ℕ
  expect d ctx path expected =
      checked d (assert_expected_version d.db ctx (normalize_path path) expected)

  -- the current text, for append, edit and tail
  abbrev pub read_text : Drive A → OpContext → Text → Result Text
  read_text d ctx path =
      as_not_found (A.get_object d.store (key_of ctx path) none) >>= λ o. ok (P.decode o.body)

  unfoldable pub append : Drive A → OpContext → Text → Text → Option ℕ → Drawn → Drive A × Result ℕ
  append d ctx path added expected drawn = and_then (expect d ctx path expected) λ d0 v.
      and_then (checked d0 (read_text d0 ctx path))
        λ d1 current. store_version d1 ctx path Operation.append (P.encode (current ++ added)) drawn

  unfoldable pub edit :
      Drive A → OpContext → Text → Text → Text → Option ℕ → Drawn → Drive A × Result ℕ
  edit d ctx path old new expected drawn = and_then (expect d ctx path expected) λ d0 v.
      and_then (checked d0 (read_text d0 ctx path >>= λ current. edit_text current old new))
        λ d1 text. store_version d1 ctx path Operation.edit (P.encode text) drawn

  abbrev pub deletion : Text → VersionParams
  deletion path = record {
    path = normalize_path path;
    s3_version_id = [];
    operation = Operation.delete;
    size = none;
    etag = none;
    content_type = none;
    content_hash = none;
  }

  unfoldable pub rm : Drive A → OpContext → Text → Option ℕ → Drawn → Drive A × Result ℕ
  rm d ctx path expected drawn = and_then (expect d ctx path expected) λ d0 v.
      and_then (with_store d0 (A.delete_object d0.store (key_of ctx path)))
        λ d1 u. record_version d1 ctx (deletion path) drawn

  abbrev pub copied_version :
      Text → PutObjectResult → HeadObjectResult → GetObjectResult → VersionParams
  copied_version to copy head obj = record {
    path = normalize_path to;
    s3_version_id = handle_or_empty copy.version_id;
    operation = Operation.write;
    size = some head.size;
    etag = copy.etag;
    content_type =
        or_else head.content_type (or_else obj.content_type (detect_mime_type (normalize_path to)));
    content_hash = some (P.sha256 obj.body);
  }

  -- The part that cp and mv share: the object is copied, read back and recorded.
  unfoldable pub copy_and_record : Drive A → OpContext → Text → Text → Drawn → Drive A × Result ℕ
  copy_and_record d ctx from to drawn =
      and_then (with_store d (A.copy_object d.store (key_of ctx from) (key_of ctx to))) λ d1 copy.
        and_then (checked d1 (A.head_object d1.store (key_of ctx to))) λ d2 head.
          and_then (checked d2 (A.get_object d2.store (key_of ctx to) none))
            λ d3 obj. record_version d3 ctx (copied_version to copy head obj) drawn

  abbrev pub assert_distinct : Text → Text → Result (Unit {0})
  assert_distinct from to =
      if normalize_path from === normalize_path to then err validation else ok tt

  unfoldable pub cp : Drive A → OpContext → Text → Text → Option ℕ → Drawn → Drive A × Result ℕ
  cp d ctx from to expected drawn =
      and_then (checked d (assert_distinct from to))
        λ d0 u. and_then (expect d0 ctx to expected) λ d1 v. copy_and_record d1 ctx from to drawn

  -- The result is the version of the destination.
  unfoldable pub mv :
      Drive A → OpContext → Text → Text → Option ℕ → Drawn → Drawn → Drive A × Result ℕ
  mv d ctx from to expected drawn drawn' = and_then (checked d (assert_distinct from to)) λ d0 u.
      and_then (expect d0 ctx from expected) λ d1 v.
        and_then (copy_and_record d1 ctx from to drawn) λ d2 version.
          and_then (with_store d2 (A.delete_object d2.store (key_of ctx from))) λ d3 u'.
            and_then (record_version d3 ctx (deletion from) drawn') λ d4 v'. (d4, ok version)

  -- the row that revert looks for, and its handle
  abbrev pub handle_of_row : Option FileVersion → Result Text
  handle_of_row none = err not_found
  handle_of_row (some r) = if r.s3_version_id === [] then err agent_fs_error else ok r.s3_version_id

  abbrev pub assert_capability : Result (Unit {0})
  assert_capability = if A.has_versioning then ok tt else err unsupported_operation

  unfoldable pub revert : Drive A → OpContext → Text → ℕ → Option ℕ → Drawn → Drive A × Result ℕ
  revert d ctx path version expected drawn = and_then (checked d assert_capability) λ d0 u.
      and_then (expect d0 ctx path expected) λ d1 v.
        and_then
          (checked d1 (
            handle_of_row
              (find? (is_version (normalize_path path) ctx.drive_id version) d1.db.versions)))
          λ d2 handle.
            and_then (checked d2 (A.get_object d2.store (key_of ctx path) (some handle)))
              λ d3 old. store_version d3 ctx path Operation.revert old.body drawn
