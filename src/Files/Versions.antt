-- ===== src/Files/Versions.antt =====
-- ops/versioning.ts: the next version, the expected version, and `createVersion`. `createVersion`
-- reads the next version and then awaits, so its transaction `create_version_at` is a step of its own.
pub mod Laws
pub mod Invariant
pub mod Interleaved
use agent_fs.Prelude.{
  ℕ, ◌+◌, Bool, true, false, ◌&&◌, ◌||◌, Option, none, some, List, [], ◌∷◌, ◌++◌, Text, ◌==◌, ◌===◌,
  any, if◌then◌else◌,
}
use agent_fs.Errors.{Result, ok, err, edit_conflict, ◌>>=◌}
use agent_fs.Sql.{update_where}
use agent_fs.Webhooks.{WebhookDb}
use agent_fs.Webhooks.Outbox.{enqueue_file_webhooks}
use agent_fs.Files.{
  Operation, FileVersion, File, FileDb, OpContext, is_delete, is_version_of, is_file, max_version,
  head_row, file_of,
}

unfoldable pub get_next_version : FileDb → OpContext → Text → ℕ
get_next_version db ctx path = max_version path ctx.drive_id db.versions + 1

abbrev pub version_or_zero : Option FileVersion → ℕ
version_or_zero none = 0
version_or_zero (some h) = h.version

abbrev pub is_tombstone : Option FileVersion → Bool
is_tombstone none = false
is_tombstone (some h) = is_delete h.operation

-- no expectation, the head's version, or 0 for a deleted head
abbrev pub matches_head : Option ℕ → Option FileVersion → Bool
matches_head none head = true
matches_head (some v) head = v == version_or_zero head || (v == 0 && is_tombstone head)

unfoldable pub assert_expected_version : FileDb → OpContext → Text → Option ℕ → Result ℕ
assert_expected_version db ctx path expected =
    let head = head_row path ctx.drive_id db.versions in
    if matches_head expected head then ok (version_or_zero head) else err edit_conflict

abbrev pub hash_of : Option FileVersion → Option Text
hash_of none = none
hash_of (some h) = h.content_hash

unfoldable pub get_head_content_hash : FileDb → OpContext → Text → Option Text
get_head_content_hash db ctx path = hash_of (head_row path ctx.drive_id db.versions)

pub record VersionParams : Type 0 where
  pub path : Text
  pub s3_version_id : Text
  pub operation : Operation
  pub size : Option ℕ
  pub etag : Option Text
  pub content_type : Option Text
  pub content_hash : Option Text

-- what the transaction draws: the clock, and the ids and payload of the webhook deliveries
pub record Drawn : Type 0 where
  pub now : ℕ
  pub delivery_id : Text → Text
  pub event_id : Text
  pub payload : Text

abbrev pub new_version : OpContext → VersionParams → ℕ → ℕ → FileVersion
new_version ctx params version now = record {
  path = params.path;
  drive_id = ctx.drive_id;
  version = version;
  s3_version_id = params.s3_version_id;
  author = ctx.user_id;
  operation = params.operation;
  size = params.size;
  etag = params.etag;
  content_hash = params.content_hash;
  created_at = now;
}

abbrev size_or : Option ℕ → ℕ → ℕ
size_or none old = old
size_or (some n) old = n

abbrev type_or : Option Text → Option Text → Option Text
type_or none old = old
type_or (some t) old = some t

abbrev pub touched : OpContext → VersionParams → ℕ → ℕ → File → File
touched ctx params version now f = record f {
  size = size_or params.size f.size;
  content_type = type_or params.content_type f.content_type;
  author = ctx.user_id;
  current_version_id = version;
  modified_at = now;
  is_deleted = is_delete params.operation;
}

abbrev pub new_file : OpContext → VersionParams → ℕ → ℕ → File
new_file ctx params version now = record {
  path = params.path;
  drive_id = ctx.drive_id;
  size = size_or params.size 0;
  content_type = params.content_type;
  author = ctx.user_id;
  current_version_id = version;
  created_at = now;
  modified_at = now;
  is_deleted = is_delete params.operation;
}

unfoldable pub upsert_file : OpContext → VersionParams → ℕ → ℕ → List File → List File
upsert_file ctx params version now files =
    if any (is_file params.path ctx.drive_id) files
    then update_where (is_file params.path ctx.drive_id) (touched ctx params version now) files
    else files ++ new_file ctx params version now ∷ []

-- the unique index on path, drive and version
abbrev pub is_taken : Text → Text → ℕ → List FileVersion → Bool
is_taken path drive_id version rows =
    any (λ r. is_version_of path drive_id r && r.version == version) rows

abbrev pub committed : FileDb → OpContext → VersionParams → Drawn → ℕ → FileDb
committed db ctx params drawn version = record {
  versions = db.versions ++ new_version ctx params version drawn.now ∷ [];
  files = upsert_file ctx params version drawn.now db.files;
  webhooks =
      (enqueue_file_webhooks db.webhooks ctx.org_id ctx.drive_id params.path drawn.delivery_id
        drawn.event_id drawn.payload drawn.now).0;
}

-- The transaction, with the version that was read before it.
unfoldable pub create_version_at : FileDb → OpContext → VersionParams → Drawn → ℕ → Result FileDb
create_version_at db ctx params drawn version =
    if is_taken params.path ctx.drive_id version db.versions
    then err edit_conflict
    else ok (committed db ctx params drawn version)

-- `createVersion` with nothing between its read and its transaction
unfoldable pub create_version : FileDb → OpContext → VersionParams → Drawn → Result (FileDb × ℕ)
create_version db ctx params drawn =
    let version = get_next_version db ctx params.path in
    create_version_at db ctx params drawn version >>= λ db'. ok (db', version)
