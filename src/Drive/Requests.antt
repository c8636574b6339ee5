-- ===== src/Drive/Requests.antt =====
-- A request to a drive, as ops/index.ts dispatches it, and what it means: the contents of the paths
-- before and after, with nothing of versions, keys or handles.
use agent_fs.Prelude.{ℕ, ◌≡◌, Option, none, some, Text, ◌===◌, ◌++◌, find?, if◌then◌else◌}
use agent_fs.Errors.{Result, ok}
use agent_fs.Paths.{normalize_path}
use agent_fs.Storage.{Bytes, Platform, StorageAdapter}
use agent_fs.Files.{FileVersion, FileDb, OpContext}
use agent_fs.Files.Versions.{Drawn}
use agent_fs.Files.Edit.{edit_text}
use agent_fs.Drive.{Drive, write, append, edit, rm, cp, mv, revert, is_version}

pub data Request : Type 0 where
  write_file : ℕ → Text → Bytes → Option ℕ → Drawn → Request
  append_file : Text → Text → Option ℕ → Drawn → Request
  edit_file : Text → Text → Text → Option ℕ → Drawn → Request
  rm_file : Text → Option ℕ → Drawn → Request
  cp_file : Text → Text → Option ℕ → Drawn → Request
  mv_file : Text → Text → Option ℕ → Drawn → Drawn → Request
  revert_file : Text → ℕ → Option ℕ → Drawn → Request

unfoldable pub handle :
    (A : StorageAdapter) → Platform → Drive A → OpContext → Request → Drive A × Result ℕ
handle A P d ctx (write_file m path bytes expected drawn) =
    write A P d ctx m path bytes expected drawn
handle A P d ctx (append_file path added expected drawn) =
    append A P d ctx path added expected drawn
handle A P d ctx (edit_file path old new expected drawn) =
    edit A P d ctx path old new expected drawn
handle A P d ctx (rm_file path expected drawn) = rm A P d ctx path expected drawn
handle A P d ctx (cp_file from to expected drawn) = cp A P d ctx from to expected drawn
handle A P d ctx (mv_file from to expected drawn drawn') =
    mv A P d ctx from to expected drawn drawn'
handle A P d ctx (revert_file path version expected drawn) =
    revert A P d ctx path version expected drawn

abbrev pub Contents : Type 0
Contents = Text → Option Bytes

-- One path's content replaced; `none` is no file.
abbrev pub set_content : Text → Option Bytes → Contents → Contents
set_content path v c q = if normalize_path path === normalize_path q then v else c q

abbrev pub IsContents : Contents → Contents → Type 0
IsContents c c' = (q : Text) → c' q ≡ c q

-- The bytes have the hash that the version's row keeps, if it keeps one.
abbrev pub IsOfVersion : Platform → FileDb → OpContext → Text → ℕ → Bytes → Type 0
IsOfVersion P db ctx path version b =
    (r : FileVersion) × (find? (is_version (normalize_path path) ctx.drive_id version) db.versions
      ≡ some r)
    × ((x : Text) → r.content_hash ≡ some x → P.sha256 b ≡ x)

-- What a request that succeeds does to the contents. A write may leave bytes that were there
-- already, of the same hash.
abbrev pub Specified : Platform → FileDb → OpContext → Request → Contents → Contents → Type 0
Specified P db ctx (write_file m path bytes expected drawn) c c' =
    (b : Bytes) × (P.sha256 b ≡ P.sha256 bytes) × IsContents (set_content path (some b) c) c'
Specified P db ctx (append_file path added expected drawn) c c' =
    (b : Bytes) × (c path ≡ some b)
    × IsContents (set_content path (some (P.encode (P.decode b ++ added))) c) c'
Specified P db ctx (edit_file path old new expected drawn) c c' =
    (b : Bytes) × (t : Text) × (c path ≡ some b)
    × (edit_text (P.decode b) old new ≡ ok t)
    × IsContents (set_content path (some (P.encode t)) c) c'
Specified P db ctx (rm_file path expected drawn) c c' = IsContents (set_content path none c) c'
Specified P db ctx (cp_file from to expected drawn) c c' =
    (b : Bytes) × (c from ≡ some b) × IsContents (set_content to (some b) c) c'
Specified P db ctx (mv_file from to expected drawn drawn') c c' =
    (b : Bytes) × (c from ≡ some b)
    × IsContents (set_content from none (set_content to (some b) c)) c'
Specified P db ctx (revert_file path version expected drawn) c c' =
    (b : Bytes) × IsOfVersion P db ctx path version b × IsContents (set_content path (some b) c) c'
