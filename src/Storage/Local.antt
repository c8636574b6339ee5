-- ===== src/Storage/Local.antt =====
-- `LocalStorageAdapter` of storage/local-adapter.ts over a disk. Every version's bytes also stand at a
-- key named by their hash, and the hash is the version handle.
pub mod Laws
use agent_fs.Prelude.{
  ℕ, Bool, true, false, Option, none, some, List, [], ◌∷◌, ◌++◌, Text, text, if◌then◌else◌,
}
use agent_fs.Errors.{
  Result, ok, err, AgentError, no_such_key, files_error, unsupported_operation, and_then, ◌>>◌,
  ◌>>=◌,
}
use agent_fs.Paths.{assert_key_inside_drive}
use agent_fs.Storage.{
  Bytes, PutObjectResult, GetObjectResult, HeadObjectResult, StorageAdapter, Platform,
}
use agent_fs.Storage.Disk.{Disk, Outcome, done, missing, broken}
use agent_fs.Storage.Legacy.{
  is_legacy_reserved_key, assert_legacy_writable, legacy_put, legacy_get, legacy_delete,
  legacy_head, thrown,
}

unfoldable pub blob_key : Text → Text
blob_key hash = text "_afs-blobs/sha256/" ++ hash

-- `translateError` of a call's end
abbrev pub translate {ℓ} : {A : Type ℓ} → Outcome A → Result A
translate (done a) = ok a
translate missing = err no_such_key
translate broken = err files_error

abbrev pub deleted : Outcome (Unit {0}) → Result (Unit {0})
deleted (done u) = ok tt
deleted missing = ok tt
deleted broken = err files_error

abbrev pub found {ℓ} : {A : Type ℓ} → Option A → Result A
found none = err no_such_key
found (some a) = ok a

-- A handle that is empty is no handle (`versionId ?`).
abbrev pub handle_of : Option Text → Option Text
handle_of none = none
handle_of (some []) = none
handle_of (some (c ∷ v)) = some (c ∷ v)

abbrev pub target_of : Text → Option Text → Text
target_of key none = key
target_of key (some v) = blob_key v

module _ (D : Disk) (P : Platform) where
  -- the history blob, written unless it is there
  abbrev pub ensure_blob : D.State → Bytes → D.State × Result (Unit {0})
  ensure_blob s b = elim (D.exists s (blob_key (P.sha256 b))) [
    | done true ↦ (s, ok tt)
    | done false ↦ (
      (D.upload s (blob_key (P.sha256 b)) b none).0,
      thrown (D.upload s (blob_key (P.sha256 b)) b none).1,
    )
    | missing ↦ (s, err files_error)
    | broken ↦ (s, err files_error)
  ]

  -- the current bytes, at the plain key
  abbrev pub put_plain : D.State → Text → Bytes → Option Text → D.State × Result (Unit {0})
  put_plain s key b t =
      if is_legacy_reserved_key key
      then legacy_put D.node s key b t
      else ((D.upload s key b t).0, thrown (D.upload s key b t).1)

  abbrev pub check_put : D.State → Text → Result (Unit {0})
  check_put s key =
      assert_key_inside_drive key
      >> (if is_legacy_reserved_key key
          then (assert_legacy_writable D.node s key >> ok tt)
          else ok tt)

  unfoldable pub put_object :
      D.State → Text → Bytes → Option Text → D.State × Result PutObjectResult
  put_object s key b t =
      and_then (s, check_put s key)
        λ s0 u. and_then (ensure_blob s0 b) λ s1 u1.
          and_then (put_plain s1 key b t)
            λ s2 u2. (s2, ok (record { etag = some (P.sha256 b); version_id = some (P.sha256 b) }))

  unfoldable pub get_object : D.State → Text → Option Text → Result GetObjectResult
  get_object s key version_id =
      assert_key_inside_drive key
      >> (assert_key_inside_drive (target_of key (handle_of version_id))
          >> (elim (handle_of version_id) [
            | none ↦
                if is_legacy_reserved_key key
                then legacy_get D.node s key >>= found
                else translate (D.download s key)
            | some v ↦ translate (D.download s (blob_key v))
          ]))

  unfoldable pub delete_object : D.State → Text → D.State × Result (Unit {0})
  delete_object s key =
      and_then (s, assert_key_inside_drive key)
        λ s0 u.
          if is_legacy_reserved_key key
          then legacy_delete D.node s0 key
          else ((D.delete s0 key).0, deleted (D.delete s0 key).1)

  unfoldable pub copy_object : D.State → Text → Text → D.State × Result PutObjectResult
  copy_object s from to =
      and_then
        (s, assert_key_inside_drive from >> (assert_key_inside_drive to >> get_object s from none))
        λ s0 src. put_object s0 to src.body src.content_type

  -- A directory never answers as a file.
  unfoldable pub head_object : D.State → Text → Result HeadObjectResult
  head_object s key =
      assert_key_inside_drive key
      >> (if is_legacy_reserved_key key
          then legacy_head D.node s key >>= found
          else translate (D.head s key) >>= λ stored.
              if D.is_directory s key then err no_such_key else ok stored)

  abbrev pub adapter : StorageAdapter
  adapter = record {
    State = D.State;
    has_versioning = true;
    put_object = put_object;
    get_object = get_object;
    delete_object = delete_object;
    copy_object = copy_object;
    head_object = head_object;
  }
