-- ===== src/Drive/Laws/Handles.antt =====
-- The version that revert reads.
use agent_fs.Prelude.{
  ◌≡◌, refl, sym, ap, ◌∙◌, inl, inr, true, false, Option, none, some, ℕ, Text, ◌===◌, eq_of_===,
  arith, find?, find?-holds, Bool-cases, [],
}
use agent_fs.Errors.{ok}
use agent_fs.Paths.{normalize_path}
use agent_fs.Storage.{Platform, StorageAdapter, GetObjectResult, IsStorage, body_of}
use agent_fs.Files.{FileVersion, OpContext}
use agent_fs.Drive.{handle_of_row, is_version, Drive, key_of}
use agent_fs.Drive.Requests.{IsOfVersion}
use agent_fs.Drive.Laws.{Kept, IsDriveContext, IsRecorded}
use agent_fs.Drive.Laws.Texts.{find?-All}

-- The row that gave revert its handle.
handle_of_row_inv :
    (A : StorageAdapter) (P : Platform) (o : Option FileVersion) (v : Text)
    → handle_of_row A P o ≡ ok v
    → (r : FileVersion) × (o ≡ some r) × (r.s3_version_id ≡ v) × (r.s3_version_id === [] ≡ false)
handle_of_row_inv A P none v h = ground arith
handle_of_row_inv A P (some r) v h = elim (Bool-cases (r.s3_version_id === [])) [
  | inl empty ↦ ground arith
  | inr named ↦ (r, refl, (ground arith), named)
]

module _ (A : StorageAdapter) (P : Platform) (L : IsStorage A P.sha256) (ctx : OpContext)
    (own : IsDriveContext A P L ctx) (d : Drive A) (i : IsRecorded A P L ctx d) where
  -- The bytes that a recorded handle reads are of its row's hash.
  pub read_handle :
      (path v : Text) (version : ℕ) (old : GetObjectResult)
      → handle_of_row A P
          (find? (is_version (normalize_path path) ctx.drive_id version) d.db.versions)
        ≡ ok v
      → A.get_object d.store (key_of ctx path) (some v) ≡ ok old
      → IsOfVersion P d.db ctx path version old.body
  read_handle path v version old h got =
      let p = is_version (normalize_path path) ctx.drive_id version in
      let (r, found, same, named) = handle_of_row_inv A P (find? p d.db.versions) v h in
      let mine : p r ≡ true = find?-holds p d.db.versions r found in
      let here : r.path ≡ normalize_path path =
        eq_of_=== r.path (normalize_path path) (ground arith) in
      let own_drive : r.drive_id ≡ ctx.drive_id =
        eq_of_=== r.drive_id ctx.drive_id (ground arith) in
      (
        r,
        found,
        λ x hx.
            let (b, reads, hash) =
              find?-All (Kept A P L ctx d.store) p d.db.versions r i.history found own_drive named x
                hx in
            let reads' : body_of (A.get_object d.store (key_of ctx path) (some v)) ≡ some b =
              rw (sym here, sym same) reads in
            let eq : old.body ≡ b = ground (arith, ap body_of got, reads') in ap P.sha256 eq ∙ hash,
      )
