-- ===== src/Drive/Laws/Stores.antt =====
-- The end of write, append, edit and revert, and the deletion of rm and mv: the store is changed, and
-- then a version is recorded.
use agent_fs.Prelude.{
  ℕ, ◌+◌, ◌≡◌, refl, sym, ap, subst, false, Option, none, some, [], Text, ◌===◌, ===_refl, arith,
}
use agent_fs.Errors.{Result, ok, err, AgentError, and_then_elim}
use agent_fs.Paths.{normalize_path}
use agent_fs.Storage.{Bytes, Platform, StorageAdapter, PutObjectResult, IsStorage, IsPut, Holds}
use agent_fs.Mime.{detect_mime_type}
use agent_fs.Files.{OpContext, Operation, max_version}
use agent_fs.Files.Versions.{VersionParams, Drawn}
use agent_fs.Files.Write.Laws.{after, create_version-ok}
use agent_fs.Drive.{
  Drive, key_of, with_store, recorded, record_version, stored_version, store_version,
  handle_or_empty,
}
use agent_fs.Drive.Requests.{set_content, IsContents}
use agent_fs.Drive.Laws.{
  IsDriveContext, view, IsRecorded, IsCurrent, view_of_set, OthersSame, Grows, store-IsRecorded,
  after-IsRecorded, after-IsCurrent,
}

module _ (A : StorageAdapter) (P : Platform) (ctx : OpContext) where
  -- Recording a version does not fail.
  pub record_version-ok :
      (d : Drive A) (params : VersionParams) (drawn : Drawn)
      → record_version A P d ctx params drawn ≡ (
        record { db = after d.db ctx params drawn; store = d.store },
        ok (max_version params.path ctx.drive_id d.db.versions + 1),
      )
  record_version-ok d params drawn = ap (recorded A P d) (create_version-ok d.db ctx params drawn)

module _ (A : StorageAdapter) (P : Platform) (L : IsStorage A P.sha256) (ctx : OpContext)
    (own : IsDriveContext A P L ctx) where
  -- An operation that gave a path the content v: what it leaves.
  pub record IsGiven (d : Drive A) (path : Text) (v : Option Bytes) (d' : Drive A) : Type 0 where
    pub same : IsContents (set_content path v (view A P L ctx d)) (view A P L ctx d')
    pub elsewhere : OthersSame A P L ctx path d.store d'.store
    pub grows : Grows d.db.versions d'.db.versions
    pub recorded : IsRecorded A P L ctx d'
    pub current : IsCurrent A P L ctx d → IsCurrent A P L ctx d'

  -- What holds of the drive that is left when an operation succeeds.
  abbrev pub OnOk : (Drive A → Type 0) → Drive A × Result ℕ → Type 0
  OnOk Q out = (n : ℕ) → out.1 ≡ ok n → Q out.0

  -- What a put's handle holds, as the row of its version needs it.
  pub Holds_of_put :
      (s : A.State) (path : Text) (b : Bytes) (r : PutObjectResult)
      → ((v : Text) → r.version_id ≡ some v → Holds A P.sha256 s (key_of ctx path) v (P.sha256 b))
      → handle_or_empty r.version_id === [] ≡ false
      → (x : Text) → some (P.sha256 b) ≡ some x
      → Holds A P.sha256 s (key_of ctx path) (handle_or_empty r.version_id) x
  Holds_of_put s path b r handle nz x hx = from r.version_id refl nz
    where
      from :
          (v : Option Text)
          → r.version_id ≡ v
          → handle_or_empty v === [] ≡ false
          → Holds A P.sha256 s (key_of ctx path) (handle_or_empty v) x
      from none ev nz = ground (arith, ===_refl [])
      from (some v) ev nz =
          let same : P.sha256 b ≡ x = ground (arith, hx) in
          subst (Holds A P.sha256 s (key_of ctx path) v) same (handle v ev)

  module _ (d : Drive A) (path : Text) (operation : Operation) (b : Bytes) (drawn : Drawn)
      (i : IsRecorded A P L ctx d) where
    abbrev pub out : A.State × Result PutObjectResult
    out = A.put_object d.store (key_of ctx path) b (detect_mime_type (normalize_path path))

    abbrev pub stored : Drive A
    stored = record { db = d.db; store = out.0 }

    pub is_put : IsPut A P.sha256 L.IsKey d.store (key_of ctx path) b out
    is_put =
        L.put d.store (key_of ctx path) b (detect_mime_type (normalize_path path)) (own.keys path)
          i.valid

    pub stored_recorded : IsRecorded A P L ctx stored
    stored_recorded =
        store-IsRecorded A P L ctx d out.0
          (L.put-valid d.store (key_of ctx path) b (detect_mime_type (normalize_path path))
            (own.keys path) i.valid)
          is_put.keeps i

    abbrev pub made : PutObjectResult → Drive A
    made r = record {
      db = after d.db ctx (stored_version A P path operation b r) drawn;
      store = out.0;
    }

    pub made_recorded : (r : PutObjectResult) → out.1 ≡ ok r → IsRecorded A P L ctx (made r)
    made_recorded r e =
        after-IsRecorded A P L ctx stored (stored_version A P path operation b r) drawn
          (Holds_of_put out.0 path b r (λ v ev. is_put.handle r v e ev)) stored_recorded

    -- Both ways that it ends.
    pub store_version-elim :
        (Q : Drive A × Result ℕ → Type 0)
        → ((e : AgentError) → Q (stored, err e))
        → ((r : PutObjectResult)
            → out.1 ≡ ok r
            → Q (made r, ok (max_version (normalize_path path) ctx.drive_id d.db.versions + 1)))
        → Q (store_version A P d ctx path operation b drawn)
    unfolding store_version
    store_version-elim Q failed went =
        and_then_elim Q (with_store A P d out) _ (λ e h. failed e)
          (λ r h.
            subst Q
              (sym (record_version-ok A P ctx stored (stored_version A P path operation b r) drawn))
              (went r h))

    made-IsGiven : (r : PutObjectResult) → out.1 ≡ ok r → IsGiven d path (some b) (made r)
    made-IsGiven r e = record {
      same = view_of_set A P L ctx own d (made r) path (some b) (is_put.here r e) is_put.other;
      elsewhere = is_put.other;
      grows = (_, refl);
      recorded = made_recorded r e;
      current =
          after-IsCurrent A P L ctx own d (made r) path (stored_version A P path operation b r)
            drawn refl refl is_put.other (λ x hx. (b, is_put.here r e, (ground (arith, hx))));
    }

    -- A version that is stored gives the path its bytes.
    pub store_version-IsGiven :
        OnOk (IsGiven d path (some b)) (store_version A P d ctx path operation b drawn)
    store_version-IsGiven =
        store_version-elim (OnOk (IsGiven d path (some b))) (λ e n h. ground arith)
          (λ r e m h. made-IsGiven r e)
