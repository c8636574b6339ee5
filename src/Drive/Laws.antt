-- ===== src/Drive/Laws.antt =====
-- The contents of a drive's files, and the two invariants of a drive.
pub mod Confined
pub mod Stores
pub mod Deletes
pub mod Copies
pub mod Handles
pub mod Texts
pub mod Refined
pub mod Restored
pub mod Safe
pub mod Moves
use agent_fs.Prelude.{
  append-nil, append_assoc, ℕ, ◌+◌, ◌≡◌, refl, sym, ap, subst, ◌∙◌, ◌⊎◌, inl, inr, Bool, true,
  false, Option, none, some, List, [], ◌∷◌, ◌++◌, Text, ◌===◌, ===_iff, ===_refl, eq_of_===, arith,
  All, All-append, Bool-cases, if◌then◌else◌,
}
use agent_fs.Paths.{includes, normalize_path, get_s3_key}
use agent_fs.Paths.Keys.{get_s3_key_inj}
use agent_fs.Storage.{Bytes, Platform, StorageAdapter, IsStorage, content, Holds, Keeps}
use agent_fs.Files.{FileVersion, FileDb, OpContext, head_row, max_version, is_version_of}
use agent_fs.Files.Versions.{VersionParams, Drawn, new_version}
use agent_fs.Files.Versions.Laws.{head_row-append}
use agent_fs.Files.Write.Laws.{after, head_after}
use agent_fs.Drive.{Drive, key_of}
use agent_fs.Drive.Requests.{set_content, IsContents}

-- Versions are only added.
abbrev pub Grows : List FileVersion → List FileVersion → Type 0
Grows rows rows' = (more : List FileVersion) × (rows' ≡ rows ++ more)

pub Grows-refl : (rows : List FileVersion) → Grows rows rows
Grows-refl rows = ([], sym (append-nil rows))

pub Grows-trans :
    (rows rows' rows'' : List FileVersion)
    → Grows rows rows'
    → Grows rows' rows''
    → Grows rows rows''
Grows-trans rows rows' rows'' (m, e) (m', e') = (m ++ m', e' ∙ (rw e (append_assoc rows m m')))

module _ (A : StorageAdapter) (P : Platform) (L : IsStorage A P.sha256) (ctx : OpContext) where
  -- Ids hold no slash, and the files' keys are among those that the backend promises for.
  pub record IsDriveContext : Type 0 where
    pub org : includes b'/' ctx.org_id ≡ false
    pub drive : includes b'/' ctx.drive_id ≡ false
    pub keys : (path : Text) → L.IsKey (key_of ctx path)

  -- what a path of the drive reads as
  abbrev pub view : Drive A → Text → Option Bytes
  view d path = content A d.store (key_of ctx path)

  -- The handle that a row of this drive keeps reads bytes of the hash that the row keeps.
  abbrev pub Kept : A.State → FileVersion → Type 0
  Kept s r =
      r.drive_id ≡ ctx.drive_id
      → r.s3_version_id === [] ≡ false
      → (x : Text) → r.content_hash ≡ some x
      → Holds A P.sha256 s (get_s3_key ctx.org_id ctx.drive_id r.path) r.s3_version_id x

  pub record IsRecorded (d : Drive A) : Type 0 where
    pub valid : L.IsValid d.store
    pub history : All (Kept d.store) d.db.versions

  -- The content of a path has the hash that its head version says.
  abbrev pub IsCurrent : Drive A → Type 0
  IsCurrent d =
      (path : Text) (h : FileVersion) (x : Text)
      → head_row (normalize_path path) ctx.drive_id d.db.versions ≡ some h
      → h.content_hash ≡ some x
      → (b : Bytes) × (view d path ≡ some b) × (P.sha256 b ≡ x)

  pub key_of-differ :
      IsDriveContext
      → (p q : Text) → normalize_path p === normalize_path q ≡ false
      → key_of ctx p === key_of ctx q ≡ false
  key_of-differ own p q h = elim (Bool-cases (key_of ctx p === key_of ctx q)) [
    | inr differ ↦ differ
    | inl same ↦
        let (o, dr, path) =
          get_s3_key_inj ctx.org_id ctx.org_id ctx.drive_id ctx.drive_id p q own.org own.org
            own.drive own.drive (eq_of_=== (key_of ctx p) (key_of ctx q) same) in
        ground (arith, ===_iff (normalize_path p) (normalize_path q), path)
  ]

  pub key_of-same : (p q : Text) → normalize_path p ≡ normalize_path q → key_of ctx p ≡ key_of ctx q
  key_of-same p q e = ap (get_s3_key ctx.org_id ctx.drive_id) e

  -- Other paths than one read as before.
  abbrev pub OthersSame : Text → A.State → A.State → Type 0
  OthersSame path s s' =
      (j : Text) → L.IsKey j → key_of ctx path === j ≡ false → content A s' j ≡ content A s j

  pub view_of_set :
      IsDriveContext
      → (d d' : Drive A) (path : Text) (v : Option Bytes) → view d' path ≡ v
      → OthersSame path d.store d'.store
      → IsContents (set_content path v (view d)) (view d')
  view_of_set own d d' path v here others q =
      elim (Bool-cases (normalize_path path === normalize_path q)) [
        | inr other ↦ rw other (others (key_of ctx q) (own.keys q) (key_of-differ own path q other))
        | inl same ↦ rw same (
            ap (content A d'.store)
              (sym (key_of-same path q (eq_of_=== (normalize_path path) (normalize_path q) same)))
            ∙ here)
      ]

  Keeps-Kept :
      (s s' : A.State) (rows : List FileVersion)
      → Keeps A P.sha256 s s'
      → All (Kept s) rows
      → All (Kept s') rows
  Keeps-Kept s s' [] k h = tt
  Keeps-Kept s s' (r ∷ rows) k (kept, h) = (
    λ e nz x hx.
        k (get_s3_key ctx.org_id ctx.drive_id r.path) r.s3_version_id x nz (kept e nz x hx),
    Keeps-Kept s s' rows k h,
  )

  -- A call of the store.
  pub store-IsRecorded :
      (d : Drive A) (s' : A.State)
      → L.IsValid s'
      → Keeps A P.sha256 d.store s'
      → IsRecorded d
      → IsRecorded (record { db = d.db; store = s' })
  store-IsRecorded d s' v k i = record {
    valid = v;
    history = Keeps-Kept d.store s' d.db.versions k i.history;
  }

  -- A version that is recorded.
  pub after-IsRecorded :
      (d : Drive A) (params : VersionParams) (drawn : Drawn)
      → (params.s3_version_id === [] ≡ false
          → (x : Text) → params.content_hash ≡ some x
          → Holds A P.sha256 d.store
              (get_s3_key ctx.org_id ctx.drive_id params.path)
              params.s3_version_id
              x)
      → IsRecorded d
      → IsRecorded (record { db = after d.db ctx params drawn; store = d.store })
  after-IsRecorded d params drawn holds i = record {
    valid = i.valid;
    history =
        All-append (Kept d.store) d.db.versions _ i.history ((λ e nz x hx. holds nz x hx), tt);
  }

  module _ (own : IsDriveContext) (d d' : Drive A) (path : Text) (params : VersionParams)
      (drawn : Drawn) (here : params.path ≡ normalize_path path)
      (made : d'.db ≡ after d.db ctx params drawn) where
    abbrev row : FileVersion
    row = new_version ctx params (max_version params.path ctx.drive_id d.db.versions + 1) drawn.now

    head_here :
        (q : Text)
        → normalize_path path ≡ normalize_path q
        → head_row (normalize_path q) ctx.drive_id d'.db.versions ≡ some row
    head_here q e =
        rw (sym e, sym here)
          (ap (λ db. head_row params.path ctx.drive_id db.versions) made
            ∙ head_after d.db ctx params drawn)

    head_elsewhere :
        (q : Text)
        → normalize_path path === normalize_path q ≡ false
        → head_row (normalize_path q) ctx.drive_id d'.db.versions
          ≡ head_row (normalize_path q) ctx.drive_id d.db.versions
    head_elsewhere q other =
        let not_mine : is_version_of (normalize_path q) ctx.drive_id row ≡ false =
          rw here (ground (arith, other)) in
        ap (λ db. head_row (normalize_path q) ctx.drive_id db.versions) made
        ∙ head_row-append (normalize_path q) ctx.drive_id row d.db.versions (λ h. ground arith)
        ∙ rw not_mine refl

    pub after-IsCurrent :
        OthersSame path d.store d'.store
        → ((x : Text)
            → params.content_hash ≡ some x
            → (b : Bytes) × (view d' path ≡ some b) × (P.sha256 b ≡ x))
        → IsCurrent d
        → IsCurrent d'
    after-IsCurrent others mine i q h x e hx =
        elim (Bool-cases (normalize_path path === normalize_path q)) [
          | inl same ↦
              let eq = eq_of_=== (normalize_path path) (normalize_path q) same in
              let is_row : row ≡ h = ground (arith, sym (head_here q eq) ∙ e) in
              let (b, hb, hs) = mine x (ap (λ r. r.content_hash) is_row ∙ hx) in
              (b, ap (content A d'.store) (sym (key_of-same path q eq)) ∙ hb, hs)
          | inr other ↦
              let (b, hb, hs) = i q h x (sym (head_elsewhere q other) ∙ e) hx in
              (b, others (key_of ctx q) (own.keys q) (key_of-differ own path q other) ∙ hb, hs)
        ]
