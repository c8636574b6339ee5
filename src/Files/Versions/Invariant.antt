-- ===== src/Files/Versions/Invariant.antt =====
-- The invariant of the file tables, and a committed version.
use agent_fs.Prelude.{
  ℕ, ◌+◌, ◌≤◌, ◌≡◌, refl, subst, ◌∙◌, true, false, ◌&&◌, Option, none, some, List, [], ◌∷◌, ◌++◌,
  Text, arith, any-append, ◌==◌, ===_iff, ===_refl, Bool-cases, inl, inr, leb, leb→le,
}
use agent_fs.Errors.{ok, err, edit_conflict}
use agent_fs.Files.{
  FileVersion, File, FileDb, OpContext, is_delete, is_version_of, max_version, head_row, file_of,
}
use agent_fs.Files.Versions.{
  VersionParams, Drawn, new_version, upsert_file, is_taken, create_version_at, committed,
}
use agent_fs.Files.Versions.Laws.{
  max_version-append, head_row-append, file_of-upsert, file_of-upsert_other, Says,
}

-- The row of a file against its head version.
abbrev pub Agrees : Option File → Option FileVersion → Type 0
Agrees none none = Unit
Agrees none (some h) = ⊥
Agrees (some f) none = ⊥
Agrees (some f) (some h) =
    (f.current_version_id ≡ h.version) × (f.is_deleted ≡ is_delete h.operation)

abbrev pub IsDistinct : List FileVersion → Type 0
IsDistinct [] = Unit
IsDistinct (r ∷ rows) = (is_taken r.path r.drive_id r.version rows ≡ false) × IsDistinct rows

pub record IsVersioned (db : FileDb) : Type 0 where
  pub agrees : (p d : Text) → Agrees (file_of p d db.files) (head_row p d db.versions)
  pub dense :
      (p d : Text) (v : ℕ)
      → 1 ≤ v
      → v ≤ max_version p d db.versions
      → is_taken p d v db.versions ≡ true
  pub distinct : IsDistinct db.versions

-- No version of a file is above its highest.
taken-max :
    (p d : Text) (v : ℕ) (rows : List FileVersion)
    → is_taken p d v rows ≡ true
    → v ≤ max_version p d rows
unfolding max_version
taken-max p d v [] h = ground arith
taken-max p d v (r ∷ rows) h = ground (arith, taken-max p d v rows)

append-IsDistinct :
    (r : FileVersion) (rows : List FileVersion)
    → is_taken r.path r.drive_id r.version rows ≡ false
    → IsDistinct rows
    → IsDistinct (rows ++ r ∷ [])
append-IsDistinct r [] new u = ground arith
append-IsDistinct r (x ∷ rows) new (k, u) = ground (
  arith,
  any-append (λ e. is_version_of x.path x.drive_id e && e.version == x.version) rows (r ∷ []),
  append-IsDistinct r rows,
  ===_iff r.path x.path,
  ===_iff x.path r.path,
  ===_iff r.drive_id x.drive_id,
  ===_iff x.drive_id r.drive_id,
)

module _ (db : FileDb) (ctx : OpContext) (params : VersionParams) (drawn : Drawn)
    (version : ℕ) where
  abbrev row : FileVersion
  row = new_version ctx params version drawn.now

  abbrev pub IsLast : Type 0
  IsLast = version ≡ max_version params.path ctx.drive_id db.versions + 1

  next :
      IsLast
      → (p d : Text) → is_version_of p d row ≡ true
      → version ≡ max_version p d db.versions + 1
  next last p d h =
      let same_path : params.path ≡ p = ground (arith, ===_iff params.path p) in
      let same_drive : ctx.drive_id ≡ d = ground (arith, ===_iff ctx.drive_id d) in
      subst (λ x. version ≡ max_version x d db.versions + 1) same_path
        (subst (λ x. version ≡ max_version params.path x db.versions + 1) same_drive last)

  committed_dense :
      IsVersioned db
      → IsLast
      → (p d : Text) (v : ℕ) → 1 ≤ v
      → v ≤ max_version p d (db.versions ++ row ∷ [])
      → is_taken p d v (db.versions ++ row ∷ []) ≡ true
  committed_dense i last p d v low high =
      any-append (λ e. is_version_of p d e && e.version == v) db.versions (row ∷ [])
      ∙ elim (Bool-cases (leb v (max_version p d db.versions))) [
        | inl old ↦ rw (i.dense p d v low (leb→le v (max_version p d db.versions) old)) refl
        | inr new ↦ ground (arith, max_version-append p d row db.versions, next last p d)
      ]

  upsert_file-Agrees :
      IsLast
      → Agrees
          (file_of params.path ctx.drive_id (upsert_file ctx params version drawn.now db.files))
          (head_row params.path ctx.drive_id (db.versions ++ row ∷ []))
  upsert_file-Agrees last =
      let mine : is_version_of params.path ctx.drive_id row ≡ true =
        ground (arith, ===_refl params.path, ===_refl ctx.drive_id) in
      rw (head_row-append params.path ctx.drive_id row db.versions (λ h. omega arith)) (
        rw mine (
          said
            (file_of params.path ctx.drive_id (upsert_file ctx params version drawn.now db.files))
            (file_of-upsert ctx params version drawn.now db.files)))
    where
      said : (o : Option File) → Says ctx params version drawn.now o → Agrees o (some row)
      said none h = h
      said (some f) h = h

  committed-Agrees :
      IsVersioned db
      → IsLast
      → (p d : Text)
      → Agrees
          (file_of p d (upsert_file ctx params version drawn.now db.files))
          (head_row p d (db.versions ++ row ∷ []))
  committed-Agrees i last p d = elim (Bool-cases (is_version_of p d row)) [
    | inr other ↦ rw (head_row-append p d row db.versions (λ h. omega (arith, next last p d h))) (
        rw other (
          rw (file_of-upsert_other ctx params version drawn.now p d db.files (ground arith))
            (i.agrees p d)))
    | inl here ↦
        subst
          (λ x.
            Agrees (file_of x d (upsert_file ctx params version drawn.now db.files))
              (head_row x d (db.versions ++ row ∷ [])))
          (ground (arith, ===_iff params.path p))
          (subst
            (λ x.
              Agrees (file_of params.path x (upsert_file ctx params version drawn.now db.files))
                (head_row params.path x (db.versions ++ row ∷ [])))
            (ground (arith, ===_iff ctx.drive_id d)) (upsert_file-Agrees last))
  ]

  free : IsLast → is_taken params.path ctx.drive_id version db.versions ≡ false
  free last = elim (Bool-cases (is_taken params.path ctx.drive_id version db.versions)) [
    | inl taken ↦ ground (arith, taken-max params.path ctx.drive_id version db.versions taken)
    | inr new ↦ new
  ]

  -- The next version commits, and keeps the invariant.
  pub create_version_at-last :
      IsLast
      → create_version_at db ctx params drawn version ≡ ok (committed db ctx params drawn version)
  unfolding create_version_at
  create_version_at-last last = rw (free last) refl

  pub committed-IsVersioned :
      IsVersioned db → IsLast → IsVersioned (committed db ctx params drawn version)
  committed-IsVersioned i last = record {
    agrees = committed-Agrees i last;
    dense = committed_dense i last;
    distinct = append-IsDistinct row db.versions (free last) i.distinct;
  }

  -- A version that is not the next one was taken: another writer committed it.
  pub create_version_at-stale :
      IsVersioned db
      → 1 ≤ version
      → version ≤ max_version params.path ctx.drive_id db.versions
      → create_version_at db ctx params drawn version ≡ err edit_conflict
  unfolding create_version_at
  create_version_at-stale i low high = rw (i.dense params.path ctx.drive_id version low high) refl
