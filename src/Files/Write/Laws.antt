-- ===== src/Files/Write/Laws.antt =====
-- Writes against the expected version.
use agent_fs.Prelude.{
  ℕ, ◌+◌, ◌≡◌, refl, ap, sym, ◌∙◌, true, false, Option, some, arith, ltb, ===_refl, Bool-cases, inl,
  inr,
}
use agent_fs.Errors.{ok, err, edit_conflict, validation}
use agent_fs.Paths.{normalize_path}
use agent_fs.Files.{FileVersion, FileDb, OpContext, max_version, head_row, is_version_of, is_delete}
use agent_fs.Files.Versions.{
  get_next_version, VersionParams, Drawn, new_version, create_version, committed,
  assert_expected_version, matches_head, version_or_zero,
}
use agent_fs.Files.Versions.Laws.{head_row-append, head_row-version}
use agent_fs.Files.Versions.Invariant.{create_version_at-last}
use agent_fs.Files.Write.{
  WriteParams, Uploaded, Checked, check_write, write_version, commit_write, write_internal,
}

-- the tables and the version after `createVersion`
abbrev pub after : FileDb → OpContext → VersionParams → Drawn → FileDb
after db ctx params drawn =
    committed db ctx params drawn (max_version params.path ctx.drive_id db.versions + 1)

-- With nothing between its read and its transaction, `createVersion` does not conflict.
pub create_version-ok :
    (db : FileDb) (ctx : OpContext) (params : VersionParams) (drawn : Drawn)
    → create_version db ctx params drawn
      ≡ ok (after db ctx params drawn, max_version params.path ctx.drive_id db.versions + 1)
unfolding create_version get_next_version
create_version-ok db ctx params drawn =
    rw
      (create_version_at-last db ctx params drawn
        (max_version params.path ctx.drive_id db.versions + 1) refl)
      refl

-- The head of the file after it is the new row.
pub head_after :
    (db : FileDb) (ctx : OpContext) (params : VersionParams) (drawn : Drawn)
    → head_row params.path ctx.drive_id (after db ctx params drawn).versions
      ≡ some
          (new_version ctx params (max_version params.path ctx.drive_id db.versions + 1) drawn.now)
head_after db ctx params drawn =
    let top : ℕ = max_version params.path ctx.drive_id db.versions + 1 in
    let row : FileVersion = new_version ctx params top drawn.now in
    let mine : is_version_of params.path ctx.drive_id row ≡ true =
      ground (arith, ===_refl params.path, ===_refl ctx.drive_id) in
    head_row-append params.path ctx.drive_id row db.versions (λ h. omega arith) ∙ rw mine refl

-- A version that passed the check is no longer the head's after a commit.
no_match :
    (head : Option FileVersion) (v top : ℕ) (row : FileVersion)
    → version_or_zero head ≡ top
    → row.version ≡ top + 1
    → is_delete row.operation ≡ false
    → matches_head (some v) head ≡ true
    → matches_head (some v) (some row) ≡ false
no_match head v top row e r o h = ground arith

module _ (db : FileDb) (ctx : OpContext) (m v : ℕ) (params : WriteParams) where
  too_large : ltb m params.size ≡ true → check_write db ctx m params ≡ err validation
  unfolding check_write
  too_large big = rw big refl

  stale_check :
      params.expected_version ≡ some v
      → ltb m params.size ≡ false
      → matches_head (some v) (head_row (normalize_path params.path) ctx.drive_id db.versions)
        ≡ false
      → check_write db ctx m params ≡ err edit_conflict
  unfolding check_write assert_expected_version
  stale_check e fits stale = rw fits (rw e (rw stale refl))

  passed :
      (c : Checked)
      → params.expected_version ≡ some v
      → check_write db ctx m params ≡ ok c
      → matches_head (some v) (head_row (normalize_path params.path) ctx.drive_id db.versions)
        ≡ true
  passed c e h =
      elim (Bool-cases
        (matches_head (some v) (head_row (normalize_path params.path) ctx.drive_id db.versions))) [
          | inl current ↦ current
          | inr stale ↦ elim (Bool-cases (ltb m params.size)) [
            | inl big ↦ ground (arith, too_large big)
            | inr fits ↦ ground (arith, stale_check e fits stale)
          ]
        ]

fits_of :
    (db : FileDb) (ctx : OpContext) (m v : ℕ) (params : WriteParams) (c : Checked)
    → check_write db ctx m params ≡ ok c
    → ltb m params.size ≡ false
fits_of db ctx m v params c h = elim (Bool-cases (ltb m params.size)) [
  | inl big ↦ ground (arith, too_large db ctx m v params big)
  | inr fits ↦ fits
]

-- the tables after a write is committed, and the highest version of its path before that
abbrev pub written : FileDb → OpContext → WriteParams → Uploaded → Drawn → FileDb
written db ctx params uploaded drawn = after db ctx (write_version params uploaded) drawn

abbrev pub top : FileDb → OpContext → WriteParams → ℕ
top db ctx params = max_version (normalize_path params.path) ctx.drive_id db.versions

commit-ok :
    (db : FileDb) (ctx : OpContext) (params : WriteParams) (uploaded : Uploaded) (drawn : Drawn)
    → commit_write db ctx params uploaded drawn
      ≡ ok (written db ctx params uploaded drawn, top db ctx params + 1)
unfolding commit_write
commit-ok db ctx params uploaded drawn =
    create_version-ok db ctx (write_version params uploaded) drawn

top_after :
    (db : FileDb) (ctx : OpContext) (params : WriteParams) (uploaded : Uploaded) (drawn : Drawn)
    → top (written db ctx params uploaded drawn) ctx params ≡ top db ctx params + 1
top_after db ctx params uploaded drawn =
    sym (
      head_row-version (normalize_path params.path) ctx.drive_id
        (written db ctx params uploaded drawn).versions)
    ∙ rw (head_after db ctx (write_version params uploaded) drawn) refl

-- A write with expected version v whose check lets it upload, with no other request between its
-- parts, commits as the next version. After that, any write to the same path with the same expected
-- version, and of a size that fits, is refused by an edit conflict when it is checked.
pub expected_once :
    (db : FileDb) (ctx : OpContext) (m m' v : ℕ) (params params' : WriteParams)
    (uploaded : Uploaded) (drawn : Drawn)
    → params.expected_version ≡ some v
    → params'.expected_version ≡ some v
    → normalize_path params'.path ≡ normalize_path params.path
    → ltb m' params'.size ≡ false
    → check_write db ctx m params ≡ ok Checked.upload
    → (write_internal db ctx m params uploaded drawn
        ≡ ok (written db ctx params uploaded drawn, top db ctx params + 1))
      × (check_write (written db ctx params uploaded drawn) ctx m' params' ≡ err edit_conflict)
unfolding write_internal
expected_once db ctx m m' v params params' uploaded drawn e e' same fits h = (
  rw h (commit-ok db ctx params uploaded drawn),
  stale_check (written db ctx params uploaded drawn) ctx m' v params' e' fits (
      rw same (
        rw (head_after db ctx (write_version params uploaded) drawn) (
          no_match (head_row (normalize_path params.path) ctx.drive_id db.versions) v
            (top db ctx params)
            (new_version ctx (write_version params uploaded) (top db ctx params + 1) drawn.now)
            (head_row-version (normalize_path params.path) ctx.drive_id db.versions) refl refl
            (passed db ctx m v params Checked.upload e h)))),
)

-- the tables after two writes to a path, committed one after the other
abbrev pub both_written :
    FileDb → OpContext → WriteParams → WriteParams → Uploaded → Uploaded → Drawn → Drawn → FileDb
both_written db ctx params params' uploaded uploaded' drawn drawn' =
    written (written db ctx params uploaded drawn) ctx params' uploaded' drawn'

-- Two writes to one path with the same expected version may both be let to upload before either is
-- committed. When the first is committed, the check would refuse the second, but the second commits
-- too, as the version after it, and its row is the head of the path.
pub stale_commit :
    (db : FileDb) (ctx : OpContext) (m v : ℕ) (params params' : WriteParams)
    (uploaded uploaded' : Uploaded) (drawn drawn' : Drawn)
    → params.expected_version ≡ some v
    → params'.expected_version ≡ some v
    → normalize_path params'.path ≡ normalize_path params.path
    → check_write db ctx m params ≡ ok Checked.upload
    → check_write db ctx m params' ≡ ok Checked.upload
    → (check_write (written db ctx params uploaded drawn) ctx m params' ≡ err edit_conflict)
      × (commit_write (written db ctx params uploaded drawn) ctx params' uploaded' drawn'
          ≡ ok (
            both_written db ctx params params' uploaded uploaded' drawn drawn',
            top db ctx params + 2,
          ))
      × (head_row
            (normalize_path params.path)
            ctx.drive_id
            (both_written db ctx params params' uploaded uploaded' drawn drawn').versions
          ≡ some (
              new_version ctx (write_version params' uploaded') (top db ctx params + 2) drawn'.now))
stale_commit db ctx m v params params' uploaded uploaded' drawn drawn' e e' same h h' =
    let db1 = written db ctx params uploaded drawn in
    let next : top db1 ctx params' + 1 ≡ top db ctx params + 2 =
      rw same (rw (top_after db ctx params uploaded drawn) (omega arith)) in
    (
      (expected_once db ctx m m v params params' uploaded drawn e e' same
          (fits_of db ctx m v params' Checked.upload h') h).1,
      commit-ok db1 ctx params' uploaded' drawn'
          ∙ ap (λ n. ok (both_written db ctx params params' uploaded uploaded' drawn drawn', n))
              next,
      ap
            (λ p.
              head_row p ctx.drive_id
                (both_written db ctx params params' uploaded uploaded' drawn drawn').versions)
            (sym same)
          ∙ head_after db1 ctx (write_version params' uploaded') drawn'
          ∙ ap (λ n. some (new_version ctx (write_version params' uploaded') n drawn'.now)) next,
    )
