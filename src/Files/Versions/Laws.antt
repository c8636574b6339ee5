-- ===== src/Files/Versions/Laws.antt =====
-- One committed version: the numbers of a file's versions, and the file's row against its head.
use agent_fs.Prelude.{
  ℕ, ◌<◌, ◌≡◌, refl, ap, ◌∙◌, Bool, true, false, not, ◌&&◌, Option, none, some, List, [], ◌∷◌, ◌++◌,
  Text, arith, any, max, ◌===◌, ===_iff, ===_refl, if◌then◌else◌, Bool-cases, inl, inr,
}
use agent_fs.Sql.{update_where}
use agent_fs.Files.{
  FileVersion, File, OpContext, is_delete, is_version_of, is_file, max_version, later, head_row,
  file_of,
}
use agent_fs.Files.Versions.{version_or_zero, VersionParams, touched, new_file, upsert_file}

abbrev pub number_of : Text → Text → FileVersion → ℕ
number_of p d r = if is_version_of p d r then r.version else 0

pub max_version-append :
    (p d : Text) (r : FileVersion) (rows : List FileVersion)
    → max_version p d (rows ++ r ∷ []) ≡ max (max_version p d rows) (number_of p d r)
unfolding max_version
max_version-append p d r [] = omega arith
max_version-append p d r (x ∷ rows) = omega (arith, max_version-append p d r rows)

pub head_row-version :
    (p d : Text) (rows : List FileVersion)
    → version_or_zero (head_row p d rows) ≡ max_version p d rows
unfolding max_version head_row
head_row-version p d [] = refl
head_row-version p d (r ∷ rows) = elim (Bool-cases (is_version_of p d r)) [
  | inl here ↦
      rw here (later-version r (head_row p d rows) ∙ ap (max r.version) (head_row-version p d rows))
  | inr other ↦ rw other (head_row-version p d rows ∙ omega arith)
]
  where
    later-version :
        (r : FileVersion) (h : Option FileVersion)
        → version_or_zero (later r h) ≡ max r.version (version_or_zero h)
    later-version r none = omega arith
    later-version r (some h) = ground arith

later-less : (x r : FileVersion) → x.version < r.version → later x (some r) ≡ some r
later-less x r h = ground arith

-- A row above every other of its file is the head.
pub head_row-append :
    (p d : Text) (r : FileVersion) (rows : List FileVersion)
    → (is_version_of p d r ≡ true → max_version p d rows < r.version)
    → head_row p d (rows ++ r ∷ []) ≡ (if is_version_of p d r then some r else head_row p d rows)
unfolding max_version head_row
head_row-append p d r [] h = ground arith
head_row-append p d r (x ∷ rows) h =
    let rest = head_row-append p d r rows (λ e. omega (arith, h e)) in
    elim (Bool-cases (is_version_of p d r)) [
      | inr old ↦ rw (rest, old) refl
      | inl new ↦ elim (Bool-cases (is_version_of p d x)) [
        | inl here ↦ rw (here, rest, new) (later-less x r (ground (arith, h new)))
        | inr other ↦ rw (other, rest, new) refl
      ]
    ]

module _ (ctx : OpContext) (params : VersionParams) (version now : ℕ) where
  abbrev mine : File → Bool
  mine = is_file params.path ctx.drive_id

  -- The row of another key.
  abbrev pub other_key : Text → Text → Bool
  other_key p d = not (params.path === p && ctx.drive_id === d)

  not_mine : (p d : Text) (x : File) → other_key p d ≡ true → mine x ≡ true → is_file p d x ≡ false
  not_mine p d x h m = ground (
    arith,
    ===_iff x.path params.path,
    ===_iff x.drive_id ctx.drive_id,
    ===_iff x.path p,
    ===_iff x.drive_id d,
    ===_iff params.path p,
    ===_iff ctx.drive_id d,
  )

  file_of-touched :
      (p d : Text) (files : List File)
      → other_key p d ≡ true
      → file_of p d (update_where mine (touched ctx params version now) files) ≡ file_of p d files
  unfolding file_of
  file_of-touched p d [] h = refl
  file_of-touched p d (x ∷ files) h = elim (Bool-cases (mine x)) [
    | inl m ↦ rw m (rw (not_mine p d x h m) (file_of-touched p d files h))
    | inr n ↦ rw n (rw (file_of-touched p d files h) refl)
  ]

  file_of-new :
      (p d : Text) (f : File) (files : List File)
      → is_file p d f ≡ false
      → file_of p d (files ++ f ∷ []) ≡ file_of p d files
  unfolding file_of
  file_of-new p d f [] h = rw h refl
  file_of-new p d f (x ∷ files) h = rw (file_of-new p d f files h) refl

  pub file_of-upsert_other :
      (p d : Text) (files : List File)
      → other_key p d ≡ true
      → file_of p d (upsert_file ctx params version now files) ≡ file_of p d files
  unfolding upsert_file
  file_of-upsert_other p d files h = elim (Bool-cases (any mine files)) [
    | inl old ↦ rw old (file_of-touched p d files h)
    | inr new ↦ rw new (file_of-new p d (new_file ctx params version now) files (ground arith))
  ]

  mine_new : mine (new_file ctx params version now) ≡ true
  mine_new = ground (arith, ===_refl params.path, ===_refl ctx.drive_id)

  -- What the row of the key says after the write.
  abbrev pub Says : Option File → Type 0
  Says none = ⊥
  Says (some f) = (f.current_version_id ≡ version) × (f.is_deleted ≡ is_delete params.operation)

  touched-Says :
      (files : List File)
      → any mine files ≡ true
      → Says (
          file_of params.path ctx.drive_id
            (update_where mine (touched ctx params version now) files))
  unfolding file_of
  touched-Says [] h = ground arith
  touched-Says (x ∷ files) h = elim (Bool-cases (mine x)) [
    | inl m ↦ rw m (rw m (refl, refl))
    | inr n ↦ rw n (rw n (touched-Says files (ground arith)))
  ]

  new-Says :
      (files : List File)
      → any mine files ≡ false
      → Says (file_of params.path ctx.drive_id (files ++ new_file ctx params version now ∷ []))
  unfolding file_of
  new-Says [] h = rw mine_new (refl, refl)
  new-Says (x ∷ files) h =
      let n : mine x ≡ false = ground arith in rw n (new-Says files (ground arith))

  pub file_of-upsert :
      (files : List File)
      → Says (file_of params.path ctx.drive_id (upsert_file ctx params version now files))
  unfolding upsert_file
  file_of-upsert files = elim (Bool-cases (any mine files)) [
    | inl old ↦ rw old (touched-Says files old)
    | inr new ↦ rw new (new-Says files new)
  ]
