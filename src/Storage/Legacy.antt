-- ===== src/Storage/Legacy.antt =====
-- storage/legacy-reserved-keys.ts: the keys that files-sdk refuses, kept as plain files. The commit
-- lock is not modelled, as a call runs alone; nor is listing.
use agent_fs.Prelude.{
  ℕ, ◌+◌, ◌||◌, ◌&&◌, Bool, true, false, not, Option, none, some, List, [], ◌∷◌, ◌++◌, reverse,
  Text, text, ◌===◌, ◌==◌, leb, starts_with, if◌then◌else◌,
}
use agent_fs.Errors.{Result, ok, err, validation, files_error, plain, and_then, ◌>>=◌, ◌>>◌}
use agent_fs.Paths.{ends_with}
use agent_fs.Storage.{Bytes, GetObjectResult, HeadObjectResult}
use agent_fs.Storage.Disk.{Node, Outcome, done, missing, broken}

-- `basename`: without slashes at the end, what follows the last slash. Read from the end.
abbrev until_slash : Text → Text
until_slash [] = []
until_slash (c ∷ s) = let rest = until_slash s in if c == b'/' then [] else c ∷ rest

abbrev skip_if : (ℕ → Bool) → Text → Text
skip_if p [] = []
skip_if p (c ∷ s) = let rest = skip_if p s in if p c then rest else c ∷ s

abbrev to_lower : ℕ → ℕ
to_lower c = if leb b'A' c && leb c b'Z' then c + 32 else c

abbrev to_lower_case : Text → Text
to_lower_case [] = []
to_lower_case (c ∷ s) = to_lower c ∷ to_lower_case s

-- `isLegacyReservedKey`, on the key read from its end
unfoldable pub is_legacy_reserved_key : Text → Bool
is_legacy_reserved_key key =
    starts_with
      (to_lower_case (
        skip_if (λ c. c == b'.' || c == b' ')
          (until_slash (skip_if (λ c. c == b'/') (reverse key)))))
      (reverse (text ".fls-tmp"))

-- the suffix of a sidecar, and the type of an object without one
abbrev sidecar_suffix : Text
sidecar_suffix = text ".meta.json"

abbrev default_content_type : Text
default_content_type = text "application/octet-stream"

-- `isInside`
abbrev pub is_inside : Text → Text → Bool
is_inside root target = starts_with target (if ends_with root b'/' then root else root ++ text "/")

-- an error that no handler takes as a missing file; Node's errors have a code
abbrev pub thrown {ℓ} : {A : Type ℓ} → Outcome A → Result A
thrown (done a) = ok a
thrown missing = err files_error
thrown broken = err files_error

-- `isMissing` turned into `undefined`
abbrev pub if_there {ℓ} : {A : Type ℓ} → Outcome A → Result (Option A)
if_there (done a) = ok (some a)
if_there missing = ok none
if_there broken = err files_error

-- an error of a call in the try block of `legacyGet` and `legacyHead`
abbrev pub absent_or {ℓ κ} :
    {A : Type ℓ} {B : Type κ} → Outcome A → (A → Result (Option B)) → Result (Option B)
absent_or (done a) f = f a
absent_or missing f = ok none
absent_or broken f = err files_error

-- `JSON.parse` throws an error without a code.
abbrev parsed {ℓ} : {A : Type ℓ} → Option (Option A) → Result (Option A)
parsed none = err plain
parsed (some sidecar) = ok sidecar

module _ {S : Type 0} (N : Node S) where
  unfoldable pub key_path : Text → Result Text
  key_path key =
      if is_inside (N.resolve N.root) (N.resolve_key key)
      then ok (N.resolve_key key)
      else err validation

  -- From the nearest directory that exists; the last one, the root of the file system, does.
  abbrev pub nearest_inside : S → Text → List Text → Result (Unit {0})
  nearest_inside s real_root [] = ok tt
  nearest_inside s real_root (dir ∷ dirs) =
      let above = nearest_inside s real_root dirs in
      if_there (N.realpath s dir) >>= λ real. elim real [
        | none ↦ above
        | some r ↦
            if not (r === real_root) && not (is_inside real_root r) then err validation else ok tt
      ]

  unfoldable pub assert_parent_inside_root : S → Text → Result (Unit {0})
  assert_parent_inside_root s target = if_there (N.realpath s N.root) >>= λ root. elim root [
    | none ↦ ok tt
    | some real_root ↦ nearest_inside s real_root (N.ancestors target)
  ]

  -- the content type and the tag of a sidecar that has all its fields
  unfoldable pub read_sidecar : S → Text → Result (Option (Text × Text))
  read_sidecar s body_path =
      absent_or (N.read_file s (body_path ++ sidecar_suffix)) (λ json. parsed (N.read_json json))

  abbrev or_default : Option (Text × Text) → Text
  or_default none = default_content_type
  or_default (some sidecar) = sidecar.0

  -- The file that a key is, if it is one, and its size.
  unfoldable pub real_body : S → Text → Result (Option (Text × ℕ))
  real_body s body_path = absent_or (N.realpath s body_path) λ real.
      absent_or (N.realpath s N.root) λ real_root.
        if not (is_inside real_root real)
        then err validation
        else absent_or (N.file_size s real)
            (λ size. ok (elim size [ none ↦ none | some n ↦ some (real, n) ]))

  abbrev read_body : S → Text → Option (Text × ℕ) → Result (Option GetObjectResult)
  read_body s body_path none = ok none
  read_body s body_path (some file) = absent_or (N.read_file s file.0) λ b.
      read_sidecar s body_path >>= λ sidecar.
      ok (some (record { body = b; content_type = some (or_default sidecar) }))

  unfoldable pub legacy_get : S → Text → Result (Option GetObjectResult)
  legacy_get s key = key_path key >>= λ body_path. real_body s body_path >>= read_body s body_path

  abbrev tag_of : Option (Text × Text) → Option Text
  tag_of none = none
  tag_of (some sidecar) = some sidecar.1

  abbrev head_body : S → Text → Option (Text × ℕ) → Result (Option HeadObjectResult)
  head_body s body_path none = ok none
  head_body s body_path (some file) = read_sidecar s body_path >>= λ sidecar. ok (
      some
        (record { content_type = some (or_default sidecar); size = file.1; etag = tag_of sidecar }))

  unfoldable pub legacy_head : S → Text → Result (Option HeadObjectResult)
  legacy_head s key = key_path key >>= λ body_path. real_body s body_path >>= head_body s body_path

  unfoldable pub assert_legacy_writable : S → Text → Result Text
  assert_legacy_writable s key =
      key_path key >>= λ body_path. assert_parent_inside_root s body_path >> ok body_path

  -- Both staging files are written, then both are renamed.
  abbrev stage : S → Text → Bytes → Bytes → Text → Text → S × Result (Unit {0})
  stage s body_path bytes sidecar staged_body staged_sidecar =
      let made = N.write_file s staged_body bytes in
      and_then (made.0, thrown made.1)
        λ s1 u1.
          let meta = N.write_file s1 staged_sidecar sidecar in
          and_then (meta.0, thrown meta.1)
            λ s2 u2.
              let moved = N.rename s2 staged_body body_path in
              and_then (moved.0, thrown moved.1)
                λ s3 u3.
                  let last = N.rename s3 staged_sidecar (body_path ++ sidecar_suffix) in
                  (last.0, thrown last.1)

  -- After a failure the staging files are removed, whether they are there or not.
  abbrev clean_up : Text → Text → S × Result (Unit {0}) → S × Result (Unit {0})
  clean_up staged_body staged_sidecar (s, ok u) = (s, ok u)
  clean_up staged_body staged_sidecar (s, err e) =
      ((N.remove (N.remove s staged_body).0 staged_sidecar).0, err e)

  unfoldable pub legacy_put : S → Text → Bytes → Option Text → S × Result (Unit {0})
  legacy_put s key bytes content_type =
      and_then (s, assert_legacy_writable s key)
        λ s0 body_path.
          let made = N.make_directory s0 (N.dirname body_path) in
          and_then (made.0, thrown made.1)
            λ s1 u.
              let staged_body = N.staging s1 body_path in
              let staged_sidecar = N.staging s1 (body_path ++ sidecar_suffix) in
              clean_up staged_body staged_sidecar (
                stage s1 body_path bytes (N.write_json content_type bytes) staged_body
                  staged_sidecar)

  -- A missing key or a folder is a no-op.
  abbrev remove_entry : S → Text → Option Bool → S × Result (Unit {0})
  remove_entry s body_path none = (s, ok tt)
  remove_entry s body_path (some true) = (s, ok tt)
  remove_entry s body_path (some false) =
      let gone = N.remove s body_path in
      and_then (gone.0, thrown gone.1)
        λ s1 u. let last = N.remove s1 (body_path ++ sidecar_suffix) in (last.0, thrown last.1)

  unfoldable pub legacy_delete : S → Text → S × Result (Unit {0})
  legacy_delete s key =
      and_then (s, assert_legacy_writable s key)
        λ s0 body_path.
          and_then (s0, if_there (N.is_directory_entry s0 body_path))
            λ s1 entry. remove_entry s1 body_path entry
