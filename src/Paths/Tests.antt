-- ===== src/Paths/Tests.antt =====
-- Paths and keys at concrete inputs.
use agent_fs.Prelude.{
  ◌≡◌, refl, true, false, [], ◌∷◌, ◌++◌, arith, Text, text, inr, starts_with, ◌===◌, keep_if,
}
use agent_fs.Errors.{ok, err, validation}
use agent_fs.Paths.{
  ends_with, drop_last, with_leading_slash, normalize_path, normalize_prefix, strip_leading_slash,
  get_s3_key, assert_key_inside_drive, assert_path_inside_drive, includes, split_on,
}
use agent_fs.Paths.Normalize.{normalize_path_shape, normalize_path_doubled, normalize_prefix_shape}
use agent_fs.Paths.Keys.{get_s3_key_inj}
use agent_fs.Paths.Containment.{resolve, is_named, is_separator, resolve_inside_drive}

paths : Unit {0}
unfolding normalize_path normalize_prefix get_s3_key assert_key_inside_drive
    assert_path_inside_drive resolve ends_with drop_last with_leading_slash strip_leading_slash
    starts_with ◌===◌ includes split_on
paths = tt

normalize_path_tests :
    (normalize_path (text "docs/a.md/") ≡ text "/docs/a.md")
    × (normalize_path (text "/") ≡ text "/")
    × (normalize_path (text "/a//") ≡ text "/a/")
    × (normalize_prefix (text "docs") ≡ text "/docs/")
unfolding paths
normalize_path_tests = (refl, refl, refl, refl)

guard_tests :
    (assert_key_inside_drive (text "o/drives/d/a..b") ≡ ok tt)
    × (assert_key_inside_drive (text "o/drives/d/../e") ≡ err validation)
    × (assert_path_inside_drive (text "/a\\..\\b") ≡ err validation)
unfolding paths
guard_tests = (refl, refl, refl)

-- Without the guard the walk leaves the drive.
unguarded :
    resolve false (get_s3_key (text "o") (text "d") (text "/../../../p/drives/e/x"))
    ≡ text "p" ∷ text "drives" ∷ text "e" ∷ text "x" ∷ []
unfolding paths
unguarded = refl

normalize_path_shape_example :
    (s : Text) × (normalize_path (text "docs/a/") ≡ b'/' ∷ s)
    × (ends_with s b'/' ≡ false)
    × (normalize_path (normalize_path (text "docs/a/")) ≡ normalize_path (text "docs/a/"))
unfolding paths
normalize_path_shape_example = normalize_path_shape (text "docs/a/") (inr refl)

normalize_path_doubled_example : ends_with (normalize_path (text "a" ++ text "//")) b'/' ≡ true
normalize_path_doubled_example = normalize_path_doubled (text "a") (λ e. ground arith)

normalize_prefix_shape_example :
    (s : Text) × (normalize_prefix (text "docs") ≡ b'/' ∷ s)
    × (ends_with (normalize_prefix (text "docs")) b'/' ≡ true)
    × (normalize_prefix (normalize_prefix (text "docs")) ≡ normalize_prefix (text "docs"))
normalize_prefix_shape_example = normalize_prefix_shape (text "docs")

get_s3_key_inj_example :
    (text "o1" ≡ text "o1")
    × (text "d1" ≡ text "d1")
    × (normalize_path (text "a/b/") ≡ normalize_path (text "/a/b"))
unfolding paths
get_s3_key_inj_example =
    get_s3_key_inj (text "o1") (text "o1") (text "d1") (text "d1") (text "a/b/") (text "/a/b") refl
      refl refl refl refl

resolve_inside_drive_example :
    resolve true (get_s3_key (text "o1") (text "d1") (text "/a//b.md"))
    ≡ text "o1"
      ∷ text "drives"
      ∷ text "d1"
      ∷ keep_if is_named (split_on (is_separator true) (strip_leading_slash (text "/a//b.md")))
unfolding paths
resolve_inside_drive_example =
    resolve_inside_drive true (text "o1") (text "d1") (text "/a//b.md")
      (record { named = refl; plain = refl }) (record { named = refl; plain = refl }) refl
