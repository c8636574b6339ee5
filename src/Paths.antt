-- ===== src/Paths.antt =====
-- packages/core/src/ops/paths.ts, storage/key-guard.ts, and `getS3Key` of ops/versioning.ts.
pub mod Normalize
pub mod Keys
pub mod Segments
pub mod Containment
mod Tests
use agent_fs.Prelude.{
  ℕ, ◌++◌, Bool, true, false, ◌&&◌, ◌||◌, List, [], ◌∷◌, Text, text, ◌===◌, starts_with, length,
  any, ltb, ◌==◌, if◌then◌else◌,
}
use agent_fs.Errors.{Result, ok, err, validation}

-- `p.endsWith(c)` for one code unit
unfoldable pub ends_with : Text → ℕ → Bool
ends_with [] c = false
ends_with (d ∷ []) c = d == c
ends_with (d ∷ e ∷ s) c = ends_with (e ∷ s) c

-- `p.slice(0, -1)`
unfoldable pub drop_last : Text → Text
drop_last [] = []
drop_last (d ∷ []) = []
drop_last (d ∷ e ∷ s) = d ∷ drop_last (e ∷ s)

unfoldable pub with_leading_slash : Text → Text
with_leading_slash path = if starts_with path (text "/") then path else b'/' ∷ path

unfoldable pub normalize_path : Text → Text
normalize_path path =
    let p = with_leading_slash path in
    if ltb 1 (length p) && ends_with p b'/' then drop_last p else p

unfoldable pub normalize_prefix : Text → Text
normalize_prefix path =
    let p = with_leading_slash path in if ends_with p b'/' then p else p ++ text "/"

unfoldable pub strip_leading_slash : Text → Text
strip_leading_slash [] = []
strip_leading_slash (c ∷ s) = if c == b'/' then s else c ∷ s

unfoldable pub get_s3_key : Text → Text → Text → Text
get_s3_key org_id drive_id path =
    org_id ++ (text "/drives/" ++ (drive_id ++ (text "/" ++ strip_leading_slash path)))

abbrev pub push : ℕ → List Text → List Text
push c [] = (c ∷ []) ∷ []
push c (segment ∷ more) = (c ∷ segment) ∷ more

-- `s.split(sep)` for a separator of one code unit
unfoldable pub split_on : (ℕ → Bool) → Text → List Text
split_on sep [] = [] ∷ []
split_on sep (c ∷ s) = let more = split_on sep s in if sep c then [] ∷ more else push c more

-- the class `[\\/]`
abbrev pub is_either_slash : ℕ → Bool
is_either_slash c = c == 92 || c == b'/'

abbrev pub is_dots : Text → Bool
is_dots segment = segment === text "." || segment === text ".."

-- `path.includes("\u0000")`
unfoldable pub includes : ℕ → Text → Bool
includes c [] = false
includes c (d ∷ s) = d == c || includes c s

-- `assertPathInsideDrive` of ops/paths.ts
unfoldable pub assert_path_inside_drive : Text → Result (Unit {0})
assert_path_inside_drive path =
    if includes 0 path
    then err validation
    else if any is_dots (split_on is_either_slash path)
    then err validation
    else ok tt

-- `assertKeyInsideDrive` of storage/key-guard.ts
unfoldable pub assert_key_inside_drive : Text → Result (Unit {0})
assert_key_inside_drive key =
    if includes 0 key
    then err validation
    else if any is_dots (split_on is_either_slash key)
    then err validation
    else ok tt
