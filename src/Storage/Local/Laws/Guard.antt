-- ===== src/Storage/Local/Laws/Guard.antt =====
-- The keys of history blobs pass the guard of keys.
use agent_fs.Prelude.{
  ap, ◌∙◌, text, ◌++◌, ◌==◌, starts_with, Bool-cases, inl, inr, ℕ, ◌≡◌, refl, Bool, true, false,
  ◌&&◌, ◌||◌, [], ◌∷◌, Text, ◌===◌, leb, all, arith,
}
use agent_fs.Errors.{ok}
use agent_fs.Storage.Disk.{glue, squash, path_of}
use agent_fs.Paths.{
  strip_leading_slash, split_on, is_either_slash, is_dots, includes, assert_key_inside_drive,
}
use agent_fs.Storage.{Bytes, Platform}
use agent_fs.Storage.Local.{blob_key}

abbrev pub is_hex_digit : ℕ → Bool
is_hex_digit c = (leb b'0' c && leb c b'9') || (leb b'a' c && leb c b'f')

-- A digest in hexadecimal is not empty and has only hexadecimal digits.
abbrev pub IsHex : Platform → Type 0
IsHex P = (b : Bytes) → (P.sha256 b === [] ≡ false) × (all is_hex_digit (P.sha256 b) ≡ true)

hex-one_segment : (h : Text) → all is_hex_digit h ≡ true → split_on is_either_slash h ≡ h ∷ []
unfolding split_on
hex-one_segment [] h = refl
hex-one_segment (c ∷ s) h = ground (arith, hex-one_segment s)

hex-includes : (h : Text) → all is_hex_digit h ≡ true → includes 0 h ≡ false
unfolding includes
hex-includes [] h = refl
hex-includes (c ∷ s) h = ground (arith, hex-includes s)

hex-dots : (h : Text) → all is_hex_digit h ≡ true → is_dots h ≡ false
unfolding ◌===◌
hex-dots [] h = refl
hex-dots (c ∷ s) h = ground arith

pub guard_of_blob :
    (h : Text) → all is_hex_digit h ≡ true → assert_key_inside_drive (blob_key h) ≡ ok tt
unfolding assert_key_inside_drive blob_key split_on includes ◌===◌
guard_of_blob h e = rw (hex-includes h e, hex-one_segment h e, hex-dots h e) refl

-- A path of history blobs, however the name after it is spelled.
under :
    (t : Text)
    → starts_with
        (strip_leading_slash (squash (text "_afs-blobs/sha256/" ++ t)))
        (text "_afs-blobs/")
      ≡ true
unfolding squash glue strip_leading_slash starts_with
under t = with_name (squash t) refl
  where
    with_name :
        (r : Text)
        → squash t ≡ r
        → starts_with
            (strip_leading_slash (squash (text "_afs-blobs/sha256/" ++ t)))
            (text "_afs-blobs/")
          ≡ true
    with_name [] e = rw e refl
    with_name (d ∷ r) e = elim (Bool-cases (d == b'/')) [
      | inl slash ↦ rw e (rw slash refl)
      | inr other ↦ rw e (rw other refl)
    ]

pub under_blobs : (v : Text) → starts_with (path_of (blob_key v)) (text "_afs-blobs/") ≡ true
unfolding path_of blob_key
under_blobs v = under v

squash-hex : (h : Text) → all is_hex_digit h ≡ true → squash h ≡ h
unfolding squash glue
squash-hex [] e = refl
squash-hex (c ∷ []) e = ground arith
squash-hex (c ∷ d ∷ s) e =
    let rest : squash (d ∷ s) ≡ d ∷ s = squash-hex (d ∷ s) (ground arith) in
    let plain : c == b'/' ≡ false = ground arith in ap (glue c) rest ∙ rw plain refl

-- The key of a history blob of a hexadecimal name is spelled as its path.
pub path_of_blob :
    (h : Text) → h === [] ≡ false → all is_hex_digit h ≡ true → path_of (blob_key h) ≡ blob_key h
unfolding path_of blob_key squash glue strip_leading_slash ◌===◌
path_of_blob [] n e = ground arith
path_of_blob (c ∷ s) n e =
    let plain : c == b'/' ≡ false = ground arith in rw (squash-hex (c ∷ s) e) (rw plain refl)
