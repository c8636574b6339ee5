-- ===== src/Paths/Keys.antt =====
-- Storage keys, `getS3Key` of packages/core/src/ops/versioning.ts.
use agent_fs.Prelude.{◌≡◌, refl, ap, sym, ◌∙◌, false, ◌++◌, [], ◌∷◌, arith, Text, drop}
use agent_fs.Paths.{includes, strip_leading_slash, normalize_path, get_s3_key}
use agent_fs.Paths.Normalize.{normalize_path_lem}

-- Where a first name ends at the first slash, it is determined by the whole text.
pub append_inj :
    (a b x y : Text)
    → includes b'/' a ≡ false
    → includes b'/' b ≡ false
    → a ++ b'/' ∷ x ≡ b ++ b'/' ∷ y
    → (a ≡ b) × (x ≡ y)
unfolding includes
append_inj [] [] x y ha hb e = ground arith
append_inj [] (d ∷ b) x y ha hb e = ground arith
append_inj (c ∷ a) [] x y ha hb e = ground arith
append_inj (c ∷ a) (d ∷ b) x y ha hb e = ground (arith, append_inj a b x y)

get_s3_key_parts :
    (o o' d d' p q : Text)
    → includes b'/' o ≡ false
    → includes b'/' o' ≡ false
    → includes b'/' d ≡ false
    → includes b'/' d' ≡ false
    → get_s3_key o d p ≡ get_s3_key o' d' q
    → (o ≡ o') × (d ≡ d') × (strip_leading_slash p ≡ strip_leading_slash q)
unfolding get_s3_key
get_s3_key_parts o o' d d' p q ho ho' hd hd' e =
    let (same_org, e1) = append_inj o o' _ _ ho ho' e in
    let (same_drive, e2) =
      append_inj d d' (strip_leading_slash p) (strip_leading_slash q) hd hd' (ap (drop 7) e1) in
    (same_org, same_drive, e2)

strip-normalize_path : (p : Text) → b'/' ∷ strip_leading_slash (normalize_path p) ≡ normalize_path p
strip-normalize_path p = rw (normalize_path_lem p) (unfold strip_leading_slash in refl)

-- Org and drive ids hold no slash (they are UUIDs). Then a key names one org, one drive and one
-- normalized path: two files share a key only if all three agree.
pub get_s3_key_inj :
    (o o' d d' p q : Text)
    → includes b'/' o ≡ false
    → includes b'/' o' ≡ false
    → includes b'/' d ≡ false
    → includes b'/' d' ≡ false
    → get_s3_key o d (normalize_path p) ≡ get_s3_key o' d' (normalize_path q)
    → (o ≡ o') × (d ≡ d') × (normalize_path p ≡ normalize_path q)
get_s3_key_inj o o' d d' p q ho ho' hd hd' e =
    let (same_org, same_drive, same) =
      get_s3_key_parts o o' d d' (normalize_path p) (normalize_path q) ho ho' hd hd' e in
    (
      same_org,
      same_drive,
      sym (strip-normalize_path p) ∙ ap (λ s. b'/' ∷ s) same ∙ strip-normalize_path q,
    )
