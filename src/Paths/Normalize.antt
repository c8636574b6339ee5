-- ===== src/Paths/Normalize.antt =====
-- The two shapes that ops/paths.ts promises, for file paths and for directory prefixes.
use agent_fs.Prelude.{
  ◌≡◌, ◌≢◌, ◌==◌, Bool-cases, refl, ◌∙◌, ap, ◌⊎◌, inl, inr, true, false, ◌++◌, [], ◌∷◌, arith, Text,
  text, starts_with, if◌then◌else◌,
}
use agent_fs.Paths.{
  ends_with, drop_last, with_leading_slash, strip_leading_slash, normalize_path, normalize_prefix,
}

abbrev pub trim : Text → Text
trim s = if ends_with s b'/' then drop_last s else s

with_leading_slash_lem : (p : Text) → with_leading_slash p ≡ b'/' ∷ strip_leading_slash p
unfolding with_leading_slash strip_leading_slash starts_with
with_leading_slash_lem [] = refl
with_leading_slash_lem (c ∷ s) = ground arith

normalize_absolute : (s : Text) → normalize_path (b'/' ∷ s) ≡ b'/' ∷ trim s
unfolding normalize_path with_leading_slash starts_with ends_with drop_last
normalize_absolute [] = refl
normalize_absolute (c ∷ s) = ground arith

normalize_leading : (p : Text) → normalize_path p ≡ normalize_path (b'/' ∷ strip_leading_slash p)
unfolding normalize_path
normalize_leading p = simp with_leading_slash_lem (unfold strip_leading_slash in refl)

-- A normalized path is a slash before the trimmed rest.
pub normalize_path_lem : (p : Text) → normalize_path p ≡ b'/' ∷ trim (strip_leading_slash p)
normalize_path_lem p = normalize_leading p ∙ normalize_absolute (strip_leading_slash p)

-- The text does not end in two slashes.
abbrev pub IsSingleEnded : Text → Type 0
IsSingleEnded s = (ends_with s b'/' ≡ false) ⊎ (ends_with (drop_last s) b'/' ≡ false)

trim-ends_with : (s : Text) → IsSingleEnded s → ends_with (trim s) b'/' ≡ false
trim-ends_with s h = ground arith

trim_of_trimmed : (s : Text) → ends_with s b'/' ≡ false → trim s ≡ s
trim_of_trimmed s h = rw h

-- If what follows the leading slash of a path does not end in two slashes, the normalized path
-- is "/" followed by a text that does not end in a slash, and normalizing again changes nothing.
pub normalize_path_shape :
    (p : Text)
    → IsSingleEnded (strip_leading_slash p)
    → (s : Text) × (normalize_path p ≡ b'/' ∷ s)
      × (ends_with s b'/' ≡ false)
      × (normalize_path (normalize_path p) ≡ normalize_path p)
normalize_path_shape p h =
    let s : Text = trim (strip_leading_slash p) in
    let e : ends_with s b'/' ≡ false = trim-ends_with (strip_leading_slash p) h in
    (
      s,
      normalize_path_lem p,
      e,
      rw (normalize_path_lem p) (normalize_absolute s ∙ ap (λ t. b'/' ∷ t) (trim_of_trimmed s e)),
    )

ends_with-append : (p : Text) → ends_with (p ++ text "/") b'/' ≡ true
unfolding ends_with
ends_with-append [] = refl
ends_with-append (c ∷ []) = refl
ends_with-append (c ∷ d ∷ p) = ends_with-append (d ∷ p)

trim-append : (s : Text) → trim (s ++ text "//") ≡ s ++ text "/"
unfolding ends_with drop_last
trim-append [] = refl
trim-append (c ∷ []) = refl
trim-append (c ∷ d ∷ s) = ground (arith, trim-append (d ∷ s))

strip_double :
    (p : Text) → p ≢ [] → (q : Text) × (strip_leading_slash (p ++ text "//") ≡ q ++ text "//")
unfolding strip_leading_slash
strip_double [] h = absurd (h refl)
strip_double (c ∷ p) h = elim (Bool-cases (c == b'/')) [ inl e ↦ (p, rw e) | inr e ↦ (c ∷ p, rw e) ]

-- A path made of a nonempty text and two more slashes keeps one of them: normalized, it still
-- ends in a slash.
pub normalize_path_doubled :
    (p : Text) → p ≢ [] → ends_with (normalize_path (p ++ text "//")) b'/' ≡ true
normalize_path_doubled p h =
    let (q, e) = strip_double p h in
    rw (normalize_path_lem (p ++ text "//"), e, trim-append q) (ends_with-append (b'/' ∷ q))

normalize_prefix_absolute :
    (s : Text)
    → normalize_prefix (b'/' ∷ s) ≡ b'/' ∷ (if ends_with (b'/' ∷ s) b'/' then s else s ++ text "/")
unfolding normalize_prefix with_leading_slash starts_with
normalize_prefix_absolute s = ground arith

normalize_prefix_of_ended :
    (s : Text) → ends_with (b'/' ∷ s) b'/' ≡ true → normalize_prefix (b'/' ∷ s) ≡ b'/' ∷ s
normalize_prefix_of_ended s e = rw (normalize_prefix_absolute s, e)

normalize_prefix_leading :
    (p : Text) → normalize_prefix p ≡ normalize_prefix (b'/' ∷ strip_leading_slash p)
unfolding normalize_prefix
normalize_prefix_leading p = simp with_leading_slash_lem (unfold strip_leading_slash in refl)

normalize_prefix_lem :
    (p : Text) → (s : Text) × (normalize_prefix p ≡ b'/' ∷ s) × (ends_with (b'/' ∷ s) b'/' ≡ true)
normalize_prefix_lem p =
    let r : Text = strip_leading_slash p in
    let lead = normalize_prefix_leading p ∙ normalize_prefix_absolute r in
    elim (Bool-cases (ends_with (b'/' ∷ r) b'/')) [
      | inl e ↦ (r, rw e at lead, e)
      | inr e ↦ (r ++ text "/", rw e at lead, ends_with-append (b'/' ∷ r))
    ]

-- A normalized prefix starts and ends with a slash, and normalizing again changes nothing.
pub normalize_prefix_shape :
    (p : Text)
    → (s : Text) × (normalize_prefix p ≡ b'/' ∷ s)
      × (ends_with (normalize_prefix p) b'/' ≡ true)
      × (normalize_prefix (normalize_prefix p) ≡ normalize_prefix p)
normalize_prefix_shape p =
    let (s, e, ended) = normalize_prefix_lem p in
    (s, e, rw e ended, rw e (normalize_prefix_of_ended s ended))
