-- ===== src/Paths/Containment.antt =====
-- Where the host resolves a storage key. The local-filesystem backend joins the key to the storage
-- root, so the key's segments are walked: empty segments and "." stay, ".." goes up. A host
-- separates segments by "/", and Windows hosts by a backslash too.
use agent_fs.Prelude.{
  ℕ, ◌≡◌, refl, ap, sym, subst, inl, inr, ◌∙◌, Bool, true, false, ◌||◌, not, List, [], ◌∷◌, ◌++◌,
  reverse, append-nil, append_assoc, arith, Text, text, ◌===◌, any, keep_if, All, ◌==◌,
  if◌then◌else◌, Bool-cases,
}
use mathlib.Core.List.{reverse-cons}
use agent_fs.Paths.Segments.{
  head_of, tail_of, split_on-cons, tail_of-push, split_on-here, split_on-further, fine, coarse,
  head_without_backslash, split_on-append,
}
use agent_fs.Errors.{ok}
use agent_fs.Paths.{
  split_on, is_either_slash, is_dots, includes, assert_key_inside_drive, get_s3_key,
  strip_leading_slash,
}

-- one step of the walk; the stack has the deepest directory at its head
abbrev step_into : List Text → Text → List Text
step_into stack segment =
    if segment === [] || segment === text "."
    then stack
    else if segment === text ".."
    then drop_top stack
    else segment ∷ stack
  where
    drop_top : List Text → List Text
    drop_top [] = []
    drop_top (s ∷ rest) = rest

walk : List Text → List Text → List Text
walk stack [] = reverse stack
walk stack (segment ∷ more) = walk (step_into stack segment) more

abbrev pub is_separator : Bool → ℕ → Bool
is_separator windows c = if windows then is_either_slash c else c == b'/'

-- The directories and the file that a key names, from the storage root down.
unfoldable pub resolve : Bool → Text → List Text
unfolding walk
resolve windows key = walk [] (split_on (is_separator windows) key)

abbrev pub is_named : Text → Bool
is_named segment = not (segment === [])

abbrev NoDots : List Text → Type 0
NoDots segments = All (λ s. is_dots s ≡ false) segments

any-NoDots : (segments : List Text) → any is_dots segments ≡ false → NoDots segments
any-NoDots [] h = tt
any-NoDots (s ∷ segments) h = (ground arith, any-NoDots segments (ground arith))

step_into_of_NoDots :
    (stack : List Text) (s : Text)
    → is_dots s ≡ false
    → step_into stack s ≡ (if is_named s then s ∷ stack else stack)
step_into_of_NoDots stack s h = ground arith

-- Without dot segments the walk goes only down, through the named segments in order.
walk-NoDots :
    (stack segments : List Text)
    → NoDots segments
    → walk stack segments ≡ reverse stack ++ keep_if is_named segments
unfolding walk
walk-NoDots stack [] h = sym (append-nil (reverse stack))
walk-NoDots stack (s ∷ segments) (no_dots, h) = elim (Bool-cases (is_named s)) [
  | inl named ↦
      rw (step_into_of_NoDots stack s no_dots, named)
        (walk-NoDots (s ∷ stack) segments h ∙ (simp (reverse-cons, append_assoc)))
  | inr unnamed ↦ rw (step_into_of_NoDots stack s no_dots, unnamed) (walk-NoDots stack segments h)
]

is_dots-backslash : (s : Text) → includes 92 s ≡ true → is_dots s ≡ false
unfolding includes ◌===◌
is_dots-backslash [] h = ground arith
is_dots-backslash (c ∷ []) h = ground arith
is_dots-backslash (c ∷ d ∷ []) h = ground arith
is_dots-backslash (c ∷ d ∷ e ∷ s) h = ground arith

head_coarse : (s : Text) → is_dots (head_of (fine s)) ≡ false → is_dots (head_of (coarse s)) ≡ false
head_coarse s h = elim (Bool-cases (includes 92 (head_of (coarse s)))) [
  | inl e ↦ is_dots-backslash (head_of (coarse s)) e
  | inr e ↦ rw (head_without_backslash s e) at h
]

NoDots-fine :
    (s : Text) → NoDots (fine s) → (is_dots (head_of (fine s)) ≡ false) × NoDots (tail_of (fine s))
NoDots-fine s h = subst NoDots (split_on-cons is_either_slash s) h

NoDots-coarse :
    (s : Text)
    → NoDots (fine s)
    → (NoDots (tail_of (fine s)) → NoDots (tail_of (coarse s)))
    → NoDots (coarse s)
NoDots-coarse s h ih =
    let (first, rest) = NoDots-fine s h in
    subst NoDots (sym (split_on-cons (λ c. c == b'/') s)) (head_coarse s first, ih rest)

tail_fine-cons :
    (c : ℕ) (s : Text)
    → c == b'/' ≡ false
    → NoDots (tail_of (fine (c ∷ s)))
    → NoDots (tail_of (fine s))
tail_fine-cons c s e h = elim (Bool-cases (c == 92)) [
  | inl b ↦ (NoDots-fine s (rw (split_on-here is_either_slash c s (ground arith)) at h)).1
  | inr b ↦
      rw (tail_of-push c (fine s)) at
        (rw (split_on-further is_either_slash c s (ground arith)) at h)
]

tail_coarse : (s : Text) → NoDots (tail_of (fine s)) → NoDots (tail_of (coarse s))
tail_coarse [] h = unfold split_on in h
tail_coarse (c ∷ s) h = elim (Bool-cases (c == b'/')) [
  | inl e ↦
      rw (split_on-here (λ d. d == b'/') c s e) (
        NoDots-coarse s (rw (split_on-here is_either_slash c s (ground arith)) at h)
          (tail_coarse s))
  | inr e ↦
      rw (split_on-further (λ d. d == b'/') c s e, tail_of-push c (coarse s))
        (tail_coarse s (tail_fine-cons c s e h))
]

-- What the guard lets through has no dot segment, whichever separators the host knows.
guard-NoDots :
    (windows : Bool) (key : Text)
    → assert_key_inside_drive key ≡ ok tt
    → NoDots (split_on (is_separator windows) key)
unfolding assert_key_inside_drive
guard-NoDots true key h = any-NoDots (fine key) (ground arith)
guard-NoDots false key h =
    NoDots-coarse key (any-NoDots (fine key) (ground arith)) (tail_coarse key)

-- An id is not empty and holds neither kind of slash, as a UUID.
pub record IsPlainId (id : Text) : Type 0 where
  pub named : is_named id ≡ true
  pub plain : any is_either_slash id ≡ false

any-separator :
    (windows : Bool) (s : Text)
    → any is_either_slash s ≡ false
    → any (is_separator windows) s ≡ false
any-separator true s h = h
any-separator false [] h = refl
any-separator false (c ∷ s) h = ground (arith, any-separator false s)

separator-slash : (windows : Bool) → is_separator windows b'/' ≡ true
separator-slash true = refl
separator-slash false = refl

segments-get_s3_key :
    (windows : Bool) (o d p : Text)
    → IsPlainId o
    → IsPlainId d
    → split_on (is_separator windows) (get_s3_key o d p)
      ≡ o ∷ text "drives" ∷ d ∷ split_on (is_separator windows) (strip_leading_slash p)
unfolding get_s3_key
segments-get_s3_key windows o d p io id =
    let sep : ℕ → Bool = is_separator windows in
    let slash = separator-slash windows in
    split_on-append sep o _ b'/' (any-separator windows o io.plain) slash
    ∙ ap (λ m. o ∷ m)
        (split_on-append sep (text "drives") _ b'/' (any-separator windows (text "drives") refl)
            slash
          ∙ ap (λ m. text "drives" ∷ m)
              (split_on-append sep d (strip_leading_slash p) b'/' (any-separator windows d id.plain)
                slash))

-- A key that the guard accepts resolves, on either kind of host, to a place under its own drive's
-- directory: org, "drives", drive, then the named segments of the path in their order.
pub resolve_inside_drive :
    (windows : Bool) (o d p : Text)
    → IsPlainId o
    → IsPlainId d
    → assert_key_inside_drive (get_s3_key o d p) ≡ ok tt
    → resolve windows (get_s3_key o d p)
      ≡ o
        ∷ text "drives"
        ∷ d
        ∷ keep_if is_named (split_on (is_separator windows) (strip_leading_slash p))
unfolding resolve ◌===◌
resolve_inside_drive windows o d p io id h =
    walk-NoDots [] _ (guard-NoDots windows (get_s3_key o d p) h)
    ∙ ap (keep_if is_named) (segments-get_s3_key windows o d p io id)
    ∙ (rw (io.named, id.named))
