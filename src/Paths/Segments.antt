-- ===== src/Paths/Segments.antt =====
-- Segments of a text: what `split_on` gives, and how a finer separator relates to a coarser one.
use agent_fs.Prelude.{
  ℕ, ◌≡◌, refl, ap, ◌∙◌, Bool, true, false, List, [], ◌∷◌, ◌++◌, arith, Text, any, ◌==◌,
}
use agent_fs.Paths.{push, split_on, is_either_slash, includes}

abbrev pub head_of : List Text → Text
head_of [] = []
head_of (s ∷ rest) = s

abbrev pub tail_of : List Text → List Text
tail_of [] = []
tail_of (s ∷ rest) = rest

abbrev pub fine : Text → List Text
fine s = split_on is_either_slash s

abbrev pub coarse : Text → List Text
coarse s = split_on (λ c. c == b'/') s

pub split_on-cons :
    (sep : ℕ → Bool) (s : Text)
    → split_on sep s ≡ head_of (split_on sep s) ∷ tail_of (split_on sep s)
unfolding split_on
split_on-cons sep [] = refl
split_on-cons sep (c ∷ s) = ground (arith, split_on-cons sep s)

pub head_of-push : (c : ℕ) (x : List Text) → head_of (push c x) ≡ c ∷ head_of x
head_of-push c [] = refl
head_of-push c (s ∷ x) = refl

pub tail_of-push : (c : ℕ) (x : List Text) → tail_of (push c x) ≡ tail_of x
tail_of-push c [] = refl
tail_of-push c (s ∷ x) = refl

pub split_on-here :
    (sep : ℕ → Bool) (c : ℕ) (s : Text) → sep c ≡ true → split_on sep (c ∷ s) ≡ [] ∷ split_on sep s
unfolding split_on
split_on-here sep c s e = rw e

pub split_on-further :
    (sep : ℕ → Bool) (c : ℕ) (s : Text)
    → sep c ≡ false
    → split_on sep (c ∷ s) ≡ push c (split_on sep s)
unfolding split_on
split_on-further sep c s e = rw e

-- Up to its first backslash a coarse segment is a fine one.
pub head_without_backslash :
    (s : Text) → includes 92 (head_of (coarse s)) ≡ false → head_of (fine s) ≡ head_of (coarse s)
unfolding split_on includes
head_without_backslash [] h = refl
head_without_backslash (c ∷ s) h =
    ground (arith, head_of-push c (fine s), head_of-push c (coarse s), head_without_backslash s)

pub split_on-append :
    (sep : ℕ → Bool) (a x : Text) (c : ℕ)
    → any sep a ≡ false
    → sep c ≡ true
    → split_on sep (a ++ c ∷ x) ≡ a ∷ split_on sep x
split_on-append sep [] x c h e = split_on-here sep c x e
split_on-append sep (d ∷ a) x c h e =
    split_on-further sep d (a ++ c ∷ x) (ground arith)
    ∙ ap (push d) (split_on-append sep a x c (ground arith) e)
