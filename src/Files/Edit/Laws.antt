-- ===== src/Files/Edit/Laws.antt =====
-- What an edit writes.
use agent_fs.Prelude.{
  ◌+◌, ◌≡◌, refl, ap, sym, ◌∙◌, true, false, none, some, [], ◌∷◌, ◌++◌, Text, text, ◌==◌, ltb,
  length, drop, starts_with, any, arith, Bool-cases, Option-cases, inl, inr, append-nil,
}
use agent_fs.Errors.{ok}
use agent_fs.Files.Edit.{scan, parts, split_at_first, expand, replace, edit_text, dollar}

starts_with-drop : (s p : Text) → starts_with s p ≡ true → p ++ drop (length p) s ≡ s
unfolding starts_with
starts_with-drop s [] h = refl
starts_with-drop [] (c ∷ p) h = ground arith
starts_with-drop (d ∷ s) (c ∷ p) h = ground (arith, starts_with-drop s p)

-- The first occurrence is one.
split_at_first-append : (old s b a : Text) → split_at_first old s ≡ some (b, a) → b ++ old ++ a ≡ s
unfolding split_at_first starts_with
split_at_first-append [] [] b a h = ground arith
split_at_first-append (x ∷ old) [] b a h = ground arith
split_at_first-append old (c ∷ s) b a h = elim (Bool-cases (starts_with (c ∷ s) old)) [
  | inl here ↦ ground (arith, starts_with-drop (c ∷ s) old here)
  | inr other ↦ elim (Option-cases (split_at_first old s)) [
    | inl missing ↦ ground arith
    | inr (p, found) ↦ ground (arith, split_at_first-append old s p.0 p.1 found)
  ]
]

-- Text without a dollar sign stands for itself.
expand-plain :
    (new matched before after : Text)
    → any (λ c. c == dollar) new ≡ false
    → expand new matched before after ≡ new
unfolding expand
expand-plain [] m b a h = refl
expand-plain (c ∷ []) m b a h = refl
expand-plain (c ∷ d ∷ s) m b a h =
    let plain : c == dollar ≡ false = ground arith in
    rw plain (ap (λ t. c ∷ t) (expand-plain (d ∷ s) m b a (ground arith)))

scan-none : (old s : Text) → split_at_first old s ≡ none → scan old s 0 ≡ 0
unfolding split_at_first scan
scan-none old [] h = refl
scan-none old (c ∷ s) h = elim (Bool-cases (starts_with (c ∷ s) old)) [
  | inl here ↦ ground arith
  | inr other ↦ elim (Option-cases (split_at_first old s)) [
    | inl missing ↦ ground (arith, scan-none old s missing)
    | inr (p, found) ↦ ground arith
  ]
]

parts-none : (old s : Text) → split_at_first old s ≡ none → parts s old ≡ 1
unfolding parts split_at_first starts_with
parts-none [] [] h = ground arith
parts-none [] (c ∷ s) h = ground arith
parts-none (x ∷ old) s h = ap (λ n. n + 1) (scan-none (x ∷ old) s h)

-- What an edit that goes through is made of.
replaced :
    (content old new out : Text)
    → edit_text content old new ≡ ok out
    → (p : Text × Text) × (split_at_first old content ≡ some p)
      × (out ≡ p.0 ++ expand new old p.0 p.1 ++ p.1)
unfolding edit_text replace
replaced content old new out h = elim (Option-cases (split_at_first old content)) [
  | inl missing ↦ ground (arith, parts-none old content missing)
  | inr (p, found) ↦ (
    p,
    found,
    elim (Bool-cases (parts content old == 1)) [
      | inl one ↦ ground arith
      | inr more ↦ elim (Bool-cases (ltb 2 (parts content old))) [
        | inl many ↦ ground arith
        | inr once ↦ sym (written more once) ∙ rw (found, replace) refl
      ]
    ],
  )
]
  where
    written :
        parts content old == 1 ≡ false
        → ltb 2 (parts content old) ≡ false
        → replace content old new ≡ out
    written more once = ground arith

-- An edit whose new text has no dollar sign puts it in the place of an occurrence of the old text,
-- and keeps what stands before and after that.
pub edit_text-plain :
    (content old new out : Text)
    → any (λ c. c == dollar) new ≡ false
    → edit_text content old new ≡ ok out
    → (p : Text × Text) × (p.0 ++ old ++ p.1 ≡ content) × (out ≡ p.0 ++ new ++ p.1)
edit_text-plain content old new out plain h =
    let (p, found, e) = replaced content old new out h in
    (
      p,
      split_at_first-append old content p.0 p.1 found,
      e ∙ ap (λ t. p.0 ++ t ++ p.1) (expand-plain new old p.0 p.1 plain),
    )

-- Where an edit of an old text goes through with some new text, the edit of it to "$&" goes through
-- too, and writes the old content again.
pub edit_text-dollar :
    (content old new out : Text)
    → edit_text content old new ≡ ok out
    → edit_text content old (text "$&") ≡ ok content
unfolding edit_text replace expand
edit_text-dollar content old new out h =
    let (p, found, e) = replaced content old new out h in
    let same : p.0 ++ (old ++ []) ++ p.1 ≡ content =
      ap (λ t. p.0 ++ t ++ p.1) (append-nil old)
      ∙ split_at_first-append old content p.0 p.1 found in
    elim (Bool-cases (parts content old == 1)) [
      | inl one ↦ ground arith
      | inr more ↦ elim (Bool-cases (ltb 2 (parts content old))) [
        | inl many ↦ ground arith
        | inr once ↦ rw (more, once) (rw (found, replace) (ap ok same))
      ]
    ]
