-- ===== src/Files/Edit.antt =====
-- The text that ops/edit.ts writes: its check that the old text occurs once, and `String.replace`
-- of JavaScript with a string for its replacement, in which `$` patterns are expanded.
pub mod Laws
use agent_fs.Prelude.{
  ℕ, suc, zero, ◌+◌, ◌-◌, Bool, true, false, Option, none, some, List, [], ◌∷◌, ◌++◌, Text, text,
  ◌==◌, ltb, length, drop, starts_with, if◌then◌else◌,
}
use agent_fs.Errors.{Result, ok, err, edit_conflict}

-- Occurrences that do not overlap, from the left; `skip` code units belong to the last one.
unfoldable pub scan : Text → Text → ℕ → ℕ
scan old [] skip = 0
scan old (c ∷ s) (suc skip) = scan old s skip
scan old (c ∷ s) zero =
    let found = suc (scan old s (length old - 1)) in
    let rest = scan old s 0 in if starts_with (c ∷ s) old then found else rest

-- `content.split(old).length`; an empty separator splits at every code unit
unfoldable pub parts : Text → Text → ℕ
parts content [] = length content
parts content (c ∷ old) = scan (c ∷ old) content 0 + 1

-- what stands before and after the first occurrence
unfoldable pub split_at_first : Text → Text → Option (Text × Text)
split_at_first old [] = if starts_with [] old then some ([], []) else none
split_at_first old (c ∷ s) =
    let rest = split_at_first old s in
    if starts_with (c ∷ s) old
    then some ([], drop (length old) (c ∷ s))
    else (elim rest [ none ↦ none | some p ↦ some (c ∷ p.0, p.1) ])

abbrev pub dollar : ℕ
dollar = b'$'

-- What `$` and a code unit stand for, if anything.
abbrev pub pattern_of : ℕ → (matched before after : Text) → Option Text
pattern_of c matched before after =
    if c == b'$'
    then some (text "$")
    else if c == b'&'
    then some matched
    else if c == 96
    then some before
    else if c == 39
    then some after
    else none

-- GetSubstitution, for a match without captures
unfoldable pub expand : Text → (matched before after : Text) → Text
expand [] matched before after = []
expand (c ∷ []) matched before after = c ∷ []
expand (c ∷ d ∷ s) matched before after =
    let plain = c ∷ expand (d ∷ s) matched before after in
    let rest = expand s matched before after in
    if c == dollar
    then (elim (pattern_of d matched before after) [ none ↦ plain | some t ↦ t ++ rest ])
    else plain

-- `content.replace(old, new)`
unfoldable pub replace : Text → Text → Text → Text
replace content old new = elim (split_at_first old content) [
  | none ↦ content
  | some p ↦ p.0 ++ expand new old p.0 p.1 ++ p.1
]

-- `occurrences` is one less than the parts: conflicts at 0 and above 1
unfoldable pub edit_text : Text → Text → Text → Result Text
edit_text content old new =
    if parts content old == 1
    then err edit_conflict
    else if ltb 2 (parts content old)
    then err edit_conflict
    else ok (replace content old new)
