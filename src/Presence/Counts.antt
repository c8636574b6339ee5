-- ===== src/Presence/Counts.antt =====
-- Counting entries of a map under writes to one key.
use agent_fs.Prelude.{
  ℕ, ◌+◌, ◌≤◌, ◌≡◌, refl, ap, Bool, true, false, some, List, [], ◌∷◌, ◌++◌, Text, arith, any,
  ===_iff, if◌then◌else◌, Bool-cases, inl, inr,
}
use agent_fs.Sql.{update_where, delete_where, count_where}
use agent_fs.Presence.{Entry, is_entry, entry_of}

-- the keys of the map
abbrev pub IsUnique : List Entry → Type 0
IsUnique [] = Unit
IsUnique (e ∷ entries) = (any (is_entry e.session_id) entries ≡ false) × IsUnique entries

abbrev pub bit : Bool → ℕ
bit b = if b then 1 else 0

absent :
    (id : Text) (e : Entry) (entries : List Entry)
    → is_entry id e ≡ true
    → any (is_entry e.session_id) entries ≡ false
    → any (is_entry id) entries ≡ false
absent id e [] here new = refl
absent id e (x ∷ entries) here new = ground (
  arith,
  absent id e entries,
  ===_iff e.session_id id,
  ===_iff x.session_id id,
  ===_iff x.session_id e.session_id,
)

count-absent_update :
    (q : Entry → Bool) (id : Text) (f : Entry → Entry) (entries : List Entry)
    → any (is_entry id) entries ≡ false
    → count_where q (update_where (is_entry id) f entries) ≡ count_where q entries
count-absent_update q id f [] h = refl
count-absent_update q id f (x ∷ entries) h = ground (arith, count-absent_update q id f entries)

count-absent_delete :
    (q : Entry → Bool) (id : Text) (entries : List Entry)
    → any (is_entry id) entries ≡ false
    → count_where q (delete_where (is_entry id) entries) ≡ count_where q entries
count-absent_delete q id [] h = refl
count-absent_delete q id (x ∷ entries) h = ground (arith, count-absent_delete q id entries)

-- Writing one entry changes the count by that entry.
pub count-update :
    (q : Entry → Bool) (id : Text) (f : Entry → Entry) (entries : List Entry) (e : Entry)
    → IsUnique entries
    → entry_of id entries ≡ some e
    → count_where q (update_where (is_entry id) f entries) + bit (q e)
      ≡ count_where q entries + bit (q (f e))
unfolding entry_of
count-update q id f [] e u h = ground arith
count-update q id f (x ∷ entries) e (new, u) h = elim (Bool-cases (is_entry id x)) [
  | inl here ↦ ground (
    arith,
    count-absent_update q id f entries (absent id x entries here new),
    ap q (same here),
    ap (λ y. q (f y)) (same here),
  )
  | inr other ↦ ground (arith, count-update q id f entries e u)
]
  where
    same : is_entry id x ≡ true → x ≡ e
    same here = ground arith

pub count-delete :
    (q : Entry → Bool) (id : Text) (entries : List Entry)
    → count_where q (delete_where (is_entry id) entries) ≤ count_where q entries
count-delete q id [] = omega arith
count-delete q id (x ∷ entries) = ground (arith, count-delete q id entries)

pub count-append :
    (q : Entry → Bool) (e : Entry) (entries : List Entry)
    → count_where q (entries ++ e ∷ []) ≡ count_where q entries + bit (q e)
count-append q e [] = ground arith
count-append q e (x ∷ entries) = ground (arith, count-append q e entries)
