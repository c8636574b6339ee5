-- ===== src/Presence/Runs.antt =====
-- Any sequence of operations on a drive's registry.
use agent_fs.Prelude.{
  ℕ, ◌≤◌, ◌≡◌, refl, sym, Option, some, List, [], ◌∷◌, Text, arith, Bool-cases, inl, inr,
}
use agent_fs.Errors.{Result, ok, err}
use agent_fs.Presence.{
  Entry, Published, entry_of, upsert, remove, bind, release, sweep_from, sweep, is_stale, kept,
}
use agent_fs.Presence.Ensured.{IsPresence}
use agent_fs.Presence.Laws.{bind-IsPresence, upsert-IsPresence}
use agent_fs.Presence.Removals.{remove-IsPresence, release-IsPresence}

sweep_from-IsPresence :
    (now : ℕ) (visited entries : List Entry)
    → IsPresence entries
    → IsPresence (sweep_from now visited entries)
unfolding sweep_from
sweep_from-IsPresence now [] entries p = p
sweep_from-IsPresence now (e ∷ visited) entries p = elim (Bool-cases (is_stale now e)) [
  | inl stale ↦ rw stale (
      sweep_from-IsPresence now visited (kept entries (remove entries e.session_id e.user_id))
        (kept-IsPresence (remove entries e.session_id e.user_id) refl))
  | inr lively ↦ rw lively (sweep_from-IsPresence now visited entries p)
]
  where
    kept-IsPresence :
        (r : Result (List Entry × Published))
        → r ≡ remove entries e.session_id e.user_id
        → IsPresence (kept entries r)
    kept-IsPresence (ok r) h = remove-IsPresence entries e.session_id e.user_id r (sym h) p
    kept-IsPresence (err x) h = p

-- One operation that succeeded, or a sweep. A stream that ends still counts in its entry.
pub data Step (entries : List Entry) : List Entry → Type 0 where
  upserted :
      (id u email : Text) (name : Option Text) (state : Text) (now : ℕ) (r : List Entry × Published)
      → upsert entries id u email name state now ≡ ok r
      → Step entries r.0
  removed :
      (id u : Text) (r : List Entry × Published) → remove entries id u ≡ ok r → Step entries r.0
  bound :
      (id u : Text) (now : ℕ) (entries' : List Entry)
      → bind entries id u now ≡ ok entries'
      → Step entries entries'
  released :
      (id u : Text) (e : Entry) (r : List Entry × Published)
      → entry_of id entries ≡ some e
      → 1 ≤ e.bindings
      → release entries id u ≡ ok r
      → Step entries r.0
  swept : (now : ℕ) → Step entries (sweep now entries)

Step-IsPresence :
    {entries entries' : List Entry}
    → Step entries entries'
    → IsPresence entries
    → IsPresence entries'
Step-IsPresence {entries} (upserted id u email name state now r h) p =
    upsert-IsPresence entries id u email name state now r h p
Step-IsPresence {entries} (removed id u r h) p = remove-IsPresence entries id u r h p
Step-IsPresence {entries} (bound id u now entries' h) p =
    bind-IsPresence entries id u now entries' h p
Step-IsPresence {entries} (released id u e r found some_left h) p =
    release-IsPresence entries id u e r found h p
Step-IsPresence {entries} (swept now) p =
    unfold sweep in sweep_from-IsPresence now entries entries p

pub data Run : List Entry → Type 0 where
  start : Run []
  then_step : {entries entries' : List Entry} → Run entries → Step entries entries' → Run entries'

-- From an empty registry, after any sequence of upserts, removals, streams that start and end, and
-- sweeps: session ids are unique, every entry has a session or an open stream, and no user has more
-- than 32 published sessions on the drive. A stream ends on an entry that counts it.
pub Run-IsPresence : {entries : List Entry} → Run entries → IsPresence entries
Run-IsPresence start = record { unique = tt; live = refl; bounded = λ v. omega arith }
Run-IsPresence (then_step r s) = Step-IsPresence s (Run-IsPresence r)
