-- ===== src/Presence/Removals.antt =====
-- The registry's invariant when a session is removed or a stream ends.
use agent_fs.Prelude.{
  ◌≤◌, ◌≡◌, refl, ap, subst, Bool, true, false, not, ◌&&◌, ◌||◌, none, some, List, [], ◌∷◌, Text,
  arith, any, all, ◌===◌, ===_iff, Bool-cases, Option-cases, inl, inr, ◌==◌,
}
use agent_fs.Errors.{ok, err, edit_conflict}
use agent_fs.Sql.{
  update_where, delete_where, count_where, all-update, all-delete_kept, all-impl, all-and,
}
use agent_fs.Presence.{
  Entry, Published, max_sessions, is_entry, entry_of, publishes, hidden, remove, departure, fewer,
  release, has_none,
}
use agent_fs.Presence.Counts.{IsUnique, count-update, count-delete}
use agent_fs.Presence.Ensured.{is_live, IsPresence, update-IsUnique, delete-IsUnique}

-- The invariant but for one entry, which may be dead.
record IsNearly (id : Text) (entries : List Entry) : Type 0 where
  unique : IsUnique entries
  live : all (λ e. is_entry id e || is_live e) entries ≡ true
  bounded : (user_id : Text) → count_where (publishes user_id) entries ≤ max_sessions

whole-IsNearly : (id : Text) (entries : List Entry) → IsPresence entries → IsNearly id entries
whole-IsNearly id entries p = record {
  unique = p.unique;
  live = all-impl is_live (λ e. is_entry id e || is_live e) entries (λ e h. ground arith) p.live;
  bounded = p.bounded;
}

others :
    (p : Entry → Bool) (id : Text) (entries : List Entry)
    → any (is_entry id) entries ≡ false
    → all (λ x. not (is_entry id x) || p x) entries ≡ true
others p id [] h = refl
others p id (x ∷ entries) h = ground (arith, others p id entries)

absent :
    (id : Text) (e : Entry) (entries : List Entry)
    → is_entry id e ≡ true
    → any (is_entry e.session_id) entries ≡ false
    → any (is_entry id) entries ≡ false
absent id e entries here new =
    subst (λ i. any (is_entry i) entries ≡ false) ((===_iff e.session_id id).0 here) new

-- What holds of the entry of a session holds of every entry with its key.
all_found :
    (p : Entry → Bool) (id : Text) (entries : List Entry) (e : Entry)
    → IsUnique entries
    → entry_of id entries ≡ some e
    → p e ≡ true
    → all (λ x. not (is_entry id x) || p x) entries ≡ true
unfolding entry_of
all_found p id [] e u h pe = refl
all_found p id (x ∷ entries) e (new, u) h pe = elim (Bool-cases (is_entry id x)) [
  | inl here ↦ ground (arith, others p id entries (absent id x entries here new))
  | inr other ↦ ground (arith, all_found p id entries e u)
]

entry_of-update :
    (id : Text) (f : Entry → Entry) (entries : List Entry) (e : Entry)
    → ((x : Entry) → (f x).session_id ≡ x.session_id)
    → entry_of id entries ≡ some e
    → entry_of id (update_where (is_entry id) f entries) ≡ some (f e)
unfolding entry_of
entry_of-update id f [] e key h = ground arith
entry_of-update id f (x ∷ entries) e key h =
    ground (arith, entry_of-update id f entries e key, key x, ap (λ i. i === id) (key x))

module _ (entries : List Entry) (id : Text) (e : Entry) where
  hidden-IsPresence :
      IsNearly id entries
      → entry_of id entries ≡ some e
      → e.bindings == 0 ≡ false
      → IsPresence (update_where (is_entry id) hidden entries)
  hidden-IsPresence n found bound = record {
    unique = update-IsUnique (is_entry id) hidden entries (λ x. refl) n.unique;
    live =
        all-update
          (λ x. (is_entry id x || is_live x) && (not (is_entry id x) || not (x.bindings == 0)))
          is_live (is_entry id) hidden entries (λ x w h. ground arith) (λ x w h. ground arith)
          (all-and (λ x. is_entry id x || is_live x)
            (λ x. not (is_entry id x) || not (x.bindings == 0)) entries n.live
            (all_found (λ x. not (x.bindings == 0)) id entries e n.unique found (ground arith)));
    bounded = λ v.
        omega (arith, n.bounded v, count-update (publishes v) id hidden entries e n.unique found);
  }

  deleted-IsPresence : IsNearly id entries → IsPresence (delete_where (is_entry id) entries)
  deleted-IsPresence n = record {
    unique = delete-IsUnique (is_entry id) entries n.unique;
    live =
        all-delete_kept (λ x. is_entry id x || is_live x) is_live (is_entry id) entries
          (λ x w h. ground arith) n.live;
    bounded = λ v. omega (arith, n.bounded v, count-delete (publishes v) id entries);
  }

  pub remove-refused :
      (u : Text)
      → entry_of id entries ≡ some e
      → e.user_id === u ≡ false
      → remove entries id u ≡ err edit_conflict
  unfolding remove
  remove-refused u found other = rw (found, remove) (rw other refl)

  remove-deleted :
      (u : Text)
      → entry_of id entries ≡ some e
      → e.user_id === u ≡ true
      → e.bindings == 0 ≡ true
      → remove entries id u ≡ ok (delete_where (is_entry id) entries, departure id e.session)
  unfolding remove
  remove-deleted u found mine unbound = rw (found, remove) (rw mine (rw unbound refl))

  remove-hidden :
      (u : Text)
      → entry_of id entries ≡ some e
      → e.user_id === u ≡ true
      → e.bindings == 0 ≡ false
      → remove entries id u ≡ ok (update_where (is_entry id) hidden entries, departure id e.session)
  unfolding remove
  remove-hidden u found mine bound = rw (found, remove) (rw mine (rw bound refl))

  remove_found :
      (u : Text) (r : List Entry × Published)
      → IsNearly id entries
      → entry_of id entries ≡ some e
      → remove entries id u ≡ ok r
      → IsPresence r.0
  remove_found u r n found h = elim (Bool-cases (e.user_id === u)) [
    | inr other ↦ ground (arith, remove-refused u found other)
    | inl mine ↦ elim (Bool-cases (e.bindings == 0)) [
      | inl unbound ↦
          subst IsPresence {x = delete_where (is_entry id) entries}
            (ground (arith, remove-deleted u found mine unbound)) (deleted-IsPresence n)
      | inr bound ↦
          subst IsPresence {x = update_where (is_entry id) hidden entries}
            (ground (arith, remove-hidden u found mine bound)) (hidden-IsPresence n found bound)
    ]
  ]

remove-missing :
    (entries : List Entry) (id u : Text)
    → entry_of id entries ≡ none
    → remove entries id u ≡ ok (entries, Published.nothing)
unfolding remove
remove-missing entries id u h = rw (h, remove) refl

pub remove-IsPresence :
    (entries : List Entry) (id u : Text) (r : List Entry × Published)
    → remove entries id u ≡ ok r
    → IsPresence entries
    → IsPresence r.0
remove-IsPresence entries id u r h p = elim (Option-cases (entry_of id entries)) [
  | inl missing ↦
      subst IsPresence {x = entries} (ground (arith, remove-missing entries id u missing)) p
  | inr (e, found) ↦ remove_found entries id e u r (whole-IsNearly id entries p) found h
]

-- A stream that ends: its entry counts at least its own binding.
fewer-IsNearly :
    (entries : List Entry) (id : Text) (e : Entry)
    → entry_of id entries ≡ some e
    → IsPresence entries
    → IsNearly id (update_where (is_entry id) fewer entries)
fewer-IsNearly entries id e found p = record {
  unique = update-IsUnique (is_entry id) fewer entries (λ x. refl) p.unique;
  live =
      all-update is_live (λ x. is_entry id x || is_live x) (is_entry id) fewer entries
        (λ x w h. ground arith) (λ x w h. ground arith) p.live;
  bounded =
      λ v. omega (arith, p.bounded v, count-update (publishes v) id fewer entries e p.unique found);
}

nearly-IsPresence :
    (id : Text) (entries : List Entry) (e : Entry)
    → IsNearly id entries
    → entry_of id entries ≡ some e
    → is_live e ≡ true
    → IsPresence entries
nearly-IsPresence id entries e n found alive = record {
  unique = n.unique;
  live =
      all-impl (λ x. (is_entry id x || is_live x) && (not (is_entry id x) || is_live x)) is_live
        entries (λ x h. ground arith)
        (all-and (λ x. is_entry id x || is_live x) (λ x. not (is_entry id x) || is_live x) entries
          n.live (all_found is_live id entries e n.unique found alive));
  bounded = n.bounded;
}

pub release-IsPresence :
    (entries : List Entry) (id u : Text) (e : Entry) (r : List Entry × Published)
    → entry_of id entries ≡ some e
    → release entries id u ≡ ok r
    → IsPresence entries
    → IsPresence r.0
unfolding release
release-IsPresence entries id u e r found h p =
    let n = fewer-IsNearly entries id e found p in
    let there : entry_of id (update_where (is_entry id) fewer entries) ≡ some (fewer e) =
      entry_of-update id fewer entries e (λ x. refl) found in
    elim (Bool-cases (has_none (entry_of id (update_where (is_entry id) fewer entries)))) [
      | inl last ↦
          remove_found (update_where (is_entry id) fewer entries) id (fewer e) u r n there
            (ground arith)
      | inr more_left ↦
          subst IsPresence {x = update_where (is_entry id) fewer entries} (ground arith) (
            nearly-IsPresence id (update_where (is_entry id) fewer entries) (fewer e) n there
              (ground (arith, there, more_left)))
    ]
