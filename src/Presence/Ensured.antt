-- ===== src/Presence/Ensured.antt =====
-- The registry's invariant, and the map in which a session has its entry.
use agent_fs.Prelude.{
  ℕ, ◌≤◌, ◌≡◌, refl, ap, ◌∙◌, Bool, true, false, ◌||◌, none, some, List, [], ◌∷◌, ◌++◌, Text, arith,
  any, all, ◌===◌, ===_iff, ===_refl, if◌then◌else◌, Option-cases, inl, inr, any-append, ltb,
}
use agent_fs.Sql.{update_where, delete_where, count_where, any-update, all-impl}
use agent_fs.Presence.{
  Entry, has_session, max_sessions, is_entry, entry_of, publishes, fresh, ensured, is_owner,
  is_published,
}
use agent_fs.Presence.Counts.{IsUnique, count-append}

abbrev pub is_live : Entry → Bool
is_live e = has_session e.session || ltb 0 e.bindings

-- Session ids are keys; an entry has a session or a stream; no user has more sessions than allowed.
pub record IsPresence (entries : List Entry) : Type 0 where
  pub unique : IsUnique entries
  pub live : all is_live entries ≡ true
  pub bounded : (user_id : Text) → count_where (publishes user_id) entries ≤ max_sessions

pub update-IsUnique :
    (w : Entry → Bool) (f : Entry → Entry) (entries : List Entry)
    → ((e : Entry) → (f e).session_id ≡ e.session_id)
    → IsUnique entries
    → IsUnique (update_where w f entries)
update-IsUnique w f [] same u = u
update-IsUnique w f (e ∷ entries) same (new, u) = (
  any_of (if w e then f e else e).session_id (ground (arith, same e)),
  update-IsUnique w f entries same u,
)
  where
    any_of : (id : Text) → id ≡ e.session_id → any (is_entry id) (update_where w f entries) ≡ false
    any_of id h = any-update (is_entry id) w f entries (λ x. ap (λ i. i === id) (same x)) ∙ rw h new

any-delete :
    (p w : Entry → Bool) (entries : List Entry)
    → any p entries ≡ false
    → any p (delete_where w entries) ≡ false
any-delete p w [] h = h
any-delete p w (e ∷ entries) h = ground (arith, any-delete p w entries)

pub delete-IsUnique :
    (w : Entry → Bool) (entries : List Entry) → IsUnique entries → IsUnique (delete_where w entries)
delete-IsUnique w [] u = u
delete-IsUnique w (e ∷ entries) (new, u) =
    ground (arith, any-delete (is_entry e.session_id) w entries new, delete-IsUnique w entries u)

append-IsUnique :
    (e : Entry) (entries : List Entry)
    → any (is_entry e.session_id) entries ≡ false
    → IsUnique entries
    → IsUnique (entries ++ e ∷ [])
append-IsUnique e [] new u = ground arith
append-IsUnique e (x ∷ entries) new (k, u) = ground (
  arith,
  any-append (is_entry x.session_id) entries (e ∷ []),
  append-IsUnique e entries,
  ===_iff e.session_id x.session_id,
  ===_iff x.session_id e.session_id,
)

all-append :
    (p : Entry → Bool) (e : Entry) (entries : List Entry)
    → all p entries ≡ true
    → p e ≡ true
    → all p (entries ++ e ∷ []) ≡ true
all-append p e [] h he = ground arith
all-append p e (x ∷ entries) h he = ground (arith, all-append p e entries)

entry_of-append :
    (id : Text) (e : Entry) (entries : List Entry)
    → is_entry id e ≡ true
    → any (is_entry id) entries ≡ false
    → entry_of id (entries ++ e ∷ []) ≡ some e
unfolding entry_of
entry_of-append id e [] here h = rw here refl
entry_of-append id e (x ∷ entries) here h = ground (arith, entry_of-append id e entries here)

entry_of-none :
    (id : Text) (entries : List Entry)
    → entry_of id entries ≡ none
    → any (is_entry id) entries ≡ false
unfolding entry_of
entry_of-none id [] h = refl
entry_of-none id (x ∷ entries) h = ground (arith, entry_of-none id entries)

-- The map in which a session has its entry, and that entry.
pub record Ensured (entries : List Entry) (id u : Text) (now : ℕ) : Type 0 where
  pub entry : Entry
  pub found : entry_of id (ensured id u now entries) ≡ some entry
  pub unique : IsUnique (ensured id u now entries)
  pub nearly : all (λ e. is_entry id e || is_live e) (ensured id u now entries) ≡ true
  pub counts :
      (v : Text)
      → count_where (publishes v) (ensured id u now entries) ≡ count_where (publishes v) entries
  pub owner : is_owner u (entry_of id entries) ≡ true → entry.user_id ≡ u
  pub same : has_session entry.session ≡ is_published (entry_of id entries)

ensured-missing :
    (entries : List Entry) (id u : Text) (now : ℕ)
    → entry_of id entries ≡ none
    → ensured id u now entries ≡ entries ++ fresh id u now ∷ []
unfolding ensured
ensured-missing entries id u now h = rw (h, ensured) refl

ensured-there :
    (entries : List Entry) (id u : Text) (now : ℕ) (e : Entry)
    → entry_of id entries ≡ some e
    → ensured id u now entries ≡ entries
unfolding ensured
ensured-there entries id u now e h = rw (h, ensured) refl

pub ensured_lem :
    (entries : List Entry) (id u : Text) (now : ℕ) → IsPresence entries → Ensured entries id u now
ensured_lem entries id u now p = elim (Option-cases (entry_of id entries)) [
  | inl missing ↦
      let absent_now = ensured-missing entries id u now missing in
      let new : any (is_entry id) entries ≡ false = entry_of-none id entries missing in
      record {
        entry = fresh id u now;
        found = rw absent_now (entry_of-append id (fresh id u now) entries (===_refl id) new);
        unique = rw absent_now (append-IsUnique (fresh id u now) entries new p.unique);
        nearly = rw absent_now (
            all-append (λ e. is_entry id e || is_live e) (fresh id u now) entries
              (all-impl is_live (λ e. is_entry id e || is_live e) entries (λ e h. ground arith)
                p.live)
              (ground (arith, ===_refl id)));
        counts =
            λ v. rw absent_now (omega (arith, count-append (publishes v) (fresh id u now) entries));
        owner = λ h. refl;
        same = rw missing refl;
      }
  | inr (e, there) ↦
      let present_now = ensured-there entries id u now e there in
      record {
        entry = e;
        found = rw present_now there;
        unique = rw present_now p.unique;
        nearly = rw present_now (
            all-impl is_live (λ e. is_entry id e || is_live e) entries (λ e h. ground arith)
              p.live);
        counts = λ v. rw present_now refl;
        owner = λ h. ground (arith, h, there, ===_iff e.user_id u);
        same = rw there refl;
      }
]
