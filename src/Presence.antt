-- ===== src/Presence.antt =====
-- `PresenceRegistry` of packages/core/src/presence/registry.ts, for one drive: the registry keeps a
-- map of its own for each. A session's state is opaque text, compared by equality; listeners are not
-- modelled, but what an operation publishes is part of its result.
pub mod Counts
pub mod Ensured
pub mod Laws
pub mod Removals
pub mod Owned
pub mod Runs
mod Tests
use agent_fs.Prelude.{
  ℕ, ◌+◌, ◌-◌, Bool, true, false, ◌&&◌, ◌||◌, not, Option, none, some, List, [], ◌∷◌, ◌++◌, Text,
  ◌===◌, ◌==◌, ltb, leb, find?, if◌then◌else◌,
}
use agent_fs.Errors.{Result, ok, err, edit_conflict, presence_limit, ◌>>=◌}
use agent_fs.Sql.{update_where, delete_where, count_where}

pub record Session : Type 0 where
  pub state : Text
  pub email : Text
  pub display_name : Option Text
  pub updated_at : ℕ

-- `session_id` is the entry's key in the map
pub record Entry : Type 0 where
  pub session_id : Text
  pub user_id : Text
  pub session : Option Session
  pub last_seen : ℕ
  pub bindings : ℕ

pub data Published : Type 0 where
  nothing : Published
  updated : Session → Published
  left : Text → Published

abbrev pub has_session : Option Session → Bool
has_session none = false
has_session (some s) = true

abbrev pub max_sessions : ℕ
max_sessions = 32

abbrev pub ttl_ms : ℕ
ttl_ms = 45000

abbrev pub is_entry : Text → Entry → Bool
is_entry session_id e = e.session_id === session_id

unfoldable pub entry_of : Text → List Entry → Option Entry
entry_of session_id entries = find? (is_entry session_id) entries

-- the published sessions of a user
abbrev pub publishes : Text → Entry → Bool
publishes user_id e = has_session e.session && e.user_id === user_id

abbrev pub fresh : Text → Text → ℕ → Entry
fresh session_id user_id now = record {
  session_id = session_id;
  user_id = user_id;
  session = none;
  last_seen = now;
  bindings = 0;
}

-- `if (!entry) entries.set(…)`
unfoldable pub ensured : Text → Text → ℕ → List Entry → List Entry
ensured session_id user_id now entries = elim (entry_of session_id entries) [
  | none ↦ entries ++ fresh session_id user_id now ∷ []
  | some e ↦ entries
]

abbrev pub is_owner : Text → Option Entry → Bool
is_owner user_id none = true
is_owner user_id (some e) = e.user_id === user_id

abbrev pub is_published : Option Entry → Bool
is_published none = false
is_published (some e) = has_session e.session

-- A session with this state already is returned as it is; any other gets a new one.
abbrev pub is_same : Text → Option Session → Bool
is_same state none = false
is_same state (some s) = s.state === state

abbrev pub name_of : Option Text → Option Session → Option Text
name_of display_name none = display_name
name_of display_name (some s) = s.display_name

abbrev pub shown : Text → Text → Option Text → ℕ → Entry → Entry
shown state email display_name now e = record e {
  last_seen = now;
  session =
      if is_same state e.session
      then e.session
      else some (record {
        state = state;
        email = email;
        display_name = name_of display_name e.session;
        updated_at = now;
      });
}

abbrev session_of : Option Entry → Option Session
session_of none = none
session_of (some e) = e.session

abbrev news : Option Session → Published
news none = nothing
news (some s) = updated s

unfoldable pub upsert :
    List Entry
    → (session_id user_id email : Text) → Option Text
    → (state : Text) → ℕ
    → Result (List Entry × Published)
upsert entries session_id user_id email display_name state now =
    let entry = entry_of session_id entries in
    let entries' =
      update_where (is_entry session_id) (shown state email display_name now)
        (ensured session_id user_id now entries) in
    if not (is_owner user_id entry)
    then err edit_conflict
    else if not (is_published entry) && leb max_sessions (count_where (publishes user_id) entries)
    then err presence_limit
    else ok (
      entries',
      if is_same state (session_of entry)
          then nothing
          else news (session_of (entry_of session_id entries')),
    )

abbrev pub hidden : Entry → Entry
hidden e = record e { session = none }

abbrev pub departure : Text → Option Session → Published
departure session_id none = nothing
departure session_id (some s) = left session_id

unfoldable pub remove : List Entry → (session_id user_id : Text) → Result (List Entry × Published)
remove entries session_id user_id = elim (entry_of session_id entries) [
  | none ↦ ok (entries, nothing)
  | some e ↦
      if not (e.user_id === user_id)
      then err edit_conflict
      else ok (
        if e.bindings == 0
            then delete_where (is_entry session_id) entries
            else update_where (is_entry session_id) hidden entries,
        departure session_id e.session,
      )
]

abbrev pub more : Entry → Entry
more e = record e { bindings = e.bindings + 1 }

abbrev pub fewer : Entry → Entry
fewer e = record e { bindings = e.bindings - 1 }

unfoldable pub bind : List Entry → (session_id user_id : Text) → ℕ → Result (List Entry)
bind entries session_id user_id now =
    if not (is_owner user_id (entry_of session_id entries))
    then err edit_conflict
    else ok (update_where (is_entry session_id) more (ensured session_id user_id now entries))

abbrev pub has_none : Option Entry → Bool
has_none none = false
has_none (some e) = e.bindings == 0

-- the function that `bind` returns, at its first call
unfoldable pub release : List Entry → (session_id user_id : Text) → Result (List Entry × Published)
release entries session_id user_id =
    let entries' = update_where (is_entry session_id) fewer entries in
    if has_none (entry_of session_id entries')
    then remove entries' session_id user_id
    else ok (entries', nothing)

abbrev pub is_stale : ℕ → Entry → Bool
is_stale now e = has_session e.session && e.bindings == 0 && ltb (e.last_seen + ttl_ms) now

abbrev pub kept : List Entry → Result (List Entry × Published) → List Entry
kept entries (ok r) = r.0
kept entries (err e) = entries

-- The loop of `sweep` over the entries that it visits.
unfoldable pub sweep_from : ℕ → List Entry → List Entry → List Entry
sweep_from now [] entries = entries
sweep_from now (e ∷ visited) entries =
    let removed = sweep_from now visited (kept entries (remove entries e.session_id e.user_id)) in
    let skipped = sweep_from now visited entries in if is_stale now e then removed else skipped

unfoldable pub sweep : ℕ → List Entry → List Entry
sweep now entries = sweep_from now entries entries
