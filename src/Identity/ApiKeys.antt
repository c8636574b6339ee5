-- ===== src/Identity/ApiKeys.antt =====
-- packages/core/src/identity/api-keys.ts, and the keys of identity/users.ts. A row of `user_api_keys`
-- is a row of Identity with the digest of the key and the time of its last use. The ids and keys that
-- the code draws, the digest and the clock are arguments. Audit events are not modelled.
pub mod Dead
pub mod Revoked
mod Tests
use agent_fs.Prelude.{
  trim, ℕ, ◌+◌, ◌-◌, ◌*◌, ◌/◌, Bool, true, false, ◌&&◌, not, Option, none, some, List, [], ◌∷◌,
  ◌++◌, Text, text, ◌===◌, starts_with, leb, ltb, ◌||◌, length, any, find?, if◌then◌else◌,
}
use agent_fs.Errors.{Result, ok, err, not_found, permission_denied, validation, ◌>>=◌}
use agent_fs.Sql.{update_where}
use agent_fs.Identity.{ApiKey}
use agent_fs.Identity.Members.{Reason, self_reset, backed_by}

-- a row of `users`
pub record Account : Type 0 where
  pub id : Text
  pub email : Text
  pub api_key_hash : Text

pub record KeyRow : Type 0 where
  pub key : ApiKey
  pub key_hash : Text
  pub label : Text
  pub last_used_at : Option ℕ

pub record KeyDb : Type 0 where
  pub users : List Account
  pub keys : List KeyRow

-- PRIMARY_API_KEY_ID and REVOKED_PRIMARY_PREFIX
abbrev pub primary_api_key_id : Text
primary_api_key_id = text "primary"

abbrev pub revoked_primary_prefix : Text
revoked_primary_prefix = text "revoked:"

-- whose key it is: `getUserByApiKey`
pub record Authenticated : Type 0 where
  pub id : Text
  pub email : Text
  pub scope_org_id : Option Text
  pub key_id : Text

abbrev pub has_hash : Text → Account → Bool
has_hash h u = u.api_key_hash === h

abbrev pub is_account : Text → Account → Bool
is_account id u = u.id === id

-- a key that is not revoked, joined with its user
abbrev pub is_live : Text → List Account → KeyRow → Bool
is_live h users k = k.key_hash === h && (not k.key.revoked && any (is_account k.key.user) users)

abbrev email_of : Option Account → Text
email_of none = []
email_of (some u) = u.email

-- the row of the primary key, and the row of another key
abbrev pub as_primary : Account → Authenticated
as_primary u = record {
  id = u.id;
  email = u.email;
  scope_org_id = none;
  key_id = primary_api_key_id;
}

abbrev pub as_holder : List Account → KeyRow → Authenticated
as_holder users k = record {
  id = k.key.user;
  email = email_of (find? (is_account k.key.user) users);
  scope_org_id = k.key.org_id;
  key_id = k.key.id;
}

abbrev pub held_by : List Account → Option KeyRow → Option Authenticated
held_by users none = none
held_by users (some k) = some (as_holder users k)

-- the first of the two probes that finds a row
abbrev pub by_hash : KeyDb → Text → Option Authenticated
by_hash db h = elim (find? (has_hash h) db.users) [
  | some u ↦ some (as_primary u)
  | none ↦ held_by db.users (find? (is_live h db.users) db.keys)
]

-- API_KEY_LAST_USED_THROTTLE_SECONDS; times are in seconds
abbrev pub api_key_last_used_throttle_seconds : ℕ
api_key_last_used_throttle_seconds = 60

abbrev pub is_stale : ℕ → Option ℕ → Bool
is_stale now none = true
is_stale now (some used) = leb (used + api_key_last_used_throttle_seconds) now

abbrev pub is_key_id : Text → KeyRow → Bool
is_key_id id k = k.key.id === id

abbrev pub touch : KeyDb → Option KeyRow → ℕ → KeyDb
touch db none now = db
touch db (some k) now =
    if is_stale now k.last_used_at
    then record db {
      keys = update_where (is_key_id k.key.id) (λ r. record r { last_used_at = some now }) db.keys;
    }
    else db

abbrev touched_if : KeyDb → Text → ℕ → Option Account → KeyDb
touched_if db h now none = touch db (find? (is_live h db.users) db.keys) now
touched_if db h now (some u) = db

unfoldable pub get_user_by_api_key : (Text → Text) → KeyDb → Text → ℕ → KeyDb × Option Authenticated
get_user_by_api_key hash db key now =
    (touched_if db (hash key) now (find? (has_hash (hash key)) db.users), by_hash db (hash key))

-- API_KEY_LABEL_MAX
abbrev pub api_key_label_max : ℕ
api_key_label_max = 100

-- a label, `none` where the input is no string
abbrev label_of : Option Text → Text
label_of none = []
label_of (some s) = trim s

unfoldable pub parse_api_key_label : Option Text → Result Text
parse_api_key_label input =
    if label_of input === [] || ltb api_key_label_max (length (label_of input))
    then err validation
    else ok (label_of input)

-- what a new key draws: its id, and the digest of the key
pub record Fresh : Type 0 where
  pub id : Text
  pub key_hash : Text

abbrev pub new_key : Text → Text → Option Text → Text → Fresh → KeyRow
new_key user_id actor_id scope_org_id label fresh = record {
  key = record {
    id = fresh.id;
    user = user_id;
    created_by = actor_id;
    org_id = scope_org_id;
    revoked = false;
  };
  key_hash = fresh.key_hash;
  label = label;
  last_used_at = none;
}

unfoldable pub create_user_api_key :
    KeyDb → Text → Option Text → Text → Option Text → Fresh → Result KeyDb
create_user_api_key db user_id label actor_id scope_org_id fresh =
    parse_api_key_label label >>= (λ text.
      if any (is_account user_id) db.users
      then ok
          (record db { keys = db.keys ++ new_key user_id actor_id scope_org_id text fresh ∷ [] })
      else err not_found)

abbrev is_org : Text → Option Text → Bool
is_org org_id none = false
is_org org_id (some o) = o === org_id

abbrev pub revoke_row : KeyRow → KeyRow
revoke_row k = record k { key = record k.key { revoked = true } }

abbrev pub is_scoped_key : Text → Text → KeyRow → Bool
is_scoped_key user_id org_id k =
    k.key.user === user_id && (is_org org_id k.key.org_id && not k.key.revoked)

unfoldable pub reset_org_scoped_key : KeyDb → Text → Text → Text → Fresh → Result KeyDb
reset_org_scoped_key db user_id actor_id org_id fresh =
    if any (is_account user_id) db.users
    then ok (record db {
      keys =
          update_where (is_scoped_key user_id org_id) revoke_row db.keys
          ++ new_key user_id actor_id (some org_id) (text "Reset by an org admin") fresh ∷ [];
    })
    else err not_found

abbrev pub set_hash : Text → Account → Account
set_hash h u = record u { api_key_hash = h }

-- `revokeGrantedKeys` on these rows
unfoldable pub revoke_granted : Reason → List KeyRow → List KeyRow
revoke_granted reason keys =
    update_where (λ k. backed_by reason k.key && not k.key.revoked) revoke_row keys

-- what `resetApiKey` and `resetApiKeyOrgless` write
unfoldable pub reset_api_key_orgless : KeyDb → Text → Text → KeyDb
reset_api_key_orgless db user_id new_hash = record {
  users = update_where (is_account user_id) (set_hash new_hash) db.users;
  keys = revoke_granted (self_reset user_id) db.keys;
}

unfoldable pub reset_api_key : KeyDb → Text → Text → Text → Result KeyDb
reset_api_key db user_id actor_id new_hash =
    if not (actor_id === user_id)
    then err permission_denied
    else if any (is_account user_id) db.users
    then ok (reset_api_key_orgless db user_id new_hash)
    else err not_found

abbrev pub has_primary : Option Account → Bool
has_primary none = false
has_primary (some u) = not (starts_with u.api_key_hash revoked_primary_prefix)

abbrev pub is_revocable : Text → Text → KeyRow → Bool
is_revocable id user_id k = k.key.id === id && (k.key.user === user_id && not k.key.revoked)

-- `uuid` is drawn for the hash that no key has.
unfoldable pub revoke_user_api_key : KeyDb → Text → Text → Text → Result KeyDb
revoke_user_api_key db user_id key_id uuid =
    if key_id === primary_api_key_id
    then if has_primary (find? (is_account user_id) db.users)
      then ok (record db {
        users =
            update_where (is_account user_id) (set_hash (revoked_primary_prefix ++ uuid)) db.users;
      })
      else err not_found
    else if any (is_revocable key_id user_id) db.keys
    then ok (record db { keys = update_where (is_revocable key_id user_id) revoke_row db.keys })
    else err not_found
