-- ===== src/Identity/Invites.antt =====
-- packages/core/src/identity/invites.ts, `inviteToOrg` of identity/orgs.ts, and `resolveUserByEmail`
-- of identity/users.ts. The ids and tokens that the code draws, the digest of a token and the clock
-- are arguments. Emails are ASCII, for which SQLite's `lower` and `toLowerCase` agree. An operation
-- that throws leaves the tables as they were: its transaction is rolled back.
pub mod Closed
pub mod Once
pub mod Accepted
mod Tests
use agent_fs.Prelude.{
  trim, ℕ, ◌+◌, ◌*◌, ◌/◌, Bool, true, false, ◌&&◌, ◌||◌, not, Option, none, some, List, [], ◌∷◌,
  ◌++◌, Text, ◌===◌, ◌==◌, leb, all, any, find?, keep_if, map, reverse, length, if◌then◌else◌,
}
use agent_fs.Errors.{Result, ok, err, not_found, permission_denied, validation, ◌>>=◌, ◌>>◌}
use agent_fs.Sql.{update_where}
use agent_fs.Identity.{Role, Drive, Db, get_user_org_role}
use agent_fs.Identity.Rbac.{assert_drive_in_org}
use agent_fs.Identity.Grants.{grant_org_role, grant_drive_role}

pub record User : Type 0 where
  pub id : Text
  pub email : Text

pub record DriveGrant : Type 0 where
  pub drive_id : Text
  pub role : Role

-- a row of `org_invites`
pub record Invite : Type 0 where
  pub id : Text
  pub org_id : Text
  pub email : Text
  pub org_role : Role
  pub drives : List DriveGrant
  pub token_hash : Text
  pub created_by : Text
  pub created_at : ℕ
  pub expires_at : ℕ
  pub accepted_at : Option ℕ
  pub accepted_by : Option Text
  pub revoked_at : Option ℕ

pub record InviteDb : Type 0 where
  pub identity : Db
  pub users : List User
  pub invites : List Invite

-- seven days, in seconds
abbrev pub invite_ttl_seconds : ℕ
invite_ttl_seconds = 604800

abbrev is_null {ℓ} : {A : Type ℓ} → Option A → Bool
is_null none = true
is_null (some a) = false

-- A time column keeps whole seconds.
abbrev pub in_seconds : ℕ → ℕ
in_seconds now = now / 1000 * 1000

-- `isOpen`; an expired invite is open too
abbrev pub is_open : Invite → Bool
is_open r = is_null r.accepted_at && is_null r.revoked_at

abbrev lower : Text → Text
lower s = map (λ c. if leb b'A' c && leb c b'Z' then c + 32 else c) s

unfoldable pub normalize_invite_email : Text → Text
normalize_invite_email email = lower (trim email)

pub data Lookup : Type 0 where
  found : User → Lookup
  no_user ambiguous : Lookup

abbrev pub by_candidates : List User → Lookup
by_candidates [] = no_user
by_candidates (u ∷ []) = found u
by_candidates (u ∷ v ∷ rest) = ambiguous

unfoldable pub resolve_user_by_email : List User → Text → Lookup
resolve_user_by_email users email = elim (find? (λ u. u.email === trim email) users) [
  | some u ↦ found u
  | none ↦ by_candidates (keep_if (λ u. lower u.email === lower (trim email)) users)
]

-- TOKEN_RE
abbrev is_token_unit : ℕ → Bool
is_token_unit c =
    (leb b'A' c && leb c b'Z')
    || (leb b'a' c && leb c b'z')
    || (leb b'0' c && leb c b'9')
    || c == b'_'
    || c == b'-'

unfoldable pub is_token : Text → Bool
is_token token = length token == 43 && all is_token_unit token

abbrev pub by_token : Text → Invite → Bool
by_token hash r = r.token_hash === hash && is_open r

abbrev unless_expired : ℕ → Option Invite → Option Invite
unless_expired now none = none
unless_expired now (some r) = if leb r.expires_at now then none else some r

unfoldable pub get_invite_by_token : (Text → Text) → InviteDb → Text → ℕ → Option Invite
get_invite_by_token hash db token now =
    if is_token token then unless_expired now (find? (by_token (hash token)) db.invites) else none

abbrev pub revoked : ℕ → Invite → Invite
revoked now r = record r { revoked_at = some (in_seconds now) }

abbrev pub is_open_for : Text → Text → Invite → Bool
is_open_for org_id email r =
    r.org_id === org_id && (r.email === normalize_invite_email email && is_open r)

unfoldable pub revoke_open_invite_for_email : InviteDb → Text → Text → ℕ → InviteDb
revoke_open_invite_for_email db org_id email now = record db {
  invites = update_where (is_open_for org_id email) (revoked now) db.invites;
}

pub record InviteParams : Type 0 where
  pub org_id : Text
  pub email : Text
  pub role : Role
  pub drives : Option (List DriveGrant)
  pub invited_by : Option Text

-- what a new invite draws: its id, and the digest of its token
pub record Fresh : Type 0 where
  pub id : Text
  pub token_hash : Text

abbrev pub new_invite : InviteParams → List DriveGrant → Text → Fresh → ℕ → Invite
new_invite params drives invited_by fresh now = record {
  id = fresh.id;
  org_id = params.org_id;
  email = normalize_invite_email params.email;
  org_role = params.role;
  drives = drives;
  token_hash = fresh.token_hash;
  created_by = invited_by;
  created_at = in_seconds now;
  expires_at = in_seconds (now + invite_ttl_seconds * 1000);
  accepted_at = none;
  accepted_by = none;
  revoked_at = none;
}

unfoldable pub create_pending_invite :
    InviteDb → InviteParams → List DriveGrant → Text → Fresh → ℕ → InviteDb
create_pending_invite db params drives invited_by fresh now =
    let db1 =
      revoke_open_invite_for_email db params.org_id (normalize_invite_email params.email) now in
    record db1 { invites = db1.invites ++ new_invite params drives invited_by fresh now ∷ [] }

-- the drives of the grants that still exist in the org
abbrev pub drive_exists : Db → Text → DriveGrant → Bool
drive_exists db org_id g = any (λ d. d.org_id === org_id && d.id === g.drive_id) db.drives

unfoldable pub grant_drives : Db → Text → List DriveGrant → Db
grant_drives db user_id [] = db
grant_drives db user_id (g ∷ grants) =
    grant_drives (grant_drive_role db g.drive_id user_id g.role).0 user_id grants

abbrev pub accepted : Text → ℕ → Invite → Invite
accepted user_id now r = record r {
  accepted_at = some (in_seconds now);
  accepted_by = some user_id;
}

abbrev pub is_open_id : Text → Invite → Bool
is_open_id id r = r.id === id && is_open r

abbrev pub is_user : Text → Lookup → Result (Unit {0})
is_user user_id (found u) = if u.id === user_id then ok tt else err permission_denied
is_user user_id no_user = err permission_denied
is_user user_id ambiguous = err validation

-- the transaction of an accept
abbrev pub consumed : InviteDb → Invite → Text → ℕ → InviteDb
consumed db invite user_id now = record {
  identity =
      grant_drives (grant_org_role db.identity invite.org_id user_id invite.org_role).0 user_id
        (keep_if (drive_exists db.identity invite.org_id) invite.drives);
  users = db.users;
  invites = update_where (is_open_id invite.id) (accepted user_id now) db.invites;
}

abbrev pub accept_found : InviteDb → Option Invite → Text → ℕ → Result InviteDb
accept_found db none user_id now = err not_found
accept_found db (some invite) user_id now =
    is_user user_id (resolve_user_by_email db.users invite.email)
    >> (if any (is_open_id invite.id) db.invites
        then ok (consumed db invite user_id now)
        else err not_found)

unfoldable pub accept_invite : (Text → Text) → InviteDb → Text → Text → ℕ → Result InviteDb
accept_invite hash db token user_id now =
    accept_found db (get_invite_by_token hash db token now) user_id now

abbrev pub is_open_of : Text → Text → Invite → Bool
is_open_of org_id id r = r.id === id && (r.org_id === org_id && is_open r)

unfoldable pub revoke_invite : InviteDb → Text → Text → ℕ → Result InviteDb
revoke_invite db org_id invite_id now =
    if any (is_open_of org_id invite_id) db.invites
    then ok (record db {
      invites = update_where (is_open_of org_id invite_id) (revoked now) db.invites;
    })
    else err not_found

abbrev check_drives : Db → Text → List DriveGrant → Result (Unit {0})
check_drives db org_id [] = ok tt
check_drives db org_id (g ∷ grants) =
    assert_drive_in_org db g.drive_id org_id >> check_drives db org_id grants

-- `new Map(…)`: a drive keeps its first place and takes its last role
abbrev set_grant : DriveGrant → List DriveGrant → List DriveGrant
set_grant g [] = g ∷ []
set_grant g (x ∷ grants) =
    let rest = set_grant g grants in if x.drive_id === g.drive_id then g ∷ grants else x ∷ rest

abbrev dedupe : List DriveGrant → List DriveGrant → List DriveGrant
dedupe out [] = out
dedupe out (g ∷ grants) = dedupe (set_grant g out) grants

abbrev default_grant : Role → Option Drive → List DriveGrant
default_grant role none = []
default_grant role (some d) = record { drive_id = d.id; role = role } ∷ []

unfoldable pub resolve_invite_grants :
    Db → Text → Role → Option (List DriveGrant) → Result (List DriveGrant)
resolve_invite_grants db org_id role none =
    ok (default_grant role (find? (λ d. d.org_id === org_id && d.is_default) db.drives))
resolve_invite_grants db org_id role (some drives) =
    check_drives db org_id drives >> ok (dedupe [] drives)

-- the direct add of an account that is a member, or that no admin invites
abbrev pub add_at_once : InviteDb → InviteParams → List DriveGrant → User → ℕ → InviteDb
add_at_once db params grants user now =
    revoke_open_invite_for_email
      (record db {
        identity =
            grant_drives (grant_org_role db.identity params.org_id user.id params.role).0 user.id
              grants;
      })
      params.org_id user.email now

abbrev is_member : Db → Text → Text → Bool
is_member db user_id org_id = not (is_null (get_user_org_role db user_id org_id))

abbrev pub invite_account :
    InviteDb → InviteParams → List DriveGrant → Option User → Fresh → ℕ → Result InviteDb
invite_account db params grants none fresh now = elim params.invited_by [
  | none ↦ err not_found
  | some admin_id ↦ ok (create_pending_invite db params grants admin_id fresh now)
]
invite_account db params grants (some user) fresh now = elim params.invited_by [
  | none ↦ ok (add_at_once db params grants user now)
  | some admin_id ↦
      if is_member db.identity user.id params.org_id
      then ok (add_at_once db params grants user now)
      else ok (create_pending_invite db params grants admin_id fresh now)
]

abbrev looked_up : Lookup → Option Text → Result (Option User)
looked_up (found u) invited_by = ok (some u)
looked_up no_user invited_by = if is_null invited_by then err not_found else ok none
looked_up ambiguous invited_by = err validation

unfoldable pub invite_to_org : InviteDb → InviteParams → Fresh → ℕ → Result InviteDb
invite_to_org db params fresh now =
    looked_up (resolve_user_by_email db.users params.email) params.invited_by >>= λ user.
    resolve_invite_grants db.identity params.org_id params.role params.drives >>= λ grants.
    invite_account db params grants user fresh now
