-- ===== src/Identity/Rbac.antt =====
-- packages/core/src/identity/rbac.ts
pub mod Laws
use agent_fs.Prelude.{
  Bool, true, false, Option, none, some, List, [], ◌∷◌, Text, text, ◌===◌, ltb, leb, find?,
  if◌then◌else◌,
}
use agent_fs.Errors.{Result, ok, err, not_found, permission_denied}
use agent_fs.Identity.{
  Role, viewer, editor, admin, role_level, is_admin, Db, Drive, get_user_org_role,
  get_user_drive_role, find_drive,
}

-- OP_ROLES
abbrev op_roles : List (Text × Role)
op_roles =
    (text "ls", viewer)
    ∷ (text "cat", viewer)
    ∷ (text "tail", viewer)
    ∷ (text "stat", viewer)
    ∷ (text "reveal", viewer)
    ∷ (text "grep", viewer)
    ∷ (text "fts", viewer)
    ∷ (text "search", viewer)
    ∷ (text "vec-search", viewer)
    ∷ (text "log", viewer)
    ∷ (text "diff", viewer)
    ∷ (text "recent", viewer)
    ∷ (text "tree", viewer)
    ∷ (text "glob", viewer)
    ∷ (text "find", viewer)
    ∷ (text "sql", viewer)
    ∷ (text "signed-url", viewer)
    ∷ (text "share-create", viewer)
    ∷ (text "share-revoke", viewer)
    ∷ (text "share-list", viewer)
    ∷ (text "write", editor)
    ∷ (text "edit", editor)
    ∷ (text "append", editor)
    ∷ (text "rm", editor)
    ∷ (text "mv", editor)
    ∷ (text "cp", editor)
    ∷ (text "revert", editor)
    ∷ (text "reindex", admin)
    ∷ (text "comment-add", editor)
    ∷ (text "comment-list", viewer)
    ∷ (text "comment-get", viewer)
    ∷ (text "comment-notification-list", viewer)
    ∷ (text "comment-notification-read", viewer)
    ∷ (text "drive-members", viewer)
    ∷ (text "favorite-add", viewer)
    ∷ (text "favorite-remove", viewer)
    ∷ (text "favorite-list", viewer)
    ∷ (text "comment-update", editor)
    ∷ (text "comment-delete", editor)
    ∷ (text "comment-resolve", editor)
    ∷ (text "webhook-create", viewer)
    ∷ (text "webhook-list", viewer)
    ∷ (text "webhook-update", viewer)
    ∷ (text "webhook-delete", viewer)
    ∷ (text "webhook-test", viewer)
    ∷ (text "webhook-deliveries", viewer)
    ∷ (text "webhook-redeliver", viewer)
    ∷ []

role_in : Text → List (Text × Role) → Option Role
role_in op [] = none
role_in op ((name, role) ∷ table) = if name === op then some role else role_in op table

unfoldable pub get_required_role : Text → Role
unfolding role_in
get_required_role op = elim (role_in op op_roles) [ none ↦ admin | some role ↦ role ]

unfoldable pub role_at_least : Option Role → Role → Bool
role_at_least none required = false
role_at_least (some role) required = leb (role_level required) (role_level role)

-- the two checks that `requireDriveRole` and `requireOrgRole` make on the role they looked up
unfoldable pub require_role : Option Role → Role → Result Role
require_role none required = err permission_denied
require_role (some role) required =
    if ltb (role_level role) (role_level required) then err permission_denied else ok role

unfoldable pub require_drive_role : Db → Text → Text → Role → Result Role
require_drive_role db user_id drive_id required =
    require_role (get_user_drive_role db user_id drive_id) required

unfoldable pub require_org_role : Db → Text → Text → Role → Result Role
require_org_role db user_id org_id required =
    require_role (get_user_org_role db user_id org_id) required

unfoldable pub require_drive_admin : Db → Text → Text → Result Role
require_drive_admin db user_id drive_id = elim (find_drive db drive_id) [
  | none ↦ err not_found
  | some drive ↦
      if is_admin (get_user_drive_role db user_id drive_id)
      then ok admin
      else if is_admin (get_user_org_role db user_id drive.org_id)
      then ok admin
      else err permission_denied
]

unfoldable pub assert_drive_in_org : Db → Text → Text → Result Drive
assert_drive_in_org db drive_id org_id = elim (find_drive db drive_id) [
  | none ↦ err not_found
  | some drive ↦ if drive.org_id === org_id then ok drive else err not_found
]
