-- ===== src/Identity/Grants.antt =====
-- packages/core/src/identity/grants.ts, over either membership table, and `setDriveMember` of
-- identity/drives.ts.
pub mod Laws
use agent_fs.Prelude.{
  Bool, true, false, ◌||◌, not, Option, none, some, List, [], ◌∷◌, ◌++◌, Text, any, if◌then◌else◌,
}
use agent_fs.Sql.{update_where}
use agent_fs.Identity.{Role, viewer, editor, admin, Member, Db, is_row, role_of}

-- the CASE expression of `higherRole`
unfoldable pub higher_role : Role → Role → Role
higher_role admin incoming = admin
higher_role editor admin = admin
higher_role editor incoming = editor
higher_role viewer admin = admin
higher_role viewer editor = editor
higher_role viewer viewer = viewer

-- INSERT … ON CONFLICT (scope, user) DO UPDATE SET role = f(role)
unfoldable pub upsert : (Role → Role) → Role → Text → Text → List Member → List Member
upsert f role scope user rows =
    if any (is_row scope user) rows
    then update_where (is_row scope user) (λ m. record m { role = f m.role }) rows
    else rows ++ record { scope = scope; user = user; role = role } ∷ []

-- the upsert of `grantOrgRole` and `grantDriveRole`
unfoldable pub grant : Text → Text → Role → List Member → List Member
grant scope user role = upsert (λ stored. higher_role stored role) role scope user

-- its RETURNING clause: the role that the row ends up with
unfoldable pub granted : Option Role → Role → Role
granted none role = role
granted (some stored) role = higher_role stored role

unfoldable pub grant_org_role : Db → Text → Text → Role → Db × Role
grant_org_role db org_id user_id role = (
  record db { org_members = grant org_id user_id role db.org_members },
  granted (role_of org_id user_id db.org_members) role,
)

abbrev is_new : Option Role → Bool
is_new none = true
is_new (some stored) = false

-- The flag is `created`: the user was not on the drive.
unfoldable pub grant_drive_role : Db → Text → Text → Role → Db × Role × Bool
grant_drive_role db drive_id user_id role = (
  record db { drive_members = grant drive_id user_id role db.drive_members },
  granted (role_of drive_id user_id db.drive_members) role,
  is_new (role_of drive_id user_id db.drive_members),
)

unfoldable pub set_drive_member : Db → Text → Text → Role → Db
set_drive_member db drive_id user_id role = record db {
  drive_members = upsert (λ stored. role) role drive_id user_id db.drive_members;
}
