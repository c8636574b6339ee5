-- ===== src/Identity/Rbac/Laws.antt =====
-- What the role checks let through, and with which error they refuse.
use agent_fs.Prelude.{◌≡◌, ◌↔◌, ◌⊎◌, ◌≤◌, Option, some, Text, arith, Option-cases, inl, inr}
use agent_fs.Errors.{ok}
use agent_fs.Identity.{
  Role, admin, role_level, Db, Drive, get_user_org_role, get_user_drive_role, find_drive,
}
use agent_fs.Identity.Rbac.{require_role, require_drive_role, require_drive_admin}

require_role_iff :
    (held : Option Role) (required role : Role)
    → (require_role held required ≡ ok role)
      ↔ ((held ≡ some role) × (role_level required ≤ role_level role))
unfolding require_role
require_role_iff held required role = (λ h. ground arith, λ (e, l). ground arith)

-- A drive role check returns the caller's own role on the drive exactly when the caller has one
-- there that is at least the required one.
pub require_drive_role_iff :
    (db : Db) (user_id drive_id : Text) (required role : Role)
    → (require_drive_role db user_id drive_id required ≡ ok role) ↔ (
        (get_user_drive_role db user_id drive_id ≡ some role)
        × (role_level required ≤ role_level role))
unfolding require_drive_role
require_drive_role_iff db user_id drive_id required role =
    require_role_iff (get_user_drive_role db user_id drive_id) required role

-- The drive exists, and the caller is an admin of it or of the org that owns it.
pub record IsDriveAdmin (db : Db) (user_id drive_id : Text) : Type 0 where
  pub drive : Drive
  pub found : find_drive db drive_id ≡ some drive
  pub holds :
      (get_user_drive_role db user_id drive_id ≡ some admin)
      ⊎ (get_user_org_role db user_id drive.org_id ≡ some admin)

-- The drive administration check passes exactly for the admins of the drive and of its org, and
-- then always returns the admin role.
pub require_drive_admin_iff :
    (db : Db) (user_id drive_id : Text) (role : Role)
    → (require_drive_admin db user_id drive_id ≡ ok role)
      ↔ (IsDriveAdmin db user_id drive_id × (role ≡ admin))
unfolding require_drive_admin
require_drive_admin_iff db user_id drive_id role = elim (Option-cases (find_drive db drive_id)) [
  | inl missing ↦ (λ h. ground arith, λ (a, e). cc (missing, a.found))
  | inr (drive, found) ↦ (
    λ h. (record { drive = drive; found = found; holds = ground arith }, ground arith),
    λ (a, e). ground (arith, a.found, a.holds),
  )
]
