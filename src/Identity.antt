-- ===== src/Identity.antt =====
-- The identity tables (packages/core/src/db/schema.ts, db/raw.ts) and their queries by key
-- (`getUserOrgRole`, `getUserDriveRole` of identity/rbac.ts).
pub mod Rbac
pub mod Context
pub mod Grants
pub mod Members
pub mod Invites
pub mod ApiKeys
use agent_fs.Prelude.{
  ℕ, Bool, true, false, ◌&&◌, Option, none, some, List, Text, ◌===◌, find?, if◌then◌else◌,
}
use mathlib.Core.Option

pub data Role : Type 0 where
  viewer editor admin : Role

-- ROLE_LEVELS
abbrev pub role_level : Role → ℕ
role_level viewer = 0
role_level editor = 1
role_level admin = 2

-- a row of `org_members` (the scope is an org) or of `drive_members` (the scope is a drive)
pub record Member : Type 0 where
  pub scope : Text
  pub user : Text
  pub role : Role

pub record Org : Type 0 where
  pub id : Text
  pub is_personal : Bool

pub record Drive : Type 0 where
  pub id : Text
  pub org_id : Text
  pub is_default : Bool

-- a row of `user_api_keys`; `org_id` is none for a key that reaches the whole account
pub record ApiKey : Type 0 where
  pub id : Text
  pub user : Text
  pub created_by : Text
  pub org_id : Option Text
  pub revoked : Bool

pub record Db : Type 0 where
  pub orgs : List Org
  pub org_members : List Member
  pub drives : List Drive
  pub drive_members : List Member
  pub api_keys : List ApiKey

abbrev pub is_row : Text → Text → Member → Bool
is_row scope user m = m.scope === scope && m.user === user

-- the role of the row with this primary key
unfoldable pub role_of : Text → Text → List Member → Option Role
role_of scope user rows = Option.map (λ m. m.role) (find? (is_row scope user) rows)

unfoldable pub get_user_org_role : Db → Text → Text → Option Role
get_user_org_role db user_id org_id = role_of org_id user_id db.org_members

unfoldable pub get_user_drive_role : Db → Text → Text → Option Role
get_user_drive_role db user_id drive_id = role_of drive_id user_id db.drive_members

unfoldable pub find_drive : Db → Text → Option Drive
find_drive db drive_id = find? (λ d. d.id === drive_id) db.drives

-- `role === "admin"` on a role that may be null
abbrev pub is_admin : Option Role → Bool
is_admin none = false
is_admin (some viewer) = false
is_admin (some editor) = false
is_admin (some admin) = true
