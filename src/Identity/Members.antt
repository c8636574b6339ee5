-- ===== src/Identity/Members.antt =====
-- The membership operations of packages/core/src/identity/orgs.ts and identity/drives.ts, and
-- `revokeGrantedKeys` of identity/api-keys.ts. An operation that throws leaves the tables as they
-- were: it throws before its first write, so a refusal is `err` and carries no table.
-- `updateOrgMemberRole` counts the admins before its transaction; it is one step here, as it runs
-- unbroken in one process.
pub mod Rows
pub mod Admins
pub mod Changes
pub mod History
mod Tests
use agent_fs.Prelude.{
  ℕ, Bool, true, false, ◌&&◌, ◌||◌, not, Option, none, some, List, [], ◌∷◌, ◌++◌, Text, text, ◌===◌,
  leb, map, keep_if, length, find?, any, if◌then◌else◌,
}
use agent_fs.Errors.{Result, ok, err, validation, plain, ◌>>◌}
use agent_fs.Sql.{update_where, delete_where, count_where}
use agent_fs.Identity.{Role, admin, is_admin, Member, Org, Drive, ApiKey, Db, is_row, role_of}

pub data Reason : Type 0 where
  member_left_org admin_demoted : Text → Text → Reason
  self_reset : Text → Reason

-- `orgId = …` on a column that may be NULL
abbrev is_org : Text → Option Text → Bool
is_org org_id none = false
is_org org_id (some o) = o === org_id

abbrev is_scoped : Option Text → Bool
is_scoped none = false
is_scoped (some o) = true

abbrev pub backed_by : Reason → ApiKey → Bool
backed_by (member_left_org org_id user_id) k =
    is_org org_id k.org_id && (k.user === user_id || k.created_by === user_id)
backed_by (admin_demoted org_id user_id) k =
    is_org org_id k.org_id && k.created_by === user_id && not (k.user === user_id)
backed_by (self_reset user_id) k = k.user === user_id && is_scoped k.org_id

unfoldable pub revoke_granted_keys : Reason → Db → Db
revoke_granted_keys reason db = record db {
  api_keys =
      update_where (λ k. backed_by reason k && not k.revoked) (λ k. record k { revoked = true })
        db.api_keys;
}

abbrev pub is_admin_of : Text → Member → Bool
is_admin_of scope m = m.scope === scope && is_admin (some m.role)

abbrev pub set_role : Text → Text → Role → List Member → List Member
set_role scope user role rows =
    update_where (is_row scope user) (λ m. record m { role = role }) rows

-- `existing.role === "admin" && params.role !== "admin"`
abbrev pub is_demotion : Role → Role → Bool
is_demotion existing role = is_admin (some existing) && not (is_admin (some role))

unfoldable pub update_org_member_role : Db → Text → Text → Role → Result Db
update_org_member_role db org_id user_id role = elim (role_of org_id user_id db.org_members) [
  | none ↦ err plain
  | some existing ↦
      if is_demotion existing role && leb (count_where (is_admin_of org_id) db.org_members) 1
      then err plain
      else (let db' : Db = record db {
        org_members = set_role org_id user_id role db.org_members;
      } in
          ok (
            if is_demotion existing role
            then revoke_granted_keys (admin_demoted org_id user_id) db'
            else db'))
]

-- `admins.length === 1 && admins[0].userId === params.userId`
abbrev is_only : Text → List Member → Bool
is_only user_id [] = false
is_only user_id (m ∷ []) = m.user === user_id
is_only user_id (m ∷ n ∷ rows) = false

-- `findSoleAdminDrives`: the ids of the drives that block
abbrev pub is_sole_admin : List Member → Text → Text → Bool
is_sole_admin rows user_id drive_id = is_only user_id (keep_if (is_admin_of drive_id) rows)

unfoldable pub find_sole_admin_drives : List Member → Text → List Text → List Text
find_sole_admin_drives rows user_id drive_ids = keep_if (is_sole_admin rows user_id) drive_ids

abbrev is_personal_org : Option Org → Bool
is_personal_org none = false
is_personal_org (some o) = o.is_personal

abbrev is_empty {ℓ} : {A : Type ℓ} → List A → Bool
is_empty [] = true
is_empty (x ∷ xs) = false

abbrev pub org_drives : Db → Text → List Text
org_drives db org_id = map (λ (d : Drive). d.id) (keep_if (λ d. d.org_id === org_id) db.drives)

-- the loop that deletes the member's row in every drive of the org
pub delete_from_drives : Text → List Text → List Member → List Member
delete_from_drives user_id [] rows = rows
delete_from_drives user_id (d ∷ drives) rows =
    delete_from_drives user_id drives (delete_where (is_row d user_id) rows)

-- What `removeOrgMember` writes once its guards have passed.
unfoldable pub remove_everywhere : Db → Text → Text → Db
unfolding delete_from_drives
remove_everywhere db org_id user_id =
    revoke_granted_keys (member_left_org org_id user_id) (record db {
      org_members = delete_where (is_row org_id user_id) db.org_members;
      drive_members = delete_from_drives user_id (org_drives db org_id) db.drive_members;
    })

unfoldable pub remove_org_member : Db → Text → Text → Result Db
remove_org_member db org_id user_id =
    if is_personal_org (find? (λ o. o.id === org_id) db.orgs)
    then err plain
    else (elim (role_of org_id user_id db.org_members) [
      | none ↦ err plain
      | some existing ↦
          if is_admin (some existing) && leb (count_where (is_admin_of org_id) db.org_members) 1
          then err plain
          else if is_empty (find_sole_admin_drives db.drive_members user_id (org_drives db org_id))
          then ok (remove_everywhere db org_id user_id)
          else err validation
    ])

-- `assertNotLastDriveAdmin`
unfoldable pub assert_not_last_drive_admin : List Member → Text → Text → Result (Unit {0})
assert_not_last_drive_admin rows drive_id user_id =
    if is_empty (find_sole_admin_drives rows user_id (drive_id ∷ [])) then ok tt else err validation

-- `if (test) check(); write()`
abbrev guarded : Bool → Result (Unit {0}) → Db → Result Db
guarded test check db = if test then (check >> ok db) else ok db

unfoldable pub update_drive_member_role : Db → Text → Text → Role → Result Db
update_drive_member_role db drive_id user_id role =
    elim (role_of drive_id user_id db.drive_members) [
      | none ↦ err plain
      | some existing ↦
          guarded (is_demotion existing role)
            (assert_not_last_drive_admin db.drive_members drive_id user_id)
            (record db { drive_members = set_role drive_id user_id role db.drive_members })
    ]

unfoldable pub remove_drive_member : Db → Text → Text → Result Db
remove_drive_member db drive_id user_id = elim (role_of drive_id user_id db.drive_members) [
  | none ↦ err plain
  | some existing ↦
      guarded (is_admin (some existing))
        (assert_not_last_drive_admin db.drive_members drive_id user_id)
        (record db { drive_members = delete_where (is_row drive_id user_id) db.drive_members })
]

-- `createDrive` and `createOrg` with the UUIDs that they draw
unfoldable pub create_drive : Db → Text → Text → Bool → Option Text → Db
create_drive db id org_id is_default creator = record db {
  drives = db.drives ++ record { id = id; org_id = org_id; is_default = is_default } ∷ [];
  drive_members = elim creator [
    | none ↦ db.drive_members
    | some user_id ↦ db.drive_members ++ record { scope = id; user = user_id; role = admin } ∷ []
  ];
}

unfoldable pub create_org : Db → Text → Text → Text → Bool → Db
create_org db id drive_id user_id is_personal =
    create_drive
      (record db {
        orgs = db.orgs ++ record { id = id; is_personal = is_personal } ∷ [];
        org_members = db.org_members ++ record { scope = id; user = user_id; role = admin } ∷ [];
      })
      drive_id id true (some user_id)
