-- ===== src/Identity/Context.antt =====
-- packages/core/src/identity/context.ts
pub mod Laws
mod Tests
use agent_fs.Prelude.{
  Bool, true, false, not, ◌&&◌, Option, none, some, [], ◌∷◌, Text, ◌===◌, find?, any, if◌then◌else◌,
}
use agent_fs.Errors.{Result, ok, err, not_found, plain}
use agent_fs.Identity.{Role, Db, Drive, Member, get_user_drive_role, find_drive}

pub record ResolvedContext : Type 0 where
  pub org_id : Text
  pub drive_id : Text
  pub role : Role

-- A string of the parameters counts only if it is there and not empty.
abbrev pub given : Option Text → Option Text
given none = none
given (some []) = none
given (some (c ∷ s)) = some (c ∷ s)

-- `params.orgId && drive.orgId !== params.orgId`
abbrev pub is_other_org : Option Text → Drive → Bool
is_other_org none drive = false
is_other_org (some org_id) drive = not (drive.org_id === org_id)

pub find_default_drive : Db → Text → Option Drive
find_default_drive db org_id = find? (λ d. d.org_id === org_id && d.is_default) db.drives

-- the first membership of the user in a personal org
pub find_personal_org : Db → Text → Option Member
find_personal_org db user_id =
    find? (λ m. m.user === user_id && any (λ o. o.id === m.scope && o.is_personal) db.orgs)
      db.org_members

with_role : Text → Text → Option Role → Result ResolvedContext
with_role org_id drive_id none = err not_found
with_role org_id drive_id (some role) =
    ok (record { org_id = org_id; drive_id = drive_id; role = role })

explicit_drive : Db → Text → Option Text → Text → Result ResolvedContext
unfolding with_role
explicit_drive db user_id org_id drive_id = elim (find_drive db drive_id) [
  | none ↦ err not_found
  | some drive ↦
      if is_other_org org_id drive
      then err not_found
      else with_role drive.org_id drive_id (get_user_drive_role db user_id drive_id)
]

default_drive : Db → Text → Text → Result ResolvedContext
unfolding with_role
default_drive db user_id org_id = elim (find_default_drive db org_id) [
  | none ↦ err not_found
  | some drive ↦ with_role org_id drive.id (get_user_drive_role db user_id drive.id)
]

-- The fallback refuses by a bare `Error`.
as_plain : Result ResolvedContext → Result ResolvedContext
as_plain (ok c) = ok c
as_plain (err e) = err plain

personal_drive : Db → Text → Result ResolvedContext
personal_drive db user_id = elim (find_personal_org db user_id) [
  | none ↦ err plain
  | some m ↦ as_plain (default_drive db user_id m.scope)
]

pub resolve_context : Db → Text → Option Text → Option Text → Result ResolvedContext
resolve_context db user_id org_id drive_id = elim (given drive_id) [
  | some drive ↦ explicit_drive db user_id (given org_id) drive
  | none ↦ elim (given org_id) [
    | some org ↦ default_drive db user_id org
    | none ↦ personal_drive db user_id
  ]
]
