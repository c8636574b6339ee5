-- ===== src/Identity/Grants/Laws.antt =====
-- Proofs on the grants of packages/core/src/identity/grants.ts.
use agent_fs.Prelude.{
  ◌≡◌, ◌≤◌, ◌↔◌, refl, Bool, true, false, Option, none, some, List, [], ◌∷◌, ◌++◌, Text, arith, any,
  if◌then◌else◌, ===_iff, ===_refl, ◌===◌, ◌&&◌,
}
use agent_fs.Sql.{update_where}
use agent_fs.Identity.{Role, role_level, Member, Db, is_row, role_of}
use agent_fs.Identity.Grants.{higher_role, upsert, grant, granted, grant_org_role, grant_drive_role}

-- Neither role is lowered.
higher_role_bounds :
    (stored incoming : Role)
    → (role_level stored ≤ role_level (higher_role stored incoming))
      × (role_level incoming ≤ role_level (higher_role stored incoming))
unfolding higher_role
higher_role_bounds stored incoming = ground arith

role_of-update :
    (f : Role → Role) (s u : Text) (rows : List Member)
    → role_of s u (update_where (is_row s u) (λ m. record m { role = f m.role }) rows)
      ≡ (elim (role_of s u rows) [ none ↦ none | some r ↦ some (f r) ])
unfolding role_of
role_of-update f s u [] = refl
role_of-update f s u (m ∷ rows) = ground (arith, role_of-update f s u rows)

role_of-update_other :
    (f : Role → Role) (s u s' u' : Text) (rows : List Member)
    → s === s' && u === u' ≡ false
    → role_of s' u' (update_where (is_row s u) (λ m. record m { role = f m.role }) rows)
      ≡ role_of s' u' rows
unfolding role_of
role_of-update_other f s u s' u' [] h = refl
role_of-update_other f s u s' u' (m ∷ rows) h = ground (
  arith,
  role_of-update_other f s u s' u' rows,
  ===_iff m.scope s,
  ===_iff m.scope s',
  ===_iff m.user u,
  ===_iff m.user u',
  ===_iff s s',
  ===_iff u u',
)

abbrev pub is_there : Option Role → Bool
is_there none = false
is_there (some r) = true

pub any-role_of :
    (s u : Text) (rows : List Member) → any (is_row s u) rows ≡ is_there (role_of s u rows)
unfolding role_of
any-role_of s u [] = refl
any-role_of s u (m ∷ rows) = ground (arith, any-role_of s u rows)

role_of-append :
    (s u s' u' : Text) (r : Role) (rows : List Member)
    → role_of s' u' (rows ++ record { scope = s; user = u; role = r } ∷ [])
      ≡ (elim (role_of s' u' rows) [
        | none ↦ (if s === s' && u === u' then some r else none)
        | some held ↦ some held
      ])
unfolding role_of
role_of-append s u s' u' r [] = ground arith
role_of-append s u s' u' r (m ∷ rows) = ground (arith, role_of-append s u s' u' r rows)

upsert_self :
    (f : Role → Role) (r : Role) (s u : Text) (rows : List Member)
    → role_of s u (upsert f r s u rows)
      ≡ (elim (role_of s u rows) [ none ↦ some r | some held ↦ some (f held) ])
unfolding upsert
upsert_self f r s u rows = ground (
  arith,
  any-role_of s u rows,
  role_of-update f s u rows,
  role_of-append s u s u r rows,
  ===_refl s,
  ===_refl u,
)

upsert_other :
    (f : Role → Role) (r : Role) (s u s' u' : Text) (rows : List Member)
    → s === s' && u === u' ≡ false
    → role_of s' u' (upsert f r s u rows) ≡ role_of s' u' rows
unfolding upsert
upsert_other f r s u s' u' rows h = ground (
  arith,
  any-role_of s u rows,
  role_of-update_other f s u s' u' rows,
  role_of-append s u s' u' r rows,
)

-- The table `after` a grant of `role`: the member ends up with `held`, which is at least `role`
-- and at least what they had, and no other membership has changed.
pub record IsRaised (before after : List Member) (scope user : Text) (role held : Role)
    : Type 0 where
  pub reported : role_of scope user after ≡ some held
  pub granted : role_level role ≤ role_level held
  pub kept : (r : Role) → role_of scope user before ≡ some r → role_level r ≤ role_level held
  pub others :
      (s u : Text) → scope === s && user === u ≡ false → role_of s u after ≡ role_of s u before

granted_bounds :
    (stored : Option Role) (role : Role)
    → (role_level role ≤ role_level (granted stored role))
      × ((r : Role) → stored ≡ some r → role_level r ≤ role_level (granted stored role))
unfolding granted
granted_bounds none role = (ground arith, λ r e. ground arith)
granted_bounds (some stored) role =
    ((higher_role_bounds stored role).1, λ r e. ground (arith, higher_role_bounds stored role))

grant-IsRaised :
    (rows : List Member) (s u : Text) (role : Role)
    → IsRaised rows (grant s u role rows) s u role (granted (role_of s u rows) role)
grant-IsRaised rows s u role = record {
  reported =
      unfold grant granted in
      ground (arith, upsert_self (λ stored. higher_role stored role) role s u rows);
  granted = (granted_bounds (role_of s u rows) role).0;
  kept = (granted_bounds (role_of s u rows) role).1;
  others = λ s' u' h.
      unfold grant in upsert_other (λ stored. higher_role stored role) role s u s' u' rows h;
}

-- Granting an org role raises one membership of that org to the role returned, lowers none, and
-- leaves the drives' members alone.
pub grant_org_role-IsRaised :
    (db : Db) (org_id user_id : Text) (role : Role)
    → IsRaised db.org_members
        (grant_org_role db org_id user_id role).0.org_members
        org_id
        user_id
        role
        (grant_org_role db org_id user_id role).1
      × ((grant_org_role db org_id user_id role).0.drive_members ≡ db.drive_members)
unfolding grant_org_role
grant_org_role-IsRaised db org_id user_id role =
    (grant-IsRaised db.org_members org_id user_id role, refl)

-- Granting a drive role raises one membership of that drive to the role returned, lowers none,
-- leaves the orgs' members alone, and reports as new exactly the users who had no role there.
pub grant_drive_role-IsRaised :
    (db : Db) (drive_id user_id : Text) (role : Role)
    → IsRaised db.drive_members
        (grant_drive_role db drive_id user_id role).0.drive_members
        drive_id
        user_id
        role
        (grant_drive_role db drive_id user_id role).1
      × ((grant_drive_role db drive_id user_id role).0.org_members ≡ db.org_members)
      × (((grant_drive_role db drive_id user_id role).2 ≡ true)
          ↔ (role_of drive_id user_id db.drive_members ≡ none))
unfolding grant_drive_role
grant_drive_role-IsRaised db drive_id user_id role = (
  grant-IsRaised db.drive_members drive_id user_id role,
  refl,
  (λ h. ground arith, λ h. ground arith),
)
