-- ===== src/Identity/Members/History.antt =====
-- Any sequence of the operations of Identity/Members and Identity/Grants.
use agent_fs.Prelude.{
  ◌≡◌, ◌≤◌, refl, Bool, true, false, not, ◌&&◌, ◌||◌, Option, none, some, List, [], ◌∷◌, ◌++◌, Text,
  arith, any, any-append, ===_iff, ◌===◌, Bool-cases, inl, inr,
}
use agent_fs.Errors.{ok}
use agent_fs.Identity.{Role, admin, editor, viewer, Member, Db, is_row}
use agent_fs.Identity.Grants.{
  set_drive_member, higher_role, upsert, grant, grant_org_role, grant_drive_role,
}
use agent_fs.Identity.Members.{
  update_org_member_role, remove_org_member, update_drive_member_role, remove_drive_member,
  create_drive, create_org, is_admin, set_role,
}
use agent_fs.Identity.Members.Rows
use agent_fs.Identity.Members.Admins.{KeepsAdmins}
use agent_fs.Identity.Members.Changes.{
  IsKeyedDb, Keeps, same_rows, update_org_member_role-Keeps, remove_org_member-Keeps,
  update_drive_member_role-Keeps, remove_drive_member-Keeps,
}

append-IsKeyed :
    (s u : Text) (r : Role) (rows : List Member)
    → any (is_row s u) rows ≡ false
    → Rows.IsKeyed rows
    → Rows.IsKeyed (rows ++ record { scope = s; user = u; role = r } ∷ [])
append-IsKeyed s u r [] new h = ground arith
append-IsKeyed s u r (m ∷ rows) new (k, h) = ground (
  arith,
  any-append (is_row m.scope m.user) rows (record { scope = s; user = u; role = r } ∷ []),
  append-IsKeyed s u r rows,
  ===_iff s m.scope,
  ===_iff m.scope s,
  ===_iff u m.user,
  ===_iff m.user u,
)

admins-append :
    (s' s u : Text) (r : Role) (rows : List Member)
    → Rows.admins s' rows ≤ Rows.admins s' (rows ++ record { scope = s; user = u; role = r } ∷ [])
admins-append s' s u r [] = omega arith
admins-append s' s u r (m ∷ rows) = ground (arith, admins-append s' s u r rows)

append-KeepsAdmins :
    (s u : Text) (r : Role) (rows : List Member)
    → Rows.IsKeyed rows
    → any (is_row s u) rows ≡ false
    → KeepsAdmins rows (rows ++ record { scope = s; user = u; role = r } ∷ [])
append-KeepsAdmins s u r rows k new = record {
  keyed = append-IsKeyed s u r rows new k;
  admins = λ s' h. omega (arith, admins-append s' s u r rows);
}

grant-KeepsAdmins :
    (s u : Text) (r : Role) (rows : List Member)
    → Rows.IsKeyed rows
    → KeepsAdmins rows (grant s u r rows)
unfolding grant upsert
grant-KeepsAdmins s u r rows k = elim (Bool-cases (any (is_row s u) rows)) [
  | inl old ↦ rw old (record {
    keyed = Rows.update-IsKeyed s u (λ stored. higher_role stored r) rows k;
    admins = λ s' h. omega (
      arith,
      Rows.admins-update s u s' (λ stored. higher_role stored r) rows (unfold higher_role in refl),
    );
  })
  | inr new ↦ rw new (append-KeepsAdmins s u r rows k new)
]

-- A drawn id is new: no membership row names it.
abbrev pub IsFresh : Text → List Member → Type 0
IsFresh id rows = any (λ m. m.scope === id) rows ≡ false

fresh-row : (s u : Text) (rows : List Member) → IsFresh s rows → any (is_row s u) rows ≡ false
fresh-row s u [] h = refl
fresh-row s u (m ∷ rows) h = ground (arith, fresh-row s u rows)

-- One operation that succeeded; a refused one changes nothing.
pub data Change (db db' : Db) : Type 0 where
  org_role : (o u : Text) (r : Role) → update_org_member_role db o u r ≡ ok db' → Change db db'
  org_leave : (o u : Text) → remove_org_member db o u ≡ ok db' → Change db db'
  drive_role : (d u : Text) (r : Role) → update_drive_member_role db d u r ≡ ok db' → Change db db'
  drive_leave : (d u : Text) → remove_drive_member db d u ≡ ok db' → Change db db'
  org_grant : (o u : Text) (r : Role) → db' ≡ (grant_org_role db o u r).0 → Change db db'
  drive_grant : (d u : Text) (r : Role) → db' ≡ (grant_drive_role db d u r).0 → Change db db'
  drive_set : (d u : Text) (r : Role) → db' ≡ set_drive_member db d u r → Change db db'
  new_drive :
      (id o : Text) (is_default : Bool) (creator : Option Text)
      → IsFresh id db.drive_members
      → db' ≡ create_drive db id o is_default creator
      → Change db db'
  new_org :
      (id drive u : Text) (is_personal : Bool)
      → IsFresh id db.org_members
      → IsFresh drive db.drive_members
      → db' ≡ create_org db id drive u is_personal
      → Change db db'

create_drive-Keeps :
    (db : Db) (id o : Text) (is_default : Bool) (creator : Option Text)
    → IsKeyedDb db
    → IsFresh id db.drive_members
    → Keeps db (create_drive db id o is_default creator)
unfolding create_drive
create_drive-Keeps db id o is_default none k new = record {
  orgs = same_rows _ _ k.orgs refl;
  drives = same_rows _ _ k.drives refl;
}
create_drive-Keeps db id o is_default (some u) k new = record {
  orgs = same_rows _ _ k.orgs refl;
  drives =
      append-KeepsAdmins id u admin db.drive_members k.drives (fresh-row id u db.drive_members new);
}

create_org-Keeps :
    (db : Db) (id drive u : Text) (is_personal : Bool)
    → IsKeyedDb db
    → IsFresh id db.org_members
    → IsFresh drive db.drive_members
    → Keeps db (create_org db id drive u is_personal)
unfolding create_org create_drive
create_org-Keeps db id drive u is_personal k new_id new_drive_id = record {
  orgs = append-KeepsAdmins id u admin db.org_members k.orgs (fresh-row id u db.org_members new_id);
  drives =
      append-KeepsAdmins drive u admin db.drive_members k.drives
        (fresh-row drive u db.drive_members new_drive_id);
}

-- what a change keeps: the primary keys, an admin of each org, and an admin of each drive but those of
-- a kind
pub record KeepsBut (but : Text → Bool) (db db' : Db) : Type 0 where
  pub orgs : KeepsAdmins db.org_members db'.org_members
  pub keyed : Rows.IsKeyed db'.drive_members
  pub drives :
      (d : Text)
      → but d ≡ false
      → 1 ≤ Rows.admins d db.drive_members
      → 1 ≤ Rows.admins d db'.drive_members

Keeps-But : (but : Text → Bool) {db db' : Db} → Keeps db db' → KeepsBut but db db'
Keeps-But but k = record {
  orgs = k.orgs;
  keyed = k.drives.keyed;
  drives = λ d no h. k.drives.admins d h;
}

-- `setDriveMember` to a lesser role than admin, which no guard of the last admin sees
abbrev pub is_lesser_set : Text → Role → Text → Bool
is_lesser_set d r s = d === s && not (is_admin (some r))

set_drive_member-KeepsBut :
    (db : Db) (d u : Text) (r : Role)
    → IsKeyedDb db
    → KeepsBut (is_lesser_set d r) db (set_drive_member db d u r)
unfolding set_drive_member upsert
set_drive_member-KeepsBut db d u r k = elim (Bool-cases (any (is_row d u) db.drive_members)) [
  | inr new ↦ rw new (
      Keeps-But (is_lesser_set d r) (record {
        orgs = same_rows _ _ k.orgs refl;
        drives = append-KeepsAdmins d u r db.drive_members k.drives new;
      }))
  | inl old ↦ rw old (record {
    orgs = same_rows _ _ k.orgs refl;
    keyed = Rows.update-IsKeyed d u (λ stored. r) db.drive_members k.drives;
    drives = λ s no h. elim (Bool-cases (d === s)) [
      | inr other ↦ rw (Rows.admins-set_role_other d u s r db.drive_members other) h
      | inl here ↦ kept s r (ground arith) h
    ];
  })
]
  where
    kept :
        (s : Text) (r : Role)
        → is_admin (some r) ≡ true
        → 1 ≤ Rows.admins s db.drive_members
        → 1 ≤ Rows.admins s (set_role d u r db.drive_members)
    kept s admin e h =
        omega (arith, Rows.admins-update d u s (λ stored. admin) db.drive_members refl)
    kept s editor e h = ground arith
    kept s viewer e h = ground arith

-- the drives on which a change sets a lesser role without the guard
abbrev pub unguarded : {db db' : Db} → Change db db' → Text → Bool
unguarded (org_role o u r h) s = false
unguarded (org_leave o u h) s = false
unguarded (drive_role d u r h) s = false
unguarded (drive_leave d u h) s = false
unguarded (org_grant o u r e) s = false
unguarded (drive_grant d u r e) s = false
unguarded (drive_set d u r e) s = is_lesser_set d r s
unguarded (new_drive id o is_default creator new e) s = false
unguarded (new_org id drive u is_personal new_id new_drive_id e) s = false

Change-KeepsBut : {db db' : Db} (c : Change db db') → IsKeyedDb db → KeepsBut (unguarded c) db db'
Change-KeepsBut (org_role o u r h) k =
    Keeps-But (λ s. false) (update_org_member_role-Keeps _ _ o u r k h)
Change-KeepsBut (org_leave o u h) k = Keeps-But (λ s. false) (remove_org_member-Keeps _ _ o u k h)
Change-KeepsBut (drive_role d u r h) k =
    Keeps-But (λ s. false) (update_drive_member_role-Keeps _ _ d u r k h)
Change-KeepsBut (drive_leave d u h) k =
    Keeps-But (λ s. false) (remove_drive_member-Keeps _ _ d u k h)
Change-KeepsBut {db} (org_grant o u r e) k =
    Keeps-But (λ s. false)
      (rw e (
        unfold grant_org_role in
        (record {
          orgs = grant-KeepsAdmins o u r db.org_members k.orgs;
          drives = same_rows _ _ k.drives refl;
        })))
Change-KeepsBut {db} (drive_grant d u r e) k =
    Keeps-But (λ s. false)
      (rw e (
        unfold grant_drive_role in
        (record {
          orgs = same_rows _ _ k.orgs refl;
          drives = grant-KeepsAdmins d u r db.drive_members k.drives;
        })))
Change-KeepsBut {db} (new_drive id o is_default creator new e) k =
    Keeps-But (λ s. false) (rw e (create_drive-Keeps db id o is_default creator k new))
Change-KeepsBut {db} (new_org id drive u is_personal new_id new_drive_id e) k =
    Keeps-But (λ s. false) (rw e (create_org-Keeps db id drive u is_personal k new_id new_drive_id))
Change-KeepsBut {db} (drive_set d u r e) k = rw e (set_drive_member-KeepsBut db d u r k)

pub data History (db : Db) : Db → Type 0 where
  start : History db db
  then_change : {db' db'' : Db} → History db db' → Change db' db'' → History db db''

-- the drives on which some change sets a lesser role without the guard
abbrev pub has_unguarded : {db db' : Db} → History db db' → Text → Bool
has_unguarded start s = false
has_unguarded (then_change h c) s = has_unguarded h s || unguarded c s

-- From tables with their primary keys: whatever operations on orgs, drives and members succeed, and
-- in whatever order, the membership tables keep their primary keys, and an org that has an admin at
-- the start has one at the end. So has a drive, unless `setDriveMember`, which does not look for
-- other admins, gave a user a lesser role than admin on it.
pub History-Keeps :
    {db db' : Db} → IsKeyedDb db → (h : History db db') → KeepsBut (has_unguarded h) db db'
History-Keeps k start =
    Keeps-But (λ s. false)
      (record { orgs = same_rows _ _ k.orgs refl; drives = same_rows _ _ k.drives refl })
History-Keeps k (then_change h c) =
    let before = History-Keeps k h in
    let last = Change-KeepsBut c (record { orgs = before.orgs.keyed; drives = before.keyed }) in
    record {
      orgs = record {
        keyed = last.orgs.keyed;
        admins = λ s a. last.orgs.admins s (before.orgs.admins s a);
      };
      keyed = last.keyed;
      drives = λ d no a. last.drives d (ground arith) (before.drives d (ground arith) a);
    }
