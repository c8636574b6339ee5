-- ===== src/Identity/Members/Changes.antt =====
-- Admins of orgs and drives under each membership operation.
use agent_fs.Prelude.{
  ◌≡◌, true, false, List, [], ◌∷◌, Text, arith, any, ◌===◌, Bool-cases, Option-cases, inl, inr,
  eq_of_===, subst,
}
use agent_fs.Errors.{ok}
use agent_fs.Sql.{delete_where}
use agent_fs.Identity.{Role, Member, Db, is_row, role_of}
use agent_fs.Identity.Members.{
  is_empty, is_sole_admin, org_drives, set_role, revoke_granted_keys, update_org_member_role,
  find_sole_admin_drives, remove_everywhere, remove_org_member, assert_not_last_drive_admin,
  update_drive_member_role, remove_drive_member, delete_from_drives,
}
use agent_fs.Identity.Members.Rows
use agent_fs.Identity.Members.Admins.{
  KeepsAdmins, set_role-KeepsAdmins, delete-KeepsAdmins, second_admin, others_admin,
}

pub record IsKeyedDb (db : Db) : Type 0 where
  pub orgs : Rows.IsKeyed db.org_members
  pub drives : Rows.IsKeyed db.drive_members

pub record Keeps (db db' : Db) : Type 0 where
  pub orgs : KeepsAdmins db.org_members db'.org_members
  pub drives : KeepsAdmins db.drive_members db'.drive_members

pub same_rows :
    (rows rows' : List Member) → Rows.IsKeyed rows → rows' ≡ rows → KeepsAdmins rows rows'
same_rows rows rows' k e = record { keyed = rw e k; admins = λ s h. rw e h }

with_rows :
    {rows rows' rows'' : List Member}
    → rows'' ≡ rows'
    → KeepsAdmins rows rows'
    → KeepsAdmins rows rows''
with_rows e h = rw e h

pub update_org_member_role-Keeps :
    (db db' : Db) (o u : Text) (r : Role)
    → IsKeyedDb db
    → update_org_member_role db o u r ≡ ok db'
    → Keeps db db'
unfolding update_org_member_role revoke_granted_keys
update_org_member_role-Keeps db db' o u r k h = elim (Option-cases (role_of o u db.org_members)) [
  | inl missing ↦ absurd (ground arith)
  | inr (existing, e) ↦
      let written : db'.org_members ≡ set_role o u r db.org_members = ground arith in
      let same : db'.drive_members ≡ db.drive_members = ground arith in
      record {
        orgs =
            with_rows written
              (set_role-KeepsAdmins o u existing r db.org_members k.orgs e (λ d. ground arith));
        drives = same_rows db.drive_members db'.drive_members k.drives same;
      }
]

-- What the check on one drive gives.
checked :
    (rows : List Member) (d u : Text)
    → assert_not_last_drive_admin rows d u ≡ ok tt
    → is_sole_admin rows u d ≡ false
unfolding assert_not_last_drive_admin find_sole_admin_drives
checked rows d u h = ground arith

pub update_drive_member_role-Keeps :
    (db db' : Db) (d u : Text) (r : Role)
    → IsKeyedDb db
    → update_drive_member_role db d u r ≡ ok db'
    → Keeps db db'
unfolding update_drive_member_role
update_drive_member_role-Keeps db db' d u r k h =
    elim (Option-cases (role_of d u db.drive_members)) [
      | inl missing ↦ absurd (ground arith)
      | inr (existing, e) ↦
          let written : db'.drive_members ≡ set_role d u r db.drive_members = ground arith in
          let same : db'.org_members ≡ db.org_members = ground arith in
          record {
            orgs = same_rows db.org_members db'.org_members k.orgs same;
            drives = with_rows written (
                set_role-KeepsAdmins d u existing r db.drive_members k.drives e (λ demoted.
                  second_admin d u db.drive_members (checked db.drive_members d u (ground arith))
                    (ground arith)));
          }
    ]

pub remove_drive_member-Keeps :
    (db db' : Db) (d u : Text) → IsKeyedDb db → remove_drive_member db d u ≡ ok db' → Keeps db db'
unfolding remove_drive_member
remove_drive_member-Keeps db db' d u k h = elim (Option-cases (role_of d u db.drive_members)) [
  | inl missing ↦ absurd (ground arith)
  | inr (existing, e) ↦
      let written : db'.drive_members ≡ delete_where (is_row d u) db.drive_members = ground arith in
      let same : db'.org_members ≡ db.org_members = ground arith in
      record {
        orgs = same_rows db.org_members db'.org_members k.orgs same;
        drives = with_rows written (
            delete-KeepsAdmins d u db.drive_members k.drives (λ held.
              second_admin d u db.drive_members (checked db.drive_members d u (ground arith))
                held));
      }
]

none_blocks :
    (rows : List Member) (u s : Text) (ds : List Text)
    → is_empty (find_sole_admin_drives rows u ds) ≡ true
    → any (λ d. d === s) ds ≡ true
    → is_sole_admin rows u s ≡ false
unfolding find_sole_admin_drives
none_blocks rows u s [] e h = ground arith
none_blocks rows u s (d ∷ ds) e h = elim (Bool-cases (d === s)) [
  | inl here ↦ subst (λ x. is_sole_admin rows u x ≡ false) (eq_of_=== d s here) (ground arith)
  | inr other ↦ none_blocks rows u s ds (ground arith) (ground arith)
]

delete_from_drives-KeepsAdmins :
    (rows : List Member) (u : Text) (ds : List Text)
    → Rows.IsKeyed rows
    → is_empty (find_sole_admin_drives rows u ds) ≡ true
    → KeepsAdmins rows (delete_from_drives u ds rows)
delete_from_drives-KeepsAdmins rows u ds k e = record {
  keyed = Rows.delete_from_drives-IsKeyed u ds rows k;
  admins = λ s h. elim (Bool-cases (any (λ d. d === s) ds)) [
    | inl listed ↦ omega (
      arith,
      others_admin s u rows k (second_admin s u rows (none_blocks rows u s ds e listed)) h,
      Rows.admins-delete_from_drives u s ds rows,
    )
    | inr elsewhere ↦ omega (arith, Rows.admins-delete_elsewhere u s ds rows elsewhere)
  ];
}

pub remove_org_member-Keeps :
    (db db' : Db) (o u : Text) → IsKeyedDb db → remove_org_member db o u ≡ ok db' → Keeps db db'
unfolding remove_org_member revoke_granted_keys
remove_org_member-Keeps db db' o u k h = elim (Option-cases (role_of o u db.org_members)) [
  | inl missing ↦ absurd (ground arith)
  | inr (existing, e) ↦
      let written : db' ≡ remove_everywhere db o u = ground arith in
      let free : is_empty (find_sole_admin_drives db.drive_members u (org_drives db o)) ≡ true =
        ground arith in
      rw written (
        unfold remove_everywhere in
        (record {
          orgs = delete-KeepsAdmins o u db.org_members k.orgs (λ held. ground arith);
          drives =
              delete_from_drives-KeepsAdmins db.drive_members u (org_drives db o) k.drives free;
        }))
]
