-- ===== src/Identity/Members/Tests.antt =====
-- Memberships at a small database: an org and a drive with two members.
use agent_fs.Prelude.{◌≡◌, ◌↔◌, refl, true, false, none, some, [], ◌∷◌, Text, text, ◌===◌}
use agent_fs.Errors.{ok, err, plain, validation}
use agent_fs.Identity.{Role, viewer, editor, admin, Db, Member, role_of}
use agent_fs.Identity.Grants.{grant_org_role, grant_drive_role, granted, grant, upsert, higher_role}
use agent_fs.Identity.Grants.Laws.{IsRaised, grant_org_role-IsRaised, grant_drive_role-IsRaised}
use agent_fs.Identity.Members.{
  update_org_member_role, remove_org_member, update_drive_member_role, remove_drive_member,
  remove_everywhere, find_sole_admin_drives, assert_not_last_drive_admin, revoke_granted_keys,
}
use agent_fs.Identity.Members.History.{
  History, KeepsBut, has_unguarded, start, then_change, org_role, drive_leave, History-Keeps,
}

members : Unit {0}
unfolding update_org_member_role remove_org_member update_drive_member_role remove_drive_member
    remove_everywhere find_sole_admin_drives assert_not_last_drive_admin revoke_granted_keys role_of
    ◌===◌ grant_org_role grant_drive_role granted grant upsert higher_role
members = tt

abbrev row : Text → Text → Role → Member
row scope user role = record { scope = scope; user = user; role = role }

abbrev team : Db
team = record {
  orgs = record { id = text "o"; is_personal = false } ∷ [];
  org_members = row (text "o") (text "ann") admin ∷ row (text "o") (text "bob") admin ∷ [];
  drives = record { id = text "d"; org_id = text "o"; is_default = true } ∷ [];
  drive_members = row (text "d") (text "ann") admin ∷ row (text "d") (text "bob") editor ∷ [];
  api_keys =
      record {
        id = text "k";
        user = text "ann";
        created_by = text "bob";
        org_id = some (text "o");
        revoked = false;
      }
      ∷ [];
}

-- Demoting an admin revokes the key that they minted for someone else.
abbrev demoted : Db
demoted = record team {
  org_members = row (text "o") (text "ann") admin ∷ row (text "o") (text "bob") editor ∷ [];
  api_keys =
      record {
        id = text "k";
        user = text "ann";
        created_by = text "bob";
        org_id = some (text "o");
        revoked = true;
      }
      ∷ [];
}

abbrev alone : Db
alone = record demoted { drive_members = row (text "d") (text "ann") admin ∷ [] }

member_tests :
    (update_org_member_role team (text "o") (text "bob") editor ≡ ok demoted)
    × (update_org_member_role demoted (text "o") (text "ann") viewer ≡ err plain)
    × (remove_org_member team (text "o") (text "ann") ≡ err validation)
    × (update_drive_member_role team (text "d") (text "ann") viewer ≡ err validation)
    × (remove_drive_member demoted (text "d") (text "bob") ≡ ok alone)
unfolding members
member_tests = (refl, refl, refl, refl, refl)

abbrev left_alone : History team alone
left_alone =
    then_change (then_change start (org_role (text "o") (text "bob") editor member_tests.0))
      (drive_leave (text "d") (text "bob") member_tests.4)

-- No step of it sets a lesser role without the guard.
guarded_test : has_unguarded left_alone (text "d") ≡ false
guarded_test = refl

History-Keeps_example : KeepsBut (has_unguarded left_alone) team alone
unfolding members
History-Keeps_example =
    History-Keeps (record { orgs = (refl, (refl, tt)); drives = (refl, (refl, tt)) }) left_alone

grant_org_role-IsRaised_example :
    IsRaised team.org_members
      (grant_org_role team (text "o") (text "cy") viewer).0.org_members
      (text "o")
      (text "cy")
      viewer
      (grant_org_role team (text "o") (text "cy") viewer).1
    × ((grant_org_role team (text "o") (text "cy") viewer).0.drive_members ≡ team.drive_members)
grant_org_role-IsRaised_example = grant_org_role-IsRaised team (text "o") (text "cy") viewer

grant_drive_role-IsRaised_example :
    IsRaised team.drive_members
      (grant_drive_role team (text "d") (text "ann") viewer).0.drive_members
      (text "d")
      (text "ann")
      viewer
      (grant_drive_role team (text "d") (text "ann") viewer).1
    × ((grant_drive_role team (text "d") (text "ann") viewer).0.org_members ≡ team.org_members)
    × (((grant_drive_role team (text "d") (text "ann") viewer).2 ≡ true)
        ↔ (role_of (text "d") (text "ann") team.drive_members ≡ none))
grant_drive_role-IsRaised_example = grant_drive_role-IsRaised team (text "d") (text "ann") viewer
