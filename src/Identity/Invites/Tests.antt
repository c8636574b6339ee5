-- ===== src/Identity/Invites/Tests.antt =====
-- Invites at a small database: a pending invite of bob to an org with one drive.
use agent_fs.Prelude.{ℕ, suc, zero, ◌≡◌, refl, true, false, none, some, [], ◌∷◌, Text, text, ◌===◌}
use agent_fs.Errors.{Result, ok, err, not_found, permission_denied}
use agent_fs.Identity.{editor, admin, role_of, get_user_org_role, find_drive}
use agent_fs.Identity.Rbac.{assert_drive_in_org}
use agent_fs.Identity.Grants.{grant_org_role, grant_drive_role, granted, grant, upsert, higher_role}
use agent_fs.Identity.Invites.{
  Invite, InviteDb, InviteParams, Fresh, normalize_invite_email, resolve_user_by_email, is_token,
  get_invite_by_token, revoke_open_invite_for_email, create_pending_invite, grant_drives,
  accept_invite, revoke_invite, resolve_invite_grants, invite_to_org,
}
use agent_fs.Identity.Invites.Once.{start, then_change, invited, accepted_once}
use agent_fs.Identity.Invites.Accepted.{IsAccepted, accept_invite-IsAccepted}

runs : Unit {0}
unfolding ◌===◌ role_of get_user_org_role find_drive assert_drive_in_org grant_org_role
    grant_drive_role granted grant upsert higher_role normalize_invite_email resolve_user_by_email
    is_token get_invite_by_token revoke_open_invite_for_email create_pending_invite grant_drives
    accept_invite revoke_invite resolve_invite_grants invite_to_org
runs = tt

abbrev letters : ℕ → Text
letters zero = []
letters (suc n) = b'a' ∷ letters n

abbrev token : Text
token = letters 43

abbrev digest : Text → Text
digest t = b'h' ∷ t

abbrev team : InviteDb
team = record {
  identity = record {
    orgs = record { id = text "o"; is_personal = false } ∷ [];
    org_members = record { scope = text "o"; user = text "ann"; role = admin } ∷ [];
    drives = record { id = text "d"; org_id = text "o"; is_default = true } ∷ [];
    drive_members = [];
    api_keys = [];
  };
  users = record { id = text "bob"; email = text "Bob@x" } ∷ [];
  invites = [];
}

abbrev to_bob : InviteParams
to_bob = record {
  org_id = text "o";
  email = text " bob@x";
  role = editor;
  drives = none;
  invited_by = some (text "ann");
}

abbrev pending : Invite
pending = record {
  id = text "i1";
  org_id = text "o";
  email = text "bob@x";
  org_role = editor;
  drives = record { drive_id = text "d"; role = editor } ∷ [];
  token_hash = digest token;
  created_by = text "ann";
  created_at = 1000;
  expires_at = 604801000;
  accepted_at = none;
  accepted_by = none;
  revoked_at = none;
}

abbrev invited_bob : InviteDb
invited_bob = record team { invites = pending ∷ [] }

abbrev or_team : Result InviteDb → InviteDb
or_team (ok db) = db
or_team (err e) = team

abbrev joined : InviteDb
joined = or_team (accept_invite digest invited_bob token (text "bob") 2000)

abbrev second : Fresh
second = record { id = text "i2"; token_hash = text "h2" }

abbrev invited_again : InviteDb
invited_again = or_team (invite_to_org joined to_bob second 3000)

invite_tests :
    (invite_to_org team to_bob (record { id = text "i1"; token_hash = digest token }) 1500
      ≡ ok invited_bob)
    × (accept_invite digest invited_bob token (text "ann") 2000 ≡ err permission_denied)
    × (accept_invite digest invited_bob token (text "bob") 604801000 ≡ err not_found)
    × (role_of (text "d") (text "bob") joined.identity.drive_members ≡ some editor)
    × (role_of (text "o") (text "bob") invited_again.identity.org_members ≡ some editor)
unfolding runs
invite_tests = (refl, refl, refl, refl, refl)

accepted_once_example : accept_invite digest invited_again token (text "bob") 4000 ≡ err not_found
unfolding runs
accepted_once_example =
    accepted_once digest invited_bob joined invited_again token (text "bob") (text "bob") 2000 4000
      (refl, tt) refl (then_change start (invited to_bob second 3000 invited_again refl refl))

accept_invite-IsAccepted_example :
    (invite : Invite) × (get_invite_by_token digest invited_bob token 2000 ≡ some invite)
    × IsAccepted invited_bob joined invite (text "bob")
unfolding runs
accept_invite-IsAccepted_example =
    accept_invite-IsAccepted digest invited_bob joined token (text "bob") 2000 refl
