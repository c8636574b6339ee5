-- ===== src/Identity/Context/Tests.antt =====
-- Contexts and role checks at a small database.
use agent_fs.Prelude.{◌≡◌, ◌≤◌, ◌↔◌, refl, true, false, none, some, [], ◌∷◌, Text, text, ◌===◌}
use agent_fs.Errors.{ok, err, not_found}
use agent_fs.Identity.{
  Member, viewer, editor, admin, Db, role_level, get_user_drive_role, get_user_org_role, find_drive,
  role_of,
}
use agent_fs.Identity.Rbac.{require_drive_role, require_drive_admin, require_role}
use agent_fs.Identity.Rbac.Laws.{require_drive_role_iff, require_drive_admin_iff, IsDriveAdmin}
use agent_fs.Identity.Context.{
  ResolvedContext, given, resolve_context, explicit_drive, default_drive, personal_drive, as_plain,
  with_role, find_default_drive, find_personal_org,
}
use agent_fs.Identity.Context.Laws.{IsAllowed, IsDefault, resolve_context_sound}

contexts : Unit {0}
unfolding resolve_context explicit_drive default_drive personal_drive as_plain with_role
    find_default_drive find_personal_org find_drive get_user_drive_role get_user_org_role role_of
    ◌===◌ require_drive_role require_drive_admin require_role
contexts = tt

abbrev two_orgs : Db
two_orgs = record {
  orgs =
      record { id = text "o1"; is_personal = true }
      ∷ record { id = text "o2"; is_personal = false }
      ∷ [];
  org_members =
      record { scope = text "o1"; user = text "ann"; role = admin }
      ∷ record { scope = text "o2"; user = text "bob"; role = admin }
      ∷ [];
  drives =
      record { id = text "d1"; org_id = text "o1"; is_default = true }
      ∷ record { id = text "d2"; org_id = text "o2"; is_default = true }
      ∷ [];
  drive_members =
      record { scope = text "d1"; user = text "ann"; role = editor }
      ∷ record { scope = text "d2"; user = text "bob"; role = viewer }
      ∷ [];
  api_keys = [];
}

abbrev ann_context : ResolvedContext
ann_context = record { org_id = text "o1"; drive_id = text "d1"; role = editor }

-- No role on a drive, a drive of another org and a missing drive are one error.
resolve_context_tests :
    (resolve_context two_orgs (text "ann") none none ≡ ok ann_context)
    × (resolve_context two_orgs (text "ann") (some []) (some (text "d1")) ≡ ok ann_context)
    × (resolve_context two_orgs (text "ann") (some (text "o2")) (some (text "d1")) ≡ err not_found)
    × (resolve_context two_orgs (text "ann") none (some (text "d2")) ≡ err not_found)
    × (resolve_context two_orgs (text "ann") none (some (text "d3")) ≡ err not_found)
unfolding contexts
resolve_context_tests = (refl, refl, refl, refl, refl)

resolve_context_sound_example :
    IsAllowed two_orgs (text "ann") ann_context
    × ((d : Text) → given (some (text "d1")) ≡ some d → ann_context.drive_id ≡ d)
    × ((o : Text) → given (some []) ≡ some o → ann_context.org_id ≡ o)
    × (given (some (text "d1")) ≡ none → IsDefault two_orgs ann_context)
    × (given (some (text "d1")) ≡ none
        → given (some []) ≡ none
        → (m : Member) × (find_personal_org two_orgs (text "ann") ≡ some m)
          × (ann_context.org_id ≡ m.scope))
resolve_context_sound_example =
    resolve_context_sound two_orgs (text "ann") (some []) (some (text "d1")) ann_context
      resolve_context_tests.1

require_drive_role_iff_example :
    (require_drive_role two_orgs (text "ann") (text "d1") viewer ≡ ok editor) ↔ (
      (get_user_drive_role two_orgs (text "ann") (text "d1") ≡ some editor)
      × (role_level viewer ≤ role_level editor))
require_drive_role_iff_example =
    require_drive_role_iff two_orgs (text "ann") (text "d1") viewer editor

require_drive_admin_iff_example :
    (require_drive_admin two_orgs (text "bob") (text "d2") ≡ ok admin)
    ↔ (IsDriveAdmin two_orgs (text "bob") (text "d2") × (admin ≡ admin))
require_drive_admin_iff_example = require_drive_admin_iff two_orgs (text "bob") (text "d2") admin
