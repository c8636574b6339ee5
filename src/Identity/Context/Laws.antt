-- ===== src/Identity/Context/Laws.antt =====
-- Proofs on `resolveContext` of packages/core/src/identity/context.ts.
use agent_fs.Prelude.{
  Bool, true, List, [], ◌∷◌, any, find?, ===_refl, Bool-cases, subst, ◌≡◌, Option, none, some, Text,
  arith, ===_iff, find?-holds, Option-cases, inl, inr, ◌===◌, sym, refl, false, ◌&&◌, ◌∙◌,
  eq_of_===,
}
use agent_fs.Errors.{Result, ok, err}
use agent_fs.Identity.{Role, Db, Drive, Member, get_user_drive_role, find_drive}
use agent_fs.Identity.Context.{
  ResolvedContext, given, is_other_org, find_default_drive, find_personal_org, with_role,
  explicit_drive, default_drive, personal_drive, as_plain, resolve_context,
}

abbrev pub is_drive_of : Text → Text → Drive → Bool
is_drive_of org_id drive_id d = d.id === drive_id && d.org_id === org_id

-- A row of the drives has the context's drive and org, and the caller holds the role on the drive.
pub record IsAllowed (db : Db) (user_id : Text) (c : ResolvedContext) : Type 0 where
  pub listed : any (is_drive_of c.org_id c.drive_id) db.drives ≡ true
  pub held : get_user_drive_role db user_id c.drive_id ≡ some c.role

with_role_inv :
    (org_id drive_id : Text) (held : Option Role) {c : ResolvedContext}
    → with_role org_id drive_id held ≡ ok c
    → (c.org_id ≡ org_id) × (c.drive_id ≡ drive_id) × (held ≡ some c.role)
unfolding with_role
with_role_inv org_id drive_id none h = ground arith
with_role_inv org_id drive_id (some role) h = ground arith

with_role-IsAllowed :
    (db : Db) (user_id org_id drive_id : Text) (drive : Drive) {c : ResolvedContext}
    → any (is_drive_of drive.org_id drive.id) db.drives ≡ true
    → drive.id ≡ drive_id
    → drive.org_id ≡ org_id
    → with_role org_id drive_id (get_user_drive_role db user_id drive_id) ≡ ok c
    → IsAllowed db user_id c
with_role-IsAllowed db user_id org_id drive_id drive there e f h =
    let (same_org, same_drive, held) = with_role_inv org_id drive_id _ h in
    record {
      listed = rw (same_org, same_drive) (rw (sym e, sym f) there);
      held = rw same_drive held;
    }

-- A row that a query finds is listed with its own ids.
found_listed :
    (p : Drive → Bool) (rows : List Drive) (drive : Drive)
    → find? p rows ≡ some drive
    → any (is_drive_of drive.org_id drive.id) rows ≡ true
found_listed p [] drive h = ground arith
found_listed p (d ∷ rows) drive h = elim (Bool-cases (p d)) [
  | inl here ↦
      let same : d ≡ drive = ground (arith, (rw here at h)) in
      subst (λ (x : Drive). any (is_drive_of x.org_id x.id) (d ∷ rows) ≡ true) same
        (ground (arith, ===_refl d.id, ===_refl d.org_id))
  | inr other ↦ ground (arith, found_listed p rows drive (rw other at h))
]

find_drive-id :
    (db : Db) (drive_id : Text) (drive : Drive)
    → find_drive db drive_id ≡ some drive
    → drive.id ≡ drive_id
unfolding find_drive
find_drive-id db drive_id drive h =
    eq_of_=== _ _ (find?-holds (λ d. d.id === drive_id) db.drives drive h)

-- A pinned org that the drive does not contradict is the drive's org.
pinned_org :
    (org_id : Option Text) (drive : Drive) (o : Text)
    → is_other_org org_id drive ≡ false
    → org_id ≡ some o
    → drive.org_id ≡ o
pinned_org none drive o h e = ground arith
pinned_org (some p) drive o h e = ground (arith, ===_iff drive.org_id p)

explicit_drive_inv :
    (db : Db) (user_id : Text) (org_id : Option Text) (drive_id : Text) {c : ResolvedContext}
    → explicit_drive db user_id org_id drive_id ≡ ok c
    → IsAllowed db user_id c
      × (c.drive_id ≡ drive_id)
      × ((o : Text) → org_id ≡ some o → c.org_id ≡ o)
unfolding explicit_drive find_drive
explicit_drive_inv db user_id org_id drive_id {c} h = elim (Option-cases (find_drive db drive_id)) [
  | inl missing ↦ absurd (ground arith)
  | inr (drive, found) ↦
      let same : is_other_org org_id drive ≡ false = ground arith in
      let ran : with_role drive.org_id drive_id (get_user_drive_role db user_id drive_id) ≡ ok c =
        ground arith in
      let (same_org, same_drive, held) = with_role_inv _ _ _ ran in
      (
        with_role-IsAllowed db user_id drive.org_id drive_id drive
            (found_listed _ db.drives drive found) (find_drive-id db drive_id drive found) refl ran,
        same_drive,
        λ o e. same_org ∙ pinned_org org_id drive o same e,
      )
]

find_default_drive-org :
    (db : Db) (org_id : Text) (drive : Drive)
    → find_default_drive db org_id ≡ some drive
    → drive.org_id ≡ org_id
unfolding find_default_drive
find_default_drive-org db org_id drive h = ground (
  arith,
  find?-holds (λ (d : Drive). d.org_id === org_id && d.is_default) db.drives drive,
  ===_iff drive.org_id org_id,
)

default_drive_inv :
    (db : Db) (user_id org_id : Text) {c : ResolvedContext}
    → default_drive db user_id org_id ≡ ok c
    → IsAllowed db user_id c
      × (c.org_id ≡ org_id)
      × ((d : Drive) × (find_default_drive db org_id ≡ some d) × (c.drive_id ≡ d.id))
unfolding default_drive find_default_drive
default_drive_inv db user_id org_id {c} h = elim (Option-cases (find_default_drive db org_id)) [
  | inl missing ↦ absurd (ground arith)
  | inr (drive, found) ↦
      let ran : with_role org_id drive.id (get_user_drive_role db user_id drive.id) ≡ ok c =
        ground arith in
      (
        with_role-IsAllowed db user_id org_id drive.id drive (found_listed _ db.drives drive found)
            refl (find_default_drive-org db org_id drive found) ran,
        (with_role_inv _ _ _ ran).0,
        (drive, found, (with_role_inv _ _ _ ran).1),
      )
]

as_plain_inv : (r : Result ResolvedContext) {c : ResolvedContext} → as_plain r ≡ ok c → r ≡ ok c
unfolding as_plain
as_plain_inv (ok d) h = h
as_plain_inv (err e) h = ground arith

-- the default drive of the org that the context names
abbrev pub IsDefault : Db → ResolvedContext → Type 0
IsDefault db c = (d : Drive) × (find_default_drive db c.org_id ≡ some d) × (c.drive_id ≡ d.id)

default_drive-IsDefault :
    (db : Db) (user_id org_id : Text) {c : ResolvedContext}
    → default_drive db user_id org_id ≡ ok c
    → IsDefault db c
default_drive-IsDefault db user_id org_id {c} h =
    let (allowed, same, (d, found, drive)) = default_drive_inv db user_id org_id h in
    (d, rw same found, drive)

personal_drive_inv :
    (db : Db) (user_id : Text) {c : ResolvedContext}
    → personal_drive db user_id ≡ ok c
    → IsAllowed db user_id c
      × IsDefault db c
      × ((m : Member) × (find_personal_org db user_id ≡ some m) × (c.org_id ≡ m.scope))
unfolding personal_drive
personal_drive_inv db user_id {c} h = elim (Option-cases (find_personal_org db user_id)) [
  | inl missing ↦ absurd (ground arith)
  | inr (m, found) ↦
      let ran : as_plain (default_drive db user_id m.scope) ≡ ok c = ground arith in
      let plain = as_plain_inv _ ran in
      let inv = default_drive_inv db user_id m.scope plain in
      (inv.0, default_drive-IsDefault db user_id m.scope plain, (m, found, inv.1))
]

-- However the context was chosen: a row of the drives has its drive and its org, and the caller
-- holds on the drive the role that the context reports. A drive or an org that the caller pinned is
-- the one resolved. With no drive pinned it is the default drive of the context's org; with no org
-- pinned either, the org is the caller's personal one.
pub resolve_context_sound :
    (db : Db) (user_id : Text) (org_id drive_id : Option Text) (c : ResolvedContext)
    → resolve_context db user_id org_id drive_id ≡ ok c
    → IsAllowed db user_id c
      × ((d : Text) → given drive_id ≡ some d → c.drive_id ≡ d)
      × ((o : Text) → given org_id ≡ some o → c.org_id ≡ o)
      × (given drive_id ≡ none → IsDefault db c)
      × (given drive_id ≡ none
          → given org_id ≡ none
          → (m : Member) × (find_personal_org db user_id ≡ some m) × (c.org_id ≡ m.scope))
unfolding resolve_context
resolve_context_sound db user_id org_id drive_id c h = elim (Option-cases (given drive_id)) [
  | inr (d, pinned) ↦
      let ran : explicit_drive db user_id (given org_id) d ≡ ok c = ground arith in
      let (allowed, same, org) = explicit_drive_inv db user_id (given org_id) d ran in
      (
        allowed,
        λ d' e. ground arith,
        org,
        λ e. absurd (ground (arith, sym pinned ∙ e)),
        λ e e'. absurd (ground (arith, sym pinned ∙ e)),
      )
  | inl no_drive ↦ elim (Option-cases (given org_id)) [
    | inr (o, pinned) ↦
        let ran : default_drive db user_id o ≡ ok c = ground arith in
        let inv = default_drive_inv db user_id o ran in
        (
          inv.0,
          λ d e. ground arith,
          λ o' e. ground (arith, inv.1),
          λ e. default_drive-IsDefault db user_id o ran,
          λ e e'. absurd (ground (arith, sym pinned ∙ e')),
        )
    | inl no_org ↦
        let (allowed, default, personal) = personal_drive_inv db user_id (ground arith) in
        (allowed, λ d e. ground arith, λ o e. ground arith, λ e. default, λ e e'. personal)
  ]
]
