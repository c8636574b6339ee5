-- ===== src/Identity/Invites/Accepted.antt =====
-- What an acceptance grants.
use agent_fs.Prelude.{
  ℕ, ◌≡◌, ◌≤◌, refl, sym, subst, ◌∙◌, inl, inr, Bool, true, false, ◌&&◌, Option, none, some, List,
  [], ◌∷◌, Text, ◌===◌, eq_of_===, arith, All, any, keep_if, Bool-cases, if◌then◌else◌,
}
use agent_fs.Errors.{Result, ok, err, not_found, ◌>>◌}
use agent_fs.Identity.{Role, role_level, Member, Db, role_of}
use agent_fs.Identity.Grants.{grant_org_role, grant_drive_role}
use agent_fs.Identity.Grants.Laws.{IsRaised, grant_org_role-IsRaised, grant_drive_role-IsRaised}
use agent_fs.Identity.Invites.{
  User, DriveGrant, Invite, InviteDb, Lookup, found, no_user, ambiguous, resolve_user_by_email,
  get_invite_by_token, drive_exists, grant_drives, is_open_id, is_user, consumed, accept_found,
  accept_invite,
}

-- The member has at least this role.
abbrev pub HoldsRole : List Member → Text → Text → Role → Type 0
HoldsRole rows scope user role =
    (held : Role) × (role_of scope user rows ≡ some held) × (role_level role ≤ role_level held)

-- Nobody's role is lowered, and only one user's are changed.
pub record IsRaise (user : Text) (before after : List Member) : Type 0 where
  pub kept : (s u : Text) (r : Role) → role_of s u before ≡ some r → HoldsRole after s u r
  pub others : (s u : Text) → user === u ≡ false → role_of s u after ≡ role_of s u before

IsRaise-refl : (user : Text) (rows : List Member) → IsRaise user rows rows
IsRaise-refl user rows = record { kept = λ s u r h. (r, h, (omega arith)); others = λ s u d. refl }

IsRaise-trans :
    (user : Text) (x y z : List Member) → IsRaise user x y → IsRaise user y z → IsRaise user x z
IsRaise-trans user x y z a b = record {
  kept = λ s u r h.
      let (r1, h1, l1) = a.kept s u r h in
      let (r2, h2, l2) = b.kept s u r1 h1 in (r2, h2, (omega arith));
  others = λ s u d. b.others s u d ∙ a.others s u d;
}

raised-IsRaise :
    (x y : List Member) (scope user : Text) (role held : Role)
    → IsRaised x y scope user role held
    → IsRaise user x y
raised-IsRaise x y scope user role held i = record {
  kept = λ s u r h. elim (Bool-cases (scope === s && user === u)) [
    | inl here ↦
        let same_scope = eq_of_=== scope s (ground arith) in
        let same_user = eq_of_=== user u (ground arith) in
        (
          held,
          rw (sym same_scope, sym same_user) i.reported,
          i.kept r (rw (same_scope, same_user) h),
        )
    | inr other ↦ (r, i.others s u other ∙ h, (omega arith))
  ];
  others = λ s u d. i.others s u (ground (arith, d));
}

module _ (user : Text) where
  grant_drives-members :
      (db : Db) (grants : List DriveGrant)
      → (grant_drives db user grants).org_members ≡ db.org_members
  unfolding grant_drives grant_drive_role
  grant_drives-members db [] = refl
  grant_drives-members db (g ∷ grants) =
      grant_drives-members (grant_drive_role db g.drive_id user g.role).0 grants

  grant_drives-IsRaise :
      (db : Db) (grants : List DriveGrant)
      → IsRaise user db.drive_members (grant_drives db user grants).drive_members
  unfolding grant_drives
  grant_drives-IsRaise db [] = IsRaise-refl user db.drive_members
  grant_drives-IsRaise db (g ∷ grants) =
      let next = (grant_drive_role db g.drive_id user g.role).0 in
      IsRaise-trans user db.drive_members next.drive_members _
        (raised-IsRaise db.drive_members next.drive_members g.drive_id user g.role _
          (grant_drive_role-IsRaised db g.drive_id user g.role).0)
        (grant_drives-IsRaise next grants)

  -- Every drive of the list is granted, also when a later grant names it again.
  grant_drives-held :
      (db : Db) (grants : List DriveGrant)
      → All
          (λ g. HoldsRole (grant_drives db user grants).drive_members g.drive_id user g.role)
          grants
  unfolding grant_drives
  grant_drives-held db [] = tt
  grant_drives-held db (g ∷ grants) =
      let next = (grant_drive_role db g.drive_id user g.role).0 in
      let raised = (grant_drive_role-IsRaised db g.drive_id user g.role).0 in
      let (held, is_held, more) =
        (grant_drives-IsRaise next grants).kept g.drive_id user _ raised.reported in
      ((held, is_held, omega (arith, raised.granted, more)), grant_drives-held next grants)

-- An acceptance by a user: who that is, and what they and the others hold afterwards.
pub record IsAccepted (db db' : InviteDb) (invite : Invite) (user_id : Text) : Type 0 where
  pub account :
      (u : User) × (resolve_user_by_email db.users invite.email ≡ found u) × (u.id ≡ user_id)
  pub org_role : HoldsRole db'.identity.org_members invite.org_id user_id invite.org_role
  pub drive_roles :
      All
        (λ g. HoldsRole db'.identity.drive_members g.drive_id user_id g.role)
        (keep_if (drive_exists db.identity invite.org_id) invite.drives)
  pub org_raise : IsRaise user_id db.identity.org_members db'.identity.org_members
  pub drive_raise : IsRaise user_id db.identity.drive_members db'.identity.drive_members

consumed-IsAccepted :
    (db : InviteDb) (invite : Invite) (user_id : Text) (now : ℕ)
    → is_user user_id (resolve_user_by_email db.users invite.email) ≡ ok tt
    → IsAccepted db (consumed db invite user_id now) invite user_id
unfolding grant_org_role
consumed-IsAccepted db invite user_id now allowed =
    let granted = grant_org_role-IsRaised db.identity invite.org_id user_id invite.org_role in
    let next = (grant_org_role db.identity invite.org_id user_id invite.org_role).0 in
    let grants = keep_if (drive_exists db.identity invite.org_id) invite.drives in
    record {
      account = account (resolve_user_by_email db.users invite.email) allowed;
      org_role =
          rw (grant_drives-members user_id next grants) (_, granted.0.reported, granted.0.granted);
      drive_roles = grant_drives-held user_id next grants;
      org_raise =
          rw (grant_drives-members user_id next grants)
            (raised-IsRaise _ _ invite.org_id user_id invite.org_role _ granted.0);
      drive_raise = grant_drives-IsRaise user_id next grants;
    }
  where
    account :
        (l : Lookup) → is_user user_id l ≡ ok tt → (u : User) × (l ≡ found u) × (u.id ≡ user_id)
    account (found u) h = (u, refl, eq_of_=== u.id user_id (ground arith))
    account no_user h = ground arith
    account ambiguous h = ground arith

passed :
    (r : Result (Unit {0})) (b : Bool) (x y : InviteDb)
    → r >> (if b then ok x else err not_found) ≡ ok y
    → (r ≡ ok tt) × (x ≡ y)
passed (ok u) true x y h = (refl, (ground (arith, h)))
passed (ok u) false x y h = ground arith
passed (err e) b x y h = ground arith

-- An acceptance that succeeds is of the open invite of the token that has not expired, by the
-- account that the invite's email resolves to. That user then holds at least the invite's role in the
-- org, and at least the role of the grant on each of the invite's drives that still exist in the org.
-- No role of anyone in any org or drive is lowered, and no other user's is changed.
pub accept_invite-IsAccepted :
    (hash : Text → Text) (db db' : InviteDb) (token user_id : Text) (now : ℕ)
    → accept_invite hash db token user_id now ≡ ok db'
    → (invite : Invite) × (get_invite_by_token hash db token now ≡ some invite)
      × IsAccepted db db' invite user_id
unfolding accept_invite
accept_invite-IsAccepted hash db db' token user_id now h =
    of_found (get_invite_by_token hash db token now) h
  where
    of_found :
        (o : Option Invite)
        → accept_found db o user_id now ≡ ok db'
        → (invite : Invite) × (o ≡ some invite) × IsAccepted db db' invite user_id
    of_found none e = ground arith
    of_found (some invite) e =
        let (allowed, same) =
          passed (is_user user_id (resolve_user_by_email db.users invite.email))
            (any (is_open_id invite.id) db.invites) (consumed db invite user_id now) db' e in
        (
          invite,
          refl,
          subst (λ x. IsAccepted db x invite user_id) same
              (consumed-IsAccepted db invite user_id now allowed),
        )
