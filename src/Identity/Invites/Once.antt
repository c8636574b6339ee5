-- ===== src/Identity/Invites/Once.antt =====
-- An invite is accepted once, whatever happens to the invites afterwards.
use agent_fs.Prelude.{
  ℕ, ◌≡◌, refl, subst, ◌∙◌, inl, inr, false, Option, none, some, List, [], ◌∷◌, Text, ◌===◌, arith,
  any, any-append, find?, Bool-cases, Option-cases,
}
use agent_fs.Errors.{Result, ok, err, not_found, ◌>>=◌}
use agent_fs.Identity.{Db}
use agent_fs.Identity.Invites.{
  is_member, User, Invite, InviteDb, InviteParams, DriveGrant, Fresh, by_token, revoked, accepted,
  is_open_for, is_open_id, is_open_of, get_invite_by_token, revoke_open_invite_for_email,
  create_pending_invite, consumed, accept_found, accept_invite, revoke_invite, invite_to_org,
  invite_account, add_at_once, new_invite, resolve_user_by_email, is_user, looked_up,
  resolve_invite_grants,
}
use agent_fs.Identity.Invites.Closed.{
  IsClosed, IsUniqueToken, update-IsClosed, accepted-IsClosed, closed-refused,
}

-- What holds of a result, if there is one.
abbrev OnResult : (InviteDb → Type 0) → Result InviteDb → Type 0
OnResult Q r = (db : InviteDb) → r ≡ ok db → Q db

bind-OnResult {ℓ} :
    {A : Type ℓ} (Q : InviteDb → Type 0) (r : Result A) (f : A → Result InviteDb)
    → ((a : A) → r ≡ ok a → OnResult Q (f a))
    → OnResult Q (r >>= f)
bind-OnResult Q (ok a) f h db e = h a refl db e
bind-OnResult Q (err x) f h db e = ground arith

ok-OnResult : (Q : InviteDb → Type 0) (db : InviteDb) → Q db → OnResult Q (ok db)
ok-OnResult Q db q db' e = let same : db ≡ db' = ground (arith, e) in subst Q same q

abbrev Closes : Text → InviteDb → Type 0
Closes h db = IsClosed h db.invites

revoke_open-Closes :
    (h : Text) (db : InviteDb) (org_id email : Text) (now : ℕ)
    → Closes h db
    → Closes h (revoke_open_invite_for_email db org_id email now)
unfolding revoke_open_invite_for_email
revoke_open-Closes h db org_id email now c =
    update-IsClosed h (is_open_for org_id email) (revoked now) db.invites (λ r. ground arith) c

pending-Closes :
    (h : Text) (db : InviteDb) (params : InviteParams) (grants : List DriveGrant)
    (invited_by : Text) (fresh : Fresh) (now : ℕ)
    → fresh.token_hash === h ≡ false
    → Closes h db
    → Closes h (create_pending_invite db params grants invited_by fresh now)
unfolding create_pending_invite
pending-Closes h db params grants invited_by fresh now new c =
    any-append (by_token h) _ (new_invite params grants invited_by fresh now ∷ [])
    ∙ rw (revoke_open-Closes h db params.org_id _ now c, new) refl

invite_account-Closes :
    (h : Text) (db : InviteDb) (params : InviteParams) (grants : List DriveGrant)
    (user : Option User) (fresh : Fresh) (now : ℕ)
    → fresh.token_hash === h ≡ false
    → Closes h db
    → OnResult (Closes h) (invite_account db params grants user fresh now)
invite_account-Closes h db params grants none fresh now new c =
    elim (Option-cases params.invited_by) [
      | inl e ↦ λ db' r. ground (arith, (rw (e, invite_account) at r))
      | inr (a, e) ↦
          rw (e, invite_account)
            (ok-OnResult (Closes h) (create_pending_invite db params grants a fresh now)
              (pending-Closes h db params grants a fresh now new c))
    ]
invite_account-Closes h db params grants (some user) fresh now new c =
    let added =
      ok-OnResult (Closes h) (add_at_once db params grants user now)
        (revoke_open-Closes h _ params.org_id user.email now c) in
    elim (Option-cases params.invited_by) [
      | inl e ↦ rw (e, invite_account) added
      | inr (a, e) ↦ elim (Bool-cases (is_member db.identity user.id params.org_id)) [
        | inl m ↦ rw (e, invite_account) (rw m added)
        | inr n ↦
            rw (e, invite_account)
              (rw n (
                ok-OnResult (Closes h) (create_pending_invite db params grants a fresh now)
                  (pending-Closes h db params grants a fresh now new c)))
      ]
    ]

invite_to_org-Closes :
    (h : Text) (db : InviteDb) (params : InviteParams) (fresh : Fresh) (now : ℕ)
    → fresh.token_hash === h ≡ false
    → Closes h db
    → OnResult (Closes h) (invite_to_org db params fresh now)
unfolding invite_to_org
invite_to_org-Closes h db params fresh now new c =
    bind-OnResult (Closes h)
      (looked_up (resolve_user_by_email db.users params.email) params.invited_by) _
      (λ user e.
        bind-OnResult (Closes h)
          (resolve_invite_grants db.identity params.org_id params.role params.drives) _
          (λ grants e'. invite_account-Closes h db params grants user fresh now new c))

accept_found-Closes :
    (h : Text) (db : InviteDb) (o : Option Invite) (user_id : Text) (now : ℕ)
    → ((invite : Invite) → o ≡ some invite → Closes h (consumed db invite user_id now))
    → OnResult (Closes h) (accept_found db o user_id now)
accept_found-Closes h db none user_id now shut = λ db' e. ground arith
accept_found-Closes h db (some invite) user_id now shut =
    bind-OnResult (Closes h) (is_user user_id (resolve_user_by_email db.users invite.email)) _
      (λ u e. elim (Bool-cases (any (is_open_id invite.id) db.invites)) [
        | inl there ↦
            rw there (ok-OnResult (Closes h) (consumed db invite user_id now) (shut invite refl))
        | inr gone ↦ λ db' r. ground (arith, (rw gone at r))
      ])

accept_invite-Closes :
    (hash : Text → Text) (h : Text) (db : InviteDb) (token user_id : Text) (now : ℕ)
    → Closes h db
    → OnResult (Closes h) (accept_invite hash db token user_id now)
unfolding accept_invite
accept_invite-Closes hash h db token user_id now c =
    accept_found-Closes h db _ user_id now (λ invite e.
      update-IsClosed h (is_open_id invite.id) (accepted user_id now) db.invites (λ r. refl) c)

revoke_invite-Closes :
    (h : Text) (db : InviteDb) (org_id id : Text) (now : ℕ)
    → Closes h db
    → OnResult (Closes h) (revoke_invite db org_id id now)
unfolding revoke_invite
revoke_invite-Closes h db org_id id now c =
    elim (Bool-cases (any (is_open_of org_id id) db.invites)) [
      | inl there ↦ rw there (
          ok-OnResult (Closes h) _ (
            update-IsClosed h (is_open_of org_id id) (revoked now) db.invites (λ r. ground arith)
              c))
      | inr gone ↦ λ db' r. ground (arith, (rw gone at r))
    ]

-- An operation on the invites of any org, no new invite of which draws the digest h; or any change
-- of the other tables.
pub data Change (hash : Text → Text) (h : Text) (db : InviteDb) : InviteDb → Type 0 where
  invited :
      (params : InviteParams) (fresh : Fresh) (now : ℕ) (db' : InviteDb)
      → fresh.token_hash === h ≡ false
      → invite_to_org db params fresh now ≡ ok db'
      → Change hash h db db'
  took :
      (token user_id : Text) (now : ℕ) (db' : InviteDb)
      → accept_invite hash db token user_id now ≡ ok db'
      → Change hash h db db'
  withdrawn :
      (org_id id : Text) (now : ℕ) (db' : InviteDb)
      → revoke_invite db org_id id now ≡ ok db'
      → Change hash h db db'
  elsewhere :
      (identity : Db) (users : List User)
      → Change hash h db (record db { identity = identity; users = users })

pub data Changes (hash : Text → Text) (h : Text) (db : InviteDb) : InviteDb → Type 0 where
  start : Changes hash h db db
  then_change :
      {db' db'' : InviteDb}
      → Changes hash h db db'
      → Change hash h db' db''
      → Changes hash h db db''

Change-Closes :
    {hash : Text → Text} {h : Text} {db db' : InviteDb}
    → Change hash h db db'
    → Closes h db
    → Closes h db'
Change-Closes {hash} {h} {db} (invited params fresh now db' new e) c =
    invite_to_org-Closes h db params fresh now new c db' e
Change-Closes {hash} {h} {db} (took token user_id now db' e) c =
    accept_invite-Closes hash h db token user_id now c db' e
Change-Closes {hash} {h} {db} (withdrawn org_id id now db' e) c =
    revoke_invite-Closes h db org_id id now c db' e
Change-Closes (elsewhere identity users) c = c

Changes-Closes :
    {hash : Text → Text} {h : Text} {db db' : InviteDb}
    → Changes hash h db db'
    → Closes h db
    → Closes h db'
Changes-Closes start c = c
Changes-Closes (then_change run change) c = Change-Closes change (Changes-Closes run c)

accepted-Closes :
    (hash : Text → Text) (db db' : InviteDb) (token user_id : Text) (now : ℕ)
    → IsUniqueToken db.invites
    → accept_invite hash db token user_id now ≡ ok db'
    → Closes (hash token) db'
unfolding accept_invite get_invite_by_token
accepted-Closes hash db db' token user_id now u e =
    accept_found-Closes (hash token) db (get_invite_by_token hash db token now) user_id now
      (λ invite found.
        accepted-IsClosed (hash token) user_id now db.invites invite u (found_row invite found))
      db' e
  where
    found_row :
        (invite : Invite)
        → get_invite_by_token hash db token now ≡ some invite
        → find? (by_token (hash token)) db.invites ≡ some invite
    found_row invite h = ground arith

-- With no two invites of one token digest: a token that was accepted is never accepted again. After
-- any number of further invitations, whose tokens have other digests, acceptances, revocations and
-- changes of the members and users, in any order, accepting it is refused as not found, whoever asks
-- and whenever.
pub accepted_once :
    (hash : Text → Text) (db db' db'' : InviteDb) (token user_id other_id : Text) (now later : ℕ)
    → IsUniqueToken db.invites
    → accept_invite hash db token user_id now ≡ ok db'
    → Changes hash (hash token) db' db''
    → accept_invite hash db'' token other_id later ≡ err not_found
accepted_once hash db db' db'' token user_id other_id now later u e run =
    closed-refused hash db'' token other_id later
      (Changes-Closes run (accepted-Closes hash db db' token user_id now u e))
