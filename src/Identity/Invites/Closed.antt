-- ===== src/Identity/Invites/Closed.antt =====
-- A token that no open invite has: it can never be accepted again.
use agent_fs.Prelude.{
  find?-none, ℕ, ◌≡◌, refl, subst, inl, inr, Bool, false, some, List, [], ◌∷◌, Text, ◌===◌, ===_iff,
  ===_refl, arith, any, find?, Bool-cases,
}
use agent_fs.Errors.{err, not_found}
use agent_fs.Sql.{update_where}
use agent_fs.Identity.Invites.{
  Invite, InviteDb, is_open, by_token, accepted, is_open_id, get_invite_by_token, accept_invite,
  is_token,
}

-- no open invite has a token of this digest
abbrev pub IsClosed : Text → List Invite → Type 0
IsClosed h rows = any (by_token h) rows ≡ false

-- the unique index on the digest
abbrev pub IsUniqueToken : List Invite → Type 0
IsUniqueToken [] = Unit
IsUniqueToken (r ∷ rows) =
    (any (λ x. x.token_hash === r.token_hash) rows ≡ false) × IsUniqueToken rows

pub update-IsClosed :
    (h : Text) (w : Invite → Bool) (f : Invite → Invite) (rows : List Invite)
    → ((r : Invite) → is_open (f r) ≡ false)
    → IsClosed h rows
    → IsClosed h (update_where w f rows)
update-IsClosed h w f [] shut c = refl
update-IsClosed h w f (r ∷ rows) shut c = ground (arith, shut r, update-IsClosed h w f rows shut)

other-IsClosed :
    (h : Text) (rows : List Invite) → any (λ x. x.token_hash === h) rows ≡ false → IsClosed h rows
other-IsClosed h [] c = refl
other-IsClosed h (r ∷ rows) c = ground (arith, other-IsClosed h rows)

-- Accepting the invite of a token closes the token.
pub accepted-IsClosed :
    (h user_id : Text) (now : ℕ) (rows : List Invite) (invite : Invite)
    → IsUniqueToken rows
    → find? (by_token h) rows ≡ some invite
    → IsClosed h (update_where (is_open_id invite.id) (accepted user_id now) rows)
accepted-IsClosed h user_id now [] invite u e = ground arith
accepted-IsClosed h user_id now (r ∷ rows) invite (new, u) e = elim (Bool-cases (by_token h r)) [
  | inl here ↦
      let same : r ≡ invite = ground (arith, (rw here at e)) in
      let hash : r.token_hash ≡ h = ground (arith, ===_iff r.token_hash h) in
      let rest : IsClosed h rows =
        subst (λ x. IsClosed x rows) hash (other-IsClosed r.token_hash rows new) in
      subst (λ x. IsClosed h (update_where (is_open_id x.id) (accepted user_id now) (r ∷ rows)))
        same
        (ground (
          arith,
          ===_refl r.id,
          update-IsClosed h (is_open_id r.id) (accepted user_id now) rows (λ x. refl) rest,
        ))
  | inr other ↦
      let rest = accepted-IsClosed h user_id now rows invite u (rw other at e) in
      ground (arith, rest)
]

-- A refused token.
pub closed-refused :
    (hash : Text → Text) (db : InviteDb) (token user_id : Text) (now : ℕ)
    → IsClosed (hash token) db.invites
    → accept_invite hash db token user_id now ≡ err not_found
unfolding accept_invite get_invite_by_token
closed-refused hash db token user_id now c =
    let none_found = find?-none (by_token (hash token)) db.invites c in
    elim (Bool-cases (is_token token)) [ inl t ↦ rw (t, none_found) refl | inr t ↦ rw t refl ]
