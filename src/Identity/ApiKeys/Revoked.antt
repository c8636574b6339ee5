-- ===== src/Identity/ApiKeys/Revoked.antt =====
-- A revoked key authenticates nobody, whatever happens to the keys afterwards.
use agent_fs.Prelude.{
  ℕ, ◌≡◌, refl, sym, subst, ◌∙◌, inl, inr, true, false, Option, none, some, [], ◌∷◌, ◌++◌, Text,
  ◌===◌, ===_refl, arith, any, any-append, find?, find?-holds, any_of_find?, Bool-cases,
  Option-cases, starts_with,
}
use agent_fs.Errors.{ok}
use agent_fs.Sql.Unique.{IsUnique, any_of_found, none_other, found_fails, one_left}
use agent_fs.Identity.Members.{Reason}
use agent_fs.Identity.ApiKeys.{
  Account, KeyRow, KeyDb, Authenticated, Fresh, has_hash, is_account, is_live, by_hash, as_primary,
  as_holder, get_user_by_api_key, create_user_api_key, revoke_row, reset_org_scoped_key, set_hash,
  revoke_granted, reset_api_key, reset_api_key_orgless, revoke_user_api_key, revoked_primary_prefix,
  primary_api_key_id, has_primary, is_revocable,
}
use agent_fs.Identity.ApiKeys.Dead.{
  IsDead, in_force, revoked_hash, create-IsDead, reset_org-IsDead, reset-IsDead, orgless-IsDead,
  granted-IsDead, revoke-IsDead, used-IsDead, dead_refused,
}

-- The digest h is of one key at most: the column of `user_api_keys` has a unique index, and no key
-- is drawn twice. No row of `user_api_keys` has the id of the primary key, and h does not start as
-- the hash of a revoked primary key does.
pub record IsSound (h : Text) (db : KeyDb) : Type 0 where
  pub users : IsUnique (λ (u : Account). u.api_key_hash) db.users
  pub keys : IsUnique (λ (k : KeyRow). k.key_hash) db.keys
  pub apart : any (has_hash h) db.users ≡ true → any (λ k. k.key_hash === h) db.keys ≡ false
  pub ids : any (λ k. k.key.id === primary_api_key_id) db.keys ≡ false
  pub hex : starts_with h revoked_primary_prefix ≡ false

module _ (h : Text) (db : KeyDb) (s : IsSound h db) where
  primary-IsDead :
      (uuid : Text) (u : Account) (db' : KeyDb)
      → find? (has_hash h) db.users ≡ some u
      → revoke_user_api_key db u.id primary_api_key_id uuid ≡ ok db'
      → IsDead h db'
  unfolding revoke_user_api_key
  primary-IsDead uuid u db' found e =
      elim (Bool-cases (has_primary (find? (is_account u.id) db.users))) [
        | inr none_left ↦ ground (arith, (rw (===_refl primary_api_key_id, none_left) at e))
        | inl there ↦
            let same = rw (===_refl primary_api_key_id, there) at e in
            let hashed = any_of_found (has_hash h) (has_hash h) db.users u (λ r p. p) found in
            subst (IsDead h) (ground (arith, same)) (record {
              users =
                  one_left (λ (u : Account). u.api_key_hash) h (has_hash h) (has_hash h)
                    (is_account u.id) (set_hash (revoked_primary_prefix ++ uuid)) db.users u
                    (λ r p. p) (λ r p. p) (λ r. revoked_hash h uuid s.hex) s.users found
                    (===_refl u.id);
              keys =
                  none_other (in_force h) (λ k. k.key_hash === h) db.keys (λ k p. ground arith)
                    (s.apart hashed);
            })
      ]

  key-IsDead :
      (uuid : Text) (k : KeyRow) (db' : KeyDb)
      → find? (has_hash h) db.users ≡ none
      → find? (is_live h db.users) db.keys ≡ some k
      → revoke_user_api_key db k.key.user k.key.id uuid ≡ ok db'
      → IsDead h db'
  unfolding revoke_user_api_key
  key-IsDead uuid k db' no_user found e =
      let other = found_fails (is_live h db.users) _ db.keys k s.ids found in
      let live = find?-holds (is_live h db.users) db.keys k found in
      elim (Bool-cases (any (is_revocable k.key.id k.key.user) db.keys)) [
        | inr none_left ↦ ground (arith, (rw (other, none_left) at e))
        | inl there ↦
            let same = rw (other, there) at e in
            subst (IsDead h) (ground (arith, same)) (record {
              users = any_of_find? (has_hash h) db.users no_user;
              keys =
                  one_left (λ (k : KeyRow). k.key_hash) h (is_live h db.users) (in_force h)
                    (is_revocable k.key.id k.key.user) revoke_row db.keys k (λ r p. ground arith)
                    (λ r p. ground arith) (λ r. ground arith) s.keys found
                    (ground (arith, ===_refl k.key.id, ===_refl k.key.user, live));
            })
      ]

  -- Revoking the key that authenticates leaves its digest dead.
  revoked-IsDead :
      (uuid : Text) (who : Authenticated) (db' : KeyDb)
      → by_hash db h ≡ some who
      → revoke_user_api_key db who.id who.key_id uuid ≡ ok db'
      → IsDead h db'
  revoked-IsDead uuid who db' found e = elim (Option-cases (find? (has_hash h) db.users)) [
    | inr (u, hit) ↦
        let same : as_primary u ≡ who = ground (arith, (rw (by_hash, hit) at found)) in
        primary-IsDead uuid u db' hit (
          subst (λ (w : Authenticated). revoke_user_api_key db w.id w.key_id uuid ≡ ok db')
            (sym same) e)
    | inl no_user ↦ elim (Option-cases (find? (is_live h db.users) db.keys)) [
      | inl no_key ↦ ground (arith, (rw (by_hash, no_user, no_key) at found))
      | inr (k, hit) ↦
          let same : as_holder db.users k ≡ who =
            ground (arith, (rw (by_hash, no_user, hit) at found)) in
          key-IsDead uuid k db' no_user hit (
            subst (λ (w : Authenticated). revoke_user_api_key db w.id w.key_id uuid ≡ ok db')
              (sym same) e)
    ]
  ]

-- An operation on the keys of any user, no new hash of which is h; or a use of any key; or a change
-- of the memberships that ends grants; or a new user.
pub data Change (h : Text) (db : KeyDb) : KeyDb → Type 0 where
  created :
      (user : Text) (label : Option Text) (actor : Text) (scope : Option Text) (fresh : Fresh)
      (db' : KeyDb)
      → fresh.key_hash === h ≡ false
      → create_user_api_key db user label actor scope fresh ≡ ok db'
      → Change h db db'
  org_reset :
      (user actor org : Text) (fresh : Fresh) (db' : KeyDb)
      → fresh.key_hash === h ≡ false
      → reset_org_scoped_key db user actor org fresh ≡ ok db'
      → Change h db db'
  self_reset :
      (user actor new_hash : Text) (db' : KeyDb)
      → new_hash === h ≡ false
      → reset_api_key db user actor new_hash ≡ ok db'
      → Change h db db'
  self_reset_orgless :
      (user new_hash : Text)
      → new_hash === h ≡ false
      → Change h db (reset_api_key_orgless db user new_hash)
  withdrawn :
      (user key_id uuid : Text) (db' : KeyDb)
      → revoke_user_api_key db user key_id uuid ≡ ok db'
      → Change h db db'
  used :
      (hash : Text → Text) (key : Text) (now : ℕ)
      → Change h db (get_user_by_api_key hash db key now).0
  grants_ended :
      (reason : Reason) → Change h db (record db { keys = revoke_granted reason db.keys })
  registered :
      (u : Account) → has_hash h u ≡ false → Change h db (record db { users = db.users ++ u ∷ [] })

pub data Changes (h : Text) (db : KeyDb) : KeyDb → Type 0 where
  start : Changes h db db
  then_change : {db' db'' : KeyDb} → Changes h db db' → Change h db' db'' → Changes h db db''

Change-IsDead :
    {h : Text} {db db' : KeyDb}
    → starts_with h revoked_primary_prefix ≡ false
    → Change h db db'
    → IsDead h db
    → IsDead h db'
Change-IsDead {h} {db} hex (created user label actor scope fresh db' new e) i =
    create-IsDead h db i user label actor scope fresh db' new e
Change-IsDead {h} {db} hex (org_reset user actor org fresh db' new e) i =
    reset_org-IsDead h db i user actor org fresh db' new e
Change-IsDead {h} {db} hex (self_reset user actor new_hash db' new e) i =
    reset-IsDead h db i user actor new_hash db' new e
Change-IsDead {h} {db} hex (self_reset_orgless user new_hash new) i =
    orgless-IsDead h db i user new_hash new
Change-IsDead {h} {db} hex (withdrawn user key_id uuid db' e) i =
    revoke-IsDead h db i user key_id uuid db' hex e
Change-IsDead {h} {db} hex (used hash key now) i = used-IsDead h db i hash key now
Change-IsDead {h} {db} hex (grants_ended reason) i = granted-IsDead h db i reason
Change-IsDead {h} {db} hex (registered u new) i = record {
  users = any-append (has_hash h) db.users (u ∷ []) ∙ rw (i.users, new) refl;
  keys = i.keys;
}

Changes-IsDead :
    {h : Text} {db db' : KeyDb}
    → starts_with h revoked_primary_prefix ≡ false
    → Changes h db db'
    → IsDead h db
    → IsDead h db'
Changes-IsDead hex start i = i
Changes-IsDead hex (then_change run change) i = Change-IsDead hex change (Changes-IsDead hex run i)

-- With digests that are unique in the two tables, no row of `user_api_keys` under the id of the
-- primary key, and a digest of the key that does not start with "revoked:": when the key
-- authenticates as `who` and the key that `who` names is revoked, then after any number of further
-- creations, resets and revocations of keys, uses of keys, ends of grants and new users, in any
-- order, whose new hashes are other digests, the key authenticates nobody and writes nothing.
pub revoked_key_refused :
    (hash : Text → Text) (db db' db'' : KeyDb) (key uuid : Text) (now later : ℕ)
    (who : Authenticated)
    → IsSound (hash key) db
    → (get_user_by_api_key hash db key now).1 ≡ some who
    → revoke_user_api_key db who.id who.key_id uuid ≡ ok db'
    → Changes (hash key) db' db''
    → get_user_by_api_key hash db'' key later ≡ (db'', none)
unfolding get_user_by_api_key
revoked_key_refused hash db db' db'' key uuid now later who s found e run =
    dead_refused hash db'' key later
      (Changes-IsDead s.hex run (revoked-IsDead (hash key) db s uuid who db' found e))
