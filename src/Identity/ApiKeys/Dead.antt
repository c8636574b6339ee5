-- ===== src/Identity/ApiKeys/Dead.antt =====
-- A digest that no key in force has, and the operations that keep it so.
use agent_fs.Prelude.{
  ℕ, ◌≡◌, refl, ap, subst, ◌∙◌, inl, inr, Bool, true, false, ◌&&◌, not, Option, none, some, List,
  [], ◌∷◌, ◌++◌, Text, ◌===◌, eq_of_===, arith, any, any-append, find?, find?-none, Bool-cases,
  Option-cases, if◌then◌else◌, starts_with, starts_with-append,
}
use agent_fs.Errors.{AgentError, Result-cases, ok, err}
use agent_fs.Sql.{update_where}
use agent_fs.Sql.Unique.{any-shrinks}
use agent_fs.Identity.Members.{Reason}
use agent_fs.Identity.ApiKeys.{
  is_stale, is_key_id, Account, KeyRow, KeyDb, Fresh, has_hash, is_account, is_live, by_hash, touch,
  get_user_by_api_key, new_key, create_user_api_key, revoke_row, reset_org_scoped_key,
  is_scoped_key, set_hash, revoke_granted, reset_api_key, reset_api_key_orgless,
  parse_api_key_label, revoke_user_api_key, revoked_primary_prefix, primary_api_key_id,
  is_revocable,
}

abbrev pub in_force : Text → KeyRow → Bool
in_force h k = k.key_hash === h && not k.key.revoked

pub record IsDead (h : Text) (db : KeyDb) : Type 0 where
  pub users : any (has_hash h) db.users ≡ false
  pub keys : any (in_force h) db.keys ≡ false

live_of_force :
    (h : Text) (users : List Account) (keys : List KeyRow)
    → any (in_force h) keys ≡ false
    → any (is_live h users) keys ≡ false
live_of_force h users [] e = refl
live_of_force h users (k ∷ keys) e = ground (arith, live_of_force h users keys)

-- A dead digest authenticates nobody.
pub dead_refused :
    (hash : Text → Text) (db : KeyDb) (key : Text) (now : ℕ)
    → IsDead (hash key) db
    → get_user_by_api_key hash db key now ≡ (db, none)
unfolding get_user_by_api_key
dead_refused hash db key now i =
    rw
      (
        by_hash,
        find?-none (has_hash (hash key)) db.users i.users,
        find?-none (is_live (hash key) db.users) db.keys
            (live_of_force (hash key) db.users db.keys i.keys),
      )
      refl

-- A hash that starts otherwise is not that of a revoked primary key.
pub revoked_hash :
    (h uuid : Text)
    → starts_with h revoked_primary_prefix ≡ false
    → (revoked_primary_prefix ++ uuid) === h ≡ false
revoked_hash h uuid e = elim (Bool-cases ((revoked_primary_prefix ++ uuid) === h)) [
  | inr differ ↦ differ
  | inl same ↦
      let eq = eq_of_=== (revoked_primary_prefix ++ uuid) h same in
      ground (
        arith,
        ap (λ s. starts_with s revoked_primary_prefix) eq,
        starts_with-append revoked_primary_prefix uuid,
        e,
      )
]

guarded-IsDead :
    (h : Text) (b : Bool) (db db' : KeyDb) (x : AgentError)
    → (if b then ok db else err x) ≡ ok db'
    → IsDead h db
    → IsDead h db'
guarded-IsDead h true db db' x e i =
    let same : db ≡ db' = ground (arith, e) in subst (IsDead h) same i
guarded-IsDead h false db db' x e i = ground (arith, e)

module _ (h : Text) (db : KeyDb) (i : IsDead h db) where
  added-IsDead :
      (keys : List KeyRow) (user actor : Text) (org : Option Text) (label : Text) (fresh : Fresh)
      → fresh.key_hash === h ≡ false
      → any (in_force h) keys ≡ false
      → IsDead h (record db { keys = keys ++ new_key user actor org label fresh ∷ [] })
  added-IsDead keys user actor org label fresh new e = record {
    users = i.users;
    keys =
        any-append (in_force h) keys (new_key user actor org label fresh ∷ []) ∙ rw (e, new) refl;
  }

  revoked_force : (w : KeyRow → Bool) → any (in_force h) (update_where w revoke_row db.keys) ≡ false
  revoked_force w = any-shrinks (in_force h) w revoke_row db.keys (λ k e. ground arith) i.keys

  touch-IsDead : (o : Option KeyRow) (now : ℕ) → IsDead h (touch db o now)
  touch-IsDead none now = i
  touch-IsDead (some k) now = elim (Bool-cases (is_stale now k.last_used_at)) [
    | inr fresh ↦ rw fresh i
    | inl stale ↦ rw stale (record {
      users = i.users;
      keys =
          any-shrinks (in_force h) (is_key_id k.key.id) (λ r. record r { last_used_at = some now })
            db.keys (λ r e. e) i.keys;
    })
  ]

  pub create-IsDead :
      (user : Text) (label : Option Text) (actor : Text) (org : Option Text) (fresh : Fresh)
      (db' : KeyDb)
      → fresh.key_hash === h ≡ false
      → create_user_api_key db user label actor org fresh ≡ ok db'
      → IsDead h db'
  unfolding create_user_api_key
  create-IsDead user label actor org fresh db' new e =
      elim (Result-cases (parse_api_key_label label)) [
        | inl (text, valid) ↦
            guarded-IsDead h _ _ db' _ (rw valid at e)
              (added-IsDead db.keys user actor org text fresh new i.keys)
        | inr (x, invalid) ↦ ground (arith, (rw invalid at e))
      ]

  pub reset_org-IsDead :
      (user actor org : Text) (fresh : Fresh) (db' : KeyDb)
      → fresh.key_hash === h ≡ false
      → reset_org_scoped_key db user actor org fresh ≡ ok db'
      → IsDead h db'
  unfolding reset_org_scoped_key
  reset_org-IsDead user actor org fresh db' new e =
      guarded-IsDead h _ _ db' _ e
        (added-IsDead _ user actor (some org) _ fresh new (revoked_force (is_scoped_key user org)))

  pub granted-IsDead :
      (reason : Reason) → IsDead h (record db { keys = revoke_granted reason db.keys })
  unfolding revoke_granted
  granted-IsDead reason = record { users = i.users; keys = revoked_force _ }

  hashed :
      (w : Account → Bool) (new_hash : Text)
      → new_hash === h ≡ false
      → any (has_hash h) (update_where w (set_hash new_hash) db.users) ≡ false
  hashed w new_hash new =
      any-shrinks (has_hash h) w (set_hash new_hash) db.users (λ u e. new) i.users

  pub orgless-IsDead :
      (user new_hash : Text)
      → new_hash === h ≡ false
      → IsDead h (reset_api_key_orgless db user new_hash)
  unfolding reset_api_key_orgless revoke_granted
  orgless-IsDead user new_hash new = record {
    users = hashed (is_account user) new_hash new;
    keys = revoked_force _;
  }

  pub reset-IsDead :
      (user actor new_hash : Text) (db' : KeyDb)
      → new_hash === h ≡ false
      → reset_api_key db user actor new_hash ≡ ok db'
      → IsDead h db'
  unfolding reset_api_key
  reset-IsDead user actor new_hash db' new e = elim (Bool-cases (actor === user)) [
    | inr other ↦ ground (arith, (rw other at e))
    | inl own ↦ guarded-IsDead h _ _ db' _ (rw own at e) (orgless-IsDead user new_hash new)
  ]

  pub revoke-IsDead :
      (user key_id uuid : Text) (db' : KeyDb)
      → starts_with h revoked_primary_prefix ≡ false
      → revoke_user_api_key db user key_id uuid ≡ ok db'
      → IsDead h db'
  unfolding revoke_user_api_key
  revoke-IsDead user key_id uuid db' hex e = elim (Bool-cases (key_id === primary_api_key_id)) [
    | inl primary ↦ guarded-IsDead h _ _ db' _ (rw primary at e) (record {
      users = hashed (is_account user) (revoked_primary_prefix ++ uuid) (revoked_hash h uuid hex);
      keys = i.keys;
    })
    | inr other ↦
        guarded-IsDead h _ _ db' _ (rw other at e)
          (record { users = i.users; keys = revoked_force (is_revocable key_id user) })
  ]

  pub used-IsDead :
      (hash : Text → Text) (key : Text) (now : ℕ) → IsDead h (get_user_by_api_key hash db key now).0
  unfolding get_user_by_api_key
  used-IsDead hash key now = elim (Option-cases (find? (has_hash (hash key)) db.users)) [
    | inl e ↦ rw e (touch-IsDead (find? (is_live (hash key) db.users) db.keys) now)
    | inr (u, e) ↦ rw e i
  ]
