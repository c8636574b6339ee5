-- ===== src/Presence/Owned.antt =====
-- What other users can do to a session.
use agent_fs.Prelude.{
  ℕ, ◌≡◌, refl, sym, ◌∙◌, subst, true, false, Option, some, List, [], ◌∷◌, ◌++◌, Text, arith, ◌===◌,
  ◌==◌, ===_iff, Bool-cases, Option-cases, inl, inr, eq_of_===,
}
use agent_fs.Errors.{ok}
use agent_fs.Sql.{update_where, delete_where}
use agent_fs.Presence.{
  Entry, Published, is_entry, entry_of, fresh, ensured, is_owner, shown, upsert, hidden, remove,
  more, fewer, bind, release, has_none,
}

module _ (id : Text) where
  update_elsewhere :
      (other : Text) (f : Entry → Entry) (entries : List Entry)
      → other === id ≡ false
      → ((e : Entry) → (f e).session_id ≡ e.session_id)
      → entry_of id (update_where (is_entry other) f entries) ≡ entry_of id entries
  unfolding entry_of
  update_elsewhere other f [] differ same = refl
  update_elsewhere other f (x ∷ entries) differ same = elim (Bool-cases (x.session_id === other)) [
    | inr no_entry ↦ rw no_entry (ground (arith, update_elsewhere other f entries differ same))
    | inl its_own ↦
        let not_mine : x.session_id === id ≡ false =
          ground (arith, ===_iff x.session_id other, ===_iff x.session_id id, ===_iff other id) in
        let nor_after : (f x).session_id === id ≡ false = rw (same x) not_mine in
        rw its_own (rw (not_mine, nor_after) (update_elsewhere other f entries differ same))
  ]

  delete_elsewhere :
      (other : Text) (entries : List Entry)
      → other === id ≡ false
      → entry_of id (delete_where (is_entry other) entries) ≡ entry_of id entries
  unfolding entry_of
  delete_elsewhere other [] differ = refl
  delete_elsewhere other (x ∷ entries) differ = elim (Bool-cases (x.session_id === other)) [
    | inr no_entry ↦ rw no_entry (ground (arith, delete_elsewhere other entries differ))
    | inl its_own ↦
        let not_mine : x.session_id === id ≡ false =
          ground (arith, ===_iff x.session_id other, ===_iff x.session_id id, ===_iff other id) in
        rw its_own (rw not_mine (delete_elsewhere other entries differ))
  ]

  append_after :
      (e x : Entry) (entries : List Entry)
      → entry_of id entries ≡ some e
      → entry_of id (entries ++ x ∷ []) ≡ some e
  unfolding entry_of
  append_after e x [] h = ground arith
  append_after e x (y ∷ entries) h = ground (arith, append_after e x entries)

  ensured_after :
      (other u : Text) (now : ℕ) (e : Entry) (entries : List Entry)
      → entry_of id entries ≡ some e
      → entry_of id (ensured other u now entries) ≡ some e
  unfolding ensured
  ensured_after other u now e entries h = elim (Option-cases (entry_of other entries)) [
    | inl missing ↦ rw (missing, ensured) (append_after e (fresh other u now) entries h)
    | inr (x, found) ↦ rw (found, ensured) h
  ]

-- One operation of a user other than u that succeeded, on any session of the drive. A stream ends on
-- an entry of the user who started it.
pub data OtherStep (u : Text) (entries : List Entry) : List Entry → Type 0 where
  upserted :
      (id w email : Text) (name : Option Text) (state : Text) (now : ℕ) (r : List Entry × Published)
      → u === w ≡ false
      → upsert entries id w email name state now ≡ ok r
      → OtherStep u entries r.0
  removed :
      (id w : Text) (r : List Entry × Published)
      → u === w ≡ false
      → remove entries id w ≡ ok r
      → OtherStep u entries r.0
  bound :
      (id w : Text) (now : ℕ) (entries' : List Entry)
      → u === w ≡ false
      → bind entries id w now ≡ ok entries'
      → OtherStep u entries entries'
  released :
      (id w : Text) (x : Entry) (r : List Entry × Published)
      → u === w ≡ false
      → entry_of id entries ≡ some x
      → x.user_id ≡ w
      → release entries id w ≡ ok r
      → OtherStep u entries r.0

pub data OtherRun (u : Text) (entries : List Entry) : List Entry → Type 0 where
  start : OtherRun u entries entries
  then_step :
      {entries' entries'' : List Entry}
      → OtherRun u entries entries'
      → OtherStep u entries' entries''
      → OtherRun u entries entries''

module _ (id u : Text) (entries : List Entry) (e : Entry) (h : entry_of id entries ≡ some e)
    (mine : e.user_id ≡ u) where
  -- An entry that another user owns is another one.
  not_theirs :
      (other w : Text)
      → u === w ≡ false
      → is_owner w (entry_of other entries) ≡ true
      → other === id ≡ false
  not_theirs other w differ owns = elim (Bool-cases (other === id)) [
    | inr apart ↦ apart
    | inl same ↦
        let found : entry_of other entries ≡ some e =
          subst (λ i. entry_of i entries ≡ some e) (sym (eq_of_=== other id same)) h in
        let theirs : e.user_id === w ≡ true = rw found at owns in
        ground (arith, (rw mine at theirs), differ)
  ]

  upserted-kept :
      (other w email : Text) (name : Option Text) (state : Text) (now : ℕ)
      (r : List Entry × Published)
      → u === w ≡ false
      → upsert entries other w email name state now ≡ ok r
      → entry_of id r.0 ≡ some e
  unfolding upsert
  upserted-kept other w email name state now r differ ran =
      elim (Bool-cases (is_owner w (entry_of other entries))) [
        | inr refused ↦ ground arith
        | inl owns ↦
            let written : update_where (is_entry other) (shown state email name now)
                  (ensured other w now entries)
                ≡ r.0 =
              ground arith in
            subst (λ x. entry_of id x ≡ some e) written
              (update_elsewhere id other (shown state email name now) (ensured other w now entries)
                  (not_theirs other w differ owns) (λ x. refl)
                ∙ ensured_after id other w now e entries h)
      ]

  bound-kept :
      (other w : Text) (now : ℕ) (entries' : List Entry)
      → u === w ≡ false
      → bind entries other w now ≡ ok entries'
      → entry_of id entries' ≡ some e
  unfolding bind
  bound-kept other w now entries' differ ran =
      elim (Bool-cases (is_owner w (entry_of other entries))) [
        | inr refused ↦ ground arith
        | inl owns ↦
            let written : update_where (is_entry other) more (ensured other w now entries)
                ≡ entries' =
              ground arith in
            subst (λ x. entry_of id x ≡ some e) written
              (update_elsewhere id other more (ensured other w now entries)
                  (not_theirs other w differ owns) (λ x. refl)
                ∙ ensured_after id other w now e entries h)
      ]

  removed-kept :
      (other w : Text) (r : List Entry × Published)
      → u === w ≡ false
      → remove entries other w ≡ ok r
      → entry_of id r.0 ≡ some e
  unfolding remove
  removed-kept other w r differ ran = elim (Option-cases (entry_of other entries)) [
    | inl missing ↦
        let unchanged : entries ≡ r.0 = ground (arith, (rw (missing, remove) at ran)) in
        subst (λ x. entry_of id x ≡ some e) unchanged h
    | inr (x, found) ↦ elim (Bool-cases (x.user_id === w)) [
      | inr theirs ↦ ground (arith, (rw (found, theirs, remove) at ran))
      | inl owns ↦
          let apart = not_theirs other w differ (rw found owns) in
          elim (Bool-cases (x.bindings == 0)) [
            | inl last ↦
                let written : delete_where (is_entry other) entries ≡ r.0 =
                  ground (arith, (rw (found, owns, last, remove) at ran)) in
                subst (λ x. entry_of id x ≡ some e) written
                  (delete_elsewhere id other entries apart ∙ h)
            | inr more_left ↦
                let written : update_where (is_entry other) hidden entries ≡ r.0 =
                  ground (arith, (rw (found, owns, more_left, remove) at ran)) in
                subst (λ x. entry_of id x ≡ some e) written
                  (update_elsewhere id other hidden entries apart (λ x. refl) ∙ h)
          ]
    ]
  ]

released-kept :
    (id u : Text) (entries : List Entry) (e : Entry) (other w : Text) (x : Entry)
    (r : List Entry × Published)
    → entry_of id entries ≡ some e
    → e.user_id ≡ u
    → u === w ≡ false
    → entry_of other entries ≡ some x
    → x.user_id ≡ w
    → release entries other w ≡ ok r
    → entry_of id r.0 ≡ some e
unfolding release
released-kept id u entries e other w x r h mine differ found owner ran =
    let fewer_left : List Entry = update_where (is_entry other) fewer entries in
    let apart =
      not_theirs id u entries e h mine other w differ
        (rw found (ground (arith, ===_iff x.user_id w))) in
    let kept : entry_of id fewer_left ≡ some e =
      update_elsewhere id other fewer entries apart (λ y. refl) ∙ h in
    elim (Bool-cases (has_none (entry_of other fewer_left))) [
      | inl last ↦ removed-kept id u fewer_left e kept mine other w r differ (rw last at ran)
      | inr some_left ↦
          let written : fewer_left ≡ r.0 = ground (arith, (rw some_left at ran)) in
          subst (λ y. entry_of id y ≡ some e) written kept
    ]

step-kept :
    (id u : Text) (e : Entry) {entries entries' : List Entry}
    → OtherStep u entries entries'
    → entry_of id entries ≡ some e
    → e.user_id ≡ u
    → entry_of id entries' ≡ some e
step-kept id u e {entries} (upserted other w email name state now r differ ran) h mine =
    upserted-kept id u entries e h mine other w email name state now r differ ran
step-kept id u e {entries} (removed other w r differ ran) h mine =
    removed-kept id u entries e h mine other w r differ ran
step-kept id u e {entries} (bound other w now entries' differ ran) h mine =
    bound-kept id u entries e h mine other w now entries' differ ran
step-kept id u e {entries} (released other w x r differ found owner ran) h mine =
    released-kept id u entries e other w x r h mine differ found owner ran

-- The entry of a session that a user owns is out of reach of all others: after any sequence of their
-- upserts, removals, and streams that start and end, on any session ids, it is as it was. Sweeps,
-- which are no user's, are not among these.
pub owned :
    (id u : Text) (e : Entry) {entries entries' : List Entry}
    → entry_of id entries ≡ some e
    → e.user_id ≡ u
    → OtherRun u entries entries'
    → entry_of id entries' ≡ some e
owned id u e h mine start = h
owned id u e h mine (then_step run step) = step-kept id u e step (owned id u e h mine run) mine
