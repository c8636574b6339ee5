-- ===== src/Presence/Laws.antt =====
-- The registry's invariant when a stream is bound or a session is published.
use agent_fs.Prelude.{
  ℕ, ◌+◌, ◌≤◌, ◌≡◌, refl, sym, subst, ◌∙◌, true, false, not, ◌&&◌, ◌||◌, Option, List, Text, arith,
  ◌===◌, ===_iff, Bool-cases, inl, inr, leb,
}
use agent_fs.Errors.{ok}
use agent_fs.Sql.{update_where, count_where, all-update}
use agent_fs.Presence.{
  Entry, Published, max_sessions, is_entry, entry_of, publishes, ensured, is_owner, is_published,
  shown, upsert, more, bind,
}
use agent_fs.Presence.Counts.{bit, count-update}
use agent_fs.Presence.Ensured.{is_live, IsPresence, Ensured, ensured_lem, update-IsUnique}

-- A write to the entry of the session that leaves it live and keeps its key.
module _ (entries : List Entry) (id u : Text) (now : ℕ) (f : Entry → Entry) where
  put-IsPresence :
      (x : Ensured entries id u now)
      → ((e : Entry) → (f e).session_id ≡ e.session_id)
      → ((e : Entry) → is_live (f e) ≡ true)
      → ((v : Text)
          → count_where (publishes v) entries + bit (publishes v (f x.entry))
            ≤ max_sessions + bit (publishes v x.entry))
      → IsPresence (update_where (is_entry id) f (ensured id u now entries))
  put-IsPresence x key alive room = record {
    unique = update-IsUnique (is_entry id) f (ensured id u now entries) key x.unique;
    live =
        all-update (λ e. is_entry id e || is_live e) is_live (is_entry id) f
          (ensured id u now entries) (λ e w h. alive e) (λ e w h. ground arith) x.nearly;
    bounded = λ v. omega (
      arith,
      room v,
      x.counts v,
      count-update (publishes v) id f (ensured id u now entries) x.entry x.unique x.found,
    );
  }

pub bind-IsPresence :
    (entries : List Entry) (id u : Text) (now : ℕ) (entries' : List Entry)
    → bind entries id u now ≡ ok entries'
    → IsPresence entries
    → IsPresence entries'
unfolding bind
bind-IsPresence entries id u now entries' h p =
    elim (Bool-cases (is_owner u (entry_of id entries))) [
      | inr other ↦ ground arith
      | inl mine ↦
          subst IsPresence {x = update_where (is_entry id) more (ensured id u now entries)}
            (ground arith)
            (put-IsPresence entries id u now more (ensured_lem entries id u now p) (λ e. refl)
              (λ e. ground arith) (λ v. omega (arith, p.bounded v)))
    ]

-- An upsert that goes through has room for the user's session.
room_of :
    (entries : List Entry) (id u state email : Text) (name : Option Text) (now : ℕ)
    (x : Ensured entries id u now)
    → IsPresence entries
    → is_owner u (entry_of id entries) ≡ true
    → (not (is_published (entry_of id entries))
        && leb max_sessions (count_where (publishes u) entries))
      ≡ false
    → (v : Text)
    → count_where (publishes v) entries + bit (publishes v (shown state email name now x.entry))
      ≤ max_sessions + bit (publishes v x.entry)
room_of entries id u state email name now x p mine room v =
    elim (Bool-cases (x.entry.user_id === v)) [
      | inr other ↦ ground (arith, p.bounded v)
      | inl here ↦
          let user : u ≡ v = sym (x.owner mine) ∙ (===_iff x.entry.user_id v).0 here in
          ground (
            arith,
            p.bounded v,
            x.same,
            user,
            subst
                (λ y.
                  (not (is_published (entry_of id entries))
                    && leb max_sessions (count_where (publishes y) entries))
                  ≡ false)
                user room,
          )
    ]

pub upsert-IsPresence :
    (entries : List Entry) (id u email : Text) (name : Option Text) (state : Text) (now : ℕ)
    (r : List Entry × Published)
    → upsert entries id u email name state now ≡ ok r
    → IsPresence entries
    → IsPresence r.0
unfolding upsert
upsert-IsPresence entries id u email name state now r h p =
    let x = ensured_lem entries id u now p in
    elim (Bool-cases (is_owner u (entry_of id entries))) [
      | inr other ↦ ground arith
      | inl mine ↦
          elim (Bool-cases (
            not (is_published (entry_of id entries))
            && leb max_sessions (count_where (publishes u) entries))) [
              | inl full ↦ ground arith
              | inr room ↦
                  subst IsPresence
                    {x = update_where (is_entry id) (shown state email name now)
                      (ensured id u now entries)}
                    (ground arith)
                    (put-IsPresence entries id u now (shown state email name now) x (λ e. refl)
                      (λ e. ground arith) (room_of entries id u state email name now x p mine room))
            ]
    ]
