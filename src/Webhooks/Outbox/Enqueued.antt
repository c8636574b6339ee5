-- ===== src/Webhooks/Outbox/Enqueued.antt =====
-- The outbox's invariant under enqueueing.
use agent_fs.Prelude.{
  ℕ, ◌≡◌, refl, ◌∙◌, Bool, true, ◌&&◌, Option, none, some, List, [], ◌∷◌, ◌++◌, Text, all, keep_if,
  ===_refl, arith, Bool-cases, inl, inr,
}
use agent_fs.Webhooks.{Subscription, Delivery, WebhookDb, is_enabled}
use agent_fs.Webhooks.Invariant.{IsSound, is_served, is_unleased}
use agent_fs.Webhooks.Outbox.{
  in_scope, wants_file, file_deliveries, enqueue_file_webhooks, internal_to_webhook, CommentEvent,
  event_rows, typed_rows, comment_rows, has_key, insert_new, enqueue_comment_webhooks,
}

pub all-append {ℓ} :
    {A : Type ℓ} (p : A → Bool) (xs ys : List A) → all p (xs ++ ys) ≡ (all p xs && all p ys)
all-append p [] ys = refl
all-append p (x ∷ xs) ys = ground (arith, all-append p xs ys)

-- New rows of subscriptions that are enabled in `full`.
abbrev is_new : List Subscription → Delivery → Bool
is_new full d = is_enabled full d.subscription_id && is_unleased d

module _ (full : List Subscription) where
  file_rows-is_new :
      (w : Subscription → Bool) (draw : Text → Text) (event_id payload : Text) (at : ℕ)
      (subs : List Subscription)
      → ((s : Subscription) → w s ≡ true → s.enabled ≡ true)
      → ((id : Text) → is_enabled subs id ≡ true → is_enabled full id ≡ true)
      → all (is_new full) (file_deliveries draw event_id payload at (keep_if w subs)) ≡ true
  file_rows-is_new w draw event_id payload at [] on within = refl
  file_rows-is_new w draw event_id payload at (s ∷ subs) on within = ground (
    arith,
    on s,
    within s.id,
    ===_refl s.id,
    file_rows-is_new w draw event_id payload at subs on (λ id h. within id (ground arith)),
  )

  event_rows-is_new :
      (w : Subscription → Bool) (draw : Text → Text → Text) (event_id type payload : Text) (at : ℕ)
      (subs : List Subscription)
      → ((s : Subscription) → w s ≡ true → s.enabled ≡ true)
      → ((id : Text) → is_enabled subs id ≡ true → is_enabled full id ≡ true)
      → all (is_new full) (event_rows draw event_id type payload at (keep_if w subs)) ≡ true
  event_rows-is_new w draw event_id type payload at [] on within = refl
  event_rows-is_new w draw event_id type payload at (s ∷ subs) on within = ground (
    arith,
    on s,
    within s.id,
    ===_refl s.id,
    event_rows-is_new w draw event_id type payload at subs on (λ id h. within id (ground arith)),
  )

  typed_rows-is_new :
      (w : Subscription → Bool) (draw payload : Text → Text → Text) (event_id : Text)
      (type : Option Text) (at : ℕ) (subs : List Subscription)
      → ((s : Subscription) → w s ≡ true → s.enabled ≡ true)
      → ((id : Text) → is_enabled subs id ≡ true → is_enabled full id ≡ true)
      → all (is_new full) (typed_rows draw payload event_id type at (keep_if w subs)) ≡ true
  typed_rows-is_new w draw payload event_id none at subs on within = refl
  typed_rows-is_new w draw payload event_id (some type) at subs on within =
      event_rows-is_new w draw event_id type (payload event_id type) at subs on within

  comment_rows-is_new :
      (w : Subscription → Bool) (draw payload : Text → Text → Text) (at : ℕ)
      (subs : List Subscription) (events : List CommentEvent)
      → ((s : Subscription) → w s ≡ true → s.enabled ≡ true)
      → ((id : Text) → is_enabled subs id ≡ true → is_enabled full id ≡ true)
      → all (is_new full) (comment_rows draw payload at (keep_if w subs) events) ≡ true
  comment_rows-is_new w draw payload at subs [] on within = refl
  comment_rows-is_new w draw payload at subs (e ∷ events) on within = ground (
    arith,
    all-append (is_new full)
        (typed_rows draw payload e.event_id (internal_to_webhook e.internal_type) at
          (keep_if w subs))
        (comment_rows draw payload at (keep_if w subs) events),
    typed_rows-is_new w draw payload e.event_id (internal_to_webhook e.internal_type) at subs on
        within,
    comment_rows-is_new w draw payload at subs events on within,
  )

  all-new :
      (p : Delivery → Bool) (rows : List Delivery)
      → ((d : Delivery) → is_new full d ≡ true → p d ≡ true)
      → all (is_new full) rows ≡ true
      → all p rows ≡ true
  all-new p [] h a = refl
  all-new p (d ∷ rows) h a = ground (arith, h d, all-new p rows h)

all-insert_new :
    (p : Delivery → Bool) (rows new : List Delivery)
    → all p rows ≡ true
    → all p new ≡ true
    → all p (insert_new rows new).0 ≡ true
unfolding insert_new
all-insert_new p rows [] h n = h
all-insert_new p rows (d ∷ new) h n =
    elim (Bool-cases (has_key d.subscription_id d.event_id rows)) [
      | inl old ↦ rw old (all-insert_new p rows new h (ground arith))
      | inr fresh ↦ rw fresh (
          all-insert_new p (rows ++ d ∷ []) new (ground (arith, all-append p rows (d ∷ [])))
            (ground arith))
    ]

pub enqueue_file_webhooks-IsSound :
    (db : WebhookDb) (org_id drive_id path : Text) (draw : Text → Text) (event_id payload : Text)
    (at : ℕ)
    → IsSound db
    → IsSound (enqueue_file_webhooks db org_id drive_id path draw event_id payload at).0
unfolding enqueue_file_webhooks
enqueue_file_webhooks-IsSound db org_id drive_id path draw event_id payload at sound =
    let rows : List Delivery =
      file_deliveries draw event_id payload at
        (keep_if (wants_file org_id drive_id path) db.subscriptions) in
    let fresh =
      file_rows-is_new db.subscriptions (wants_file org_id drive_id path) draw event_id payload at
        db.subscriptions (λ s h. ground arith) (λ id h. h) in
    record {
      served =
          all-append (is_served db.subscriptions) db.deliveries rows
          ∙ rw sound.served (
              all-new db.subscriptions (is_served db.subscriptions) rows (λ d h. ground arith)
                fresh);
      unleased =
          all-append is_unleased db.deliveries rows
          ∙ rw sound.unleased
              (all-new db.subscriptions is_unleased rows (λ d h. ground arith) fresh);
    }

pub enqueue_comment_webhooks-IsSound :
    (db : WebhookDb) (org_id drive_id : Text) (events : List CommentEvent)
    (draw payload : Text → Text → Text) (at : ℕ)
    → IsSound db
    → IsSound (enqueue_comment_webhooks db org_id drive_id events draw payload at).0
unfolding enqueue_comment_webhooks
enqueue_comment_webhooks-IsSound db org_id drive_id events draw payload at sound =
    let rows : List Delivery =
      comment_rows draw payload at (keep_if (in_scope org_id drive_id) db.subscriptions) events in
    let fresh =
      comment_rows-is_new db.subscriptions (in_scope org_id drive_id) draw payload at
        db.subscriptions events (λ s h. ground arith) (λ id h. h) in
    record {
      served =
          all-insert_new (is_served db.subscriptions) db.deliveries rows sound.served (
            all-new db.subscriptions (is_served db.subscriptions) rows (λ d h. ground arith) fresh);
      unleased =
          all-insert_new is_unleased db.deliveries rows sound.unleased
            (all-new db.subscriptions is_unleased rows (λ d h. ground arith) fresh);
    }
