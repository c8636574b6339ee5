-- ===== src/Webhooks/Outbox/Once.antt =====
-- Enqueueing the same comment events again (`enqueueCommentWebhooks` of webhooks/outbox.ts).
use agent_fs.Prelude.{
  ℕ, ◌≡◌, refl, ap, sym, ◌∙◌, Bool, true, false, ◌&&◌, Option, none, some, List, [], ◌∷◌, ◌++◌,
  Text, all, keep_if, ◌===◌, ===_refl, arith, Bool-cases, inl, inr, any-append,
}
use agent_fs.Webhooks.{Subscription, Delivery, WebhookDb}
use agent_fs.Webhooks.Outbox.{
  in_scope, internal_to_webhook, CommentEvent, event_rows, typed_rows, comment_rows, has_key,
  insert_new, enqueue_comment_webhooks,
}
use agent_fs.Webhooks.Outbox.Enqueued.{all-append}

abbrev present : List Delivery → Delivery → Bool
present rows d = has_key d.subscription_id d.event_id rows

present-append :
    (rows : List Delivery) (d e : Delivery)
    → present rows e ≡ true
    → present (rows ++ d ∷ []) e ≡ true
present-append rows d e h =
    any-append (λ r. r.subscription_id === e.subscription_id && r.event_id === e.event_id) rows
      (d ∷ [])
    ∙ rw h refl

present-last : (rows : List Delivery) (d : Delivery) → present (rows ++ d ∷ []) d ≡ true
present-last rows d = ground (
  arith,
  any-append (λ r. r.subscription_id === d.subscription_id && r.event_id === d.event_id) rows
      (d ∷ []),
  ===_refl d.subscription_id,
  ===_refl d.event_id,
)

present-kept :
    (rows new : List Delivery) (e : Delivery)
    → present rows e ≡ true
    → present (insert_new rows new).0 e ≡ true
unfolding insert_new
present-kept rows [] e h = h
present-kept rows (d ∷ new) e h = elim (Bool-cases (has_key d.subscription_id d.event_id rows)) [
  | inl old ↦ rw old (present-kept rows new e h)
  | inr fresh ↦ rw fresh (present-kept (rows ++ d ∷ []) new e (present-append rows d e h))
]

insert_new-old :
    (rows new : List Delivery) (d : Delivery)
    → present rows d ≡ true
    → (insert_new rows (d ∷ new)).0 ≡ (insert_new rows new).0
unfolding insert_new
insert_new-old rows new d h = rw h refl

insert_new-fresh :
    (rows new : List Delivery) (d : Delivery)
    → present rows d ≡ false
    → (insert_new rows (d ∷ new)).0 ≡ (insert_new (rows ++ d ∷ []) new).0
unfolding insert_new
insert_new-fresh rows new d h = rw h refl

all-inserted : (rows new : List Delivery) → all (present (insert_new rows new).0) new ≡ true
all-inserted rows [] = refl
all-inserted rows (d ∷ new) = elim (Bool-cases (present rows d)) [
  | inl old ↦
      ap (λ r. all (present r) (d ∷ new)) (insert_new-old rows new d old)
      ∙ ground (arith, present-kept rows new d old, all-inserted rows new)
  | inr fresh ↦
      ap (λ r. all (present r) (d ∷ new)) (insert_new-fresh rows new d fresh)
      ∙ ground (
        arith,
        present-kept (rows ++ d ∷ []) new d (present-last rows d),
        all-inserted (rows ++ d ∷ []) new,
      )
]

insert_new-present :
    (rows new : List Delivery) → all (present rows) new ≡ true → insert_new rows new ≡ (rows, 0)
unfolding insert_new
insert_new-present rows [] h = refl
insert_new-present rows (d ∷ new) h =
    let old : has_key d.subscription_id d.event_id rows ≡ true = ground arith in
    rw old (insert_new-present rows new (ground arith))

module _ (rows : List Delivery) (draw draw' payload payload' : Text → Text → Text) (at at' : ℕ)
    (subs : List Subscription) where
  same_event :
      (event_id type text text' : Text) (ss : List Subscription)
      → all (present rows) (event_rows draw event_id type text at ss)
        ≡ all (present rows) (event_rows draw' event_id type text' at' ss)
  same_event event_id type t t' [] = refl
  same_event event_id type t t' (s ∷ ss) = ground (arith, same_event event_id type t t' ss)

  same_typed :
      (event_id : Text) (type : Option Text)
      → all (present rows) (typed_rows draw payload event_id type at subs)
        ≡ all (present rows) (typed_rows draw' payload' event_id type at' subs)
  same_typed event_id none = refl
  same_typed event_id (some type) =
      same_event event_id type (payload event_id type) (payload' event_id type) subs

  -- Which subscriptions and events the rows are for does not depend on ids, payloads or times.
  same_rows :
      (events : List CommentEvent)
      → all (present rows) (comment_rows draw payload at subs events)
        ≡ all (present rows) (comment_rows draw' payload' at' subs events)
  same_rows [] = refl
  same_rows (e ∷ events) =
      all-append (present rows)
        (typed_rows draw payload e.event_id (internal_to_webhook e.internal_type) at subs)
        (comment_rows draw payload at subs events)
      ∙ rw (same_typed e.event_id (internal_to_webhook e.internal_type)) (
          rw (same_rows events) (
            sym (
              all-append (present rows)
                (typed_rows draw' payload' e.event_id (internal_to_webhook e.internal_type) at'
                  subs)
                (comment_rows draw' payload' at' subs events))))

-- Enqueueing the same comment events again, with whatever ids, payloads and time, adds no delivery.
pub enqueued_once :
    (db : WebhookDb) (org_id drive_id : Text) (events : List CommentEvent)
    (draw draw' payload payload' : Text → Text → Text) (at at' : ℕ)
    → enqueue_comment_webhooks
        (enqueue_comment_webhooks db org_id drive_id events draw payload at).0
        org_id
        drive_id
        events
        draw'
        payload'
        at'
      ≡ ((enqueue_comment_webhooks db org_id drive_id events draw payload at).0, 0)
unfolding enqueue_comment_webhooks
enqueued_once db org_id drive_id events draw draw' payload payload' at at' =
    let subs : List Subscription = keep_if (in_scope org_id drive_id) db.subscriptions in
    let rows : List Delivery =
      (insert_new db.deliveries (comment_rows draw payload at subs events)).0 in
    rw
      (insert_new-present rows (comment_rows draw' payload' at' subs events) (
        sym (same_rows rows draw draw' payload payload' at at' subs events)
        ∙ all-inserted db.deliveries (comment_rows draw payload at subs events)))
      refl
