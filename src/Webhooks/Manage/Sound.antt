-- ===== src/Webhooks/Manage/Sound.antt =====
-- The outbox's invariant under the ops of Webhooks/Manage and the pruning.
use agent_fs.Prelude.{
  ℕ, ◌≡◌, refl, ap, sym, subst, ◌∙◌, Bool, true, false, not, ◌&&◌, ◌||◌, Option, some, List, [],
  ◌∷◌, ◌++◌, Text, arith, any, all, ◌===◌, ===_iff, Bool-cases, inl, inr, find?, any-append, leb,
}
use agent_fs.Errors.{ok}
use agent_fs.Sql.{
  update_where, delete_where, all-update, all-impl, all-delete, all-delete_kept, all-and,
  count_where,
}
use agent_fs.Webhooks.{DisabledReason, Subscription, Delivery, WebhookDb, is_enabled, delivery_of}
use agent_fs.Webhooks.Worker.{prune, is_expired}
use agent_fs.Webhooks.Worker.Claims.{IsUnique, all_of_ids, delivery_of-id}
use agent_fs.Webhooks.Manage.{
  webhook_create, new_subscription, updated, is_given, webhook_update, webhook_delete,
  may_redeliver, queued, webhook_redeliver, max_subscriptions_per_org,
}
use agent_fs.Webhooks.Invariant.{
  IsSound, is_served, is_unleased, update_subscriptions-IsSound, disable_subscription-IsSound,
}

pub prune-IsSound : (db : WebhookDb) (now : ℕ) → IsSound db → IsSound (prune db now)
unfolding prune
prune-IsSound db now sound = record {
  served = all-delete (is_served db.subscriptions) (is_expired now) db.deliveries sound.served;
  unleased = all-delete is_unleased (is_expired now) db.deliveries sound.unleased;
}

pub created-IsSound :
    (db : WebhookDb) (row : Subscription)
    → IsSound db
    → IsSound (record db { subscriptions = db.subscriptions ++ row ∷ [] })
created-IsSound db row sound = record {
  served =
      all-impl (is_served db.subscriptions) (is_served (db.subscriptions ++ row ∷ [])) db.deliveries
        (λ d h. ground (
          arith,
          any-append (λ s. s.id === d.subscription_id && s.enabled) db.subscriptions (row ∷ []),
        ))
        sound.served;
  unleased = sound.unleased;
}

pub webhook_create-IsSound :
    (db db' : WebhookDb) (id org_id : Text) (drive_id : Option Text)
    (event_types : Option (List Text)) (path_prefix : Option Text) (now : ℕ)
    → webhook_create db id org_id drive_id event_types path_prefix now ≡ ok db'
    → IsSound db
    → IsSound db'
unfolding webhook_create
webhook_create-IsSound db db' id org_id drive_id event_types path_prefix now h sound =
    elim (Bool-cases (
      leb max_subscriptions_per_org
        (count_where (λ (s : Subscription). s.org_id === org_id) db.subscriptions))) [
          | inl full ↦ ground arith
          | inr room ↦ subst IsSound (ground arith) (
              created-IsSound db (new_subscription id org_id drive_id event_types path_prefix now)
                sound)
        ]

module _ (event_types : Option (Option (List Text))) (path_prefix : Option (Option Text))
    (enabled : Option Bool) (now : ℕ) where
  updated-id : (s : Subscription) → (updated event_types path_prefix enabled now s).id ≡ s.id
  updated-id s = ground arith

  updated-enabled :
      (s : Subscription)
      → s.enabled ≡ true
      → (updated event_types path_prefix enabled now s).enabled ≡ true
  updated-enabled s h = ground arith

  pub webhook_update-IsSound :
      (db : WebhookDb) (row : Subscription)
      → IsSound db
      → IsSound (webhook_update db row event_types path_prefix enabled now)
  unfolding webhook_update
  webhook_update-IsSound db row sound =
      let kept =
        update_subscriptions-IsSound db (λ s. s.id === row.id)
          (updated event_types path_prefix enabled now) updated-id updated-enabled sound in
      elim (Bool-cases (is_given enabled false && row.enabled)) [
        | inl off ↦ rw off (disable_subscription-IsSound _ row.id DisabledReason.manual now kept)
        | inr on ↦ rw on kept
      ]

is_enabled-delete :
    (id j : Text) (subs : List Subscription)
    → j === id ≡ false
    → is_enabled subs j ≡ true
    → is_enabled (delete_where (λ s. s.id === id) subs) j ≡ true
is_enabled-delete id j [] h e = e
is_enabled-delete id j (s ∷ subs) h e =
    ground (arith, is_enabled-delete id j subs, ===_iff s.id id, ===_iff s.id j, ===_iff j id)

pub webhook_delete-IsSound :
    (db : WebhookDb) (row : Subscription) → IsSound db → IsSound (webhook_delete db row)
unfolding webhook_delete
webhook_delete-IsSound db row sound = record {
  served =
      all-delete_kept (is_served db.subscriptions)
        (is_served (delete_where (λ s. s.id === row.id) db.subscriptions))
        (λ d. d.subscription_id === row.id) db.deliveries
        (λ d other h.
          ground (arith, is_enabled-delete row.id d.subscription_id db.subscriptions other))
        sound.served;
  unleased =
      all-delete is_unleased (λ d. d.subscription_id === row.id) db.deliveries sound.unleased;
}

is_enabled-found :
    (id : Text) (subs : List Subscription) (s : Subscription)
    → find? (λ (s : Subscription). s.id === id) subs ≡ some s
    → s.enabled ≡ true
    → is_enabled subs id ≡ true
is_enabled-found id [] s h e = ground arith
is_enabled-found id (t ∷ subs) s h e = ground (arith, is_enabled-found id subs s)

-- The rows that a redelivery may write belong to an enabled subscription.
module _ (db : WebhookDb) (delivery : Delivery) (subscription : Subscription) (now : ℕ) where
  abbrev writable : Delivery → Bool
  writable d =
      not (may_redeliver delivery.id now d) || is_enabled db.subscriptions d.subscription_id

  writable_rows :
      IsUnique db.deliveries
      → delivery_of delivery.id db.deliveries ≡ some delivery
      → find? (λ (s : Subscription). s.id === delivery.subscription_id) db.subscriptions
        ≡ some subscription
      → subscription.enabled ≡ true
      → all writable db.deliveries ≡ true
  writable_rows u row sub on = all_of_ids writable db.deliveries u (λ id d e.
      elim (Bool-cases (d.id === delivery.id)) [
        | inl here ↦
            let same : id ≡ delivery.id =
              sym (delivery_of-id id db.deliveries d e) ∙ (===_iff d.id delivery.id).0 here in
            let known : some d ≡ some delivery =
              sym e ∙ ap (λ i. delivery_of i db.deliveries) same ∙ row in
            ground (
              arith,
              known,
              is_enabled-found delivery.subscription_id db.subscriptions subscription sub on,
            )
        | inr other ↦ ground arith
      ])

  abbrev requeued : WebhookDb
  requeued = record db {
    deliveries = update_where (may_redeliver delivery.id now) (queued now) db.deliveries;
  }

  pub webhook_redeliver-IsSound :
      (db' : WebhookDb)
      → IsUnique db.deliveries
      → delivery_of delivery.id db.deliveries ≡ some delivery
      → find? (λ (s : Subscription). s.id === delivery.subscription_id) db.subscriptions
        ≡ some subscription
      → webhook_redeliver db delivery subscription now ≡ ok db'
      → IsSound db
      → IsSound db'
  unfolding webhook_redeliver
  webhook_redeliver-IsSound db' u row sub h sound = elim (Bool-cases subscription.enabled) [
    | inr off ↦ ground arith
    | inl on ↦ elim (Bool-cases (any (may_redeliver delivery.id now) db.deliveries)) [
      | inr none_free ↦ ground arith
      | inl free ↦ subst IsSound {x = requeued} (ground arith) (record {
        served =
            all-update (λ d. is_served db.subscriptions d && writable d)
              (is_served db.subscriptions) (may_redeliver delivery.id now) (queued now)
              db.deliveries (λ d w s. ground arith) (λ d w s. ground arith)
              (all-and (is_served db.subscriptions) writable db.deliveries sound.served
                (writable_rows u row sub on));
        unleased =
            all-update is_unleased is_unleased (may_redeliver delivery.id now) (queued now)
              db.deliveries (λ d w s. refl) (λ d w s. s) sound.unleased;
      })
    ]
  ]
