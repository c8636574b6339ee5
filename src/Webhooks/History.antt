-- ===== src/Webhooks/History.antt =====
-- Any sequence of writes to the webhook tables.
use agent_fs.Prelude.{
  ℕ, ◌≡◌, refl, subst, Bool, false, Option, some, List, Text, arith, ◌===◌, find?, leb, Bool-cases,
  inl, inr, ◌&&◌,
}
use agent_fs.Errors.{ok}
use agent_fs.Sql.{count_where, update_where}
use agent_fs.Webhooks.{Subscription, Delivery, WebhookDb, delivery_of, DisabledReason}
use agent_fs.Webhooks.Invariant.{IsSound}
use agent_fs.Webhooks.Worker.{ClaimedDelivery, claim_due_deliveries, prune, is_expired}
use agent_fs.Webhooks.Worker.Claims.{IsUnique, claim_due_deliveries-IsSound}
use agent_fs.Webhooks.Record.{SendResult, RecordContext, record_result, defer_claim}
use agent_fs.Webhooks.Record.Sound.{record_result-IsSound, defer_claim-IsSound}
use agent_fs.Webhooks.Manage.{
  webhook_create, webhook_update, webhook_delete, webhook_redeliver, max_subscriptions_per_org,
  may_redeliver, is_given, queued,
}
use agent_fs.Webhooks.Manage.Sound.{
  prune-IsSound, webhook_create-IsSound, webhook_update-IsSound, webhook_delete-IsSound,
  webhook_redeliver-IsSound,
}
use agent_fs.Webhooks.Outbox.{CommentEvent, enqueue_file_webhooks, enqueue_comment_webhooks}
use agent_fs.Webhooks.Outbox.Enqueued.{
  enqueue_file_webhooks-IsSound, enqueue_comment_webhooks-IsSound,
}
use agent_fs.Webhooks.Unique.{
  update-IsUnique, delete-IsUnique, disable_subscription-IsUnique, defer_claim-IsUnique,
  claim_due_deliveries-IsUnique, record_result-IsUnique,
}

-- One write. The ids that an enqueue draws make no two rows of the table alike. A redelivery has
-- loaded its two rows in its transaction.
pub data Step (db db' : WebhookDb) : Type 0 where
  claimed : (now batch : ℕ) → db' ≡ (claim_due_deliveries db now batch).0 → Step db db'
  recorded :
      (claim : ClaimedDelivery) (result : SendResult) (ctx : RecordContext)
      → db' ≡ (record_result db claim result ctx).0
      → Step db db'
  put_off :
      (claim : ClaimedDelivery) (error : Text) (now : ℕ)
      → db' ≡ (defer_claim db claim error now).0
      → Step db db'
  pruned : (now : ℕ) → db' ≡ prune db now → Step db db'
  created :
      (id org_id : Text) (drive_id : Option Text) (event_types : Option (List Text))
      (path_prefix : Option Text) (now : ℕ)
      → webhook_create db id org_id drive_id event_types path_prefix now ≡ ok db'
      → Step db db'
  changed :
      (row : Subscription) (event_types : Option (Option (List Text)))
      (path_prefix : Option (Option Text)) (enabled : Option Bool) (now : ℕ)
      → db' ≡ webhook_update db row event_types path_prefix enabled now
      → Step db db'
  deleted : (row : Subscription) → db' ≡ webhook_delete db row → Step db db'
  redelivered :
      (delivery : Delivery) (subscription : Subscription) (now : ℕ)
      → delivery_of delivery.id db.deliveries ≡ some delivery
      → find? (λ (s : Subscription). s.id === delivery.subscription_id) db.subscriptions
        ≡ some subscription
      → webhook_redeliver db delivery subscription now ≡ ok db'
      → Step db db'
  file_changed :
      (org_id drive_id path : Text) (draw : Text → Text) (event_id payload : Text) (at : ℕ)
      → IsUnique db'.deliveries
      → db' ≡ (enqueue_file_webhooks db org_id drive_id path draw event_id payload at).0
      → Step db db'
  commented :
      (org_id drive_id : Text) (events : List CommentEvent) (draw payload : Text → Text → Text)
      (at : ℕ)
      → IsUnique db'.deliveries
      → db' ≡ (enqueue_comment_webhooks db org_id drive_id events draw payload at).0
      → Step db db'

-- The outbox's invariant, and the primary key of the deliveries.
pub record IsOutbox (db : WebhookDb) : Type 0 where
  pub sound : IsSound db
  pub unique : IsUnique db.deliveries

webhook_create-IsUnique :
    (db db' : WebhookDb) (id org_id : Text) (drive_id : Option Text)
    (event_types : Option (List Text)) (path_prefix : Option Text) (now : ℕ)
    → webhook_create db id org_id drive_id event_types path_prefix now ≡ ok db'
    → IsUnique db.deliveries
    → IsUnique db'.deliveries
unfolding webhook_create
webhook_create-IsUnique db db' id org_id drive_id event_types path_prefix now h u =
    elim (Bool-cases (
      leb max_subscriptions_per_org
        (count_where (λ (s : Subscription). s.org_id === org_id) db.subscriptions))) [
          | inl full ↦ ground arith
          | inr room ↦
              let same : db.deliveries ≡ db'.deliveries = ground arith in subst IsUnique same u
        ]

webhook_redeliver-IsUnique :
    (db db' : WebhookDb) (delivery : Delivery) (subscription : Subscription) (now : ℕ)
    → webhook_redeliver db delivery subscription now ≡ ok db'
    → IsUnique db.deliveries
    → IsUnique db'.deliveries
unfolding webhook_redeliver
webhook_redeliver-IsUnique db db' delivery subscription now h u =
    let same : update_where (may_redeliver delivery.id now) (queued now) db.deliveries
        ≡ db'.deliveries =
      ground arith in
    subst IsUnique same
      (update-IsUnique (may_redeliver delivery.id now) (queued now) db.deliveries (λ d. refl) u)

webhook_update-IsUnique :
    (db : WebhookDb) (row : Subscription) (event_types : Option (Option (List Text)))
    (path_prefix : Option (Option Text)) (enabled : Option Bool) (now : ℕ)
    → IsUnique db.deliveries
    → IsUnique (webhook_update db row event_types path_prefix enabled now).deliveries
unfolding webhook_update
webhook_update-IsUnique db row event_types path_prefix enabled now u =
    elim (Bool-cases (is_given enabled false && row.enabled)) [
      | inl off ↦ rw off (disable_subscription-IsUnique _ row.id DisabledReason.manual now u)
      | inr on ↦ rw on u
    ]

pub Step-IsOutbox : {db db' : WebhookDb} → Step db db' → IsOutbox db → IsOutbox db'
Step-IsOutbox {db} (claimed now batch e) o = rw e (record {
  sound = claim_due_deliveries-IsSound db now batch o.unique o.sound;
  unique = claim_due_deliveries-IsUnique db now batch o.unique;
})
Step-IsOutbox {db} (recorded claim result ctx e) o = rw e (record {
  sound = record_result-IsSound db claim result ctx o.sound;
  unique = record_result-IsUnique db claim result ctx o.unique;
})
Step-IsOutbox {db} (put_off claim error now e) o = rw e (record {
  sound = defer_claim-IsSound db claim error now o.sound;
  unique = defer_claim-IsUnique db claim error now o.unique;
})
Step-IsOutbox {db} (pruned now e) o = rw e (record {
  sound = prune-IsSound db now o.sound;
  unique = unfold prune in delete-IsUnique (is_expired now) db.deliveries o.unique;
})
Step-IsOutbox {db} {db'} (created id org_id drive_id event_types path_prefix now h) o = record {
  sound = webhook_create-IsSound db db' id org_id drive_id event_types path_prefix now h o.sound;
  unique = webhook_create-IsUnique db db' id org_id drive_id event_types path_prefix now h o.unique;
}
Step-IsOutbox {db} (changed row event_types path_prefix enabled now e) o = rw e (record {
  sound = webhook_update-IsSound event_types path_prefix enabled now db row o.sound;
  unique = webhook_update-IsUnique db row event_types path_prefix enabled now o.unique;
})
Step-IsOutbox {db} (deleted row e) o = rw e (record {
  sound = webhook_delete-IsSound db row o.sound;
  unique =
      unfold webhook_delete in
      delete-IsUnique (λ d. d.subscription_id === row.id) db.deliveries o.unique;
})
Step-IsOutbox {db} {db'} (redelivered delivery subscription now row sub h) o = record {
  sound = webhook_redeliver-IsSound db delivery subscription now db' o.unique row sub h o.sound;
  unique = webhook_redeliver-IsUnique db db' delivery subscription now h o.unique;
}
Step-IsOutbox {db} (file_changed org_id drive_id path draw event_id payload at u e) o = record {
  sound =
      rw e (enqueue_file_webhooks-IsSound db org_id drive_id path draw event_id payload at o.sound);
  unique = u;
}
Step-IsOutbox {db} (commented org_id drive_id events draw payload at u e) o = record {
  sound = rw e (enqueue_comment_webhooks-IsSound db org_id drive_id events draw payload at o.sound);
  unique = u;
}

pub data Log (db : WebhookDb) : WebhookDb → Type 0 where
  start : Log db db
  then_step : {db' db'' : WebhookDb} → Log db db' → Step db' db'' → Log db db''

-- From tables where it holds: after any sequence of enqueues, claims, recorded or deferred
-- results, prunings and webhook ops, in any order, every pending delivery belongs to a
-- subscription that exists and is enabled, no delivery that is delivered or failed holds a lease,
-- and delivery ids are unique. The ids that an enqueue draws are new, and a redelivery acts on the
-- rows that it loaded.
pub Log-IsOutbox : {db db' : WebhookDb} → IsOutbox db → Log db db' → IsOutbox db'
Log-IsOutbox o start = o
Log-IsOutbox o (then_step l s) = Step-IsOutbox s (Log-IsOutbox o l)
