-- ===== src/Webhooks/Manage.antt =====
-- The webhook ops that change rows (packages/core/src/ops/webhook.ts): create, update, delete and
-- redeliver, after their authorization. The row that an op loaded is `row`.
pub mod Sound
use agent_fs.Prelude.{
  ℕ, ◌+◌, Bool, true, false, ◌&&◌, ◌||◌, not, Option, none, some, List, [], ◌∷◌, ◌++◌, Text, ◌===◌,
  leb, any, find?, if◌then◌else◌,
}
use agent_fs.Errors.{Result, ok, err, validation, edit_conflict, not_found}
use agent_fs.Sql.{update_where, delete_where, count_where}
use agent_fs.Webhooks.{
  Status, DisabledReason, Subscription, Delivery, WebhookDb, is_pending, is_enabled, delivery_of,
}
use agent_fs.Webhooks.Subscriptions.{disable_subscription}

-- MAX_SUBSCRIPTIONS_PER_ORG
abbrev pub max_subscriptions_per_org : ℕ
max_subscriptions_per_org = 25

abbrev pub new_subscription :
    Text → Text → Option Text → Option (List Text) → Option Text → ℕ → Subscription
new_subscription id org_id drive_id event_types path_prefix now = record {
  id = id;
  org_id = org_id;
  drive_id = drive_id;
  event_types = event_types;
  path_prefix = path_prefix;
  enabled = true;
  disabled_reason = none;
  disabled_at = none;
  consecutive_failures = 0;
  failing_since = none;
  last_success_at = none;
  last_failure_at = none;
  updated_at = now;
}

-- the transaction of `webhookCreate`
unfoldable pub webhook_create :
    WebhookDb → Text → Text → Option Text → Option (List Text) → Option Text → ℕ → Result WebhookDb
webhook_create db id org_id drive_id event_types path_prefix now =
    if leb max_subscriptions_per_org
      (count_where (λ (s : Subscription). s.org_id === org_id) db.subscriptions)
    then err validation
    else ok (record db {
      subscriptions =
          db.subscriptions ++ new_subscription id org_id drive_id event_types path_prefix now ∷ [];
    })

-- a parameter that is given replaces the column
abbrev replaced {ℓ} : {A : Type ℓ} → Option A → A → A
replaced none old = old
replaced (some new) old = new

abbrev pub is_given : Option Bool → Bool → Bool
is_given none b = false
is_given (some true) b = b
is_given (some false) b = not b

abbrev reenabled : Subscription → Subscription
reenabled s = record s {
  enabled = true;
  disabled_reason = none;
  disabled_at = none;
  consecutive_failures = 0;
  failing_since = none;
}

abbrev pub updated :
    Option (Option (List Text))
    → Option (Option Text)
    → Option Bool
    → ℕ
    → Subscription
    → Subscription
updated event_types path_prefix enabled now s =
    let s' : Subscription = record s {
      event_types = replaced event_types s.event_types;
      path_prefix = replaced path_prefix s.path_prefix;
      updated_at = now;
    } in
    if is_given enabled true then reenabled s' else s'

-- the transaction of `webhookUpdate` on the row that was loaded
unfoldable pub webhook_update :
    WebhookDb
    → Subscription
    → Option (Option (List Text))
    → Option (Option Text)
    → Option Bool
    → ℕ
    → WebhookDb
webhook_update db row event_types path_prefix enabled now =
    let db' : WebhookDb = record db {
      subscriptions =
          update_where (λ s. s.id === row.id) (updated event_types path_prefix enabled now)
            db.subscriptions;
    } in
    if is_given enabled false && row.enabled
    then disable_subscription db' row.id DisabledReason.manual now
    else db'

-- `webhookDelete`: the deliveries go by ON DELETE CASCADE
unfoldable pub webhook_delete : WebhookDb → Subscription → WebhookDb
webhook_delete db row = record db {
  subscriptions = delete_where (λ s. s.id === row.id) db.subscriptions;
  deliveries = delete_where (λ d. d.subscription_id === row.id) db.deliveries;
}

-- `ne(status, 'pending') OR lease_until IS NULL OR lease_until <= now`
abbrev pub lease_over : ℕ → Option ℕ → Bool
lease_over now none = true
lease_over now (some until) = leb until now

abbrev pub may_redeliver : Text → ℕ → Delivery → Bool
may_redeliver id now d = d.id === id && (not (is_pending d.status) || lease_over now d.lease_until)

abbrev pub queued : ℕ → Delivery → Delivery
queued now d = record d { status = Status.pending; next_attempt_at = now; lease_until = none }

-- the transaction of `webhookRedeliver` on the rows that `getScopedDelivery` loaded in it
unfoldable pub webhook_redeliver : WebhookDb → Delivery → Subscription → ℕ → Result WebhookDb
webhook_redeliver db delivery subscription now =
    if not subscription.enabled
    then err validation
    else if any (may_redeliver delivery.id now) db.deliveries
    then ok (record db {
      deliveries = update_where (may_redeliver delivery.id now) (queued now) db.deliveries;
    })
    else err edit_conflict
