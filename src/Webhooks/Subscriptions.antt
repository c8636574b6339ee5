-- ===== src/Webhooks/Subscriptions.antt =====
-- `disableSubscription` of packages/core/src/webhooks/subscriptions.ts.
use agent_fs.Prelude.{ℕ, false, ◌&&◌, none, some, Text, text, ◌===◌}
use agent_fs.Sql.{update_where}
use agent_fs.Webhooks.{Status, DisabledReason, Subscription, Delivery, WebhookDb, is_pending}

abbrev pub disabled : DisabledReason → ℕ → Subscription → Subscription
disabled reason now s = record s {
  enabled = false;
  disabled_reason = some reason;
  disabled_at = some now;
  updated_at = now;
}

abbrev pub fail_pending : Delivery → Delivery
fail_pending d = record d {
  status = Status.failed;
  last_error = some (text "subscription disabled");
  lease_until = none;
}

unfoldable pub disable_subscription : WebhookDb → Text → DisabledReason → ℕ → WebhookDb
disable_subscription db id reason now = record db {
  subscriptions = update_where (λ s. s.id === id) (disabled reason now) db.subscriptions;
  deliveries =
      update_where (λ d. d.subscription_id === id && is_pending d.status) fail_pending
        db.deliveries;
}
