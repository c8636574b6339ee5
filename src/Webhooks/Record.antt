-- ===== src/Webhooks/Record.antt =====
-- Recording results: `recordResult` and `deferClaim` of packages/core/src/webhooks/worker.ts. Both
-- write through a fence, the lease that the claim set.
pub mod Sound
pub mod Rows
pub mod Outcomes
pub mod Retries
use agent_fs.Prelude.{
  ℕ, ◌+◌, ◌-◌, Bool, true, false, ◌&&◌, not, Option, none, some, List, [], ◌∷◌, Text, text, ◌===◌,
  leb, ◌==◌, any, find?, get_elem?, if◌then◌else◌,
}
use agent_fs.Sql.{update_where}
use agent_fs.Webhooks.{Status, DisabledReason, Subscription, Delivery, WebhookDb, is_pending}
use agent_fs.Webhooks.Schedule.{server_error_retry_ms, webhook_retry_jitter}
use agent_fs.Webhooks.Subscriptions.{disable_subscription}
use agent_fs.Webhooks.Worker.{ClaimedDelivery}

-- what a tick counts in its summary
pub data Outcome : Type 0 where
  delivered retrying failed released deferred : Outcome

abbrev pub lease_is : ℕ → Option ℕ → Bool
lease_is until none = false
lease_is until (some l) = l == until

-- WHERE id = $id AND status = 'pending' AND lease_until = $lease
abbrev pub fence : ClaimedDelivery → Delivery → Bool
fence claim d = d.id === claim.id && is_pending d.status && lease_is claim.lease_until d.lease_until

abbrev pub holds : ClaimedDelivery → WebhookDb → Bool
holds claim db = any (fence claim) db.deliveries

abbrev pub write_fenced : ClaimedDelivery → (Delivery → Delivery) → WebhookDb → WebhookDb
write_fenced claim f db = record db { deliveries = update_where (fence claim) f db.deliveries }

unfoldable pub defer_claim : WebhookDb → ClaimedDelivery → Text → ℕ → WebhookDb × Option Outcome
defer_claim db claim error now = (
  write_fenced claim
      (λ d. record d {
        attempts = d.attempts - 1;
        next_attempt_at = now + server_error_retry_ms;
        lease_until = none;
        last_error = some error;
      })
      db,
  if holds claim db then some deferred else none,
)

-- the result of `sendWebhook`
pub record SendResult : Type 0 where
  pub is_ok : Bool
  pub status_code : Option ℕ
  pub error : Option Text

pub record RecordContext : Type 0 where
  pub now : ℕ
  pub schedule : List ℕ
  pub random : ℕ
  pub auto_disable_ms : ℕ
  pub stopped : Bool

abbrev pub update_subscription : Text → (Subscription → Subscription) → WebhookDb → WebhookDb
update_subscription id f db = record db {
  subscriptions = update_where (λ s. s.id === id) f db.subscriptions;
}

unfoldable pub record_success : WebhookDb → ClaimedDelivery → Option ℕ → ℕ → WebhookDb
record_success db claim code now =
    update_subscription claim.subscription_id
      (λ s. record s { consecutive_failures = 0; failing_since = none; last_success_at = some now })
      (write_fenced claim
        (λ d. record d {
          status = Status.delivered;
          delivered_at = some now;
          last_status_code = code;
          last_error = none;
          lease_until = none;
        })
        db)

unfoldable pub record_gone : WebhookDb → ClaimedDelivery → ℕ → WebhookDb
record_gone db claim now =
    disable_subscription
      (update_subscription claim.subscription_id (λ s. record s { last_failure_at = some now })
        (write_fenced claim
          (λ d. record d {
            status = Status.failed;
            last_status_code = some 410;
            last_error = some (text "410 Gone: subscription disabled");
            lease_until = none;
          })
          db))
      claim.subscription_id DisabledReason.gone now

-- Retry on schedule, or give up after its last delay.
abbrev pub after_failure : RecordContext → SendResult → Option ℕ → Delivery → Delivery
after_failure ctx result none d = record d {
  status = Status.failed;
  lease_until = none;
  last_status_code = result.status_code;
  last_error = result.error;
}
after_failure ctx result (some delay) d = record d {
  next_attempt_at = ctx.now + webhook_retry_jitter delay ctx.random;
  lease_until = none;
  last_status_code = result.status_code;
  last_error = result.error;
}

abbrev pub or_now : ℕ → Option ℕ → Option ℕ
or_now now none = some now
or_now now (some since) = some since

-- `sub && sub.enabled && now - sub.failing_since >= autoDisableMs`
abbrev pub fails_too_long : RecordContext → Option Subscription → Bool
fails_too_long ctx none = false
fails_too_long ctx (some s) = s.enabled && (elim s.failing_since [
  | none ↦ false
  | some since ↦ leb (since + ctx.auto_disable_ms) ctx.now
])

-- The delivery and its subscription after a failed attempt.
unfoldable pub record_attempt : WebhookDb → ClaimedDelivery → SendResult → RecordContext → WebhookDb
record_attempt db claim result ctx =
    update_subscription claim.subscription_id
      (λ s. record s {
        consecutive_failures = s.consecutive_failures + 1;
        failing_since = or_now ctx.now s.failing_since;
        last_failure_at = some ctx.now;
      })
      (write_fenced claim (after_failure ctx result (get_elem? ctx.schedule (claim.attempts - 1)))
        db)

abbrev pub outcome_of : Option ℕ → Outcome
outcome_of none = failed
outcome_of (some delay) = retrying

unfoldable pub record_failure :
    WebhookDb → ClaimedDelivery → SendResult → RecordContext → WebhookDb × Option Outcome
record_failure db claim result ctx =
    let db' = record_attempt db claim result ctx in
    if fails_too_long ctx (find? (λ s. s.id === claim.subscription_id) db'.subscriptions)
    then (
      disable_subscription db' claim.subscription_id DisabledReason.failing ctx.now,
      some failed,
    )
    else (db', some (outcome_of (get_elem? ctx.schedule (claim.attempts - 1))))

abbrev pub is_gone : Option ℕ → Bool
is_gone none = false
is_gone (some code) = code == 410

-- Every branch first writes through the fence, and stops if that changed no row.
unfoldable pub record_result :
    WebhookDb → ClaimedDelivery → SendResult → RecordContext → WebhookDb × Option Outcome
record_result db claim result ctx =
    if not (holds claim db)
    then (db, none)
    else if result.is_ok
    then (record_success db claim result.status_code ctx.now, some delivered)
    else if ctx.stopped
    then (write_fenced claim (λ d. record d { lease_until = none }) db, some released)
    else if is_gone result.status_code
    then (record_gone db claim ctx.now, some failed)
    else record_failure db claim result ctx
