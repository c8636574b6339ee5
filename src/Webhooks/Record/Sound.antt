-- ===== src/Webhooks/Record/Sound.antt =====
-- The outbox's invariant under `recordResult` and `deferClaim`.
use agent_fs.Prelude.{
  ℕ, refl, Bool, true, false, not, ◌||◌, Option, none, some, Text, arith, ◌===◌, if◌then◌else◌,
  get_elem?, ◌-◌,
}
use agent_fs.Sql.{all_of}
use agent_fs.Webhooks.{DisabledReason, Delivery, WebhookDb}
use agent_fs.Webhooks.Worker.{ClaimedDelivery}
use agent_fs.Webhooks.Record.{
  fence, holds, write_fenced, SendResult, RecordContext, record_success, record_gone,
  record_attempt, record_failure, Outcome, after_failure, is_gone, record_result, defer_claim,
}
use agent_fs.Webhooks.Invariant.{
  IsSound, IsTame, update_deliveries-IsSound, update_subscriptions-IsSound,
  disable_subscription-IsSound,
}

-- A write through the fence that clears the lease.
write_fenced-IsSound :
    (db : WebhookDb) (claim : ClaimedDelivery) (f : Delivery → Delivery)
    → IsTame (λ _. true) f
    → IsSound db
    → IsSound (write_fenced claim f db)
write_fenced-IsSound db claim f tame sound =
    update_deliveries-IsSound db (fence claim) (λ _. true) f
      (all_of (λ d. not (fence claim d) || true) db.deliveries (λ d. ground arith)) tame sound

pub defer_claim-IsSound :
    (db : WebhookDb) (claim : ClaimedDelivery) (error : Text) (now : ℕ)
    → IsSound db
    → IsSound (defer_claim db claim error now).0
unfolding defer_claim
defer_claim-IsSound db claim error now sound =
    write_fenced-IsSound db claim _
      (record { same_subscription = λ d. refl; not_woken = λ d h. h; freed = λ d h. ground arith })
      sound

record_success-IsSound :
    (db : WebhookDb) (claim : ClaimedDelivery) (code : Option ℕ) (now : ℕ)
    → IsSound db
    → IsSound (record_success db claim code now)
unfolding record_success
record_success-IsSound db claim code now sound =
    update_subscriptions-IsSound _ (λ s. s.id === claim.subscription_id) _ (λ s. refl) (λ s h. h)
      (write_fenced-IsSound db claim _
        (record { same_subscription = λ d. refl; not_woken = λ d h. refl; freed = λ d h. refl })
        sound)

record_gone-IsSound :
    (db : WebhookDb) (claim : ClaimedDelivery) (now : ℕ)
    → IsSound db
    → IsSound (record_gone db claim now)
unfolding record_gone
record_gone-IsSound db claim now sound =
    disable_subscription-IsSound _ claim.subscription_id DisabledReason.gone now (
      update_subscriptions-IsSound _ (λ s. s.id === claim.subscription_id) _ (λ s. refl) (λ s h. h)
        (write_fenced-IsSound db claim _
          (record { same_subscription = λ d. refl; not_woken = λ d h. refl; freed = λ d h. refl })
          sound))

after_failure-IsTame :
    (ctx : RecordContext) (result : SendResult) (delay : Option ℕ)
    → IsTame (λ _. true) (after_failure ctx result delay)
after_failure-IsTame ctx result none = record {
  same_subscription = λ d. refl;
  not_woken = λ d h. refl;
  freed = λ d h. refl;
}
after_failure-IsTame ctx result (some delay) = record {
  same_subscription = λ d. refl;
  not_woken = λ d h. h;
  freed = λ d h. ground arith;
}

record_attempt-IsSound :
    (db : WebhookDb) (claim : ClaimedDelivery) (result : SendResult) (ctx : RecordContext)
    → IsSound db
    → IsSound (record_attempt db claim result ctx)
unfolding record_attempt
record_attempt-IsSound db claim result ctx sound =
    update_subscriptions-IsSound _ (λ s. s.id === claim.subscription_id) _ (λ s. refl) (λ s h. h)
      (write_fenced-IsSound db claim _
        (after_failure-IsTame ctx result (get_elem? ctx.schedule (claim.attempts - 1))) sound)

IsSound-if :
    (b : Bool) (x y : WebhookDb × Option Outcome)
    → IsSound x.0
    → IsSound y.0
    → IsSound (if b then x else y).0
IsSound-if true x y hx hy = hx
IsSound-if false x y hx hy = hy

record_failure-IsSound :
    (db : WebhookDb) (claim : ClaimedDelivery) (result : SendResult) (ctx : RecordContext)
    → IsSound db
    → IsSound (record_failure db claim result ctx).0
unfolding record_failure
record_failure-IsSound db claim result ctx sound =
    let sound' = record_attempt-IsSound db claim result ctx sound in
    IsSound-if _ _ _
      (disable_subscription-IsSound _ claim.subscription_id DisabledReason.failing ctx.now sound')
      sound'

-- Whatever the send's result, recording it keeps the invariant.
pub record_result-IsSound :
    (db : WebhookDb) (claim : ClaimedDelivery) (result : SendResult) (ctx : RecordContext)
    → IsSound db
    → IsSound (record_result db claim result ctx).0
unfolding record_result
record_result-IsSound db claim result ctx sound = IsSound-if (not (holds claim db)) _ _ sound (
    IsSound-if result.is_ok _ _ (record_success-IsSound db claim result.status_code ctx.now sound) (
      IsSound-if ctx.stopped _ _
        (write_fenced-IsSound db claim (λ d. record d { lease_until = none })
          (record {
            same_subscription = λ d. refl;
            not_woken = λ d h. h;
            freed = λ d h. ground arith;
          })
          sound)
        (IsSound-if (is_gone result.status_code) _ _ (record_gone-IsSound db claim ctx.now sound)
          (record_failure-IsSound db claim result ctx sound))))
