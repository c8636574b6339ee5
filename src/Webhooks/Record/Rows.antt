-- ===== src/Webhooks/Record/Rows.antt =====
-- What recording a result does to the row of its claim.
use agent_fs.Prelude.{
  ℕ, ◌-◌, ◌≡◌, refl, Bool, true, false, Option, none, some, List, [], ◌∷◌, arith, any, ◌===◌,
  if◌then◌else◌, Bool-cases, inl, inr, find?, get_elem?,
}
use agent_fs.Sql.{update_where}
use agent_fs.Webhooks.{DisabledReason, Delivery, WebhookDb}
use agent_fs.Webhooks.Subscriptions.{disable_subscription, fail_pending}
use agent_fs.Webhooks.Worker.{ClaimedDelivery}
use agent_fs.Webhooks.Record.{
  fence, holds, write_fenced, SendResult, RecordContext, record_success, record_gone,
  record_attempt, record_failure, Outcome, after_failure, fails_too_long, is_gone, record_result,
  outcome_of,
}

abbrev pub failed_for_good : WebhookDb → ClaimedDelivery → SendResult → RecordContext → WebhookDb
failed_for_good db claim result ctx =
    disable_subscription (record_attempt db claim result ctx) claim.subscription_id
      DisabledReason.failing ctx.now

P-if :
    (P : WebhookDb × Option Outcome → Type 0) (b : Bool) (x y : WebhookDb × Option Outcome)
    → P x
    → P y
    → P (if b then x else y)
P-if P true x y hx hy = hx
P-if P false x y hx hy = hy

module _ (P : WebhookDb × Option Outcome → Type 0) (db : WebhookDb) (claim : ClaimedDelivery)
    (result : SendResult) (ctx : RecordContext) where
  failure_cases :
      P (failed_for_good db claim result ctx, some Outcome.failed)
      → P (
        record_attempt db claim result ctx,
        some (outcome_of (get_elem? ctx.schedule (claim.attempts - 1))),
      )
      → P (record_failure db claim result ctx)
  unfolding record_failure
  failure_cases disabled kept =
      P-if P
        (fails_too_long ctx (
          find? (λ s. s.id === claim.subscription_id)
            (record_attempt db claim result ctx).subscriptions))
        _ _ disabled kept

  -- The branches of `record_result`.
  pub result_cases :
      (holds claim db ≡ false → P (db, none))
      → P (record_success db claim result.status_code ctx.now, some Outcome.delivered)
      → P (write_fenced claim (λ d. record d { lease_until = none }) db, some Outcome.released)
      → P (record_gone db claim ctx.now, some Outcome.failed)
      → P (failed_for_good db claim result ctx, some Outcome.failed)
      → P (
        record_attempt db claim result ctx,
        some (outcome_of (get_elem? ctx.schedule (claim.attempts - 1))),
      )
      → P (record_result db claim result ctx)
  unfolding record_result
  result_cases stale ok released gone disabled kept = elim (Bool-cases (holds claim db)) [
    | inl held ↦ rw held (
        P-if P result.is_ok _ _ ok (
          P-if P ctx.stopped _ _ released
            (P-if P (is_gone result.status_code) _ _ gone (failure_cases disabled kept))))
    | inr lost ↦ rw lost (stale lost)
  ]

module _ (claim : ClaimedDelivery) where
  released_rows :
      (f : Delivery → Delivery) (rows : List Delivery)
      → ((d : Delivery) → fence claim (f d) ≡ false)
      → any (fence claim) (update_where (fence claim) f rows) ≡ false
  released_rows f [] h = refl
  released_rows f (d ∷ rows) h = ground (arith, h d, released_rows f rows h)

  failed_rows :
      (w : Delivery → Bool) (rows : List Delivery)
      → any (fence claim) rows ≡ false
      → any (fence claim) (update_where w fail_pending rows) ≡ false
  failed_rows w [] h = h
  failed_rows w (d ∷ rows) h = ground (arith, failed_rows w rows)

  after_failure-fence :
      (ctx : RecordContext) (result : SendResult) (delay : Option ℕ) (d : Delivery)
      → fence claim (after_failure ctx result delay d) ≡ false
  after_failure-fence ctx result none d = ground arith
  after_failure-fence ctx result (some delay) d = ground arith

  abbrev pub delay_of : RecordContext → Option ℕ
  delay_of ctx = get_elem? ctx.schedule (claim.attempts - 1)

  pub record_result-holds :
      (db : WebhookDb) (result : SendResult) (ctx : RecordContext)
      → holds claim (record_result db claim result ctx).0 ≡ false
  unfolding record_success record_gone record_attempt disable_subscription
  record_result-holds db result ctx =
      let attempted : any (fence claim)
            (update_where (fence claim) (after_failure ctx result (delay_of ctx)) db.deliveries)
          ≡ false =
        released_rows (after_failure ctx result (delay_of ctx)) db.deliveries
          (after_failure-fence ctx result (delay_of ctx)) in
      result_cases (λ x. holds claim x.0 ≡ false) db claim result ctx (λ h. h)
        (released_rows _ db.deliveries (λ d. ground arith))
        (released_rows _ db.deliveries (λ d. ground arith))
        (failed_rows _ _ (released_rows _ db.deliveries (λ d. ground arith)))
        (failed_rows _ _ attempted) attempted
