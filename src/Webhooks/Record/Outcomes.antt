-- ===== src/Webhooks/Record/Outcomes.antt =====
-- The outcomes of `recordResult` of webhooks/worker.ts.
use agent_fs.Prelude.{
  ℕ, ◌+◌, ◌-◌, ◌≤◌, ◌≡◌, refl, ◌∙◌, true, ◌&&◌, Option, none, some, List, [], ◌∷◌, Text, text,
  arith, ◌===◌, ===_refl, if◌then◌else◌, inl, inr, get_elem?, length, suc, zero, Option-cases,
}
use agent_fs.Sql.{update_where, update_absent}
use agent_fs.Webhooks.{Status, Delivery, WebhookDb, is_pending, delivery_of}
use agent_fs.Webhooks.Subscriptions.{disable_subscription, fail_pending}
use agent_fs.Webhooks.Schedule.{webhook_retry_jitter}
use agent_fs.Webhooks.Worker.{ClaimedDelivery}
use agent_fs.Webhooks.Worker.Claims.{delivery_of-update, any_of_delivery}
use agent_fs.Webhooks.Record.{
  fence, SendResult, RecordContext, record_success, record_gone, record_attempt, Outcome,
  after_failure, record_result, defer_claim, outcome_of,
}
use agent_fs.Webhooks.Record.Rows.{result_cases, record_result-holds, failed_for_good, delay_of}

-- After a result of a claim is recorded, or was refused, recording another result of that claim,
-- or deferring it, changes nothing and has no outcome.
pub recorded_once :
    (db : WebhookDb) (claim : ClaimedDelivery) (result again : SendResult)
    (ctx ctx' : RecordContext) (error : Text) (now : ℕ)
    → (record_result (record_result db claim result ctx).0 claim again ctx'
        ≡ ((record_result db claim result ctx).0, none))
      × (defer_claim (record_result db claim result ctx).0 claim error now
          ≡ ((record_result db claim result ctx).0, none))
unfolding record_result defer_claim
recorded_once db claim result again ctx ctx' error now =
    let lost = record_result-holds claim db result ctx in
    (
      rw lost refl,
      rw lost (
          rw (update_absent (fence claim) _ (record_result db claim result ctx).0.deliveries lost)
            refl),
    )

-- A retrying delivery has a delay left on the schedule.
get_elem?-length : (xs : List ℕ) (i delay : ℕ) → get_elem? xs i ≡ some delay → suc i ≤ length xs
get_elem?-length [] i delay h = ground arith
get_elem?-length (x ∷ xs) zero delay h = omega arith
get_elem?-length (x ∷ xs) (suc i) delay h = omega (arith, get_elem?-length xs i delay h)

-- What an outcome says of its delivery.
abbrev pub Agrees : RecordContext → Outcome → ClaimedDelivery → Delivery → Delivery → Type 0
Agrees ctx Outcome.delivered claim d e =
    (e.status ≡ Status.delivered) × (e.delivered_at ≡ some ctx.now)
Agrees ctx Outcome.failed claim d e = e.status ≡ Status.failed
Agrees ctx Outcome.retrying claim d e =
    (e.status ≡ Status.pending)
    × (claim.attempts ≤ length ctx.schedule)
    × ((delay : ℕ) × (delay_of claim ctx ≡ some delay)
        × (e.next_attempt_at ≡ ctx.now + webhook_retry_jitter delay ctx.random))
Agrees ctx Outcome.released claim d e = e ≡ record d { lease_until = none }
Agrees ctx Outcome.deferred claim d e = ⊥

abbrev pub HasOutcome :
    RecordContext → ClaimedDelivery → Delivery → WebhookDb × Option Outcome → Type 0
HasOutcome ctx claim d (db', none) = ⊥
HasOutcome ctx claim d (db', some o) =
    (e : Delivery) × (delivery_of claim.id db'.deliveries ≡ some e)
    × (e.lease_until ≡ none)
    × (e.attempts ≡ d.attempts)
    × Agrees ctx o claim d e

module _ (db : WebhookDb) (claim : ClaimedDelivery) (d : Delivery) where
  written :
      (f : Delivery → Delivery)
      → ((r : Delivery) → (f r).id ≡ r.id)
      → delivery_of claim.id db.deliveries ≡ some d
      → fence claim d ≡ true
      → delivery_of claim.id (update_where (fence claim) f db.deliveries) ≡ some (f d)
  written f same e h =
      delivery_of-update (fence claim) f claim.id db.deliveries same ∙ rw e (rw h refl)

  -- The row after the subscription of the claim is disabled.
  settled :
      (e : Delivery) (rows : List Delivery)
      → delivery_of claim.id rows ≡ some e
      → delivery_of claim.id (
          update_where
            (λ r. r.subscription_id === claim.subscription_id && is_pending r.status)
            fail_pending
            rows)
        ≡ some (
            if e.subscription_id === claim.subscription_id && is_pending e.status
            then fail_pending e
            else e)
  settled e rows h =
      delivery_of-update (λ r. r.subscription_id === claim.subscription_id && is_pending r.status)
        fail_pending claim.id rows (λ r. refl)
      ∙ rw h refl

  attempted_row :
      (result : SendResult) (ctx : RecordContext)
      → delivery_of claim.id db.deliveries ≡ some d
      → fence claim d ≡ true
      → delivery_of claim.id (record_attempt db claim result ctx).deliveries
        ≡ some (after_failure ctx result (delay_of claim ctx) d)
  unfolding record_attempt
  attempted_row result ctx e h =
      written (after_failure ctx result (delay_of claim ctx)) (λ r. same_id (delay_of claim ctx) r)
        e h
    where
      same_id : (delay : Option ℕ) (r : Delivery) → (after_failure ctx result delay r).id ≡ r.id
      same_id none r = refl
      same_id (some delay) r = refl

  attempt-HasOutcome :
      (result : SendResult) (ctx : RecordContext)
      → delivery_of claim.id db.deliveries ≡ some d
      → fence claim d ≡ true
      → HasOutcome ctx claim d
          (record_attempt db claim result ctx, some (outcome_of (delay_of claim ctx)))
  attempt-HasOutcome result ctx e h = elim (Option-cases (delay_of claim ctx)) [
    | inl over ↦ rw over (
      after_failure ctx result none d,
      attempted_row result ctx e h ∙ rw over refl,
      refl,
      refl,
      refl,
    )
    | inr (delay, next) ↦ rw next (
      after_failure ctx result (some delay) d,
      attempted_row result ctx e h ∙ rw next refl,
      refl,
      refl,
      (
        ground (arith, h),
        omega (arith, get_elem?-length ctx.schedule (claim.attempts - 1) delay next),
        (delay, next, refl),
      ),
    )
  ]

  disabled-HasOutcome :
      (result : SendResult) (ctx : RecordContext)
      → delivery_of claim.id db.deliveries ≡ some d
      → fence claim d ≡ true
      → d.subscription_id ≡ claim.subscription_id
      → HasOutcome ctx claim d (failed_for_good db claim result ctx, some Outcome.failed)
  unfolding disable_subscription
  disabled-HasOutcome result ctx e h s =
      let row =
        settled (after_failure ctx result (delay_of claim ctx) d)
          (record_attempt db claim result ctx).deliveries (attempted_row result ctx e h) in
      let mine : d.subscription_id === claim.subscription_id ≡ true =
        rw s (===_refl claim.subscription_id) in
      let waiting : is_pending d.status ≡ true = ground arith in
      elim (Option-cases (delay_of claim ctx)) [
        | inl over ↦
            (after_failure ctx result none d, row ∙ rw over (rw mine refl), refl, refl, refl)
        | inr (delay, next) ↦ (
          fail_pending (after_failure ctx result (some delay) d),
          row ∙ rw next (rw mine (rw waiting refl)),
          refl,
          refl,
          refl,
        )
      ]

  gone-HasOutcome :
      (ctx : RecordContext)
      → delivery_of claim.id db.deliveries ≡ some d
      → fence claim d ≡ true
      → d.subscription_id ≡ claim.subscription_id
      → HasOutcome ctx claim d (record_gone db claim ctx.now, some Outcome.failed)
  unfolding record_gone disable_subscription
  gone-HasOutcome ctx e h s =
      let mine : d.subscription_id === claim.subscription_id ≡ true =
        rw s (===_refl claim.subscription_id) in
      let row : Delivery = record d {
        status = Status.failed;
        last_status_code = some 410;
        last_error = some (text "410 Gone: subscription disabled");
        lease_until = none;
      } in
      (row, settled row _ (written _ (λ r. refl) e h) ∙ rw mine refl, refl, refl, refl)

-- When the row with the claim's id is still held by the claim, and is of the claim's subscription,
-- the result is recorded, and its outcome says what became of the delivery: delivered now; failed;
-- released with nothing but its lease changed; or pending, to be sent after the jittered delay
-- that the schedule has for it. In every case the lease is cleared and the attempts are kept, and
-- a retry is scheduled only when the claim's attempts are at most the delays of the schedule.
pub record_result-HasOutcome :
    (db : WebhookDb) (claim : ClaimedDelivery) (d : Delivery) (result : SendResult)
    (ctx : RecordContext)
    → delivery_of claim.id db.deliveries ≡ some d
    → fence claim d ≡ true
    → d.subscription_id ≡ claim.subscription_id
    → HasOutcome ctx claim d (record_result db claim result ctx)
unfolding record_success
record_result-HasOutcome db claim d result ctx e h s =
    result_cases (HasOutcome ctx claim d) db claim result ctx
      (λ lost. ground (arith, any_of_delivery (fence claim) claim.id db.deliveries d e h))
      (_, written db claim d _ (λ r. refl) e h, refl, refl, (refl, refl))
      (_, written db claim d _ (λ r. refl) e h, refl, refl, refl)
      (gone-HasOutcome db claim d ctx e h s) (disabled-HasOutcome db claim d result ctx e h s)
      (attempt-HasOutcome db claim d result ctx e h)
