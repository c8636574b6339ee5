-- ===== src/Webhooks/Unique.antt =====
-- The primary key of the deliveries under the writes of the worker.
use agent_fs.Prelude.{
  ℕ, ◌≡◌, refl, ap, ◌∙◌, Bool, false, Option, none, some, List, [], ◌∷◌, Text, arith, any, ◌===◌,
  if◌then◌else◌, get_elem?, ◌-◌,
}
use agent_fs.Sql.{update_where, delete_where, any-update}
use agent_fs.Webhooks.{Delivery, WebhookDb, DisabledReason}
use agent_fs.Webhooks.Subscriptions.{disable_subscription}
use agent_fs.Webhooks.Worker.{ClaimedDelivery, claim_due_deliveries}
use agent_fs.Webhooks.Worker.Claims.{IsUnique}
use agent_fs.Webhooks.Record.{
  SendResult, RecordContext, record_success, record_gone, record_attempt, record_result,
  defer_claim, after_failure, fence,
}
use agent_fs.Webhooks.Record.Rows.{result_cases}

pub update-IsUnique :
    (w : Delivery → Bool) (f : Delivery → Delivery) (rows : List Delivery)
    → ((d : Delivery) → (f d).id ≡ d.id)
    → IsUnique rows
    → IsUnique (update_where w f rows)
update-IsUnique w f [] same u = u
update-IsUnique w f (d ∷ rows) same (new, u) =
    (any_of (if w d then f d else d).id (same_id d), update-IsUnique w f rows same u)
  where
    same_id : (d : Delivery) → (if w d then f d else d).id ≡ d.id
    same_id d = ground (arith, same d)

    any_of : (id : Text) → id ≡ d.id → any (λ e. e.id === id) (update_where w f rows) ≡ false
    any_of id e =
        any-update (λ e. e.id === id) w f rows (λ r. ap (λ i. i === id) (same r)) ∙ rw e new

any-delete :
    (p w : Delivery → Bool) (rows : List Delivery)
    → any p rows ≡ false
    → any p (delete_where w rows) ≡ false
any-delete p w [] h = h
any-delete p w (d ∷ rows) h = ground (arith, any-delete p w rows)

pub delete-IsUnique :
    (w : Delivery → Bool) (rows : List Delivery) → IsUnique rows → IsUnique (delete_where w rows)
delete-IsUnique w [] u = u
delete-IsUnique w (d ∷ rows) (new, u) =
    ground (arith, any-delete (λ e. e.id === d.id) w rows new, delete-IsUnique w rows u)

pub disable_subscription-IsUnique :
    (db : WebhookDb) (id : Text) (reason : DisabledReason) (now : ℕ)
    → IsUnique db.deliveries
    → IsUnique (disable_subscription db id reason now).deliveries
unfolding disable_subscription
disable_subscription-IsUnique db id reason now u = update-IsUnique _ _ db.deliveries (λ d. refl) u

pub defer_claim-IsUnique :
    (db : WebhookDb) (claim : ClaimedDelivery) (error : Text) (now : ℕ)
    → IsUnique db.deliveries
    → IsUnique (defer_claim db claim error now).0.deliveries
unfolding defer_claim
defer_claim-IsUnique db claim error now u = update-IsUnique _ _ db.deliveries (λ d. refl) u

pub claim_due_deliveries-IsUnique :
    (db : WebhookDb) (now batch : ℕ)
    → IsUnique db.deliveries
    → IsUnique (claim_due_deliveries db now batch).0.deliveries
unfolding claim_due_deliveries
claim_due_deliveries-IsUnique db now batch u = update-IsUnique _ _ db.deliveries (λ d. refl) u

after_failure-id :
    (ctx : RecordContext) (result : SendResult) (delay : Option ℕ) (d : Delivery)
    → (after_failure ctx result delay d).id ≡ d.id
after_failure-id ctx result none d = refl
after_failure-id ctx result (some delay) d = refl

pub record_result-IsUnique :
    (db : WebhookDb) (claim : ClaimedDelivery) (result : SendResult) (ctx : RecordContext)
    → IsUnique db.deliveries
    → IsUnique (record_result db claim result ctx).0.deliveries
unfolding record_success record_gone record_attempt
record_result-IsUnique db claim result ctx u =
    let attempted =
      update-IsUnique (fence claim)
        (after_failure ctx result (get_elem? ctx.schedule (claim.attempts - 1))) db.deliveries
        (after_failure-id ctx result (get_elem? ctx.schedule (claim.attempts - 1))) u in
    result_cases (λ x. IsUnique x.0.deliveries) db claim result ctx (λ lost. u)
      (update-IsUnique _ _ db.deliveries (λ d. refl) u)
      (update-IsUnique _ _ db.deliveries (λ d. refl) u)
      (disable_subscription-IsUnique _ claim.subscription_id DisabledReason.gone ctx.now
        (update-IsUnique _ _ db.deliveries (λ d. refl) u))
      (disable_subscription-IsUnique _ claim.subscription_id DisabledReason.failing ctx.now
        attempted)
      attempted
