-- ===== src/Webhooks/Worker.antt =====
-- The claims of packages/core/src/webhooks/worker.ts, and its pruning of the delivery log.
pub mod Claims
pub mod Exclusive
use agent_fs.Prelude.{
  ℕ, ◌+◌, Bool, true, false, ◌&&◌, not, Option, none, some, List, [], ◌∷◌, Text, ◌===◌, ltb, leb,
  take, map, keep_if, any, if◌then◌else◌,
}
use agent_fs.Sql.{update_where, delete_where}
use agent_fs.Webhooks.{Subscription, Delivery, WebhookDb, is_pending, is_enabled}
use agent_fs.Webhooks.Schedule.{lease_ms, delivery_retention_ms}

pub record ClaimedDelivery : Type 0 where
  pub id : Text
  pub subscription_id : Text
  pub attempts : ℕ
  pub lease_until : ℕ

-- `d.lease_until IS NULL OR d.lease_until < $now`
abbrev pub lease_free : ℕ → Option ℕ → Bool
lease_free now none = true
lease_free now (some until) = ltb until now

abbrev pub is_due : List Subscription → ℕ → Delivery → Bool
is_due subs now d =
    is_pending d.status
    && leb d.next_attempt_at now
    && lease_free now d.lease_until
    && is_enabled subs d.subscription_id

-- ORDER BY next_attempt_at
insert : Delivery → List Delivery → List Delivery
insert d [] = d ∷ []
insert d (e ∷ rows) =
    let later = e ∷ insert d rows in
    if leb d.next_attempt_at e.next_attempt_at then d ∷ e ∷ rows else later

sort : List Delivery → List Delivery
sort [] = []
sort (d ∷ rows) = insert d (sort rows)

abbrev pub is_in : List Text → Text → Bool
is_in ids id = any (λ i. i === id) ids

-- the inner SELECT
unfoldable pub due_ids : WebhookDb → ℕ → ℕ → List Text
unfolding sort insert
due_ids db now batch =
    map (λ (d : Delivery). d.id)
      (take batch (sort (keep_if (is_due db.subscriptions now) db.deliveries)))

abbrev pub leased : ℕ → Delivery → Delivery
leased now d = record d {
  lease_until = some (now + lease_ms);
  attempts = d.attempts + 1;
  last_attempt_at = some now;
}

abbrev pub claim_of : ℕ → Delivery → ClaimedDelivery
claim_of now d = record {
  id = d.id;
  subscription_id = d.subscription_id;
  attempts = d.attempts + 1;
  lease_until = now + lease_ms;
}

-- UPDATE … RETURNING, in table order
unfoldable pub claim_due_deliveries : WebhookDb → ℕ → ℕ → WebhookDb × List ClaimedDelivery
claim_due_deliveries db now batch =
    let ids = due_ids db now batch in
    (
      record db { deliveries = update_where (λ d. is_in ids d.id) (leased now) db.deliveries },
      map (claim_of now) (keep_if (λ d. is_in ids d.id) db.deliveries),
    )

abbrev pub is_expired : ℕ → Delivery → Bool
is_expired now d = not (is_pending d.status) && ltb (d.created_at + delivery_retention_ms) now

-- `pruneWebhookDeliveries`
unfoldable pub prune : WebhookDb → ℕ → WebhookDb
prune db now = record db { deliveries = delete_where (is_expired now) db.deliveries }
