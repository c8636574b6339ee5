-- ===== src/Webhooks/Invariant.antt =====
-- The outbox's invariant: a pending delivery belongs to a subscription that exists and is enabled,
-- and a delivery that is not pending holds no lease.
use agent_fs.Prelude.{
  ℕ, ◌≡◌, refl, ap, Bool, true, false, not, ◌&&◌, ◌||◌, Option, none, some, List, [], ◌∷◌, Text,
  arith, all, ◌===◌, ===_iff,
}
use agent_fs.Sql.{update_where, all-update, all-impl, all-and}
use agent_fs.Webhooks.{DisabledReason, Subscription, Delivery, WebhookDb, is_pending, is_enabled}
use agent_fs.Webhooks.Subscriptions.{disabled, fail_pending, disable_subscription}

abbrev pub is_served : List Subscription → Delivery → Bool
is_served subs d = not (is_pending d.status) || is_enabled subs d.subscription_id

abbrev is_none : Option ℕ → Bool
is_none none = true
is_none (some n) = false

abbrev pub is_unleased : Delivery → Bool
is_unleased d = is_pending d.status || is_none d.lease_until

pub record IsSound (db : WebhookDb) : Type 0 where
  pub served : all (is_served db.subscriptions) db.deliveries ≡ true
  pub unleased : all is_unleased db.deliveries ≡ true

-- A write to deliveries that pass `g`: it keeps the subscription, makes none pending, and leaves
-- no lease on a row that is not pending.
pub record IsTame (g : Delivery → Bool) (f : Delivery → Delivery) : Type 0 where
  pub same_subscription : (d : Delivery) → (f d).subscription_id ≡ d.subscription_id
  pub not_woken : (d : Delivery) → is_pending d.status ≡ false → is_pending (f d).status ≡ false
  pub freed : (d : Delivery) → g d ≡ true → is_unleased (f d) ≡ true

served_after :
    (g : Delivery → Bool) (f : Delivery → Delivery) (subs : List Subscription) (d : Delivery)
    → IsTame g f
    → is_served subs d ≡ true
    → is_served subs (f d) ≡ true
served_after g f subs d tame h = rw (tame.same_subscription d) (ground (arith, tame.not_woken d))

abbrev pub selects : (w g : Delivery → Bool) → Delivery → Bool
selects w g d = not (w d) || g d

pub update_deliveries-IsSound :
    (db : WebhookDb) (w g : Delivery → Bool) (f : Delivery → Delivery)
    → all (selects w g) db.deliveries ≡ true
    → IsTame g f
    → IsSound db
    → IsSound (record db { deliveries = update_where w f db.deliveries })
update_deliveries-IsSound db w g f sel tame sound = record {
  served =
      all-update (is_served db.subscriptions) (is_served db.subscriptions) w f db.deliveries
        (λ d h s. served_after g f db.subscriptions d tame s) (λ d h s. s) sound.served;
  unleased =
      all-update (λ d. is_unleased d && selects w g d) is_unleased w f db.deliveries
        (λ d h s. tame.freed d (ground arith)) (λ d h s. ground arith)
        (all-and is_unleased (selects w g) db.deliveries sound.unleased sel);
}

is_enabled-update :
    (w : Subscription → Bool) (f : Subscription → Subscription)
    → ((s : Subscription) → (f s).id ≡ s.id)
    → ((s : Subscription) → s.enabled ≡ true → (f s).enabled ≡ true)
    → (id : Text) (subs : List Subscription) → is_enabled subs id ≡ true
    → is_enabled (update_where w f subs) id ≡ true
is_enabled-update w f same_id same_enabled id [] h = h
is_enabled-update w f same_id same_enabled id (s ∷ subs) h = ground (
  arith,
  same_id s,
  same_enabled s,
  is_enabled-update w f same_id same_enabled id subs,
  ap (λ i. i === id) (same_id s),
)

-- Disabling one subscription leaves the others enabled.
is_enabled-disable :
    (id j : Text) (reason : DisabledReason) (now : ℕ) (subs : List Subscription)
    → j === id ≡ false
    → is_enabled subs j ≡ true
    → is_enabled (update_where (λ s. s.id === id) (disabled reason now) subs) j ≡ true
is_enabled-disable id j reason now [] h e = e
is_enabled-disable id j reason now (s ∷ subs) h e =
    ground (
      arith,
      is_enabled-disable id j reason now subs,
      ===_iff s.id id,
      ===_iff s.id j,
      ===_iff j id,
    )

-- A write to subscriptions that keeps their ids and which of them are enabled.
pub update_subscriptions-IsSound :
    (db : WebhookDb) (w : Subscription → Bool) (f : Subscription → Subscription)
    → ((s : Subscription) → (f s).id ≡ s.id)
    → ((s : Subscription) → s.enabled ≡ true → (f s).enabled ≡ true)
    → IsSound db
    → IsSound (record db { subscriptions = update_where w f db.subscriptions })
update_subscriptions-IsSound db w f same_id same_enabled sound = record {
  served =
      all-impl (is_served db.subscriptions) (is_served (update_where w f db.subscriptions))
        db.deliveries
        (λ d h.
          ground
            (arith, is_enabled-update w f same_id same_enabled d.subscription_id db.subscriptions))
        sound.served;
  unleased = sound.unleased;
}

-- Disabling a subscription settles what it had pending.
pub disable_subscription-IsSound :
    (db : WebhookDb) (id : Text) (reason : DisabledReason) (now : ℕ)
    → IsSound db
    → IsSound (disable_subscription db id reason now)
unfolding disable_subscription
disable_subscription-IsSound db id reason now sound = record {
  served =
      all-update (is_served db.subscriptions)
        (is_served (update_where (λ s. s.id === id) (disabled reason now) db.subscriptions))
        (λ d. d.subscription_id === id && is_pending d.status) fail_pending db.deliveries
        (λ d h s. refl)
        (λ d h s.
          ground (arith, is_enabled-disable id d.subscription_id reason now db.subscriptions))
        sound.served;
  unleased =
      all-update is_unleased is_unleased (λ d. d.subscription_id === id && is_pending d.status)
        fail_pending db.deliveries (λ d h s. refl) (λ d h s. s) sound.unleased;
}
