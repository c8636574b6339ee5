-- ===== src/Webhooks.antt =====
-- The webhook tables of packages/core/src/db/schema.ts: subscriptions, and the outbox of
-- deliveries. Times are epoch milliseconds. The signing secret and the columns that are only shown
-- (url, description, created_by) are left out; `event_types` is the stored JSON after its parse,
-- none where it is no JSON array.
pub mod Schedule
pub mod Subscriptions
pub mod Worker
pub mod Record
pub mod Manage
pub mod Invariant
pub mod Outbox
pub mod Unique
pub mod History
mod Tests
use agent_fs.Prelude.{ℕ, Bool, true, false, ◌&&◌, Option, none, some, List, Text, ◌===◌, any, find?}

pub data Status : Type 0 where
  pending delivered failed : Status

pub data DisabledReason : Type 0 where
  gone failing manual : DisabledReason

pub record Subscription : Type 0 where
  pub id : Text
  pub org_id : Text
  pub drive_id : Option Text
  pub event_types : Option (List Text)
  pub path_prefix : Option Text
  pub enabled : Bool
  pub disabled_reason : Option DisabledReason
  pub disabled_at : Option ℕ
  pub consecutive_failures : ℕ
  pub failing_since : Option ℕ
  pub last_success_at : Option ℕ
  pub last_failure_at : Option ℕ
  pub updated_at : ℕ

pub record Delivery : Type 0 where
  pub id : Text
  pub subscription_id : Text
  pub event_id : Text
  pub event_type : Text
  pub payload : Text
  pub status : Status
  pub attempts : ℕ
  pub next_attempt_at : ℕ
  pub lease_until : Option ℕ
  pub last_attempt_at : Option ℕ
  pub last_status_code : Option ℕ
  pub last_error : Option Text
  pub delivered_at : Option ℕ
  pub created_at : ℕ

pub record WebhookDb : Type 0 where
  pub subscriptions : List Subscription
  pub deliveries : List Delivery

abbrev pub is_pending : Status → Bool
is_pending pending = true
is_pending delivered = false
is_pending failed = false

-- the row with a primary key
unfoldable pub delivery_of : Text → List Delivery → Option Delivery
delivery_of id rows = find? (λ d. d.id === id) rows

-- the join of a delivery with an enabled subscription
abbrev pub is_enabled : List Subscription → Text → Bool
is_enabled subs id = any (λ s. s.id === id && s.enabled) subs
