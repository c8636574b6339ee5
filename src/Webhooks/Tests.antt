-- ===== src/Webhooks/Tests.antt =====
-- The outbox at a small database: one subscription, one delivery.
use agent_fs.Prelude.{
  ◌+◌, ◌*◌, ◌≤◌, ◌≡◌, refl, true, false, none, some, [], ◌∷◌, ◌++◌, Text, text, arith, all, length,
  ◌===◌, starts_with,
}
use agent_fs.Webhooks.{Status, Subscription, Delivery, WebhookDb, delivery_of}
use agent_fs.Webhooks.Schedule.{
  webhook_retry_jitter, webhook_retry_jitter_bounds, retry_schedule, auto_disable_after_ms,
}
use agent_fs.Webhooks.Subscriptions.{disable_subscription}
use agent_fs.Webhooks.Worker.{ClaimedDelivery, due_ids, claim_due_deliveries, prune, leased}
use agent_fs.Webhooks.Worker.Exclusive.{took, claims_held, claims_bounded, claims_exclusive}
use agent_fs.Webhooks.Record.{
  Outcome, SendResult, RecordContext, fence, holds, record_result, defer_claim, record_success,
  record_gone, record_attempt, record_failure,
}
use agent_fs.Webhooks.Record.Retries.{Retries, resending_ends}
use agent_fs.Webhooks.Record.Outcomes.{recorded_once, record_result-HasOutcome, HasOutcome}
use agent_fs.Webhooks.Manage.{webhook_create, webhook_update, webhook_delete, webhook_redeliver}
use agent_fs.Webhooks.Outbox.{
  CommentEvent, text_lt, in_range, truncate_webhook_body, internal_to_webhook, insert_new,
  enqueue_comment_webhooks, enqueue_file_webhooks,
}
use agent_fs.Webhooks.Outbox.Range.{in_range_iff, IsTruncated, truncate_webhook_body-IsTruncated}
use agent_fs.Webhooks.Outbox.Once.{enqueued_once}
use agent_fs.Webhooks.History.{Step, IsOutbox, Log-IsOutbox, then_step, start}

runs : Unit {0}
unfolding ◌===◌ delivery_of disable_subscription due_ids claim_due_deliveries prune record_result
    defer_claim record_success record_gone record_attempt record_failure webhook_create
    webhook_update webhook_delete webhook_redeliver text_lt truncate_webhook_body
    internal_to_webhook insert_new enqueue_comment_webhooks enqueue_file_webhooks
    webhook_retry_jitter
runs = tt

abbrev hook : Subscription
hook = record {
  id = text "s1";
  org_id = text "o1";
  drive_id = none;
  event_types = some (text "comment.created" ∷ text "file.changed" ∷ []);
  path_prefix = some (text "/docs/");
  enabled = true;
  disabled_reason = none;
  disabled_at = none;
  consecutive_failures = 0;
  failing_since = none;
  last_success_at = none;
  last_failure_at = none;
  updated_at = 0;
}

abbrev waiting : Delivery
waiting = record {
  id = text "d1";
  subscription_id = text "s1";
  event_id = text "e1";
  event_type = text "comment.created";
  payload = [];
  status = Status.pending;
  attempts = 0;
  next_attempt_at = 1000;
  lease_until = none;
  last_attempt_at = none;
  last_status_code = none;
  last_error = none;
  delivered_at = none;
  created_at = 1000;
}

abbrev outbox : WebhookDb
outbox = record { subscriptions = hook ∷ []; deliveries = waiting ∷ [] }

abbrev claimed_outbox : WebhookDb
claimed_outbox = record { subscriptions = hook ∷ []; deliveries = leased 2000 waiting ∷ [] }

abbrev claim : ClaimedDelivery
claim = record { id = text "d1"; subscription_id = text "s1"; attempts = 1; lease_until = 62000 }

claim_test : claim_due_deliveries outbox 2000 20 ≡ (claimed_outbox, claim ∷ [])
unfolding runs
claim_test = refl

-- Not yet due, and leased.
early_test : (claim_due_deliveries outbox 999 20).1 ≡ []
unfolding runs
early_test = refl

abbrev outage : SendResult
outage = record { is_ok = false; status_code = some 503; error = none }

abbrev sent : SendResult
sent = record { is_ok = true; status_code = some 200; error = none }

abbrev at_once : RecordContext
at_once = record {
  now = 3000;
  schedule = retry_schedule;
  random = 0;
  auto_disable_ms = auto_disable_after_ms;
  stopped = false;
}

outcome_tests :
    ((record_result claimed_outbox claim outage at_once).1 ≡ some Outcome.retrying)
    × ((record_result claimed_outbox claim sent at_once).1 ≡ some Outcome.delivered)
    × ((record_result outbox claim sent at_once).1 ≡ none)
unfolding runs
outcome_tests = (refl, refl, refl)

outbox-IsOutbox : IsOutbox outbox
unfolding runs
outbox-IsOutbox = record { sound = record { served = refl; unleased = refl }; unique = (refl, tt) }

claims_held_example :
    all
      (λ c. holds c (claim_due_deliveries outbox 2000 20).0)
      (claim_due_deliveries outbox 2000 20).1
    ≡ true
claims_held_example = claims_held outbox 2000 20 outbox-IsOutbox.unique

claims_bounded_example : length (claim_due_deliveries outbox 2000 20).1 ≤ 20
claims_bounded_example = claims_bounded outbox 2000 20 outbox-IsOutbox.unique

took_test : took (text "d1") (claim_due_deliveries outbox 2000 20).1 ≡ true
unfolding runs
took_test = refl

kept_test :
    delivery_of (text "d1") claimed_outbox.deliveries
    ≡ delivery_of (text "d1") (claim_due_deliveries outbox 2000 20).0.deliveries
unfolding runs
kept_test = refl

claims_exclusive_example : took (text "d1") (claim_due_deliveries claimed_outbox 62000 20).1 ≡ false
claims_exclusive_example =
    claims_exclusive outbox claimed_outbox 2000 62000 20 20 (text "d1") outbox-IsOutbox.unique
      (refl, tt) took_test kept_test (omega arith)

row_test : delivery_of (text "d1") claimed_outbox.deliveries ≡ some (leased 2000 waiting)
unfolding runs
row_test = refl

fence_test : fence claim (leased 2000 waiting) ≡ true
unfolding runs
fence_test = refl

record_result-HasOutcome_example :
    HasOutcome at_once claim
      (leased 2000 waiting)
      (record_result claimed_outbox claim outage at_once)
record_result-HasOutcome_example =
    record_result-HasOutcome claimed_outbox claim (leased 2000 waiting) outage at_once row_test
      fence_test refl

recorded_once_example :
    (record_result (record_result claimed_outbox claim outage at_once).0 claim sent at_once
      ≡ ((record_result claimed_outbox claim outage at_once).0, none))
    × (defer_claim (record_result claimed_outbox claim outage at_once).0 claim (text "lost") 4000
        ≡ ((record_result claimed_outbox claim outage at_once).0, none))
recorded_once_example =
    recorded_once claimed_outbox claim outage sent at_once at_once (text "lost") 4000

Log-IsOutbox_example :
    IsOutbox (record_result (claim_due_deliveries outbox 2000 20).0 claim outage at_once).0
Log-IsOutbox_example = Log-IsOutbox outbox-IsOutbox (
    then_step (then_step start (Step.claimed 2000 20 refl))
      (Step.recorded claim outage at_once refl))

webhook_retry_jitter_bounds_example :
    (8 * 5000 ≤ 10 * webhook_retry_jitter 5000 12345 + 5)
    × (10 * webhook_retry_jitter 5000 12345 ≤ 12 * 5000 + 5)
webhook_retry_jitter_bounds_example = webhook_retry_jitter_bounds 5000 12345 (omega arith)

in_range_iff_example :
    in_range (text "/docs/a.md") (text "/docs" ++ text "/")
    ≡ starts_with (text "/docs/a.md") (text "/docs" ++ text "/")
in_range_iff_example = in_range_iff (text "/docs/a.md") (text "/docs")

truncate_webhook_body-IsTruncated_example :
    IsTruncated (text "hello") (truncate_webhook_body (text "hello"))
truncate_webhook_body-IsTruncated_example = truncate_webhook_body-IsTruncated (text "hello")

abbrev made : CommentEvent
made = record { event_id = text "e2"; internal_type = text "comment_created" }

abbrev draw : Text → Text → Text
draw s e = s ++ e

enqueue_test :
    (enqueue_comment_webhooks outbox (text "o1") (text "v1") (made ∷ []) draw draw 5000).1 ≡ 1
unfolding runs
enqueue_test = refl

enqueued_once_example :
    enqueue_comment_webhooks
      (enqueue_comment_webhooks outbox (text "o1") (text "v1") (made ∷ []) draw draw 5000).0
      (text "o1")
      (text "v1")
      (made ∷ [])
      draw
      draw
      6000
    ≡ ((enqueue_comment_webhooks outbox (text "o1") (text "v1") (made ∷ []) draw draw 5000).0, 0)
enqueued_once_example =
    enqueued_once outbox (text "o1") (text "v1") (made ∷ []) draw draw draw draw 5000 6000

abbrev retrying_outbox : WebhookDb
retrying_outbox = (record_result claimed_outbox claim outage at_once).0

resending_ends_example : 1 ≤ length retry_schedule
unfolding runs
resending_ends_example =
    resending_ends retry_schedule (text "d1") outbox retrying_outbox waiting 1
      outbox-IsOutbox.unique refl
      (Retries.retried retrying_outbox waiting 2000 20 outage at_once Retries.start refl refl refl
        refl)
