-- ===== src/Webhooks/Outbox.antt =====
-- Enqueueing (packages/core/src/webhooks/outbox.ts). A path is its bytes here, as SQLite's BINARY
-- collation compares them. The ids that `crypto.randomUUID` draws, and the JSON text of the
-- payload, are arguments.
pub mod Range
pub mod Enqueued
pub mod Once
use agent_fs.Prelude.{
  ℕ, ◌+◌, ◌≡◌, Bool, true, false, ◌&&◌, ◌||◌, Option, none, some, List, [], ◌∷◌, ◌++◌, Text, text,
  ◌===◌, leb, ltb, ◌==◌, any, map, keep_if, length, take, drop, get_elem?, if◌then◌else◌,
}
use agent_fs.Paths.{drop_last}
use agent_fs.Webhooks.{Status, Subscription, Delivery, WebhookDb}

-- BODY_MAX_CHARS
abbrev pub body_max_chars : ℕ
body_max_chars = 8000

-- `last >= 0xd800 && last <= 0xdbff`, on a code unit that may be missing
abbrev pub is_high_surrogate : Option ℕ → Bool
is_high_surrogate none = false
is_high_surrogate (some c) = leb 55296 c && leb c 56319

unfoldable pub truncate_webhook_body : Text → Text × Bool
truncate_webhook_body body =
    if leb (length body) body_max_chars
    then (body, false)
    else if is_high_surrogate (get_elem? body 7999)
    then (take 7999 body, true)
    else (take body_max_chars body, true)

-- BINARY collation: `s < t`
unfoldable pub text_lt : Text → Text → Bool
text_lt s [] = false
text_lt [] (b ∷ t) = true
text_lt (a ∷ s) (b ∷ t) = ltb a b || (a == b && text_lt s t)

-- `s >= t`
abbrev pub text_ge : Text → Text → Bool
text_ge s t = if text_lt s t then false else true

-- `path >= prefix AND path < substr(prefix, 1, length(prefix) - 1) || '0'`
abbrev pub in_range : Text → Text → Bool
in_range path prefix = text_ge path prefix && text_lt path (drop_last prefix ++ text "0")

-- The path, absolute or relative, against a prefix that is stored as "/dir/".
abbrev pub wants_path : Option Text → Text → Bool
wants_path none path = true
wants_path (some prefix) path = in_range path prefix || in_range path (drop 1 prefix)

-- the scope of a subscription: this drive's hooks plus the org's
abbrev pub in_scope : Text → Text → Subscription → Bool
in_scope org_id drive_id s =
    s.org_id === org_id && s.enabled && (elim s.drive_id [ none ↦ true | some d ↦ d === drive_id ])

abbrev pub lists_type : Text → Option (List Text) → Bool
lists_type type none = false
lists_type type (some types) = any (λ t. t === type) types

abbrev pub wants_file : Text → Text → Text → Subscription → Bool
wants_file org_id drive_id path s =
    in_scope org_id drive_id s
    && wants_path s.path_prefix path
    && lists_type (text "file.changed") s.event_types

abbrev pub new_delivery : Text → Text → Text → Text → Text → ℕ → Delivery
new_delivery id subscription_id event_id event_type payload at = record {
  id = id;
  subscription_id = subscription_id;
  event_id = event_id;
  event_type = event_type;
  payload = payload;
  status = Status.pending;
  attempts = 0;
  next_attempt_at = at;
  lease_until = none;
  last_attempt_at = none;
  last_status_code = none;
  last_error = none;
  delivered_at = none;
  created_at = at;
}

-- The deliveries that a file change writes. `draw` is the id drawn for a subscription's row.
abbrev pub file_deliveries : (Text → Text) → Text → Text → ℕ → List Subscription → List Delivery
file_deliveries draw event_id payload at [] = []
file_deliveries draw event_id payload at (s ∷ subs) =
    new_delivery (draw s.id) s.id event_id (text "file.changed") payload at
    ∷ file_deliveries draw event_id payload at subs

unfoldable pub enqueue_file_webhooks :
    WebhookDb
    → (org_id drive_id path : Text) → (Text → Text)
    → (event_id payload : Text) → ℕ
    → WebhookDb × ℕ
enqueue_file_webhooks db org_id drive_id path draw event_id payload at =
    let rows =
      file_deliveries draw event_id payload at
        (keep_if (wants_file org_id drive_id path) db.subscriptions) in
    (record db { deliveries = db.deliveries ++ rows }, length rows)

-- INTERNAL_TO_WEBHOOK; other internal types map to nothing
unfoldable pub internal_to_webhook : Text → Option Text
internal_to_webhook t =
    if t === text "comment_created"
    then some (text "comment.created")
    else if t === text "comment_mention"
    then some (text "comment.mentioned")
    else if t === text "comment_updated"
    then some (text "comment.updated")
    else if t === text "comment_resolved"
    then some (text "comment.resolved")
    else if t === text "comment_reopened"
    then some (text "comment.reopened")
    else if t === text "comment_deleted"
    then some (text "comment.deleted")
    else none

pub record CommentEvent : Type 0 where
  pub event_id : Text
  pub internal_type : Text

-- The subscriptions of the scope that list the type, a row for each. `draw` is the id drawn for a
-- subscription and an event.
abbrev pub event_rows :
    (Text → Text → Text) → Text → Text → Text → ℕ → List Subscription → List Delivery
event_rows draw event_id type payload at [] = []
event_rows draw event_id type payload at (s ∷ subs) =
    let rest = event_rows draw event_id type payload at subs in
    if lists_type type s.event_types
    then new_delivery (draw s.id event_id) s.id event_id type payload at ∷ rest
    else rest

abbrev pub typed_rows :
    (Text → Text → Text)
    → (Text → Text → Text)
    → Text
    → Option Text
    → ℕ
    → List Subscription
    → List Delivery
typed_rows draw payload event_id none at subs = []
typed_rows draw payload event_id (some type) at subs =
    event_rows draw event_id type (payload event_id type) at subs

abbrev pub comment_rows :
    (Text → Text → Text)
    → (Text → Text → Text)
    → ℕ
    → List Subscription
    → List CommentEvent
    → List Delivery
comment_rows draw payload at subs [] = []
comment_rows draw payload at subs (e ∷ events) =
    typed_rows draw payload e.event_id (internal_to_webhook e.internal_type) at subs
    ++ comment_rows draw payload at subs events

-- the unique index on the subscription and the event
abbrev pub has_key : Text → Text → List Delivery → Bool
has_key subscription_id event_id rows =
    any (λ d. d.subscription_id === subscription_id && d.event_id === event_id) rows

-- INSERT … ON CONFLICT DO NOTHING, and the number of rows inserted
unfoldable pub insert_new : List Delivery → List Delivery → List Delivery × ℕ
insert_new rows [] = (rows, 0)
insert_new rows (d ∷ new) =
    let skipped = insert_new rows new in
    let inserted = insert_new (rows ++ d ∷ []) new in
    if has_key d.subscription_id d.event_id rows then skipped else (inserted.0, inserted.1 + 1)

unfoldable pub enqueue_comment_webhooks :
    WebhookDb
    → (org_id drive_id : Text) → List CommentEvent
    → (draw payload : Text → Text → Text) → ℕ
    → WebhookDb × ℕ
enqueue_comment_webhooks db org_id drive_id events draw payload at =
    let written =
      insert_new db.deliveries (
        comment_rows draw payload at (keep_if (in_scope org_id drive_id) db.subscriptions)
          events) in
    (record db { deliveries = written.0 }, written.1)
