-- ===== src/Webhooks/Schedule.antt =====
-- The constants of packages/core/src/webhooks/events.ts, and `webhookRetryJitter` of worker.ts.
use agent_fs.Prelude.{ℕ, ◌+◌, ◌*◌, ◌/◌, ◌^◌, ◌≤◌, ◌<◌, ◌≡◌, refl, List, [], ◌∷◌, arith}

-- RETRY_SCHEDULE_MS
abbrev pub retry_schedule : List ℕ
retry_schedule = 5000 ∷ 300000 ∷ 1800000 ∷ 7200000 ∷ 18000000 ∷ 36000000 ∷ 36000000 ∷ []

-- LEASE_MS
abbrev pub lease_ms : ℕ
lease_ms = 60000

-- AUTO_DISABLE_AFTER_MS
abbrev pub auto_disable_after_ms : ℕ
auto_disable_after_ms = 5 * 86400000

-- DELIVERY_RETENTION_MS
abbrev pub delivery_retention_ms : ℕ
delivery_retention_ms = 30 * 86400000

-- SERVER_ERROR_RETRY_MS of worker.ts
abbrev pub server_error_retry_ms : ℕ
server_error_retry_ms = 60000

-- `Math.random()` is k / scale for a k below scale.
abbrev pub scale : ℕ
scale = 2 ^ 53

-- `Math.round(delayMs * (0.8 + 0.4 * random))` over exact fractions: floor(x + 1/2) for
-- x = delay · (4 · scale + 2 · k) / (5 · scale). Floating-point rounding is not modelled.
unfoldable pub webhook_retry_jitter : ℕ → ℕ → ℕ
webhook_retry_jitter delay k = (2 * (delay * (4 * scale + 2 * k)) + 5 * scale) / (2 * (5 * scale))

jitter_low : webhook_retry_jitter 5000 0 ≡ 4000
unfolding webhook_retry_jitter
jitter_low = refl

delay_below : (delay k : ℕ) → k < scale → delay * k ≤ delay * scale
delay_below delay k h = grind arith

-- For a random number below one, a jittered delay is within a fifth of the scheduled one, rounded
-- to the nearest millisecond.
pub webhook_retry_jitter_bounds :
    (delay k : ℕ)
    → k < scale
    → (8 * delay ≤ 10 * webhook_retry_jitter delay k + 5)
      × (10 * webhook_retry_jitter delay k ≤ 12 * delay + 5)
unfolding webhook_retry_jitter
webhook_retry_jitter_bounds delay k h = omega (arith, delay_below delay k h)
