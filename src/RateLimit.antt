-- ===== src/RateLimit.antt =====
-- `rateLimitMiddleware` of packages/server/src/middleware/rate-limit.ts, and the same window in
-- `ipRateLimitMiddleware` of ip-rate-limit.ts, for one key: the map keeps
-- a list of times for each, and a missing key has the empty list. Times are epoch milliseconds.
pub mod Window
mod Tests
use agent_fs.Prelude.{
  ℕ, ◌+◌, Bool, true, false, ◌&&◌, List, [], ◌∷◌, ◌++◌, leb, ltb, length, keep_if, if◌then◌else◌,
}

abbrev pub window_ms : ℕ
window_ms = 60000

-- `t > now - 60_000`
abbrev pub is_recent : ℕ → ℕ → Bool
is_recent now t = ltb now (t + window_ms)

-- Whether a request at `now` passes, and the times kept.
unfoldable pub admit : ℕ → ℕ → List ℕ → Bool × List ℕ
admit requests_per_minute now timestamps =
    let recent = keep_if (is_recent now) timestamps in
    if leb requests_per_minute (length recent)
    then (false, timestamps)
    else (true, recent ++ now ∷ [])

-- the clean-up of stale entries
unfoldable pub clean : ℕ → List ℕ → List ℕ
clean now timestamps = keep_if (is_recent now) timestamps
