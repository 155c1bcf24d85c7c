-- ===== src/RateLimit/Limiter.antt =====
-- `PublicInferenceRateLimiter`. The mutex makes each call one step from state to state.
use Prim.Native.String.{String}
use kir_ai.Prelude.{
  ℕ, ◌+◌, ◌-◌, ◌*◌, ◌^◌, not, [], max, ltb, leb, ◌==◌, if◌then◌else◌, length, saturating_sub,
  unwrap_or,
}
use kir_ai.RateLimit.Log.{ClientRequestLog, new_log, push_back, prune, reset_after, is_expired}
use kir_ai.RateLimit.Buckets.{Buckets, get, put, map_values, retain}

pub record PublicInferenceRateLimit : Type 0 where
  pub max_requests : ℕ
  pub window : ℕ

pub record PublicInferenceRateLimiter : Type 0 where
  pub max_requests : ℕ
  pub window : ℕ
  pub ttl : ℕ
  pub cleanup_interval : ℕ

pub record RateLimitState : Type 0 where
  pub buckets : Buckets
  pub next_cleanup_at : ℕ

pub record RateLimitSnapshot : Type 0 where
  pub limit_requests : ℕ
  pub remaining_requests : ℕ
  pub reset_after : ℕ

-- `Result<RateLimitSnapshot, RateLimitRejection>`
pub data Decision : Type 0 where
  accepted : RateLimitSnapshot → Decision
  rejected : ℕ → RateLimitSnapshot → Decision

-- The greatest `Duration`: 2^64 - 1 seconds and 999,999,999 nanoseconds.
abbrev pub duration_max : ℕ
duration_max = 2 ^ 64 * 1_000_000_000 - 1

-- The greatest `Instant`, whose seconds are an `i64`.
abbrev pub instant_max : ℕ
instant_max = 2 ^ 63 * 1_000_000_000 - 1

-- `window.checked_mul(2).unwrap_or(window)`
double_or_same : ℕ → ℕ
double_or_same window = if leb (window * 2) duration_max then window * 2 else window

unfoldable pub next_cleanup_after : ℕ → ℕ → ℕ
next_cleanup_after now interval = if leb (now + interval) instant_max then now + interval else now

-- A zero window is one second.
effective_window : PublicInferenceRateLimit → ℕ
effective_window options = if options.window == 0 then 1_000_000_000 else options.window

unfoldable pub new_limiter : PublicInferenceRateLimit → PublicInferenceRateLimiter
unfolding effective_window double_or_same
new_limiter options =
    let window = effective_window options in
    record {
      max_requests = max options.max_requests 1;
      window = window;
      ttl = double_or_same window;
      cleanup_interval = window;
    }

unfoldable pub initial_state : PublicInferenceRateLimiter → ℕ → RateLimitState
unfolding next_cleanup_after
initial_state limiter started_at = record {
  buckets = [];
  next_cleanup_at = next_cleanup_after started_at limiter.window;
}

unfoldable pub snapshot : PublicInferenceRateLimiter → ClientRequestLog → ℕ → RateLimitSnapshot
snapshot limiter bucket now = record {
  limit_requests = limiter.max_requests;
  remaining_requests = saturating_sub limiter.max_requests (length bucket.accepted_at);
  reset_after = reset_after now limiter.window bucket;
}

unfoldable pub cleanup_expired_buckets :
    PublicInferenceRateLimiter → ℕ → RateLimitState → RateLimitState
unfolding next_cleanup_after
cleanup_expired_buckets limiter now s = if ltb now s.next_cleanup_at then s else record {
  buckets =
      retain (λ bucket. not (is_expired now limiter.ttl bucket))
        (map_values (prune now limiter.window) s.buckets);
  next_cleanup_at = next_cleanup_after now limiter.cleanup_interval;
}

-- The bucket of the key, with `last_seen` set and pruned.
unfoldable pub current_bucket : PublicInferenceRateLimiter → String → ℕ → Buckets → ClientRequestLog
current_bucket limiter key now buckets =
    prune now limiter.window
      (record (unwrap_or (get key buckets) (new_log now)) { last_seen = now })

unfoldable pub decide :
    PublicInferenceRateLimiter
    → String
    → ℕ
    → ClientRequestLog
    → RateLimitState
    → Decision × RateLimitState
decide limiter key now bucket s =
    if ltb (length bucket.accepted_at) limiter.max_requests
    then (let bucket' = push_back now bucket in
        (accepted (snapshot limiter bucket' now), record s { buckets = put key bucket' s.buckets }))
    else (
      rejected (reset_after now limiter.window bucket) (snapshot limiter bucket now),
      record s { buckets = put key bucket s.buckets },
    )

unfoldable pub acquire_at :
    PublicInferenceRateLimiter → String → ℕ → RateLimitState → Decision × RateLimitState
unfolding cleanup_expired_buckets current_bucket decide
acquire_at limiter key now s =
    let s' = cleanup_expired_buckets limiter now s in
    decide limiter key now (current_bucket limiter key now s'.buckets) s'
