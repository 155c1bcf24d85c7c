-- ===== src/Tests/RateLimitCases.antt =====
-- The rate limiter of crates/llm-server/src/engine/rate_limit.rs, as its own tests use it.
use kir_ai.Prelude.{◌+◌, ◌≤◌, ◌≡◌, refl, true, false, [], ◌∷◌, arith, total, max, leb}
use kir_ai.RateLimit.Key.{client_key}
use kir_ai.RateLimit.Log.{prune_from, prune, reset_after, is_expired}
use kir_ai.RateLimit.Buckets.{get, put, map_values, retain}
use kir_ai.RateLimit.Limiter.{
  PublicInferenceRateLimit, acquire_at, new_limiter, initial_state, snapshot,
}
use kir_ai.RateLimit.Window.{in_window}
use kir_ai.RateLimit.Step.{is_accepted}
use kir_ai.RateLimit.History.{Requests, decisions, allowed_all, decisions-allowed_all}
use kir_ai.RateLimit.Bound.{accepted_times, window_bound}
use kir_ai.RateLimit.Held.{state_after}
use kir_ai.RateLimit.Retry.{retry_after_exact}

-- Opens what `acquire_at` calls.
limiter : Unit {0}
unfolding acquire_at new_limiter initial_state prune_from prune reset_after is_expired get put
    map_values retain snapshot decisions state_after
limiter = tt

-- Two requests in a second.
abbrev two : PublicInferenceRateLimit
two = record { max_requests = 2; window = 1_000_000_000 }

-- A burst just before a boundary and a request at it.
abbrev boundary : Requests
boundary =
    ("a", 999_000_000)
    ∷ ("a", 999_000_000)
    ∷ ("a", 1_000_000_000)
    ∷ ("b", 1_000_000_000)
    ∷ ("a", 1_999_000_000)
    ∷ []

boundary_answers :
    decisions (new_limiter two) (initial_state (new_limiter two) 0) boundary
    ≡ true ∷ true ∷ false ∷ true ∷ true ∷ []
unfolding limiter
boundary_answers = refl

blank_key : client_key " \t\n" ≡ "anonymous"
unfolding client_key
blank_key = refl

decisions-allowed_all_example :
    decisions (new_limiter two) (initial_state (new_limiter two) 0) boundary
    ≡ allowed_all (new_limiter two) (λ key. []) boundary
decisions-allowed_all_example = decisions-allowed_all two 0 boundary (omega arith)

window_bound_example :
    total
      (in_window (new_limiter two).window 1_500_000_000)
      (accepted_times "a" (new_limiter two) (initial_state (new_limiter two) 0) boundary)
    ≤ max 2 1
window_bound_example = window_bound two 0 1_500_000_000 "a" boundary (omega arith)

abbrev burst : Requests
burst = ("a", 999_000_000) ∷ ("a", 999_000_000) ∷ []

retry_after_exact_example :
    is_accepted
      (acquire_at
        (new_limiter two)
        "a"
        (1_000_000_000 + 999_000_000)
        (acquire_at
          (new_limiter two)
          "a"
          1_000_000_000
          (state_after (new_limiter two) (initial_state (new_limiter two) 0) burst)).1).0
    ≡ leb 999_000_000 999_000_000
unfolding limiter
retry_after_exact_example =
    retry_after_exact two 0 burst "a" 1_000_000_000 999_000_000 999_000_000
      (record { limit_requests = 2; remaining_requests = 0; reset_after = 999_000_000 })
      (omega arith) (omega arith) refl
