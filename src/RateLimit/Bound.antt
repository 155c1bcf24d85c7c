-- ===== src/RateLimit/Bound.antt =====
-- No window of time holds more accepted requests of a client than the limit.
use Prim.Native.String.{String}
use text.Mathlib.Text.{◌==◌ as str_eq}
use text.Mathlib.TextEquality.{eq_iff}
use mathlib.Core.List.{append-nil, append_assoc}
use kir_ai.Prelude.{
  ℕ, ◌≤◌, ◌≡◌, ◌&&◌, List, [], ◌∷◌, ◌++◌, arith, if◌then◌else◌, total, total-append, max,
}
use kir_ai.RateLimit.Limiter.{
  PublicInferenceRateLimit, PublicInferenceRateLimiter, RateLimitState, acquire_at, new_limiter,
  initial_state,
}
use kir_ai.RateLimit.Window.{in_window, Rising-mono, total-later}
use kir_ai.RateLimit.Step.{is_accepted}
use kir_ai.RateLimit.History.{
  Requests, Accepted, after_request, InOrder, InOrder-mono, Refines, Refines-after, Refines-initial,
  decision_agrees,
}

-- The instants at which the limiter accepts a request of the client.
pub accepted_times : String → PublicInferenceRateLimiter → RateLimitState → Requests → List ℕ
accepted_times client l s [] = []
accepted_times client l s ((key, now) ∷ rest) =
    let (d, s') = acquire_at l key now s in
    let later = accepted_times client l s' rest in
    if str_eq key client && is_accepted d then now ∷ later else later

IsBounded : PublicInferenceRateLimiter → Accepted → Type 0
IsBounded l h = (key : String) (t : ℕ) → total (in_window l.window t) (h key) ≤ l.max_requests

module _ (l : PublicInferenceRateLimiter) (last : ℕ) (s : RateLimitState) (h : Accepted)
    (r : Refines l last s h) (key : String) (now : ℕ) (later : last ≤ now) where
  after-IsBounded : IsBounded l h → IsBounded l (after_request l key now h)
  unfolding IsBounded
  after-IsBounded b j t = ground (
    arith,
    b j t,
    total-append (in_window l.window t) (h j) (now ∷ []),
    eq_iff key j,
    total-later l.window now t 0 (h j),
    Rising-mono 0 last now (h j) later (r.rising j),
  )

  next_times :
      (client : String) (reqs : Requests)
      → after_request l key now h client ++ accepted_times client l (acquire_at l key now s).1 reqs
        ≡ h client ++ accepted_times client l s ((key, now) ∷ reqs)
  unfolding accepted_times
  next_times client reqs = ground (
    arith,
    decision_agrees l last s h r key now later,
    append_assoc (h client) (now ∷ []) (accepted_times client l (acquire_at l key now s).1 reqs),
  )

run_bound :
    (client : String) (l : PublicInferenceRateLimiter) (last t : ℕ) (s : RateLimitState)
    (h : Accepted) (reqs : Requests)
    → Refines l last s h
    → IsBounded l h
    → InOrder last reqs
    → total (in_window l.window t) (h client ++ accepted_times client l s reqs) ≤ l.max_requests
unfolding accepted_times IsBounded
run_bound client l last t s h [] r b o = rw append-nil (b client t)
run_bound client l last t s h ((key, now) ∷ reqs) r b o =
    rw (← next_times l last s h r key now o.0 client reqs) (
      run_bound client l now t (acquire_at l key now s).1 (after_request l key now h) reqs
        (Refines-after l last s h r key now o.0) (after-IsBounded l last s h r key now o.0 b) o.1)

-- Whatever the requests of all clients, given in the order of their instants: of the requests that
-- the limiter accepts from one client, at most `max_requests` (or one, if that is zero) lie in any
-- stretch of time as long as the window. In particular bursts do not add up at a boundary.
pub window_bound :
    (options : PublicInferenceRateLimit) (start t : ℕ) (client : String) (reqs : Requests)
    → InOrder start reqs
    → let l = new_limiter options in
      total (in_window l.window t) (accepted_times client l (initial_state l start) reqs)
      ≤ max options.max_requests 1
unfolding new_limiter
window_bound options start t client reqs o =
    let l = new_limiter options in
    run_bound client l 0 t (initial_state l start) (λ key. []) reqs (Refines-initial l start)
      (unfold IsBounded in λ key u. omega arith) (InOrder-mono start reqs o)
