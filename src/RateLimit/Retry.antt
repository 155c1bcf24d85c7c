-- ===== src/RateLimit/Retry.antt =====
-- A rejected client that waits for `retry_after` is accepted, and one that waits less is not.
use Prim.Native.String.{String}
use kir_ai.Prelude.{
  ℕ, ◌+◌, ◌-◌, ◌≤◌, ◌<◌, ◌≡◌, refl, sym, ◌∙◌, ap, false, List, [], ◌∷◌, arith, length, Bool-cases,
  inl, inr, ltb, leb, max,
}
use kir_ai.RateLimit.Log.{prune_from, reset_after}
use kir_ai.RateLimit.Limiter.{
  PublicInferenceRateLimit, PublicInferenceRateLimiter, RateLimitState, RateLimitSnapshot, rejected,
  acquire_at, new_limiter, initial_state,
}
use kir_ai.RateLimit.Window.{Rising, length-prune_from-le}
use kir_ai.RateLimit.Stored.{Unique}
use kir_ai.RateLimit.History.{Requests, InOrder}
use kir_ai.RateLimit.Held.{current-Fits, state_after, last_instant, initial-HeldInv}
use kir_ai.RateLimit.Step.{
  is_accepted, held, current, admits, acquire_at-admits, acquire_at-Unique, held_self, current_lem,
}

-- The oldest instant leaves the window `window - (now - first)` after `now`.
pruned_later :
    (window now t first max : ℕ) (rest : List ℕ)
    → now - first < window
    → first ≤ now
    → length (first ∷ rest) ≡ max
    → ltb (length (prune_from (now + t) window (first ∷ rest))) max ≡ leb (window - (now - first)) t
unfolding prune_from
pruned_later window now t first max rest h g e =
    ground (arith, length-prune_from-le (now + t) window rest)

-- The first instant that pruning leaves is in the window.
front_recent :
    (now window first : ℕ) (rest l : List ℕ)
    → prune_from now window l ≡ first ∷ rest
    → now - first < window
unfolding prune_from
front_recent now window first rest [] e = absurd (ground arith)
front_recent now window first rest (a ∷ l) e = elim (Bool-cases (leb window (now - a))) [
  | inl old ↦ front_recent now window first rest l (ground arith)
  | inr recent ↦ ground arith
]

Rising-front : (first now : ℕ) (rest : List ℕ) → Rising first now rest → first ≤ now
Rising-front first now [] r = r
Rising-front first now (a ∷ rest) r = omega (arith, Rising-front a now rest r.1)

module _ (l : PublicInferenceRateLimiter) (key : String) (now : ℕ) (s : RateLimitState)
    (u : Unique s.buckets) (r : ℕ) (snapshot : RateLimitSnapshot)
    (e : (acquire_at l key now s).0 ≡ rejected r snapshot) where
  rejected-admits : admits l key now s ≡ false
  rejected-admits = sym (acquire_at-admits l key now s u) ∙ ap is_accepted e

  rejected_current : held key (acquire_at l key now s).1 ≡ current l key now s
  rejected_current = held_self l key now s u ∙ (rw rejected-admits)

  -- `retry_after` is what is left of the window after the oldest instant.
  rejected_retry :
      (first : ℕ) (rest : List ℕ)
      → current l key now s ≡ first ∷ rest
      → now - first < l.window
      → r ≡ l.window - (now - first)
  unfolding acquire_at reset_after
  rejected_retry first rest c h = ground (arith, current_lem l key now s u)

  retry_lem :
      (t : ℕ) (xs : List ℕ)
      → current l key now s ≡ xs
      → Rising 0 now xs
      → length xs ≡ l.max_requests
      → 1 ≤ l.max_requests
      → is_accepted (acquire_at l key (now + t) (acquire_at l key now s).1).0 ≡ leb r t
  unfolding admits
  retry_lem t [] c ri le pos = absurd (omega arith)
  retry_lem t (first ∷ rest) c ri le pos =
      let recent : now - first < l.window =
        front_recent now l.window first rest (held key s) (unfold current in c) in
      acquire_at-admits l key (now + t) (acquire_at l key now s).1 (acquire_at-Unique l key now s u)
      ∙ (rw (rejected_current, c, rejected_retry first rest c recent)
          (pruned_later l.window now t first l.max_requests rest recent
            (Rising-front first now rest ri.1) le))

some_allowed : (options : PublicInferenceRateLimit) → 1 ≤ (new_limiter options).max_requests
unfolding new_limiter
some_allowed options = omega arith

rejected_full :
    (limit : ℕ) (xs : List ℕ)
    → ltb (length xs) limit ≡ false
    → length xs ≤ limit
    → length xs ≡ limit
rejected_full limit xs e h = ground arith

-- After any requests in the order of their instants, a client that is rejected with `retry_after = r`
-- and asks again `t` nanoseconds later, with no request in between, is accepted exactly if `r ≤ t`.
pub retry_after_exact :
    (options : PublicInferenceRateLimit) (start : ℕ) (reqs : Requests) (key : String) (now t r : ℕ)
    (snapshot : RateLimitSnapshot)
    → InOrder start reqs
    → last_instant start reqs ≤ now
    → let l = new_limiter options in
      let s = state_after l (initial_state l start) reqs in
      (acquire_at l key now s).0 ≡ rejected r snapshot
      → is_accepted (acquire_at l key (now + t) (acquire_at l key now s).1).0 ≡ leb r t
unfolding admits
retry_after_exact options start reqs key now t r snapshot o later e =
    let l = new_limiter options in
    let s = state_after l (initial_state l start) reqs in
    let h = initial-HeldInv l start reqs o in
    let fits = current-Fits l (last_instant start reqs) s h key now later in
    let full =
      rejected_full l.max_requests (current l key now s)
        (rejected-admits l key now s h.unique r snapshot e) fits.1 in
    retry_lem l key now s h.unique r snapshot e t (current l key now s) refl fits.0 full
      (some_allowed options)
