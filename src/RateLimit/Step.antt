-- ===== src/RateLimit/Step.antt =====
-- One call of `acquire_at`, seen through the instants that each client's bucket holds.
use Prim.Native.String.{String}
use text.Mathlib.Text.{◌==◌ as str_eq}
use text.Mathlib.TextEquality.{eq_iff}
use kir_ai.Prelude.{
  ℕ, ◌≤◌, ◌≡◌, ◌∙◌, ap, Bool, true, false, List, [], ◌∷◌, ◌++◌, arith, if◌then◌else◌, length,
  Bool-cases, inl, inr, ltb,
}
use kir_ai.RateLimit.Log.{push_back, prune_from, prune}
use kir_ai.RateLimit.Buckets.{Buckets, get}
use kir_ai.RateLimit.Limiter.{
  PublicInferenceRateLimiter, RateLimitState, Decision, accepted, rejected, acquire_at,
  cleanup_expired_buckets, current_bucket,
}
use kir_ai.RateLimit.Stored.{stored, Unique, get-put, put-Unique, cleanup-Unique, stored-cleanup}

abbrev pub is_accepted : Decision → Bool
is_accepted (accepted s) = true
is_accepted (rejected retry_after s) = false

-- The instants that the state holds for a client.
unfoldable pub held : String → RateLimitState → List ℕ
unfolding stored
held key s = stored (get key s.buckets)

current_bucket-accepted_at :
    (l : PublicInferenceRateLimiter) (key : String) (now : ℕ) (m : Buckets)
    → (current_bucket l key now m).accepted_at ≡ prune_from now l.window (stored (get key m))
unfolding current_bucket prune stored prune_from
current_bucket-accepted_at l key now m = ground arith

pub held-cleanup :
    (l : PublicInferenceRateLimiter) (now t : ℕ) (s : RateLimitState) (key : String)
    → Unique s.buckets
    → now ≤ t
    → prune_from t l.window (held key (cleanup_expired_buckets l now s))
      ≡ prune_from t l.window (held key s)
unfolding held
held-cleanup l now t s key u h = stored-cleanup l now t s key u h

-- What the bucket of a client holds when a decision is taken.
unfoldable pub current : PublicInferenceRateLimiter → String → ℕ → RateLimitState → List ℕ
current l key now s = prune_from now l.window (held key s)

unfoldable pub admits : PublicInferenceRateLimiter → String → ℕ → RateLimitState → Bool
unfolding current
admits l key now s = ltb (length (current l key now s)) l.max_requests

module _ (l : PublicInferenceRateLimiter) (key : String) (now : ℕ) (s : RateLimitState)
    (u : Unique s.buckets) where
  pub current_lem :
      (current_bucket l key now (cleanup_expired_buckets l now s).buckets).accepted_at
      ≡ current l key now s
  unfolding current held
  current_lem =
      current_bucket-accepted_at l key now _ ∙ held-cleanup l now now s key u (omega arith)

  -- The decision depends on the instants in the window alone.
  pub acquire_at-admits : is_accepted (acquire_at l key now s).0 ≡ admits l key now s
  unfolding acquire_at admits
  acquire_at-admits = ground (arith, current_lem, ap length current_lem)

  pub acquire_at-Unique : Unique (acquire_at l key now s).1.buckets
  unfolding acquire_at
  acquire_at-Unique =
      elim (Bool-cases (
        ltb
          (length (current_bucket l key now (cleanup_expired_buckets l now s).buckets).accepted_at)
          l.max_requests)) [
            | inl e ↦ rw e (put-Unique key _ _ (cleanup-Unique l now s u))
            | inr e ↦ rw e (put-Unique key _ _ (cleanup-Unique l now s u))
          ]

  pub held_self :
      held key (acquire_at l key now s).1
      ≡ (if admits l key now s then current l key now s ++ now ∷ [] else current l key now s)
  unfolding acquire_at held admits
  held_self = ground (
    arith,
    current_lem,
    ap length current_lem,
    eq_iff key key,
    get-put key key
        (push_back now (current_bucket l key now (cleanup_expired_buckets l now s).buckets))
        (cleanup_expired_buckets l now s).buckets,
    get-put key key (current_bucket l key now (cleanup_expired_buckets l now s).buckets)
        (cleanup_expired_buckets l now s).buckets,
  )

  pub held_other :
      (j : String)
      → str_eq key j ≡ false
      → held j (acquire_at l key now s).1 ≡ held j (cleanup_expired_buckets l now s)
  unfolding acquire_at held
  held_other j e = ground (
    arith,
    eq_iff key j,
    get-put key j
        (push_back now (current_bucket l key now (cleanup_expired_buckets l now s).buckets))
        (cleanup_expired_buckets l now s).buckets,
    get-put key j (current_bucket l key now (cleanup_expired_buckets l now s).buckets)
        (cleanup_expired_buckets l now s).buckets,
  )
