-- ===== src/RateLimit/Held.antt =====
-- What the limiter holds after any requests: for each client a rising list within the limit.
use Prim.Native.String.{String}
use text.Mathlib.Text.{◌==◌ as str_eq}
use text.Mathlib.TextEquality.{eq_iff}
use kir_ai.Prelude.{
  ℕ, ◌≤◌, ◌≡◌, false, ◌⊎◌, List, [], ◌∷◌, arith, length, Bool-cases, inl, inr, ltb, leb, ltb→lt,
  ◌-◌, subst, length-append,
}
use kir_ai.RateLimit.Log.{prune_from}
use kir_ai.RateLimit.Buckets.{get}
use kir_ai.RateLimit.Limiter.{
  PublicInferenceRateLimiter, RateLimitState, acquire_at, cleanup_expired_buckets, initial_state,
}
use kir_ai.RateLimit.Window.{Rising, Rising-mono, Rising-append, length-prune_from-le}
use kir_ai.RateLimit.Stored.{Unique, stored, stored-cleaned}
use kir_ai.RateLimit.Step.{held, current, admits, acquire_at-Unique, held_self, held_other}
use kir_ai.RateLimit.History.{Requests, InOrder}

Rising-lower : (lo a hi : ℕ) (l : List ℕ) → lo ≤ a → Rising a hi l → Rising lo hi l
Rising-lower lo a hi [] h r = omega arith
Rising-lower lo a hi (b ∷ l) h r = (omega arith, r.1)

Rising-prune_from :
    (now window lo hi : ℕ) (l : List ℕ) → Rising lo hi l → Rising lo hi (prune_from now window l)
unfolding prune_from
Rising-prune_from now window lo hi [] r = r
Rising-prune_from now window lo hi (a ∷ l) r = elim (Bool-cases (leb window (now - a))) [
  | inl e ↦ rw e (Rising-lower lo a hi _ r.0 (Rising-prune_from now window a hi l r.1))
  | inr e ↦ rw e r
]

held-cleanup_cases :
    (l : PublicInferenceRateLimiter) (now : ℕ) (s : RateLimitState) (j : String)
    → Unique s.buckets
    → (held j (cleanup_expired_buckets l now s) ≡ held j s)
      ⊎ (held j (cleanup_expired_buckets l now s) ≡ prune_from now l.window (held j s))
unfolding cleanup_expired_buckets held
held-cleanup_cases l now s j u = elim (Bool-cases (ltb now s.next_cleanup_at)) [
  | inl e ↦ inl (rw e)
  | inr e ↦ inr (rw e (stored-cleaned l.ttl l.window now j s.buckets u))
]

-- A list of a client that rises up to `last` and is within the limit.
abbrev pub Fits : ℕ → ℕ → List ℕ → Type 0
Fits limit last xs = Rising 0 last xs × (length xs ≤ limit)

pub record HeldInv (l : PublicInferenceRateLimiter) (last : ℕ) (s : RateLimitState) : Type 0 where
  pub fits : (key : String) → Fits l.max_requests last (held key s)
  pub unique : Unique s.buckets

Fits-prune_from :
    (limit now window last : ℕ) (xs : List ℕ)
    → last ≤ now
    → Fits limit last xs
    → Fits limit now (prune_from now window xs)
Fits-prune_from limit now window last xs h f = (
  Rising-prune_from now window 0 now xs (Rising-mono 0 last now xs h f.0),
  omega (arith, length-prune_from-le now window xs, f.1),
)

module _ (l : PublicInferenceRateLimiter) (last : ℕ) (s : RateLimitState) (h : HeldInv l last s)
    (key : String) (now : ℕ) (later : last ≤ now) where
  pub current-Fits : Fits l.max_requests now (current l key now s)
  unfolding current
  current-Fits = Fits-prune_from l.max_requests now l.window last (held key s) later (h.fits key)

  self-Fits : Fits l.max_requests now (held key (acquire_at l key now s).1)
  unfolding admits
  self-Fits =
      rw (held_self l key now s h.unique)
        (elim (Bool-cases (ltb (length (current l key now s)) l.max_requests)) [
          | inl e ↦ rw e (
            Rising-append 0 now now (current l key now s) (omega arith) current-Fits.0,
            omega (arith, length-append (current l key now s) (now ∷ []), ltb→lt _ _ e),
          )
          | inr e ↦ rw e current-Fits
        ])

  other-Fits :
      (j : String)
      → str_eq key j ≡ false
      → Fits l.max_requests now (held j (acquire_at l key now s).1)
  other-Fits j ne =
      rw (held_other l key now s h.unique j ne) (elim (held-cleanup_cases l now s j h.unique) [
        | inl e ↦ rw e (Rising-mono 0 last now (held j s) later (h.fits j).0, (h.fits j).1)
        | inr e ↦
            rw e (Fits-prune_from l.max_requests now l.window last (held j s) later (h.fits j))
      ])

  acquire_at-HeldInv : HeldInv l now (acquire_at l key now s).1
  acquire_at-HeldInv = record {
    fits = λ j. elim (Bool-cases (str_eq key j)) [
      | inl e ↦
          subst (λ k. Fits l.max_requests now (held k (acquire_at l key now s).1))
            ((eq_iff key j).0 e) self-Fits
      | inr e ↦ other-Fits j e
    ];
    unique = acquire_at-Unique l key now s h.unique;
  }

-- The state after a sequence of requests, and the instant of the last one.
unfoldable pub state_after : PublicInferenceRateLimiter → RateLimitState → Requests → RateLimitState
state_after l s [] = s
state_after l s ((key, now) ∷ rest) = state_after l (acquire_at l key now s).1 rest

abbrev pub last_instant : ℕ → Requests → ℕ
last_instant last [] = last
last_instant last ((key, now) ∷ rest) = last_instant now rest

state_after-HeldInv :
    (l : PublicInferenceRateLimiter) (last : ℕ) (s : RateLimitState) (reqs : Requests)
    → HeldInv l last s
    → InOrder last reqs
    → HeldInv l (last_instant last reqs) (state_after l s reqs)
unfolding state_after
state_after-HeldInv l last s [] h o = h
state_after-HeldInv l last s ((key, now) ∷ reqs) h o =
    state_after-HeldInv l now (acquire_at l key now s).1 reqs
      (acquire_at-HeldInv l last s h key now o.0) o.1

pub initial-HeldInv :
    (l : PublicInferenceRateLimiter) (start : ℕ) (reqs : Requests)
    → InOrder start reqs
    → HeldInv l (last_instant start reqs) (state_after l (initial_state l start) reqs)
unfolding initial_state held get stored
initial-HeldInv l start reqs o =
    state_after-HeldInv l start (initial_state l start) reqs
      (record { fits = λ key. (omega arith, omega arith); unique = tt }) o
