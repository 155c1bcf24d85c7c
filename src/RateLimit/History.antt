-- ===== src/RateLimit/History.antt =====
-- The limiter against a specification that keeps every accepted request for ever.
use Prim.Native.String.{String}
use text.Mathlib.Text.{◌==◌ as str_eq}
use text.Mathlib.TextEquality.{eq_iff}
use kir_ai.Prelude.{
  ℕ, ◌≤◌, ◌≡◌, refl, sym, ◌∙◌, ap, Bool, false, ◌&&◌, List, [], ◌∷◌, ◌++◌, arith, if◌then◌else◌,
  length, total, Bool-cases, inl, inr, ltb, subst,
}
use kir_ai.RateLimit.Log.{prune_from}
use kir_ai.RateLimit.Buckets.{get}
use kir_ai.RateLimit.Limiter.{
  PublicInferenceRateLimit, PublicInferenceRateLimiter, RateLimitState, acquire_at, new_limiter,
  initial_state,
}
use kir_ai.RateLimit.Window.{
  in_window, Rising, Rising-mono, Rising-append, length-prune_from, prune_from-prune_from,
  prune_from-append_same,
}
use kir_ai.RateLimit.Stored.{stored, Unique}
use kir_ai.RateLimit.Step.{
  is_accepted, held, current, admits, acquire_at-admits, acquire_at-Unique, held_self, held_other,
  held-cleanup,
}

abbrev pub Requests : Type 0
Requests = List (String × ℕ)

-- The limiter's answers to a sequence of requests.
unfoldable pub decisions : PublicInferenceRateLimiter → RateLimitState → Requests → List Bool
decisions l s [] = []
decisions l s ((key, now) ∷ rest) =
    let (d, s') = acquire_at l key now s in is_accepted d ∷ decisions l s' rest

-- The specification: all instants at which a client's requests were accepted.
abbrev pub Accepted : Type 0
Accepted = String → List ℕ

-- A request is accepted if fewer than `max_requests` of its client were in the window before it.
abbrev pub allowed : PublicInferenceRateLimiter → String → ℕ → Accepted → Bool
allowed l key now h = ltb (total (in_window l.window now) (h key)) l.max_requests

abbrev pub accept : String → ℕ → Accepted → Accepted
accept key now h j = if str_eq key j then h j ++ now ∷ [] else h j

abbrev pub after_request : PublicInferenceRateLimiter → String → ℕ → Accepted → Accepted
after_request l key now h = if allowed l key now h then accept key now h else h

pub allowed_all : PublicInferenceRateLimiter → Accepted → Requests → List Bool
allowed_all l h [] = []
allowed_all l h ((key, now) ∷ rest) =
    allowed l key now h ∷ allowed_all l (after_request l key now h) rest

-- The requests come in the order of their instants.
abbrev pub InOrder : ℕ → Requests → Type 0
InOrder last [] = Unit
InOrder last ((key, now) ∷ rest) = (last ≤ now) × InOrder now rest

pub InOrder-mono : (last : ℕ) (reqs : Requests) → InOrder last reqs → InOrder 0 reqs
InOrder-mono last [] o = tt
InOrder-mono last ((key, now) ∷ reqs) o = (omega arith, o.1)

-- The state holds of each client what a pruning at any later instant leaves of all its requests.
pub record Refines (l : PublicInferenceRateLimiter) (last : ℕ) (s : RateLimitState) (h : Accepted)
    : Type 0 where
  pub same :
      (key : String) (t : ℕ)
      → last ≤ t
      → prune_from t l.window (held key s) ≡ prune_from t l.window (h key)
  pub rising : (key : String) → Rising 0 last (h key)
  pub unique : Unique s.buckets

module _ (l : PublicInferenceRateLimiter) (last : ℕ) (s : RateLimitState) (h : Accepted)
    (r : Refines l last s h) (key : String) (now : ℕ) (later : last ≤ now) where
  pub decision_agrees : is_accepted (acquire_at l key now s).0 ≡ allowed l key now h
  unfolding admits current
  decision_agrees = ground (
    arith,
    acquire_at-admits l key now s r.unique,
    r.same key now later,
    ap length (r.same key now later),
    length-prune_from l.window now 0 (h key) (Rising-mono 0 last now (h key) later (r.rising key)),
  )

  admits_agrees : admits l key now s ≡ allowed l key now h
  admits_agrees = sym (acquire_at-admits l key now s r.unique) ∙ decision_agrees

  same_self :
      (t : ℕ)
      → now ≤ t
      → prune_from t l.window (held key (acquire_at l key now s).1)
        ≡ prune_from t l.window (after_request l key now h key)
  same_self t le =
      rw (held_self l key now s r.unique, admits_agrees)
        (elim (Bool-cases (allowed l key now h)) [
          | inl e ↦
              rw (e, (eq_iff key key).1 refl)
                (prune_from-append_same l.window t _ _ (now ∷ []) pruned)
          | inr e ↦ rw e pruned
        ])
    where
      pruned : prune_from t l.window (current l key now s) ≡ prune_from t l.window (h key)
      pruned =
          unfold current in
          prune_from-prune_from l.window now t (held key s) le ∙ r.same key t (omega arith)

  same_other :
      (j : String) (t : ℕ)
      → now ≤ t
      → str_eq key j ≡ false
      → prune_from t l.window (held j (acquire_at l key now s).1)
        ≡ prune_from t l.window (after_request l key now h j)
  same_other j t le ne = rw (held_other l key now s r.unique j ne) (
      held-cleanup l now t s j r.unique le
      ∙ r.same j t (omega arith)
      ∙ sym (ap (prune_from t l.window) untouched))
    where
      untouched : after_request l key now h j ≡ h j
      untouched = ground arith

  after-Rising : (j : String) → Rising 0 now (after_request l key now h j)
  after-Rising j = elim (Bool-cases (allowed l key now h && str_eq key j)) [
    | inl e ↦
        subst (Rising 0 now) (ground arith) (Rising-append 0 last now (h j) later (r.rising j))
    | inr e ↦ subst (Rising 0 now) (ground arith) (Rising-mono 0 last now (h j) later (r.rising j))
  ]

  pub Refines-after : Refines l now (acquire_at l key now s).1 (after_request l key now h)
  Refines-after = record {
    same = λ j t le. elim (Bool-cases (str_eq key j)) [
      | inl e ↦
          subst
            (λ k.
              prune_from t l.window (held k (acquire_at l key now s).1)
              ≡ prune_from t l.window (after_request l key now h k))
            ((eq_iff key j).0 e) (same_self t le)
      | inr e ↦ same_other j t le e
    ];
    rising = after-Rising;
    unique = acquire_at-Unique l key now s r.unique;
  }

decisions-allowed :
    (l : PublicInferenceRateLimiter) (last : ℕ) (s : RateLimitState) (h : Accepted)
    (reqs : Requests)
    → Refines l last s h
    → InOrder last reqs
    → decisions l s reqs ≡ allowed_all l h reqs
unfolding decisions allowed_all
decisions-allowed l last s h [] r o = refl
decisions-allowed l last s h ((key, now) ∷ reqs) r o = cc (
  decision_agrees l last s h r key now o.0,
  decisions-allowed l now (acquire_at l key now s).1 (after_request l key now h) reqs
      (Refines-after l last s h r key now o.0) o.1,
)

pub Refines-initial :
    (l : PublicInferenceRateLimiter) (start : ℕ) → Refines l 0 (initial_state l start) (λ key. [])
unfolding initial_state held get stored
Refines-initial l start = record {
  same = λ key t le. refl;
  rising = λ key. omega arith;
  unique = tt;
}

-- The limiter, which keeps one pruned list for each client and drops those of idle clients, gives
-- the answers of the specification that keeps every accepted request: a request is accepted exactly
-- if fewer than the limit of its client were accepted in the window before it. (The requests come in
-- the order of their instants.)
pub decisions-allowed_all :
    (options : PublicInferenceRateLimit) (start : ℕ) (reqs : Requests)
    → InOrder start reqs
    → let l = new_limiter options in
      decisions l (initial_state l start) reqs ≡ allowed_all l (λ key. []) reqs
decisions-allowed_all options start reqs o =
    let l = new_limiter options in
    decisions-allowed l 0 (initial_state l start) (λ key. []) reqs (Refines-initial l start)
      (InOrder-mono start reqs o)
