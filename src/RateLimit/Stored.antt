-- ===== src/RateLimit/Stored.antt =====
-- What the buckets hold for a key, after a write and after a cleanup.
use Prim.Native.String.{String}
use text.Mathlib.Text.{◌==◌ as str_eq}
use text.Mathlib.TextEquality.{eq_iff}
use kir_ai.Prelude.{
  ℕ, ◌≤◌, ◌≡◌, refl, Bool, not, Option, none, some, List, [], ◌∷◌, arith, if◌then◌else◌, Bool-cases,
  inl, inr, ltb,
}
use kir_ai.RateLimit.Log.{ClientRequestLog, prune_from, prune, is_expired}
use kir_ai.RateLimit.Buckets.{Buckets, get, put, map_values, retain}
use kir_ai.RateLimit.Limiter.{PublicInferenceRateLimiter, RateLimitState, cleanup_expired_buckets}
use kir_ai.RateLimit.Window.{prune_from-prune_from}

-- The instants held for a key; none without a bucket.
unfoldable pub stored : Option ClientRequestLog → List ℕ
stored none = []
stored (some log) = log.accepted_at

-- No key has two buckets.
abbrev pub Unique : Buckets → Type 0
Unique [] = Unit
Unique ((k, log) ∷ rest) = (get k rest ≡ none) × Unique rest

pub get-put :
    (key j : String) (log : ClientRequestLog) (m : Buckets)
    → get j (put key log m) ≡ (if str_eq key j then some log else get j m)
unfolding get put
get-put key j log [] = refl
get-put key j log ((k, old) ∷ m) =
    ground (arith, eq_iff key j, eq_iff k key, eq_iff k j, get-put key j log m)

pub put-Unique :
    (key : String) (log : ClientRequestLog) (m : Buckets) → Unique m → Unique (put key log m)
unfolding put get
put-Unique key log [] u = (refl, tt)
put-Unique key log ((k, old) ∷ m) u = elim (Bool-cases (str_eq k key)) [
  | inl e ↦ rw e u
  | inr e ↦
      rw e
        (ground (arith, get-put key k log m, eq_iff key k, eq_iff k key), put-Unique key log m u.1)
]

get-retain-none :
    (keep : ClientRequestLog → Bool) (key : String) (m : Buckets)
    → get key m ≡ none
    → get key (retain keep m) ≡ none
unfolding get retain
get-retain-none keep key [] e = refl
get-retain-none keep key ((k, log) ∷ m) e = ground (arith, get-retain-none keep key m)

get-map_values-none :
    (f : ClientRequestLog → ClientRequestLog) (key : String) (m : Buckets)
    → get key m ≡ none
    → get key (map_values f m) ≡ none
unfolding get map_values
get-map_values-none f key [] e = refl
get-map_values-none f key ((k, log) ∷ m) e = ground (arith, get-map_values-none f key m)

retain-Unique : (keep : ClientRequestLog → Bool) (m : Buckets) → Unique m → Unique (retain keep m)
unfolding retain
retain-Unique keep [] u = tt
retain-Unique keep ((k, log) ∷ m) u = elim (Bool-cases (keep log)) [
  | inl e ↦ rw e (get-retain-none keep k m u.0, retain-Unique keep m u.1)
  | inr e ↦ rw e (retain-Unique keep m u.1)
]

map_values-Unique :
    (f : ClientRequestLog → ClientRequestLog) (m : Buckets) → Unique m → Unique (map_values f m)
unfolding map_values
map_values-Unique f [] u = tt
map_values-Unique f ((k, log) ∷ m) u = (get-map_values-none f k m u.0, map_values-Unique f m u.1)

pub cleanup-Unique :
    (l : PublicInferenceRateLimiter) (now : ℕ) (s : RateLimitState)
    → Unique s.buckets
    → Unique (cleanup_expired_buckets l now s).buckets
unfolding cleanup_expired_buckets
cleanup-Unique l now s u = elim (Bool-cases (ltb now s.next_cleanup_at)) [
  | inl e ↦ rw e u
  | inr e ↦ rw e (retain-Unique _ _ (map_values-Unique _ s.buckets u))
]

-- An expired bucket holds nothing, so dropping it loses nothing.
pub stored-cleaned :
    (ttl window now : ℕ) (key : String) (m : Buckets)
    → Unique m
    → stored (get key (retain (λ b. not (is_expired now ttl b)) (map_values (prune now window) m)))
      ≡ prune_from now window (stored (get key m))
unfolding stored get retain map_values is_expired prune prune_from
stored-cleaned ttl window now key [] u = refl
stored-cleaned ttl window now key ((k, log) ∷ m) u = ground (
  arith,
  stored-cleaned ttl window now key m u.1,
  eq_iff k key,
  get-retain-none (λ b. not (is_expired now ttl b)) key (map_values (prune now window) m),
  get-map_values-none (prune now window) key m,
)

-- Whether or not a cleanup is due, a later pruning sees the same instants.
pub stored-cleanup :
    (l : PublicInferenceRateLimiter) (now t : ℕ) (s : RateLimitState) (key : String)
    → Unique s.buckets
    → now ≤ t
    → prune_from t l.window (stored (get key (cleanup_expired_buckets l now s).buckets))
      ≡ prune_from t l.window (stored (get key s.buckets))
unfolding cleanup_expired_buckets
stored-cleanup l now t s key u h = elim (Bool-cases (ltb now s.next_cleanup_at)) [
  | inl e ↦ rw e
  | inr e ↦
      rw (e, stored-cleaned l.ttl l.window now key s.buckets u)
        (prune_from-prune_from l.window now t (stored (get key s.buckets)) h)
]
