-- ===== src/RateLimit/Window.antt =====
-- Pruning and counting in a list of instants that rise.
use kir_ai.Prelude.{
  ℕ, ◌-◌, ◌≤◌, ◌<◌, ◌≡◌, refl, sym, ◌∙◌, ap, ◌&&◌, List, [], ◌∷◌, ◌++◌, arith, length, total, leb,
  ltb, if◌then◌else◌,
}
use kir_ai.RateLimit.Log.{prune_from}

-- 1 for an instant at most `t` and less than the window before it, 0 for another.
abbrev pub in_window : ℕ → ℕ → ℕ → ℕ
in_window window t a = if leb a t && ltb (t - a) window then 1 else 0

-- Instants that do not fall, from `lo` to `hi`.
abbrev pub Rising : ℕ → ℕ → List ℕ → Type 0
Rising lo hi [] = lo ≤ hi
Rising lo hi (a ∷ rest) = (lo ≤ a) × Rising a hi rest

pub Rising-mono : (lo hi hi' : ℕ) (l : List ℕ) → hi ≤ hi' → Rising lo hi l → Rising lo hi' l
Rising-mono lo hi hi' [] h r = omega arith
Rising-mono lo hi hi' (a ∷ l) h r = (r.0, Rising-mono a hi hi' l h r.1)

pub Rising-append : (lo hi t : ℕ) (l : List ℕ) → hi ≤ t → Rising lo hi l → Rising lo t (l ++ t ∷ [])
Rising-append lo hi t [] h r = omega arith
Rising-append lo hi t (a ∷ l) h r = (r.0, Rising-append a hi t l h r.1)

Rising-le : (lo hi : ℕ) (l : List ℕ) → Rising lo hi l → lo ≤ hi
Rising-le lo hi [] r = r
Rising-le lo hi (a ∷ l) r = omega (arith, Rising-le a hi l r.1)

all_recent :
    (window t lo : ℕ) (l : List ℕ)
    → Rising lo t l
    → t - lo < window
    → total (in_window window t) l ≡ length l
all_recent window t lo [] r h = refl
all_recent window t lo (a ∷ l) r h =
    ground (arith, all_recent window t a l r.1, Rising-le a t l r.1)

-- What pruning leaves are the instants in the window.
pub length-prune_from :
    (window t lo : ℕ) (l : List ℕ)
    → Rising lo t l
    → length (prune_from t window l) ≡ total (in_window window t) l
unfolding prune_from
length-prune_from window t lo [] r = refl
length-prune_from window t lo (a ∷ l) r =
    ground
      (arith, length-prune_from window t a l r.1, all_recent window t a l r.1, Rising-le a t l r.1)

-- An earlier pruning makes no difference to a later one.
pub prune_from-prune_from :
    (window now t : ℕ) (l : List ℕ)
    → now ≤ t
    → prune_from t window (prune_from now window l) ≡ prune_from t window l
unfolding prune_from
prune_from-prune_from window now t [] h = refl
prune_from-prune_from window now t (a ∷ l) h =
    ground (arith, prune_from-prune_from window now t l h)

join : ℕ → ℕ → List ℕ → List ℕ → List ℕ
join t window [] ys = prune_from t window ys
join t window (x ∷ xs) ys = x ∷ xs ++ ys

prune_from-append :
    (window t : ℕ) (xs ys : List ℕ)
    → prune_from t window (xs ++ ys) ≡ join t window (prune_from t window xs) ys
unfolding prune_from join
prune_from-append window t [] ys = refl
prune_from-append window t (x ∷ xs) ys = ground (arith, prune_from-append window t xs ys)

-- Lists that are pruned alike are so with more behind them.
pub prune_from-append_same :
    (window t : ℕ) (xs xs' ys : List ℕ)
    → prune_from t window xs ≡ prune_from t window xs'
    → prune_from t window (xs ++ ys) ≡ prune_from t window (xs' ++ ys)
prune_from-append_same window t xs xs' ys e =
    prune_from-append window t xs ys
    ∙ ap (λ zs. join t window zs ys) e
    ∙ sym (prune_from-append window t xs' ys)

-- The count at `t` of a list that rises up to `hi ≤ t` is at most that at `hi`.
pub total-later :
    (window hi t lo : ℕ) (l : List ℕ)
    → hi ≤ t
    → Rising lo hi l
    → total (in_window window t) l ≤ total (in_window window hi) l
total-later window hi t lo [] h r = omega arith
total-later window hi t lo (a ∷ l) h r =
    ground (arith, total-later window hi t a l h r.1, Rising-le a hi l r.1)

pub length-prune_from-le :
    (now window : ℕ) (l : List ℕ) → length (prune_from now window l) ≤ length l
unfolding prune_from
length-prune_from-le now window [] = omega arith
length-prune_from-le now window (a ∷ l) = ground (arith, length-prune_from-le now window l)
