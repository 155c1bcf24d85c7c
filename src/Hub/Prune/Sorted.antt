-- ===== src/Hub/Prune/Sorted.antt =====
-- crates/llm-hub/src/prune.rs: what `sort_by` gives.
use kir_ai.Prelude.{
  ℕ, zero, suc, ◌+◌, ◌≤◌, ◌≡◌, refl, subst, Bool, true, false, List, [], ◌∷◌, take, ◌==◌,
  if◌then◌else◌, All, Bool-cases, inl, inr, arith,
}
use kir_ai.Hub.Prune.{PruneSnapshotEntry, insert_by, sort_by, is_kept_before}

-- No item goes before one that stands ahead of it.
abbrev pub IsSorted : {A : Type 0} → (A → A → Bool) → List A → Type 0
IsSorted before [] = Unit {0}
IsSorted before (x ∷ xs) = All (λ y. before y x ≡ false) xs × IsSorted before xs

abbrev pub count : {A : Type 0} → (A → Bool) → List A → ℕ
count test [] = 0
count test (x ∷ xs) = (if test x then 1 else 0) + count test xs

pub All-map :
    {A : Type 0} (P Q : A → Type 0) (xs : List A) → ((x : A) → P x → Q x) → All P xs → All Q xs
All-map P Q [] f h = tt
All-map P Q (x ∷ xs) f h = (f x h.0, All-map P Q xs f h.1)

pub All-zip :
    {A : Type 0} (P Q R : A → Type 0) (xs : List A)
    → ((x : A) → P x → Q x → R x)
    → All P xs
    → All Q xs
    → All R xs
All-zip P Q R [] f h g = tt
All-zip P Q R (x ∷ xs) f h g = (f x h.0 g.0, All-zip P Q R xs f h.1 g.1)

All-insert_by :
    {A : Type 0} (P : A → Type 0) (before : A → A → Bool) (x : A) (xs : List A)
    → P x
    → All P xs
    → All P (insert_by before x xs)
unfolding insert_by
All-insert_by P before x [] p h = (p, tt)
All-insert_by P before x (y ∷ ys) p h = elim (Bool-cases (before y x)) [
  | inl t ↦ rw t (h.0, All-insert_by P before x ys p h.1)
  | inr f ↦ rw f (p, h)
]

pub All-sort_by :
    {A : Type 0} (P : A → Type 0) (before : A → A → Bool) (xs : List A)
    → All P xs
    → All P (sort_by before xs)
unfolding sort_by
All-sort_by P before [] h = tt
All-sort_by P before (x ∷ xs) h =
    All-insert_by P before x (sort_by before xs) h.0 (All-sort_by P before xs h.1)

All-inserted :
    {A : Type 0} (P : A → Type 0) (before : A → A → Bool) (x : A) (xs : List A)
    → All P (insert_by before x xs)
    → P x × All P xs
unfolding insert_by
All-inserted P before x [] h = h
All-inserted P before x (y ∷ ys) h = elim (Bool-cases (before y x)) [
  | inl t ↦
      let h' : P y × All P (insert_by before x ys) =
        subst (λ b. All P (if b then y ∷ insert_by before x ys else x ∷ y ∷ ys)) t h in
      let rest = All-inserted P before x ys h'.1 in (rest.0, (h'.0, rest.1))
  | inr f ↦ subst (λ b. All P (if b then y ∷ insert_by before x ys else x ∷ y ∷ ys)) f h
]

pub All-sorted :
    {A : Type 0} (P : A → Type 0) (before : A → A → Bool) (xs : List A)
    → All P (sort_by before xs)
    → All P xs
unfolding sort_by
All-sorted P before [] h = tt
All-sorted P before (x ∷ xs) h =
    let (p, rest) = All-inserted P before x (sort_by before xs) h in
    (p, All-sorted P before xs rest)

count-insert_by :
    {A : Type 0} (test : A → Bool) (before : A → A → Bool) (x : A) (xs : List A)
    → count test (insert_by before x xs) ≡ (if test x then 1 else 0) + count test xs
unfolding insert_by
count-insert_by test before x [] = refl
count-insert_by test before x (y ∷ ys) = elim (Bool-cases (before y x)) [
  | inl t ↦ rw t (omega (arith, count-insert_by test before x ys))
  | inr f ↦ rw f refl
]

pub count-sort_by :
    {A : Type 0} (test : A → Bool) (before : A → A → Bool) (xs : List A)
    → count test (sort_by before xs) ≡ count test xs
unfolding sort_by
count-sort_by test before [] = refl
count-sort_by test before (x ∷ xs) =
    omega (arith, count-insert_by test before x (sort_by before xs), count-sort_by test before xs)

-- The test of a strict order whose incomparable items are alike.
pub record IsWeakOrder {A : Type 0} (before : A → A → Bool) : Type 0 where
  pub asymmetric : (x y : A) → before x y ≡ true → before y x ≡ false
  pub negative : (x y z : A) → before z y ≡ false → before y x ≡ false → before z x ≡ false

insert_by-IsSorted :
    {A : Type 0} (before : A → A → Bool) (x : A) (xs : List A)
    → IsWeakOrder before
    → IsSorted before xs
    → IsSorted before (insert_by before x xs)
unfolding insert_by
insert_by-IsSorted before x [] w s = (tt, tt)
insert_by-IsSorted before x (y ∷ ys) w s = elim (Bool-cases (before y x)) [
  | inl t ↦ rw t (
    All-insert_by (λ z. before z y ≡ false) before x ys (w.asymmetric y x t) s.0,
    insert_by-IsSorted before x ys w s.1,
  )
  | inr f ↦ rw f (
    (
      f,
      All-map (λ z. before z y ≡ false) (λ z. before z x ≡ false) ys (λ z h. w.negative x y z h f)
          s.0,
    ),
    s,
  )
]

pub sort_by-IsSorted :
    {A : Type 0} (before : A → A → Bool) (xs : List A)
    → IsWeakOrder before
    → IsSorted before (sort_by before xs)
unfolding sort_by
sort_by-IsSorted before [] w = tt
sort_by-IsSorted before (x ∷ xs) w =
    insert_by-IsSorted before x (sort_by before xs) w (sort_by-IsSorted before xs w)

kept_asymmetric :
    (x y : PruneSnapshotEntry) → is_kept_before x y ≡ true → is_kept_before y x ≡ false
unfolding is_kept_before
kept_asymmetric x y h = ground (arith, h)

kept_negative :
    (x y z : PruneSnapshotEntry)
    → is_kept_before z y ≡ false
    → is_kept_before y x ≡ false
    → is_kept_before z x ≡ false
unfolding is_kept_before
kept_negative x y z h g = ground (arith, h, g)

pub is_kept_before-IsWeakOrder : IsWeakOrder is_kept_before
is_kept_before-IsWeakOrder = record { asymmetric = kept_asymmetric; negative = kept_negative }

kept_total :
    (x e : PruneSnapshotEntry)
    → (x.path == e.path) ≡ false
    → is_kept_before e x ≡ false
    → is_kept_before x e ≡ true
unfolding is_kept_before
kept_total x e h g = ground (arith, h, g)

rank_below :
    (x e : PruneSnapshotEntry) (xs : List PruneSnapshotEntry) (n : ℕ)
    → is_kept_before e x ≡ false
    → ((k : ℕ)
        → All (λ d. (d.path == e.path) ≡ false) (take k xs)
        → k ≤ count (λ d. is_kept_before d e) xs)
    → All (λ d. (d.path == e.path) ≡ false) (take n (x ∷ xs))
    → n ≤ count (λ d. is_kept_before d e) (x ∷ xs)
rank_below x e xs zero b ih h = omega arith
rank_below x e xs (suc k) b ih h = rw (kept_total x e h.0 b) (omega (arith, ih k h.1))

-- An item whose path none of the first has stands after all of them.
pub ranks :
    (l : List PruneSnapshotEntry)
    → IsSorted is_kept_before l
    → All
        (λ e.
          (n : ℕ)
          → All (λ d. (d.path == e.path) ≡ false) (take n l)
          → n ≤ count (λ d. is_kept_before d e) l)
        l
ranks [] s = tt
ranks (x ∷ xs) s = (
  rank_first x xs,
  All-zip (λ e. is_kept_before e x ≡ false)
      (λ e.
        (n : ℕ)
        → All (λ d. (d.path == e.path) ≡ false) (take n xs)
        → n ≤ count (λ d. is_kept_before d e) xs)
      (λ e.
        (n : ℕ)
        → All (λ d. (d.path == e.path) ≡ false) (take n (x ∷ xs))
        → n ≤ count (λ d. is_kept_before d e) (x ∷ xs))
      xs (λ e b ih n h. rank_below x e xs n b ih h) s.0 (ranks xs s.1),
)
  where
    rank_first :
        (x : PruneSnapshotEntry) (xs : List PruneSnapshotEntry) (n : ℕ)
        → All (λ d. (d.path == x.path) ≡ false) (take n (x ∷ xs))
        → n ≤ count (λ d. is_kept_before d x) (x ∷ xs)
    rank_first x xs zero h = omega arith
    rank_first x xs (suc k) h = absurd (ground (arith, h.0))
