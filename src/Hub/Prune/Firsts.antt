-- ===== src/Hub/Prune/Firsts.antt =====
-- crates/llm-hub/src/prune.rs: the snapshots that are retained are the first of their profile.
use kir_ai.Prelude.{
  ℕ, zero, suc, ◌≤◌, ◌<◌, ◌≡◌, refl, sym, ap, ◌∙◌, subst, Bool, false, none, List, [], ◌∷◌, ◌++◌,
  map, take, ◌==◌, Map, get, insert, get-insert, unwrap_or, ==-refl, All, Bool-cases, inl, inr,
  arith,
}
use kir_ai.Hub.Prune.{
  PrunePolicy, ModelSnapshot, PruneSnapshotEntry, sort_by, is_other, prune_entries,
  group_by_profile, is_kept_before, retained_paths, contains_path,
}
use kir_ai.Hub.Prune.Sorted.{IsSorted, count, All-map}
use kir_ai.Hub.Prune.Groups.{of_profile, group}
use kir_ai.Hub.Prune.Ranked.{is_used_later, used_later}

pub All-take : {A : Type 0} (P : A → Type 0) (n : ℕ) (xs : List A) → All P xs → All P (take n xs)
All-take P zero xs h = tt
All-take P (suc n) [] h = tt
All-take P (suc n) (x ∷ xs) h = (h.0, All-take P n xs h.1)

count_none :
    {A : Type 0} (test : A → Bool) (xs : List A) → All (λ x. test x ≡ false) xs → count test xs ≡ 0
count_none test [] h = refl
count_none test (x ∷ xs) h = rw (h.0, count_none test xs h.1) (omega arith)

not_before : (x : PruneSnapshotEntry) → is_kept_before x x ≡ false
unfolding is_kept_before
not_before x = ground arith

count_more :
    {A : Type 0} (test : A → Bool) (y : A) (ys : List A) (k : ℕ)
    → count test ys < k
    → count test (y ∷ ys) < suc k
count_more test y ys k h = elim (Bool-cases (test y)) [
  | inl t ↦ rw t (omega (arith, h))
  | inr f ↦ rw f (omega (arith, h))
]

-- Fewer than `n` items stand before one of the first `n`.
pub firsts :
    (l : List PruneSnapshotEntry) (n : ℕ)
    → IsSorted is_kept_before l
    → All (λ x. count (λ d. is_kept_before d x) l < n) (take n l)
firsts l zero s = tt
firsts [] (suc k) s = tt
firsts (y ∷ ys) (suc k) s = (
  rw (not_before y)
      (let nothing = count_none (λ d. is_kept_before d y) ys s.0 in omega (arith, nothing)),
  All-map (λ x. count (λ d. is_kept_before d x) ys < k)
      (λ x. count (λ d. is_kept_before d x) (y ∷ ys) < suc k) (take k ys)
      (λ x h. count_more (λ d. is_kept_before d x) y ys k h) (firsts ys k s.1),
)

-- The snapshots of a wanted profile that were used later are those of its entries.
pub used_later-count :
    (policy : PrunePolicy) (snapshots : List ModelSnapshot) (by_path : Map (List ℕ)) (profile : ℕ)
    (x : PruneSnapshotEntry)
    → is_other policy.profile profile ≡ false
    → used_later profile x.path x.last_used_at snapshots
      ≤ count
          (λ d. is_kept_before d x)
          (of_profile profile (prune_entries policy by_path snapshots))
unfolding prune_entries of_profile used_later is_used_later is_kept_before
used_later-count policy [] by_path profile x w = omega arith
used_later-count policy (s ∷ rest) by_path profile x w =
    let ih = used_later-count policy rest by_path profile x w in
    elim (Bool-cases (s.profile == profile)) [
      | inl t ↦
          let same : s.profile ≡ profile = ground (arith, t) in
          let f : is_other policy.profile s.profile ≡ false =
            subst (λ p. is_other policy.profile p ≡ false) (sym same) w in
          rw (f, t) (ground (arith, ih))
      | inr g ↦ elim (Bool-cases (is_other policy.profile s.profile)) [
        | inl t ↦ rw (t, g) (omega (arith, ih))
        | inr f ↦ rw (f, g) (omega (arith, ih))
      ]
    ]

-- No profile has two groups.
abbrev pub IsGrouped : Map (List PruneSnapshotEntry) → Type 0
IsGrouped [] = Unit {0}
IsGrouped ((p, es) ∷ groups) = (get p groups ≡ none) × IsGrouped groups

insert-IsGrouped :
    (key : ℕ) (v : List PruneSnapshotEntry) (groups : Map (List PruneSnapshotEntry))
    → IsGrouped groups
    → IsGrouped (insert key v groups)
unfolding insert get
insert-IsGrouped key v [] h = (refl, tt)
insert-IsGrouped key v ((p, es) ∷ groups) h = elim (Bool-cases (p == key)) [
  | inl t ↦ rw t h
  | inr f ↦ rw f (
    get-insert key p v groups
        ∙ (let other : (key == p) ≡ false = ground (arith, f) in rw other h.0),
    insert-IsGrouped key v groups h.1,
  )
]

pub group_by_profile-IsGrouped :
    (entries : List PruneSnapshotEntry) (groups : Map (List PruneSnapshotEntry))
    → IsGrouped groups
    → IsGrouped (group_by_profile entries groups)
unfolding group_by_profile
group_by_profile-IsGrouped [] groups h = h
group_by_profile-IsGrouped (e ∷ rest) groups h =
    group_by_profile-IsGrouped rest _ (insert-IsGrouped e.profile _ groups h)

contains_path-absent :
    (path : ℕ) (xs : List PruneSnapshotEntry) (ys : List ℕ)
    → All (λ x. (path == x.path) ≡ false) xs
    → contains_path path ys ≡ false
    → contains_path path (map (λ e. e.path) xs ++ ys) ≡ false
unfolding contains_path
contains_path-absent path [] ys h g = g
contains_path-absent path (x ∷ xs) ys h g = rw h.0 (contains_path-absent path xs ys h.1 g)

first_group :
    (p : ℕ) (es : List PruneSnapshotEntry) (groups : Map (List PruneSnapshotEntry))
    → group p ((p, es) ∷ groups) ≡ es
unfolding get
first_group p es groups = rw (==-refl p) refl

later_group :
    (p q : ℕ) (es : List PruneSnapshotEntry) (groups : Map (List PruneSnapshotEntry))
    → (p == q) ≡ false
    → group q ((p, es) ∷ groups) ≡ group q groups
unfolding get
later_group p q es groups f = rw f refl

no_first :
    (path keep : ℕ)
    → All
        (λ (x : PruneSnapshotEntry). (path == x.path) ≡ false)
        (take keep (sort_by is_kept_before []))
unfolding sort_by
no_first path zero = tt
no_first path (suc keep) = tt

-- A path that none of the first of any group has is not retained.
pub retained_paths-absent :
    (path keep : ℕ) (groups : Map (List PruneSnapshotEntry))
    → IsGrouped groups
    → ((p : ℕ)
        → All (λ x. (path == x.path) ≡ false) (take keep (sort_by is_kept_before (group p groups))))
    → contains_path path (retained_paths keep groups) ≡ false
unfolding retained_paths contains_path
retained_paths-absent path keep [] g h = refl
retained_paths-absent path keep ((p, es) ∷ groups) g h =
    let own : All (λ x. (path == x.path) ≡ false) (take keep (sort_by is_kept_before es)) =
      subst (λ l. All (λ x. (path == x.path) ≡ false) (take keep (sort_by is_kept_before l)))
        (first_group p es groups) (h p) in
    contains_path-absent path (take keep (sort_by is_kept_before es)) (retained_paths keep groups)
      own
      (retained_paths-absent path keep groups g.1 (λ q. elim (Bool-cases (p == q)) [
        | inl t ↦
            let same : p ≡ q = ground (arith, t) in
            subst (λ l. All (λ x. (path == x.path) ≡ false) (take keep (sort_by is_kept_before l)))
              (sym (ap (λ o. unwrap_or o []) (subst (λ k. get k groups ≡ none) same g.0)))
              (no_first path keep)
        | inr f ↦
            subst (λ l. All (λ x. (path == x.path) ≡ false) (take keep (sort_by is_kept_before l)))
              (later_group p q es groups f) (h q)
      ]))
