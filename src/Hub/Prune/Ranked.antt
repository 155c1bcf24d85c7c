-- ===== src/Hub/Prune/Ranked.antt =====
-- crates/llm-hub/src/prune.rs: the rank of a snapshot among those of its profile.
use kir_ai.Prelude.{
  ℕ, ◌+◌, ◌≤◌, ◌≡◌, refl, sym, ap, subst, Bool, true, false, ◌&&◌, ◌||◌, List, [], ◌∷◌, take, ltb,
  ◌==◌, if◌then◌else◌, All, ==-refl, Bool-cases, Map, inl, inr, arith,
}
use kir_ai.Hub.Prune.{
  PrunePolicy, ModelAlias, ModelSnapshot, PruneSnapshotEntry, sort_by, aliases_by_snapshot_path,
  is_other, prune_entries, is_kept_before, contains_path,
}
use kir_ai.Hub.Prune.Sorted.{
  count, All-map, All-sorted, count-sort_by, is_kept_before-IsWeakOrder, sort_by-IsSorted, ranks,
}
use kir_ai.Hub.Prune.Safe.{entries_of, retained_of}
use kir_ai.Hub.Prune.Groups.{of_profile, minimum_retained-of_profile}

-- Whether a snapshot is of a profile and was used after a time, or at the time and has a path that is
-- lower than the given one.
unfoldable pub is_used_later : ℕ → ℕ → ℕ → ModelSnapshot → Bool
is_used_later profile path last_used_at s =
    (s.profile == profile)
    && (ltb last_used_at s.last_used_at || ((s.last_used_at == last_used_at) && ltb s.path path))

-- The number of them.
unfoldable pub used_later : ℕ → ℕ → ℕ → List ModelSnapshot → ℕ
unfolding is_used_later
used_later profile path last_used_at [] = 0
used_later profile path last_used_at (s ∷ rest) =
    (if is_used_later profile path last_used_at s then 1 else 0)
    + used_later profile path last_used_at rest

pub not_same :
    (path other : ℕ) (retained : List ℕ)
    → contains_path other retained ≡ true
    → contains_path path retained ≡ false
    → (path == other) ≡ false
not_same path other retained h g = elim (Bool-cases (path == other)) [
  | inl t ↦
      let same : path ≡ other = ground (arith, t) in
      absurd (ground (arith, h, g, ap (λ p. contains_path p retained) same))
  | inr f ↦ f
]

-- An entry is retained, or enough snapshots of its profile were used later.
abbrev pub IsRanked : PrunePolicy → List ModelSnapshot → List ℕ → PruneSnapshotEntry → Type 0
IsRanked policy snapshots retained e =
    contains_path e.path retained ≡ false
    → policy.keep_min_per_profile ≤ used_later e.profile e.path e.last_used_at snapshots

count-of_profile :
    (policy : PrunePolicy) (snapshots : List ModelSnapshot) (aliases : List ModelAlias)
    (profile : ℕ) (e : PruneSnapshotEntry)
    → count
        (λ d. is_kept_before d e)
        (of_profile profile (prune_entries policy (aliases_by_snapshot_path aliases) snapshots))
      ≤ used_later profile e.path e.last_used_at snapshots
unfolding prune_entries of_profile used_later is_used_later is_kept_before
count-of_profile policy [] aliases profile e = omega arith
count-of_profile policy (s ∷ rest) aliases profile e =
    let ih = count-of_profile policy rest aliases profile e in
    elim (Bool-cases (is_other policy.profile s.profile)) [
      | inl t ↦ rw t (omega (arith, ih))
      | inr f ↦ elim (Bool-cases (s.profile == profile)) [
        | inl t ↦ rw (f, t) (ground (arith, ih))
        | inr g ↦ rw (f, g) (omega (arith, ih))
      ]
    ]

of_profile-IsRanked :
    (policy : PrunePolicy) (snapshots : List ModelSnapshot) (aliases : List ModelAlias)
    (profile : ℕ)
    → All
        (λ e.
          e.profile ≡ profile → IsRanked policy snapshots (retained_of policy snapshots aliases) e)
        (of_profile profile (entries_of policy snapshots aliases))
of_profile-IsRanked policy snapshots aliases profile =
    let entries = entries_of policy snapshots aliases in
    let retained = retained_of policy snapshots aliases in
    let keep = policy.keep_min_per_profile in
    let group = of_profile profile entries in
    All-sorted (λ e. e.profile ≡ profile → IsRanked policy snapshots retained e) is_kept_before
      group
      (All-map
        (λ e.
          (n : ℕ)
          → All (λ d. (d.path == e.path) ≡ false) (take n (sort_by is_kept_before group))
          → n ≤ count (λ d. is_kept_before d e) (sort_by is_kept_before group))
        (λ e. e.profile ≡ profile → IsRanked policy snapshots retained e)
        (sort_by is_kept_before group)
        (λ e r same h.
          subst (λ p. keep ≤ used_later p e.path e.last_used_at snapshots) (sym same)
            (omega (
              arith,
              count-sort_by (λ d. is_kept_before d e) is_kept_before group,
              count-of_profile policy snapshots aliases profile e,
              r keep (
                  All-map (λ d. contains_path d.path retained ≡ true)
                    (λ d. (d.path == e.path) ≡ false) (take keep (sort_by is_kept_before group))
                    (λ d g. ground (arith, not_same e.path d.path retained g h))
                    (minimum_retained-of_profile entries keep profile)),
            )))
        (ranks (sort_by is_kept_before group)
          (sort_by-IsSorted is_kept_before group is_kept_before-IsWeakOrder)))

-- What holds of the entries of each profile holds of all.
All-of_profile :
    (Q : PruneSnapshotEntry → Type 0) (entries : List PruneSnapshotEntry)
    → ((profile : ℕ) → All (λ e. e.profile ≡ profile → Q e) (of_profile profile entries))
    → All Q entries
unfolding of_profile
All-of_profile Q [] h = tt
All-of_profile Q (e ∷ rest) h =
    let own : All (λ d. d.profile ≡ e.profile → Q d) (e ∷ of_profile e.profile rest) =
      subst
        (λ b.
          All (λ d. d.profile ≡ e.profile → Q d)
            (if b then e ∷ of_profile e.profile rest else of_profile e.profile rest))
        (==-refl e.profile) (h e.profile) in
    (own.0 refl, All-of_profile Q rest (λ profile. later profile (h profile)))
  where
    later :
        (profile : ℕ)
        → All
            (λ d. d.profile ≡ profile → Q d)
            (if e.profile == profile then e ∷ of_profile profile rest else of_profile profile rest)
        → All (λ d. d.profile ≡ profile → Q d) (of_profile profile rest)
    later profile =
        elim (e.profile == profile)
          as (λ b.
            All (λ d. d.profile ≡ profile → Q d)
              (if b then e ∷ of_profile profile rest else of_profile profile rest)
            → All (λ d. d.profile ≡ profile → Q d) (of_profile profile rest)) [
              | true ↦ λ h. h.1
              | false ↦ λ h. h
            ]

pub entries-IsRanked :
    (policy : PrunePolicy) (snapshots : List ModelSnapshot) (aliases : List ModelAlias)
    → All
        (IsRanked policy snapshots (retained_of policy snapshots aliases))
        (entries_of policy snapshots aliases)
entries-IsRanked policy snapshots aliases =
    All-of_profile (IsRanked policy snapshots (retained_of policy snapshots aliases))
      (entries_of policy snapshots aliases) (of_profile-IsRanked policy snapshots aliases)

-- What holds of the paths, profiles and times of the entries holds of those of the wanted snapshots.
pub All-prune_entries :
    (policy : PrunePolicy) (by_path : Map (List ℕ)) (Q : ℕ → ℕ → ℕ → Type 0)
    (snapshots : List ModelSnapshot)
    → All (λ e. Q e.path e.profile e.last_used_at) (prune_entries policy by_path snapshots)
    → All
        (λ s. is_other policy.profile s.profile ≡ false → Q s.path s.profile s.last_used_at)
        snapshots
unfolding prune_entries
All-prune_entries policy by_path Q [] h = tt
All-prune_entries policy by_path Q (s ∷ rest) h =
    elim (Bool-cases (is_other policy.profile s.profile)) [
      | inl t ↦
          let h' : All (λ e. Q e.path e.profile e.last_used_at)
              (prune_entries policy by_path rest) =
            rw t at h in
          ((λ f. absurd (ground (arith, t, f))), All-prune_entries policy by_path Q rest h')
      | inr f ↦
          let h' : Q s.path s.profile s.last_used_at
              × All (λ e. Q e.path e.profile e.last_used_at) (prune_entries policy by_path rest) =
            rw f at h in
          ((λ g. h'.0), All-prune_entries policy by_path Q rest h'.1)
    ]
