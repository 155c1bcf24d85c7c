-- ===== src/Hub/Prune/Exact.antt =====
-- crates/llm-hub/src/prune.rs: the snapshots that a plan protects.
use kir_ai.Prelude.{
  ℕ, ◌≤◌, ◌<◌, ◌≡◌, refl, sym, ap, ◌∙◌, subst, Bool, true, false, List, [], ◌∷◌, ◌++◌, map, take,
  is_empty, ◌==◌, Map, get, All, Bool-cases, inl, inr, arith,
}
use kir_ai.Hub.Prune.{
  PrunePolicy, ModelAlias, ModelSnapshot, PruneSnapshotEntry, sort_by, active_alias,
  aliases_by_snapshot_path, is_other, prune_entries, group_by_profile, is_kept_before,
  minimum_retained_snapshot_paths, contains_path, reasons_of, choose, lower_protected, prune_plan,
}
use kir_ai.Hub.Prune.Sorted.{
  count, All-map, All-zip, All-sort_by, count-sort_by, is_kept_before-IsWeakOrder, sort_by-IsSorted,
}
use kir_ai.Hub.Prune.Groups.{of_profile, group, group-group_by_profile}
use kir_ai.Hub.Prune.Ranked.{used_later}
use kir_ai.Hub.Prune.Firsts.{
  All-take, firsts, used_later-count, group_by_profile-IsGrouped, retained_paths-absent,
}
use kir_ai.Hub.Prune.Safe.{is_empty-map, IsEntry, prune_entries-IsEntry, entries_of, retained_of}
use kir_ai.Hub.Prune.Kept.{IsPrunable}
use kir_ai.Hub.Prune.Reasons.{
  All-entries, apart-unnamed, not_recent, All-of, choose-protected, IsAlike,
}

-- Snapshots with one path are of one profile, with one last use: so where no two have the same path.
unfoldable pub IsConsistent : List ModelSnapshot → Type 0
IsConsistent snapshots =
    All
      (λ s.
        All (λ t. s.path ≡ t.path → (s.profile ≡ t.profile) × (s.last_used_at ≡ t.last_used_at))
          snapshots)
      snapshots

-- What is known of the entries of a profile.
abbrev IsKnown : PrunePolicy → PruneSnapshotEntry → PruneSnapshotEntry → Type 0
IsKnown policy e x =
    (is_other policy.profile x.profile ≡ false)
    × (e.path ≡ x.path → (e.profile ≡ x.profile) × (e.last_used_at ≡ x.last_used_at))

group_of :
    (p : ℕ) (entries : List PruneSnapshotEntry)
    → group p (group_by_profile entries []) ≡ of_profile p entries
unfolding get
group_of p entries = group-group_by_profile p entries []

empty_append : {A : Type 0} (xs : List A) → is_empty xs ≡ true → is_empty (xs ++ []) ≡ true
empty_append [] h = refl
empty_append (x ∷ xs) h = absurd (ground (arith, h))

not_both : {b : Bool} → b ≡ true → b ≡ false → ⊥
not_both t f = absurd (ground (arith, t, f))

entries-IsKnown :
    (policy : PrunePolicy) (snapshots : List ModelSnapshot) (by_path : Map (List ℕ))
    → IsConsistent snapshots
    → All
        (λ e.
          IsEntry policy by_path e
          × All (IsKnown policy e) (prune_entries policy by_path snapshots))
        (prune_entries policy by_path snapshots)
unfolding IsConsistent
entries-IsKnown policy snapshots by_path consistent =
    let entries = prune_entries policy by_path snapshots in
    let all = prune_entries-IsEntry policy by_path snapshots in
    All-zip (IsEntry policy by_path) (IsAlike entries)
      (λ e. IsEntry policy by_path e × All (IsKnown policy e) entries) entries
      (λ e i a. (
        i,
        All-zip (IsEntry policy by_path)
            (λ x. e.path ≡ x.path → (e.profile ≡ x.profile) × (e.last_used_at ≡ x.last_used_at))
            (IsKnown policy e) entries (λ x j b. (j.wanted, b)) all a,
      ))
      all
      (All-entries policy by_path
        (λ path profile last.
          All (λ x. path ≡ x.path → (profile ≡ x.profile) × (last ≡ x.last_used_at)) entries)
        snapshots
        (All-map
          (λ s.
            All (λ t. s.path ≡ t.path → (s.profile ≡ t.profile) × (s.last_used_at ≡ t.last_used_at))
              snapshots)
          (λ s.
            All (λ x. s.path ≡ x.path → (s.profile ≡ x.profile) × (s.last_used_at ≡ x.last_used_at))
              entries)
          snapshots
          (λ s h.
            All-entries policy by_path
              (λ path profile last. s.path ≡ path → (s.profile ≡ profile) × (s.last_used_at ≡ last))
              snapshots h)
          consistent))

-- One of the first of a profile has another path than an entry that enough others outrank.
first_apart :
    (policy : PrunePolicy) (snapshots : List ModelSnapshot) (by_path : Map (List ℕ)) (p : ℕ)
    (e x : PruneSnapshotEntry)
    → policy.keep_min_per_profile ≤ used_later e.profile e.path e.last_used_at snapshots
    → count
        (λ d. is_kept_before d x)
        (sort_by is_kept_before (of_profile p (prune_entries policy by_path snapshots)))
      < policy.keep_min_per_profile
    → IsKnown policy e x × (x.profile ≡ p)
    → (e.path == x.path) ≡ false
first_apart policy snapshots by_path p e x outranked few ((wanted, alike), own) =
    elim (Bool-cases (e.path == x.path)) [
      | inr f ↦ f
      | inl t ↦
          let same : e.path ≡ x.path = ground (arith, t) in
          let (profile, last) = alike same in
          let there : used_later p x.path x.last_used_at snapshots
              ≡ used_later e.profile e.path e.last_used_at snapshots =
            rw (profile, same, last) (rw own refl) in
          let bound =
            used_later-count policy snapshots by_path p x
              (subst (λ q. is_other policy.profile q ≡ false) own wanted) in
          absurd (
            omega (
              arith,
              outranked,
              few,
              there,
              bound,
              count-sort_by (λ d. is_kept_before d x) is_kept_before
                  (of_profile p (prune_entries policy by_path snapshots)),
            ))
    ]

group_apart :
    (policy : PrunePolicy) (snapshots : List ModelSnapshot) (by_path : Map (List ℕ)) (p : ℕ)
    (e : PruneSnapshotEntry)
    → policy.keep_min_per_profile ≤ used_later e.profile e.path e.last_used_at snapshots
    → All (IsKnown policy e) (prune_entries policy by_path snapshots)
    → All
        (λ x. (e.path == x.path) ≡ false)
        (take policy.keep_min_per_profile
          (sort_by is_kept_before (of_profile p (prune_entries policy by_path snapshots))))
group_apart policy snapshots by_path p e outranked known =
    let own = of_profile p (prune_entries policy by_path snapshots) in
    let sorted = sort_by is_kept_before own in
    let keep = policy.keep_min_per_profile in
    All-zip (λ x. count (λ d. is_kept_before d x) sorted < keep)
      (λ x. IsKnown policy e x × (x.profile ≡ p)) (λ x. (e.path == x.path) ≡ false)
      (take keep sorted) (λ x few k. first_apart policy snapshots by_path p e x outranked few k)
      (firsts sorted keep (sort_by-IsSorted is_kept_before own is_kept_before-IsWeakOrder))
      (All-take (λ x. IsKnown policy e x × (x.profile ≡ p)) keep sorted
        (All-sort_by (λ x. IsKnown policy e x × (x.profile ≡ p)) is_kept_before own
          (All-of (IsKnown policy e) p (prune_entries policy by_path snapshots) known)))

outranked-unretained :
    (policy : PrunePolicy) (snapshots : List ModelSnapshot) (aliases : List ModelAlias)
    (e : PruneSnapshotEntry)
    → policy.keep_min_per_profile ≤ used_later e.profile e.path e.last_used_at snapshots
    → All (IsKnown policy e) (entries_of policy snapshots aliases)
    → contains_path e.path (retained_of policy snapshots aliases) ≡ false
unfolding minimum_retained_snapshot_paths
outranked-unretained policy snapshots aliases e outranked known =
    let by_path = aliases_by_snapshot_path aliases in
    let entries = entries_of policy snapshots aliases in
    elim (Bool-cases (policy.keep_min_per_profile == 0)) [
      | inl t ↦ rw t (unfold contains_path in refl)
      | inr f ↦ rw f (
          retained_paths-absent e.path policy.keep_min_per_profile (group_by_profile entries [])
            (group_by_profile-IsGrouped entries [] tt)
            (λ p.
              subst
                (λ l.
                  All (λ x. (e.path == x.path) ≡ false)
                    (take policy.keep_min_per_profile (sort_by is_kept_before l)))
                (sym (group_of p entries))
                (group_apart policy snapshots by_path p e outranked known)))
    ]

-- An entry that may be deleted has no reason to be protected.
prunable_unreasoned :
    (policy : PrunePolicy) (snapshots : List ModelSnapshot) (aliases : List ModelAlias)
    (e : PruneSnapshotEntry)
    → IsEntry policy (aliases_by_snapshot_path aliases) e
    → All (IsKnown policy e) (entries_of policy snapshots aliases)
    → IsPrunable policy snapshots aliases e
    → is_empty (reasons_of policy (retained_of policy snapshots aliases) e) ≡ true
unfolding reasons_of
prunable_unreasoned policy snapshots aliases e entry known h =
    let unnamed : is_empty (map active_alias e.aliases) ≡ true =
      is_empty-map active_alias e.aliases
      ∙ (ap is_empty entry.named ∙ apart-unnamed e.path aliases h.apart) in
    rw
      (
        outranked-unretained policy snapshots aliases e h.outranked known,
        not_recent policy e.last_used_at h.not_recent,
      )
      (empty_append (map active_alias e.aliases) unnamed)

-- Where snapshots with one path have one profile and one last use, as where no two have the same path, no
-- snapshot that a plan protects may be deleted: it is not of the profile that is asked for, or an alias
-- points to its path, or fewer snapshots of its profile than are kept were used later, or its last
-- use lies no further back than the time that the policy keeps.
pub prune_plan-protected :
    (policy : PrunePolicy) (snapshots : List ModelSnapshot) (aliases : List ModelAlias)
    → IsConsistent snapshots
    → All
        (λ p. ¬ IsPrunable policy snapshots aliases p.entry)
        (prune_plan policy snapshots aliases).protected
unfolding prune_plan IsConsistent
prune_plan-protected policy snapshots aliases consistent =
    let by_path = aliases_by_snapshot_path aliases in
    let entries = entries_of policy snapshots aliases in
    let retained = retained_of policy snapshots aliases in
    let P : PruneSnapshotEntry → Type 0 =
      λ e. IsEntry policy by_path e × All (IsKnown policy e) entries in
    All-sort_by (λ p. ¬ IsPrunable policy snapshots aliases p.entry) lower_protected
      (choose policy retained entries).1
      (All-map (λ p. P p.entry × (is_empty (reasons_of policy retained p.entry) ≡ false))
        (λ p. ¬ IsPrunable policy snapshots aliases p.entry) (choose policy retained entries).1
        (λ p k h. not_both (prunable_unreasoned policy snapshots aliases p.entry k.0.0 k.0.1 h) k.1)
        (choose-protected policy retained P entries
          (entries-IsKnown policy snapshots by_path consistent)))
