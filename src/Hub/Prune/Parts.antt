-- ===== src/Hub/Prune/Parts.antt =====
-- crates/llm-hub/src/prune.rs: a plan takes each snapshot as a candidate or protects it.
use mathlib.Core.List.{Perm, perm_middle}
use mathlib.Core.List.Perm
use kir_ai.Prelude.{
  ℕ, ◌≡◌, Bool, List, [], ◌∷◌, ◌++◌, map, is_empty, Bool-cases, inl, inr, Option, none, some, refl,
  ap, subst, arith, ◌==◌, if◌then◌else◌, Map,
}
use kir_ai.Hub.Prune.Sorted.{IsSorted, IsWeakOrder, sort_by-IsSorted}
use kir_ai.Hub.Prune.{
  PrunePolicy, ModelAlias, ModelSnapshot, PruneSnapshotEntry, ProtectedSnapshot, insert_by, sort_by,
  aliases_by_snapshot_path, prune_entries, minimum_retained_snapshot_paths, reasons_of, choose,
  lower_path, lower_protected, prune_plan,
}

insert_by-Perm :
    {A : Type 0} (before : A → A → Bool) (x : A) (xs : List A)
    → Perm (insert_by before x xs) (x ∷ xs)
unfolding insert_by
insert_by-Perm before x [] = Perm.refl (x ∷ [])
insert_by-Perm before x (y ∷ ys) = elim (Bool-cases (before y x)) [
  | inl t ↦ rw t (Perm.trans (Perm.cons y (insert_by-Perm before x ys)) (Perm.swap x y ys))
  | inr f ↦ rw f (Perm.refl (x ∷ y ∷ ys))
]

sort_by-Perm : {A : Type 0} (before : A → A → Bool) (xs : List A) → Perm (sort_by before xs) xs
unfolding sort_by
sort_by-Perm before [] = Perm.refl []
sort_by-Perm before (x ∷ xs) =
    Perm.trans (insert_by-Perm before x (sort_by before xs)) (Perm.cons x (sort_by-Perm before xs))

abbrev pub entry_of : ProtectedSnapshot → PruneSnapshotEntry
entry_of p = p.entry

choose-Perm :
    (policy : PrunePolicy) (retained : List ℕ) (entries : List PruneSnapshotEntry)
    → Perm
        ((choose policy retained entries).0 ++ map entry_of (choose policy retained entries).1)
        entries
unfolding choose
choose-Perm policy retained [] = Perm.refl []
choose-Perm policy retained (e ∷ rest) =
    elim (Bool-cases (is_empty (reasons_of policy retained e))) [
      | inl t ↦ rw t (Perm.cons e (choose-Perm policy retained rest))
      | inr f ↦ rw f (
          Perm.trans
            (perm_middle (choose policy retained rest).0
              (map entry_of (choose policy retained rest).1))
            (Perm.cons e (choose-Perm policy retained rest)))
    ]

-- The snapshots of the profile that is asked for, or all.
unfoldable pub wanted_snapshots : Option ℕ → List ModelSnapshot → List ModelSnapshot
wanted_snapshots none snapshots = snapshots
wanted_snapshots (some profile) [] = []
wanted_snapshots (some profile) (s ∷ rest) =
    let others = wanted_snapshots (some profile) rest in
    if profile == s.profile then s ∷ others else others

-- What a plan says of a snapshot: its path, its profile and its last use.
abbrev pub facts_of_entry : PruneSnapshotEntry → ℕ × ℕ × ℕ
facts_of_entry e = (e.path, e.profile, e.last_used_at)

abbrev pub facts_of_snapshot : ModelSnapshot → ℕ × ℕ × ℕ
facts_of_snapshot s = (s.path, s.profile, s.last_used_at)

facts-prune_entries :
    (policy : PrunePolicy) (wanted : Option ℕ) (by_path : Map (List ℕ))
    (snapshots : List ModelSnapshot)
    → policy.profile ≡ wanted
    → map facts_of_entry (prune_entries policy by_path snapshots)
      ≡ map facts_of_snapshot (wanted_snapshots wanted snapshots)
unfolding prune_entries wanted_snapshots
facts-prune_entries policy none by_path [] e = refl
facts-prune_entries policy (some p) by_path [] e = refl
facts-prune_entries policy none by_path (s ∷ rest) e =
    rw e (ap (λ l. facts_of_snapshot s ∷ l) (facts-prune_entries policy none by_path rest e))
facts-prune_entries policy (some p) by_path (s ∷ rest) e =
    let ih = facts-prune_entries policy (some p) by_path rest e in
    elim (Bool-cases (p == s.profile)) [
      | inl t ↦ rw e (rw t (ap (λ l. facts_of_snapshot s ∷ l) ih))
      | inr f ↦ rw e (rw f ih)
    ]

lower_path-IsWeakOrder : IsWeakOrder lower_path
lower_path-IsWeakOrder = record {
  asymmetric = λ x y h. ground (arith, h);
  negative = λ x y z h g. ground (arith, h, g);
}

lower_protected-IsWeakOrder : IsWeakOrder lower_protected
lower_protected-IsWeakOrder = record {
  asymmetric = λ x y h. ground (arith, h);
  negative = λ x y z h g. ground (arith, h, g);
}

prune_plan-Perm :
    (policy : PrunePolicy) (snapshots : List ModelSnapshot) (aliases : List ModelAlias)
    → Perm
        ((prune_plan policy snapshots aliases).candidates
          ++ map entry_of (prune_plan policy snapshots aliases).protected)
        (prune_entries policy (aliases_by_snapshot_path aliases) snapshots)
unfolding prune_plan
prune_plan-Perm policy snapshots aliases =
    let entries = prune_entries policy (aliases_by_snapshot_path aliases) snapshots in
    let retained = minimum_retained_snapshot_paths entries policy.keep_min_per_profile in
    Perm.trans
      (Perm.append (sort_by-Perm lower_path (choose policy retained entries).0)
        (Perm.map entry_of (sort_by-Perm lower_protected (choose policy retained entries).1)))
      (choose-Perm policy retained entries)

-- The candidates of a plan and the snapshots that it protects are together the snapshots of the profile
-- that is asked for, or all where none is: each once, with its path, its profile and its last use. Both
-- lists are in the order of the paths.
pub prune_plan-wanted_snapshots :
    (policy : PrunePolicy) (snapshots : List ModelSnapshot) (aliases : List ModelAlias)
    → Perm
        (map facts_of_entry (
          (prune_plan policy snapshots aliases).candidates
          ++ map entry_of (prune_plan policy snapshots aliases).protected))
        (map facts_of_snapshot (wanted_snapshots policy.profile snapshots))
      × IsSorted lower_path (prune_plan policy snapshots aliases).candidates
      × IsSorted lower_protected (prune_plan policy snapshots aliases).protected
prune_plan-wanted_snapshots policy snapshots aliases =
    let by_path = aliases_by_snapshot_path aliases in
    let retained =
      minimum_retained_snapshot_paths (prune_entries policy by_path snapshots)
        policy.keep_min_per_profile in
    let chosen = choose policy retained (prune_entries policy by_path snapshots) in
    (
      subst
          (λ l.
            Perm
              (map facts_of_entry (
                (prune_plan policy snapshots aliases).candidates
                ++ map entry_of (prune_plan policy snapshots aliases).protected))
              l)
          (facts-prune_entries policy policy.profile by_path snapshots refl)
          (Perm.map facts_of_entry (prune_plan-Perm policy snapshots aliases)),
      unfold prune_plan in sort_by-IsSorted lower_path chosen.0 lower_path-IsWeakOrder,
      unfold prune_plan in sort_by-IsSorted lower_protected chosen.1 lower_protected-IsWeakOrder,
    )
