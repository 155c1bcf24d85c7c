-- ===== src/Tests/HubCases.antt =====
-- Snapshots of crates/llm-hub.
use mathlib.Core.List.{Perm}
use kir_ai.Prelude.{
  ℕ, ◌≡◌, refl, false, none, some, List, [], ◌∷◌, ◌++◌, map, get, insert, All, arith, ◌==◌,
}
use kir_ai.Hub.Prune.{
  PrunePolicy, ModelAlias, ModelSnapshot, sum, insert_by, sort_by, push_aliases, sorted_values,
  aliases_by_snapshot_path, prune_entries, group_by_profile, is_kept_before, retained_paths,
  minimum_retained_snapshot_paths, contains_path, is_recent, reasons_of, choose, lower_path,
  lower_protected, prune_plan,
}
use kir_ai.Hub.Prune.Sorted.{IsSorted}
use kir_ai.Hub.Prune.Ranked.{is_used_later, used_later}
use kir_ai.Hub.Prune.Kept.{IsWanted, IsPrunable, prune_plan-IsPrunable, prune_plan-used_later}
use kir_ai.Hub.Prune.Exact.{IsConsistent, prune_plan-protected}
use kir_ai.Hub.Prune.Parts.{
  entry_of, wanted_snapshots, facts_of_entry, facts_of_snapshot, prune_plan-wanted_snapshots,
}

-- Opens what a plan calls.
plan : Unit {0}
unfolding get insert sum insert_by sort_by push_aliases sorted_values aliases_by_snapshot_path
    prune_entries group_by_profile is_kept_before retained_paths minimum_retained_snapshot_paths
    contains_path is_recent reasons_of choose prune_plan
plan = tt

abbrev week : PrunePolicy
week = record { now = 100; keep_recent = some 7; keep_min_per_profile = 1; profile = none }

abbrev snapshot : ℕ → ℕ → ℕ → ModelSnapshot
snapshot path profile last_used_at = record {
  path = path;
  repo_id = 1;
  resolved_commit = 2;
  profile = profile;
  manifest_digest = 3;
  file_sizes = 10 ∷ 20 ∷ [];
  last_used_at = last_used_at;
}

-- Of the profile 0: an old one, one with an alias, one used of late, and one from the future.
abbrev snapshots : List ModelSnapshot
snapshots =
    snapshot 5 0 40 ∷ snapshot 4 0 50 ∷ snapshot 3 0 95 ∷ snapshot 2 0 120 ∷ snapshot 1 1 10 ∷ []

abbrev aliases : List ModelAlias
aliases = record { alias = 8; snapshot_path = 4 } ∷ []

one_candidate : map (λ c. c.path) (prune_plan week snapshots aliases).candidates ≡ 5 ∷ []
unfolding plan
one_candidate = refl

reclaimed : (prune_plan week snapshots aliases).reclaimable_bytes ≡ 30
unfolding plan
reclaimed = refl

prune_plan-IsPrunable_example :
    All (IsPrunable week snapshots aliases) (prune_plan week snapshots aliases).candidates
prune_plan-IsPrunable_example = prune_plan-IsPrunable week snapshots aliases

prune_plan-wanted_snapshots_example :
    Perm
      (map facts_of_entry (
        (prune_plan week snapshots aliases).candidates
        ++ map entry_of (prune_plan week snapshots aliases).protected))
      (map facts_of_snapshot snapshots)
    × IsSorted lower_path (prune_plan week snapshots aliases).candidates
    × IsSorted lower_protected (prune_plan week snapshots aliases).protected
unfolding wanted_snapshots
prune_plan-wanted_snapshots_example = prune_plan-wanted_snapshots week snapshots aliases

any_profile : (profile : ℕ) → IsWanted week profile
unfolding IsWanted
any_profile profile p e = absurd (ground (arith, e))

-- The profile 0 keeps the snapshot from the future.
prune_plan-used_later_example :
    All (λ c. (c.path == 2) ≡ false) (prune_plan week snapshots aliases).candidates
prune_plan-used_later_example =
    prune_plan-used_later week snapshots aliases 3 (snapshot 2 0 120) refl (any_profile 0)
      (unfold used_later in unfold is_used_later in omega arith)

-- One is old, and one has an alias.
abbrev two_snapshots : List ModelSnapshot
two_snapshots = snapshot 5 0 40 ∷ snapshot 4 0 50 ∷ []

two_paths : IsConsistent two_snapshots
unfolding IsConsistent
two_paths = (
  ((λ e. (refl, refl)), ((λ e. absurd (omega (arith, e))), tt)),
  (((λ e. absurd (omega (arith, e))), ((λ e. (refl, refl)), tt)), tt),
)

prune_plan-protected_example :
    All
      (λ p. ¬ IsPrunable week two_snapshots aliases p.entry)
      (prune_plan week two_snapshots aliases).protected
prune_plan-protected_example = prune_plan-protected week two_snapshots aliases two_paths
