-- ===== src/Hub/Prune.antt =====
-- crates/llm-hub/src/prune.rs: which snapshots of models are deleted. A path, an alias and a profile are
-- each a number, by their order; a time is a number of nanoseconds. What the store reads from disk is
-- an argument: the snapshots with the time of their last use, and the aliases.
pub mod Sorted
pub mod Safe
pub mod Parts
pub mod Groups
pub mod Ranked
pub mod Firsts
pub mod Kept
pub mod Reasons
pub mod Exact
use kir_ai.Prelude.{
  ℕ, ◌+◌, Bool, true, false, not, Option, none, some, List, [], ◌∷◌, ◌++◌, map, length, is_empty,
  take, ltb, leb, ◌==◌, if◌then◌else◌, saturating_sub, wrapping_add, Map, get, insert, unwrap_or,
}

pub record PrunePolicy : Type 0 where
  pub now : ℕ
  pub keep_recent : Option ℕ
  pub keep_min_per_profile : ℕ
  pub profile : Option ℕ

pub record ModelAlias : Type 0 where
  pub alias : ℕ
  pub snapshot_path : ℕ

-- A snapshot of the store, with the sizes of its files and the time of its last use.
pub record ModelSnapshot : Type 0 where
  pub path : ℕ
  pub repo_id : ℕ
  pub resolved_commit : ℕ
  pub profile : ℕ
  pub manifest_digest : ℕ
  pub file_sizes : List ℕ
  pub last_used_at : ℕ

-- `PruneCandidate` has the same fields.
pub record PruneSnapshotEntry : Type 0 where
  pub path : ℕ
  pub repo_id : ℕ
  pub resolved_commit : ℕ
  pub profile : ℕ
  pub manifest_digest : ℕ
  pub bytes : ℕ
  pub last_used_at : ℕ
  pub aliases : List ℕ

pub data Reason : Type 0 where
  active_alias : ℕ → Reason
  minimum_retained_for_profile : Reason
  recently_used : Reason

pub record ProtectedSnapshot : Type 0 where
  pub entry : PruneSnapshotEntry
  pub reasons : List Reason

pub record PrunePlan : Type 0 where
  pub scanned_snapshots : ℕ
  pub total_bytes : ℕ
  pub reclaimable_bytes : ℕ
  pub candidates : List PruneSnapshotEntry
  pub protected : List ProtectedSnapshot

-- `sum` of u64
unfoldable pub sum : List ℕ → ℕ
sum [] = 0
sum (x ∷ xs) = wrapping_add x (sum xs)

-- `sort_by`, with the strict test that an item goes before another: equal items stay in their order.
unfoldable pub insert_by {ℓ} : {A : Type ℓ} → (A → A → Bool) → A → List A → List A
insert_by before x [] = x ∷ []
insert_by before x (y ∷ ys) =
    let later = insert_by before x ys in if before y x then y ∷ later else x ∷ y ∷ ys

unfoldable pub sort_by {ℓ} : {A : Type ℓ} → (A → A → Bool) → List A → List A
sort_by before [] = []
sort_by before (x ∷ xs) = insert_by before x (sort_by before xs)

-- The aliases by path; `sort` follows where they are read.
unfoldable pub push_aliases : List ModelAlias → Map (List ℕ) → Map (List ℕ)
push_aliases [] by_path = by_path
push_aliases (a ∷ rest) by_path =
    push_aliases rest (
      insert a.snapshot_path (unwrap_or (get a.snapshot_path by_path) [] ++ (a.alias ∷ [])) by_path)

unfoldable pub sorted_values : Map (List ℕ) → Map (List ℕ)
sorted_values [] = []
sorted_values ((path, names) ∷ rest) = (path, sort_by ltb names) ∷ sorted_values rest

unfoldable pub aliases_by_snapshot_path : List ModelAlias → Map (List ℕ)
aliases_by_snapshot_path aliases = sorted_values (push_aliases aliases [])

abbrev pub is_other : Option ℕ → ℕ → Bool
is_other none profile = false
is_other (some wanted) profile = not (wanted == profile)

-- The first loop of `prune_plan`.
unfoldable pub prune_entries :
    PrunePolicy → Map (List ℕ) → List ModelSnapshot → List PruneSnapshotEntry
prune_entries policy by_path [] = []
prune_entries policy by_path (s ∷ rest) =
    let others = prune_entries policy by_path rest in
    if is_other policy.profile s.profile
    then others
    else record {
      path = s.path;
      repo_id = s.repo_id;
      resolved_commit = s.resolved_commit;
      profile = s.profile;
      manifest_digest = s.manifest_digest;
      bytes = sum s.file_sizes;
      last_used_at = s.last_used_at;
      aliases = unwrap_or (get s.path by_path) [];
    }
      ∷ others

unfoldable pub group_by_profile :
    List PruneSnapshotEntry → Map (List PruneSnapshotEntry) → Map (List PruneSnapshotEntry)
group_by_profile [] groups = groups
group_by_profile (e ∷ rest) groups =
    group_by_profile rest
      (insert e.profile (unwrap_or (get e.profile groups) [] ++ (e ∷ [])) groups)

-- The later used goes first, and of two at the same time the one with the lower path.
unfoldable pub is_kept_before : PruneSnapshotEntry → PruneSnapshotEntry → Bool
is_kept_before left right =
    if left.last_used_at == right.last_used_at
    then ltb left.path right.path
    else ltb right.last_used_at left.last_used_at

unfoldable pub retained_paths : ℕ → Map (List PruneSnapshotEntry) → List ℕ
retained_paths keep [] = []
retained_paths keep ((profile, snapshots) ∷ groups) =
    map (λ e. e.path) (take keep (sort_by is_kept_before snapshots)) ++ retained_paths keep groups

unfoldable pub minimum_retained_snapshot_paths : List PruneSnapshotEntry → ℕ → List ℕ
minimum_retained_snapshot_paths entries keep =
    if keep == 0 then [] else retained_paths keep (group_by_profile entries [])

unfoldable pub contains_path : ℕ → List ℕ → Bool
contains_path path [] = false
contains_path path (p ∷ paths) = if path == p then true else contains_path path paths

-- A use after `now` counts as recent.
unfoldable pub is_recent : PrunePolicy → ℕ → Bool
is_recent policy last_used_at = elim policy.keep_recent [
  | none ↦ false
  | some keep_recent ↦
      if leb last_used_at policy.now
      then leb (saturating_sub policy.now last_used_at) keep_recent
      else true
]

unfoldable pub reasons_of : PrunePolicy → List ℕ → PruneSnapshotEntry → List Reason
reasons_of policy retained e =
    map active_alias e.aliases
    ++ ((if contains_path e.path retained then minimum_retained_for_profile ∷ [] else [])
        ++ (if is_recent policy e.last_used_at then recently_used ∷ [] else []))

-- The second loop of `prune_plan`: the candidates and the protected snapshots.
unfoldable pub choose :
    PrunePolicy
    → List ℕ
    → List PruneSnapshotEntry
    → List PruneSnapshotEntry × List ProtectedSnapshot
choose policy retained [] = ([], [])
choose policy retained (e ∷ rest) =
    let (candidates, protected) = choose policy retained rest in
    if is_empty (reasons_of policy retained e)
    then (e ∷ candidates, protected)
    else (candidates, record { entry = e; reasons = reasons_of policy retained e } ∷ protected)

abbrev pub lower_path : PruneSnapshotEntry → PruneSnapshotEntry → Bool
lower_path left right = ltb left.path right.path

abbrev pub lower_protected : ProtectedSnapshot → ProtectedSnapshot → Bool
lower_protected left right = ltb left.entry.path right.entry.path

unfoldable pub prune_plan : PrunePolicy → List ModelSnapshot → List ModelAlias → PrunePlan
prune_plan policy snapshots aliases =
    let entries = prune_entries policy (aliases_by_snapshot_path aliases) snapshots in
    let retained = minimum_retained_snapshot_paths entries policy.keep_min_per_profile in
    let (chosen, kept) = choose policy retained entries in
    let candidates = sort_by lower_path chosen in
    let protected = sort_by lower_protected kept in
    record {
      scanned_snapshots = length candidates + length protected;
      total_bytes = sum (map (λ e. e.bytes) candidates ++ map (λ p. p.entry.bytes) protected);
      reclaimable_bytes = sum (map (λ e. e.bytes) candidates);
      candidates = candidates;
      protected = protected;
    }
