-- ===== src/Hub/Prune/Kept.antt =====
-- crates/llm-hub/src/prune.rs: the snapshots that a plan deletes and those that it keeps.
use kir_ai.Prelude.{
  ℕ, ◌+◌, ◌≤◌, ◌<◌, ◌≡◌, refl, subst, true, false, some, List, ◌==◌, get_elem?, All, All-get_elem?,
  Bool-cases, Option-cases, inl, inr, arith,
}
use kir_ai.Hub.Prune.{
  PrunePolicy, ModelAlias, ModelSnapshot, PruneSnapshotEntry, aliases_by_snapshot_path, is_other,
  contains_path, is_recent, prune_plan,
}
use kir_ai.Hub.Prune.Sorted.{All-map}
use kir_ai.Hub.Prune.Safe.{IsApart, IsUnprotected, retained_of, prune_plan-All}
use kir_ai.Hub.Prune.Ranked.{used_later, IsRanked, not_same, entries-IsRanked, All-prune_entries}

-- The profile is the one asked for, if one is.
unfoldable pub IsWanted : PrunePolicy → ℕ → Type 0
IsWanted policy profile = (p : ℕ) → policy.profile ≡ some p → profile ≡ p

-- A snapshot that may be deleted.
pub record IsPrunable (policy : PrunePolicy) (snapshots : List ModelSnapshot)
    (aliases : List ModelAlias) (c : PruneSnapshotEntry) : Type 0 where
  pub wanted : IsWanted policy c.profile
  pub apart : IsApart c.path aliases
  pub outranked : policy.keep_min_per_profile ≤ used_later c.profile c.path c.last_used_at snapshots
  pub not_recent : (k : ℕ) → policy.keep_recent ≡ some k → c.last_used_at + k < policy.now

is_other-IsWanted :
    (policy : PrunePolicy) (profile : ℕ)
    → is_other policy.profile profile ≡ false
    → IsWanted policy profile
unfolding IsWanted
is_other-IsWanted policy profile h p e =
    let h' : is_other (some p) profile ≡ false = subst (λ o. is_other o profile ≡ false) e h in
    ground (arith, h')

is_recent-not :
    (policy : PrunePolicy) (used k : ℕ)
    → is_recent policy used ≡ false
    → policy.keep_recent ≡ some k
    → used + k < policy.now
unfolding is_recent
is_recent-not policy used k h e = ground (arith, h, e)

-- Every candidate of a plan is a snapshot of the profile that is asked for, if one is; no alias points
-- to its path; at least as many snapshots as each profile keeps are of its profile and were used
-- later (or at the same time, with a lower path); and, if the policy keeps recent ones, the end of the
-- time that they are kept, counted from its last use, lies before now.
pub prune_plan-IsPrunable :
    (policy : PrunePolicy) (snapshots : List ModelSnapshot) (aliases : List ModelAlias)
    → All (IsPrunable policy snapshots aliases) (prune_plan policy snapshots aliases).candidates
prune_plan-IsPrunable policy snapshots aliases =
    let retained = retained_of policy snapshots aliases in
    All-map (λ e. IsRanked policy snapshots retained e × IsUnprotected policy retained aliases e)
      (IsPrunable policy snapshots aliases) (prune_plan policy snapshots aliases).candidates
      (λ e h. record {
        wanted = is_other-IsWanted policy e.profile h.1.wanted;
        apart = h.1.apart;
        outranked = h.0 h.1.not_retained;
        not_recent = λ k r. is_recent-not policy e.last_used_at k h.1.not_recent r;
      })
      (prune_plan-All policy snapshots aliases (IsRanked policy snapshots retained)
        (entries-IsRanked policy snapshots aliases))

pub IsWanted-is_other :
    (policy : PrunePolicy) (profile : ℕ)
    → IsWanted policy profile
    → is_other policy.profile profile ≡ false
unfolding IsWanted
IsWanted-is_other policy profile w = elim (Option-cases policy.profile) [
  | inl e ↦ rw e refl
  | inr (p, e) ↦ rw e (ground (arith, w p e))
]

ranked_path_retained :
    (policy : PrunePolicy) (snapshots : List ModelSnapshot) (aliases : List ModelAlias)
    (s : ModelSnapshot)
    → (contains_path s.path (retained_of policy snapshots aliases) ≡ false
        → policy.keep_min_per_profile ≤ used_later s.profile s.path s.last_used_at snapshots)
    → used_later s.profile s.path s.last_used_at snapshots < policy.keep_min_per_profile
    → contains_path s.path (retained_of policy snapshots aliases) ≡ true
ranked_path_retained policy snapshots aliases s h less =
    elim (Bool-cases (contains_path s.path (retained_of policy snapshots aliases))) [
      | inl t ↦ t
      | inr f ↦ absurd (omega (arith, h f, less))
    ]

-- Where fewer snapshots of a wanted one's profile were used later than it (or at the same time, with a
-- lower path) than each profile keeps, its path is not deleted: no candidate has it, whatever other
-- snapshots have the path.
pub prune_plan-used_later :
    (policy : PrunePolicy) (snapshots : List ModelSnapshot) (aliases : List ModelAlias) (i : ℕ)
    (s : ModelSnapshot)
    → get_elem? snapshots i ≡ some s
    → IsWanted policy s.profile
    → used_later s.profile s.path s.last_used_at snapshots < policy.keep_min_per_profile
    → All (λ c. (c.path == s.path) ≡ false) (prune_plan policy snapshots aliases).candidates
prune_plan-used_later policy snapshots aliases i s e w less =
    let retained = retained_of policy snapshots aliases in
    let Q : ModelSnapshot → Type 0 = λ t.
      is_other policy.profile t.profile ≡ false
      → contains_path t.path retained ≡ false
      → policy.keep_min_per_profile ≤ used_later t.profile t.path t.last_used_at snapshots in
    let ranked : Q s =
      All-get_elem? Q snapshots i
        (All-prune_entries policy (aliases_by_snapshot_path aliases)
          (λ path profile last_used_at.
            contains_path path retained ≡ false
            → policy.keep_min_per_profile ≤ used_later profile path last_used_at snapshots)
          snapshots (entries-IsRanked policy snapshots aliases))
        e in
    let kept =
      ranked_path_retained policy snapshots aliases s
        (ranked (IsWanted-is_other policy s.profile w)) less in
    All-map (λ c. IsRanked policy snapshots retained c × IsUnprotected policy retained aliases c)
      (λ c. (c.path == s.path) ≡ false) (prune_plan policy snapshots aliases).candidates
      (λ c h. not_same c.path s.path retained kept h.1.not_retained)
      (prune_plan-All policy snapshots aliases (IsRanked policy snapshots retained)
        (entries-IsRanked policy snapshots aliases))
