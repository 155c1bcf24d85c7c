-- ===== src/Hub/Prune/Reasons.antt =====
-- crates/llm-hub/src/prune.rs: what the entries have of the snapshots, and the reasons that
-- they do not have.
use kir_ai.Prelude.{
  ℕ, ◌+◌, ◌<◌, ◌≡◌, refl, ap, ◌∙◌, true, false, some, List, [], ◌∷◌, is_empty, ◌==◌, Map, get, All,
  Bool-cases, Option-cases, inl, inr, arith,
}
use kir_ai.Hub.Prune.{
  PrunePolicy, ModelAlias, ModelSnapshot, PruneSnapshotEntry, push_aliases,
  aliases_by_snapshot_path, is_other, prune_entries, is_recent, reasons_of, choose,
}
use kir_ai.Hub.Prune.Groups.{of_profile}
use kir_ai.Hub.Prune.Safe.{IsApart, names, names-sorted_values, names-insert}

pub All-entries :
    (policy : PrunePolicy) (by_path : Map (List ℕ)) (Q : ℕ → ℕ → ℕ → Type 0)
    (snapshots : List ModelSnapshot)
    → All (λ s. Q s.path s.profile s.last_used_at) snapshots
    → All (λ e. Q e.path e.profile e.last_used_at) (prune_entries policy by_path snapshots)
unfolding prune_entries
All-entries policy by_path Q [] h = tt
All-entries policy by_path Q (s ∷ rest) h = elim (Bool-cases (is_other policy.profile s.profile)) [
  | inl t ↦ rw t (All-entries policy by_path Q rest h.1)
  | inr f ↦ rw f (h.0, All-entries policy by_path Q rest h.1)
]

names-apart :
    (path : ℕ) (aliases : List ModelAlias) (by_path : Map (List ℕ))
    → IsApart path aliases
    → names path (push_aliases aliases by_path) ≡ names path by_path
unfolding push_aliases IsApart
names-apart path [] by_path h = refl
names-apart path (a ∷ rest) by_path h =
    names-apart path rest _ h.1 ∙ (names-insert a.snapshot_path path _ by_path ∙ rw h.0 refl)

pub apart-unnamed :
    (path : ℕ) (aliases : List ModelAlias)
    → IsApart path aliases
    → is_empty (names path (aliases_by_snapshot_path aliases)) ≡ true
unfolding aliases_by_snapshot_path get
apart-unnamed path aliases h =
    names-sorted_values path (push_aliases aliases []) ∙ ap is_empty (names-apart path aliases [] h)

pub not_recent :
    (policy : PrunePolicy) (used : ℕ)
    → ((k : ℕ) → policy.keep_recent ≡ some k → used + k < policy.now)
    → is_recent policy used ≡ false
unfolding is_recent
not_recent policy used h = elim (Option-cases policy.keep_recent) [
  | inl e ↦ rw e refl
  | inr (k, e) ↦ rw e (ground (arith, h k e))
]

pub All-of :
    (P : PruneSnapshotEntry → Type 0) (profile : ℕ) (entries : List PruneSnapshotEntry)
    → All P entries
    → All (λ e. P e × (e.profile ≡ profile)) (of_profile profile entries)
unfolding of_profile
All-of P profile [] h = tt
All-of P profile (e ∷ rest) h = elim (Bool-cases (e.profile == profile)) [
  | inl t ↦ rw t ((h.0, ground (arith, t)), All-of P profile rest h.1)
  | inr f ↦ rw f (All-of P profile rest h.1)
]

pub choose-protected :
    (policy : PrunePolicy) (retained : List ℕ) (P : PruneSnapshotEntry → Type 0)
    (entries : List PruneSnapshotEntry)
    → All P entries
    → All
        (λ p. P p.entry × (is_empty (reasons_of policy retained p.entry) ≡ false))
        (choose policy retained entries).1
unfolding choose
choose-protected policy retained P [] h = tt
choose-protected policy retained P (e ∷ rest) h =
    elim (Bool-cases (is_empty (reasons_of policy retained e))) [
      | inl t ↦ rw t (choose-protected policy retained P rest h.1)
      | inr f ↦ rw f ((h.0, f), choose-protected policy retained P rest h.1)
    ]

-- An entry has one profile and one last use with all of its path.
abbrev pub IsAlike : List PruneSnapshotEntry → PruneSnapshotEntry → Type 0
IsAlike entries e =
    All (λ x. e.path ≡ x.path → (e.profile ≡ x.profile) × (e.last_used_at ≡ x.last_used_at)) entries
