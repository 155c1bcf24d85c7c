-- ===== src/Hub/Prune/Groups.antt =====
-- crates/llm-hub/src/prune.rs: the groups of snapshots by profile, and the paths that are retained.
use mathlib.Core.List.{append_assoc, append-nil}
use kir_ai.Prelude.{
  ℕ, zero, suc, ◌≡◌, refl, sym, ap, ◌∙◌, subst, true, false, List, [], ◌∷◌, ◌++◌, map, take, ◌==◌,
  if◌then◌else◌, Map, get, insert, get-insert, unwrap_or, All, ==-refl, Bool-cases, inl, inr, arith,
}
use kir_ai.Hub.Prune.{
  PruneSnapshotEntry, sort_by, group_by_profile, is_kept_before, retained_paths,
  minimum_retained_snapshot_paths, contains_path,
}
use kir_ai.Hub.Prune.Sorted.{All-map}

-- The entries of a profile, in their order.
unfoldable pub of_profile : ℕ → List PruneSnapshotEntry → List PruneSnapshotEntry
of_profile profile [] = []
of_profile profile (e ∷ rest) =
    let others = of_profile profile rest in if e.profile == profile then e ∷ others else others

abbrev pub group : ℕ → Map (List PruneSnapshotEntry) → List PruneSnapshotEntry
group profile groups = unwrap_or (get profile groups) []

group-insert :
    (key profile : ℕ) (v : List PruneSnapshotEntry) (groups : Map (List PruneSnapshotEntry))
    → group profile (insert key v groups) ≡ (if key == profile then v else group profile groups)
group-insert key profile v groups =
    rw (get-insert key profile v groups)
      (elim (Bool-cases (key == profile)) [ inl t ↦ rw t refl | inr f ↦ rw f refl ])

pub group-group_by_profile :
    (profile : ℕ) (entries : List PruneSnapshotEntry) (groups : Map (List PruneSnapshotEntry))
    → group profile (group_by_profile entries groups)
      ≡ group profile groups ++ of_profile profile entries
unfolding group_by_profile of_profile
group-group_by_profile profile [] groups = sym (append-nil (group profile groups))
group-group_by_profile profile (e ∷ rest) groups =
    let more = group e.profile groups ++ (e ∷ []) in
    let later = group-group_by_profile profile rest (insert e.profile more groups) in
    let there = group-insert e.profile profile more groups in
    elim (Bool-cases (e.profile == profile)) [
      | inl t ↦
          let same : e.profile ≡ profile = ground (arith, t) in
          let now : group profile (insert e.profile more groups)
              ≡ group profile groups ++ (e ∷ []) =
            there ∙ rw t (ap (λ p. group p groups ++ (e ∷ [])) same) in
          later
          ∙ rw (now, t) (append_assoc (group profile groups) (e ∷ []) (of_profile profile rest))
      | inr f ↦
          let now : group profile (insert e.profile more groups) ≡ group profile groups =
            there ∙ rw f refl in
          later ∙ rw (now, f) refl
    ]

contains_path-append :
    (path : ℕ) (xs ys : List ℕ)
    → contains_path path ys ≡ true
    → contains_path path (xs ++ ys) ≡ true
unfolding contains_path
contains_path-append path [] ys h = h
contains_path-append path (x ∷ xs) ys h = ground (arith, contains_path-append path xs ys h)

-- The paths of a list are among them.
contains_path_self :
    (es : List PruneSnapshotEntry) (before ys : List ℕ)
    → All (λ e. contains_path e.path (before ++ (map (λ e. e.path) es ++ ys)) ≡ true) es
unfolding contains_path
contains_path_self [] before ys = tt
contains_path_self (e ∷ es) before ys = (
  contains_path-append e.path before (e.path ∷ (map (λ e. e.path) es ++ ys))
      (rw (==-refl e.path) refl),
  subst (λ l. All (λ d. contains_path d.path l ≡ true) es)
      (append_assoc before (e.path ∷ []) (map (λ e. e.path) es ++ ys))
      (contains_path_self es (before ++ (e.path ∷ [])) ys),
)

retained_paths-group :
    (keep profile : ℕ) (groups : Map (List PruneSnapshotEntry))
    → All
        (λ e. contains_path e.path (retained_paths keep groups) ≡ true)
        (take keep (sort_by is_kept_before (group profile groups)))
unfolding retained_paths get
retained_paths-group zero profile [] = tt
retained_paths-group (suc keep) profile [] = unfold sort_by in tt
retained_paths-group keep profile ((p, es) ∷ groups) = elim (Bool-cases (p == profile)) [
  | inl t ↦
      rw t
        (contains_path_self (take keep (sort_by is_kept_before es)) [] (retained_paths keep groups))
  | inr f ↦ rw f (
      All-map (λ e. contains_path e.path (retained_paths keep groups) ≡ true)
        (λ e.
          contains_path e.path (
            map (λ e. e.path) (take keep (sort_by is_kept_before es)) ++ retained_paths keep groups)
          ≡ true)
        (take keep (sort_by is_kept_before (group profile groups)))
        (λ e h.
          contains_path-append e.path (map (λ e. e.path) (take keep (sort_by is_kept_before es)))
            (retained_paths keep groups) h)
        (retained_paths-group keep profile groups))
]

-- Every path that a profile keeps is retained, also where none is.
pub minimum_retained-of_profile :
    (entries : List PruneSnapshotEntry) (keep profile : ℕ)
    → All
        (λ e. contains_path e.path (minimum_retained_snapshot_paths entries keep) ≡ true)
        (take keep (sort_by is_kept_before (of_profile profile entries)))
unfolding minimum_retained_snapshot_paths get
minimum_retained-of_profile entries zero profile = tt
minimum_retained-of_profile entries (suc keep) profile =
    let some_kept : (suc keep == 0) ≡ false = ground arith in
    rw some_kept (
      subst
        (λ es.
          All
            (λ e.
              contains_path e.path (retained_paths (suc keep) (group_by_profile entries [])) ≡ true)
            (take (suc keep) (sort_by is_kept_before es)))
        (group-group_by_profile profile entries [])
        (retained_paths-group (suc keep) profile (group_by_profile entries [])))
