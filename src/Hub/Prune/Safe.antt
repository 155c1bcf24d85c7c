-- ===== src/Hub/Prune/Safe.antt =====
-- crates/llm-hub/src/prune.rs: what makes the second loop of `prune_plan` take an entry as a candidate.
use kir_ai.Prelude.{
  ℕ, ◌≡◌, refl, sym, ◌∙◌, subst, Bool, true, false, List, [], ◌∷◌, ◌++◌, map, is_empty, ltb, ◌==◌,
  if◌then◌else◌, Map, get, insert, get-insert, unwrap_or, All, Bool-cases, inl, inr, arith,
}
use kir_ai.Hub.Prune.Sorted.{All-map, All-zip, All-sort_by}
use kir_ai.Hub.Prune.{
  PrunePolicy, ModelAlias, ModelSnapshot, PruneSnapshotEntry, active_alias,
  minimum_retained_for_profile, recently_used, insert_by, sort_by, push_aliases, sorted_values,
  aliases_by_snapshot_path, is_other, prune_entries, minimum_retained_snapshot_paths, contains_path,
  is_recent, reasons_of, choose, lower_path, prune_plan,
}

-- The aliases of a path.
abbrev pub names : ℕ → Map (List ℕ) → List ℕ
names path by_path = unwrap_or (get path by_path) []

unfoldable pub IsApart : ℕ → List ModelAlias → Type 0
IsApart path aliases = All (λ a. (a.snapshot_path == path) ≡ false) aliases

is_empty-append :
    {A : Type 0} (xs ys : List A)
    → is_empty (xs ++ ys) ≡ true
    → (is_empty xs ≡ true) × (is_empty ys ≡ true)
is_empty-append [] ys h = (refl, h)
is_empty-append (x ∷ xs) ys h = absurd (ground arith)

pub names-insert :
    (key path : ℕ) (v : List ℕ) (by_path : Map (List ℕ))
    → names path (insert key v by_path) ≡ (if key == path then v else names path by_path)
names-insert key path v by_path =
    rw (get-insert key path v by_path)
      (elim (Bool-cases (key == path)) [ inl t ↦ rw t refl | inr f ↦ rw f refl ])

-- A path that no alias is pushed to.
names-push_aliases :
    (path : ℕ) (aliases : List ModelAlias) (by_path : Map (List ℕ))
    → is_empty (names path (push_aliases aliases by_path)) ≡ true
    → IsApart path aliases × (is_empty (names path by_path) ≡ true)
unfolding push_aliases IsApart
names-push_aliases path [] by_path h = (tt, h)
names-push_aliases path (a ∷ rest) by_path h =
    let (apart, before) = names-push_aliases path rest _ h in
    elim (Bool-cases (a.snapshot_path == path)) [
      | inl t ↦
          let same : names path
                (insert a.snapshot_path (names a.snapshot_path by_path ++ (a.alias ∷ [])) by_path)
              ≡ names a.snapshot_path by_path ++ (a.alias ∷ []) =
            names-insert a.snapshot_path path _ by_path ∙ rw t refl in
          let none_left =
            is_empty-append (names a.snapshot_path by_path) (a.alias ∷ [])
              (subst (λ l. is_empty l ≡ true) same before) in
          absurd (ground (arith, none_left.1))
      | inr f ↦
          let same : names path
                (insert a.snapshot_path (names a.snapshot_path by_path ++ (a.alias ∷ [])) by_path)
              ≡ names path by_path =
            names-insert a.snapshot_path path _ by_path ∙ rw f refl in
          ((f, apart), subst (λ l. is_empty l ≡ true) same before)
    ]

is_empty-insert_by :
    {A : Type 0} (before : A → A → Bool) (x : A) (xs : List A)
    → is_empty (insert_by before x xs) ≡ false
unfolding insert_by
is_empty-insert_by before x [] = refl
is_empty-insert_by before x (y ∷ ys) = ground arith

is_empty-sort_by :
    {A : Type 0} (before : A → A → Bool) (xs : List A) → is_empty (sort_by before xs) ≡ is_empty xs
unfolding sort_by
is_empty-sort_by before [] = refl
is_empty-sort_by before (x ∷ xs) = is_empty-insert_by before x (sort_by before xs)

pub names-sorted_values :
    (path : ℕ) (by_path : Map (List ℕ))
    → is_empty (names path (sorted_values by_path)) ≡ is_empty (names path by_path)
unfolding sorted_values get
names-sorted_values path [] = refl
names-sorted_values path ((p, ns) ∷ rest) = elim (Bool-cases (p == path)) [
  | inl t ↦ rw t (is_empty-sort_by ltb ns)
  | inr f ↦ rw f (names-sorted_values path rest)
]

-- A path that has no names is the path of no alias.
names-IsApart :
    (path : ℕ) (aliases : List ModelAlias)
    → is_empty (names path (aliases_by_snapshot_path aliases)) ≡ true
    → IsApart path aliases
unfolding aliases_by_snapshot_path
names-IsApart path aliases h =
    (names-push_aliases path aliases []
      (sym (names-sorted_values path (push_aliases aliases [])) ∙ h)).0

-- What an entry is taken over as.
pub record IsEntry (policy : PrunePolicy) (by_path : Map (List ℕ)) (e : PruneSnapshotEntry)
    : Type 0 where
  pub wanted : is_other policy.profile e.profile ≡ false
  pub named : e.aliases ≡ names e.path by_path

pub prune_entries-IsEntry :
    (policy : PrunePolicy) (by_path : Map (List ℕ)) (snapshots : List ModelSnapshot)
    → All (IsEntry policy by_path) (prune_entries policy by_path snapshots)
unfolding prune_entries
prune_entries-IsEntry policy by_path [] = tt
prune_entries-IsEntry policy by_path (s ∷ rest) =
    elim (Bool-cases (is_other policy.profile s.profile)) [
      | inl t ↦ rw t (prune_entries-IsEntry policy by_path rest)
      | inr f ↦
          rw f (record { wanted = f; named = refl }, prune_entries-IsEntry policy by_path rest)
    ]

-- A candidate is an entry that nothing protects.
choose-All :
    (policy : PrunePolicy) (retained : List ℕ) (P : PruneSnapshotEntry → Type 0)
    (entries : List PruneSnapshotEntry)
    → All P entries
    → All
        (λ e. P e × (is_empty (reasons_of policy retained e) ≡ true))
        (choose policy retained entries).0
unfolding choose
choose-All policy retained P [] h = tt
choose-All policy retained P (e ∷ rest) h =
    elim (Bool-cases (is_empty (reasons_of policy retained e))) [
      | inl t ↦ rw t ((h.0, t), choose-All policy retained P rest h.1)
      | inr f ↦ rw f (choose-All policy retained P rest h.1)
    ]

pub is_empty-map : {A B : Type 0} (f : A → B) (xs : List A) → is_empty (map f xs) ≡ is_empty xs
is_empty-map f [] = refl
is_empty-map f (x ∷ xs) = refl

no_reason : {A : Type 0} (b : Bool) (x : A) → is_empty (if b then x ∷ [] else []) ≡ true → b ≡ false
no_reason true x h = absurd (ground arith)
no_reason false x h = refl

-- What nothing of the code protects.
pub record IsUnprotected (policy : PrunePolicy) (retained : List ℕ) (aliases : List ModelAlias)
    (c : PruneSnapshotEntry) : Type 0 where
  pub wanted : is_other policy.profile c.profile ≡ false
  pub apart : IsApart c.path aliases
  pub not_retained : contains_path c.path retained ≡ false
  pub not_recent : is_recent policy c.last_used_at ≡ false

unprotected :
    (policy : PrunePolicy) (retained : List ℕ) (aliases : List ModelAlias) (e : PruneSnapshotEntry)
    → IsEntry policy (aliases_by_snapshot_path aliases) e
    → is_empty (reasons_of policy retained e) ≡ true
    → IsUnprotected policy retained aliases e
unfolding reasons_of
unprotected policy retained aliases e entry h =
    let (unnamed, others) = is_empty-append (map active_alias e.aliases) _ h in
    let (unretained, old) = is_empty-append _ _ others in
    let no_names : is_empty e.aliases ≡ true =
      sym (is_empty-map active_alias e.aliases) ∙ unnamed in
    record {
      wanted = entry.wanted;
      apart = names-IsApart e.path aliases (subst (λ l. is_empty l ≡ true) entry.named no_names);
      not_retained = no_reason _ minimum_retained_for_profile unretained;
      not_recent = no_reason _ recently_used old;
    }

abbrev pub entries_of : PrunePolicy → List ModelSnapshot → List ModelAlias → List PruneSnapshotEntry
entries_of policy snapshots aliases =
    prune_entries policy (aliases_by_snapshot_path aliases) snapshots

abbrev pub retained_of : PrunePolicy → List ModelSnapshot → List ModelAlias → List ℕ
retained_of policy snapshots aliases =
    minimum_retained_snapshot_paths (entries_of policy snapshots aliases)
      policy.keep_min_per_profile

-- What holds of all entries holds of the candidates, and nothing protects these.
pub prune_plan-All :
    (policy : PrunePolicy) (snapshots : List ModelSnapshot) (aliases : List ModelAlias)
    (P : PruneSnapshotEntry → Type 0)
    → All P (entries_of policy snapshots aliases)
    → All
        (λ e. P e × IsUnprotected policy (retained_of policy snapshots aliases) aliases e)
        (prune_plan policy snapshots aliases).candidates
unfolding prune_plan
prune_plan-All policy snapshots aliases P h =
    let by_path = aliases_by_snapshot_path aliases in
    let entries = entries_of policy snapshots aliases in
    let retained = retained_of policy snapshots aliases in
    let E : PruneSnapshotEntry → Type 0 = λ e. P e × IsEntry policy by_path e in
    let R : PruneSnapshotEntry → Type 0 = λ e. P e × IsUnprotected policy retained aliases e in
    All-sort_by R lower_path (choose policy retained entries).0 (
      All-map (λ e. E e × (is_empty (reasons_of policy retained e) ≡ true)) R
        (choose policy retained entries).0
        (λ e h. (h.0.0, unprotected policy retained aliases e h.0.1 h.1))
        (choose-All policy retained E entries (
          All-zip P (IsEntry policy by_path) E entries (λ e p q. (p, q)) h
            (prune_entries-IsEntry policy by_path snapshots))))
