-- ===== src/KvCache/Prefixes/Registered.antt =====
-- crates/llm-kv-cache/src/block_pool.rs: a prefix that is registered and looked up at once.
use kir_ai.Prelude.{
  ◌≡◌, refl, ◌⊎◌, sym, ap, subst, ◌∙◌, true, false, ◌&&◌, none, some, List, [], ◌∷◌, back, inl, inr,
  Option-cases, Bool-cases, arith, All, get, get-insert, get-remove, insert, remove, Map,
}
use kir_ai.KvCache.Block.{BlockId, CacheBlockHash}
use kir_ai.KvCache.Pool.{PrefixBlockSnapshot, PrefixEntry, BlockPool}
use kir_ai.KvCache.Prefixes.{
  block_ids, ends_with_hash, live_hash, prefix_entry_for, hash_is, snapshot_matches, all_match,
  prefix_blocks_match, register_prefix, lookup_prefix,
}
use kir_ai.KvCache.Prefixes.Lookup.{
  IsLive, IsPrefix, entry-IsPrefix, snapshot-IsLive, back-block_ids, back-matches,
}

live_hash-some :
    (p : BlockPool) (id : BlockId) (h : CacheBlockHash)
    → live_hash id p ≡ some h
    → snapshot_matches (record { block_id = id; content_hash = h }) p ≡ true
unfolding live_hash snapshot_matches hash_is
live_hash-some p id h e = elim (Option-cases (get id p.blocks)) [
  | inl n ↦ absurd (ground (arith, e, n))
  | inr (b, g) ↦ rw (g, snapshot_matches) (ground (arith, e, g))
]

IsLive-live_hash :
    (p : BlockPool) (id : BlockId) (h : CacheBlockHash) → IsLive p id h → live_hash id p ≡ some h
unfolding IsLive live_hash
IsLive-live_hash p id h (b, g, pos, c) = rw (g, live_hash) (ground (arith, pos, c))

-- The entry of a registered prefix has its blocks, and they match.
entry_matches :
    (p : BlockPool) (ids : List BlockId) (entry : PrefixEntry)
    → prefix_entry_for ids p ≡ some entry
    → (block_ids entry ≡ ids) × (all_match entry p ≡ true)
unfolding prefix_entry_for block_ids all_match
entry_matches p [] entry e =
    let same : [] ≡ entry = ground (arith, e) in
    subst (λ x. (block_ids x ≡ []) × (all_match x p ≡ true)) same (refl, refl)
entry_matches p (id ∷ ids) entry e = elim (Option-cases (live_hash id p)) [
  | inl n ↦ absurd (ground (arith, e, n))
  | inr (h, l) ↦ elim (Option-cases (prefix_entry_for ids p)) [
    | inl n ↦ absurd (ground (arith, e, l, n))
    | inr (rest, r) ↦
        let same : record { block_id = id; content_hash = h } ∷ rest ≡ entry =
          ground (arith, e, l, r) in
        let ih = entry_matches p ids rest r in
        subst (λ x. (block_ids x ≡ id ∷ ids) × (all_match x p ≡ true)) same
          (ap (λ xs. id ∷ xs) ih.0, rw (live_hash-some p id h l) ih.1)
  ]
]

entry_there :
    (p : BlockPool) (ids : List BlockId)
    → All (λ id. (h : CacheBlockHash) × IsLive p id h) ids
    → prefix_entry_for ids p ≡ none
    → ⊥
unfolding prefix_entry_for
entry_there p [] a e = ground (arith, e)
entry_there p (id ∷ ids) ((h, l), a) e =
    let live = IsLive-live_hash p id h l in
    elim (Option-cases (prefix_entry_for ids p)) [
      | inl n ↦ entry_there p ids a n
      | inr (rest, r) ↦ ground (arith, e, live, r)
    ]

IsLive-unique :
    (p : BlockPool) (id : BlockId) (h k : CacheBlockHash) → IsLive p id h → IsLive p id k → h ≡ k
IsLive-unique p id h k x y =
    let one = IsLive-live_hash p id h x in
    let two = IsLive-live_hash p id k y in ground (arith, one, two)

-- The prefixes do not matter to a match.
all_match-prefixes :
    (p : BlockPool) (prefixes : Map PrefixEntry) (entry : PrefixEntry)
    → all_match entry (record p { prefixes = prefixes }) ≡ all_match entry p
unfolding all_match snapshot_matches
all_match-prefixes p prefixes [] = refl
all_match-prefixes p prefixes (s ∷ entry) =
    ap (λ x. snapshot_matches s p && x) (all_match-prefixes p prefixes entry)

lookup-insert :
    (p : BlockPool) (hash : CacheBlockHash) (entry : PrefixEntry)
    → all_match entry p ≡ true
    → ends_with_hash entry hash ≡ true
    → lookup_prefix hash (record p { prefixes = insert hash entry p.prefixes })
      ≡ some (block_ids entry)
unfolding lookup_prefix prefix_blocks_match
lookup-insert p hash entry a e =
    let stored : get hash (insert hash entry p.prefixes) ≡ some entry =
      ground (arith, get-insert hash hash entry p.prefixes) in
    let m = all_match-prefixes p (insert hash entry p.prefixes) entry in
    rw (stored, lookup_prefix) (ground (arith, m, a, e))

lookup-remove :
    (p : BlockPool) (hash : CacheBlockHash)
    → lookup_prefix hash (record p { prefixes = remove hash p.prefixes }) ≡ none
unfolding lookup_prefix
lookup-remove p hash =
    let gone : get hash (remove hash p.prefixes) ≡ none =
      ground (arith, get-remove hash hash p.prefixes) in
    rw (gone, lookup_prefix) refl

back_some : (s : PrefixBlockSnapshot) (entry : PrefixEntry) → back (s ∷ entry) ≡ none → ⊥
back_some s [] e = ground (arith, e)
back_some s (t ∷ entry) e = back_some t entry e

-- The last block of the entry of a prefix with that hash has it.
entry-ends_with_hash :
    (p : BlockPool) (hash : CacheBlockHash) (ids : List BlockId) (entry : PrefixEntry)
    → block_ids entry ≡ ids
    → all_match entry p ≡ true
    → IsPrefix p hash ids
    → ends_with_hash entry hash ≡ false
    → ⊥
unfolding IsPrefix ends_with_hash block_ids
entry-ends_with_hash p hash ids [] b a (every, (last, l, live)) e = ground (arith, b, l)
entry-ends_with_hash p hash ids (t ∷ rest) b a (every, (last, l, live)) e =
    elim (Option-cases (back (t ∷ rest))) [
      | inl n ↦ back_some t rest n
      | inr (s, f) ↦
          let both : some s.block_id ≡ some last =
            sym (back-block_ids (t ∷ rest) s f) ∙ ap back b ∙ l in
          let id : s.block_id ≡ last = ground (arith, both) in
          let here =
            subst (λ i. IsLive p i s.content_hash) id
              (snapshot-IsLive p s (back-matches p (t ∷ rest) s a f)) in
          ground (arith, e, f, IsLive-unique p last s.content_hash hash here live)
    ]

-- A prefix that is registered and looked up: it is answered when every block is in use with a hash
-- and the last one has the hash of the prefix, and otherwise the lookup answers `none`.
pub lookup_prefix-register_prefix :
    (p : BlockPool) (hash : CacheBlockHash) (ids : List BlockId)
    → (IsPrefix p hash ids × (lookup_prefix hash (register_prefix hash ids p) ≡ some ids))
      ⊎ (¬ IsPrefix p hash ids × (lookup_prefix hash (register_prefix hash ids p) ≡ none))
unfolding register_prefix IsPrefix
lookup_prefix-register_prefix p hash ids = elim (Option-cases (prefix_entry_for ids p)) [
  | inl n ↦ inr ((λ h. entry_there p ids h.0 n), rw (n, register_prefix) (lookup-remove p hash))
  | inr (entry, r) ↦
      let m = entry_matches p ids entry r in
      elim (Bool-cases (ends_with_hash entry hash)) [
        | inl t ↦ inl (
          subst (IsPrefix p hash) m.0 (entry-IsPrefix p hash entry m.1 t),
          rw (r, register_prefix) (rw t (lookup-insert p hash entry m.1 t ∙ ap some m.0)),
        )
        | inr f ↦ inr (
          (λ h. entry-ends_with_hash p hash ids entry m.0 m.1 h f),
          rw (r, register_prefix) (rw f (lookup-remove p hash)),
        )
      ]
]
