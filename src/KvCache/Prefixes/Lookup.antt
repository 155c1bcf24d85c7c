-- ===== src/KvCache/Prefixes/Lookup.antt =====
-- crates/llm-kv-cache/src/block_pool.rs: what a registered prefix answers.
use kir_ai.Prelude.{
  ◌<◌, ◌≡◌, ap, subst, ◌∙◌, true, some, List, [], ◌∷◌, back, inl, inr, Option-cases, arith, All,
  get,
}
use kir_ai.KvCache.Block.{BlockId, CacheBlockHash, CacheBlock}
use kir_ai.KvCache.Pool.{PrefixBlockSnapshot, PrefixEntry, BlockPool}
use kir_ai.KvCache.Prefixes.{
  block_ids, ends_with_hash, hash_is, snapshot_matches, all_match, prefix_blocks_match,
  lookup_prefix,
}

-- The block is there, in use, and its tokens have the hash.
unfoldable pub IsLive : BlockPool → BlockId → CacheBlockHash → Type 0
IsLive p id hash =
    (b : CacheBlock) × (get id p.blocks ≡ some b) × (0 < b.ref_count) × (b.content_hash ≡ some hash)

-- Every block is in use with a hash, and the last one has that of the prefix.
unfoldable pub IsPrefix : BlockPool → CacheBlockHash → List BlockId → Type 0
IsPrefix p hash ids =
    All (λ id. (h : CacheBlockHash) × IsLive p id h) ids
    × ((last : BlockId) × (back ids ≡ some last) × IsLive p last hash)

pub snapshot-IsLive :
    (p : BlockPool) (s : PrefixBlockSnapshot)
    → snapshot_matches s p ≡ true
    → IsLive p s.block_id s.content_hash
unfolding snapshot_matches hash_is IsLive
snapshot-IsLive p s e = elim (Option-cases (get s.block_id p.blocks)) [
  | inl n ↦ absurd (ground (arith, e, n))
  | inr (b, g) ↦ elim (Option-cases b.content_hash) [
    | inl n ↦ absurd (ground (arith, e, g, n))
    | inr (h, c) ↦
        let same : h ≡ s.content_hash = ground (arith, e, g, c) in
        (b, g, ground (arith, e, g, c), c ∙ ap some same)
  ]
]

entry-All :
    (p : BlockPool) (entry : PrefixEntry)
    → all_match entry p ≡ true
    → All (λ id. (h : CacheBlockHash) × IsLive p id h) (block_ids entry)
unfolding all_match block_ids
entry-All p [] e = tt
entry-All p (s ∷ entry) e = (
  (s.content_hash, snapshot-IsLive p s (ground (arith, e))),
  entry-All p entry (ground (arith, e)),
)

pub back-block_ids :
    (entry : PrefixEntry) (s : PrefixBlockSnapshot)
    → back entry ≡ some s
    → back (block_ids entry) ≡ some s.block_id
unfolding block_ids
back-block_ids [] s e = absurd (ground arith)
back-block_ids (t ∷ []) s e = ground (arith, e)
back-block_ids (t ∷ u ∷ entry) s e = back-block_ids (u ∷ entry) s e

pub back-matches :
    (p : BlockPool) (entry : PrefixEntry) (s : PrefixBlockSnapshot)
    → all_match entry p ≡ true
    → back entry ≡ some s
    → snapshot_matches s p ≡ true
unfolding all_match
back-matches p [] s a e = absurd (ground arith)
back-matches p (t ∷ []) s a e =
    let same : t ≡ s = ground (arith, e) in
    subst (λ x. snapshot_matches x p ≡ true) same (ground (arith, a))
back-matches p (t ∷ u ∷ entry) s a e = back-matches p (u ∷ entry) s (ground (arith, a)) e

pub entry-IsPrefix :
    (p : BlockPool) (hash : CacheBlockHash) (entry : PrefixEntry)
    → all_match entry p ≡ true
    → ends_with_hash entry hash ≡ true
    → IsPrefix p hash (block_ids entry)
unfolding ends_with_hash IsPrefix
entry-IsPrefix p hash entry a e = elim (Option-cases (back entry)) [
  | inl n ↦ absurd (ground (arith, e, n))
  | inr (s, b) ↦
      let same : s.content_hash ≡ hash = ground (arith, e, b) in
      (
        entry-All p entry a,
        (
          s.block_id,
          back-block_ids entry s b,
          subst (λ h. IsLive p s.block_id h) same
              (snapshot-IsLive p s (back-matches p entry s a b)),
        ),
      )
]

-- Whatever the pool has gone through since a prefix was registered, a lookup that answers blocks
-- answers blocks that are all in use and hashed, the last one with the hash of the lookup.
pub lookup_prefix-IsPrefix :
    (p : BlockPool) (hash : CacheBlockHash) (ids : List BlockId)
    → lookup_prefix hash p ≡ some ids
    → IsPrefix p hash ids
unfolding lookup_prefix prefix_blocks_match
lookup_prefix-IsPrefix p hash ids e = elim (Option-cases (get hash p.prefixes)) [
  | inl n ↦ absurd (ground (arith, e, n))
  | inr (entry, g) ↦
      let same : block_ids entry ≡ ids = ground (arith, e, g) in
      subst (λ xs. IsPrefix p hash xs) same
        (entry-IsPrefix p hash entry (ground (arith, e, g)) (ground (arith, e, g)))
]
