-- ===== src/KvCache/Prefixes.antt =====
-- crates/llm-kv-cache/src/block_pool.rs: the prefixes of token chains that sessions can share.
pub mod Lookup
pub mod Registered
use kir_ai.Prelude.{
  ℕ, Bool, true, false, ◌&&◌, Option, none, some, List, [], ◌∷◌, map, back, ltb, ◌==◌,
  if◌then◌else◌, get, insert, remove,
}
use kir_ai.KvCache.Block.{BlockId, CacheBlockHash, KvCacheError, Outcome, ok, err, CacheBlock}
use kir_ai.KvCache.Table.{SessionId}
use kir_ai.KvCache.Pool.{PrefixBlockSnapshot, PrefixEntry, BlockPool}
use kir_ai.KvCache.Sessions.{append_block_to_session_inner}

-- `PrefixEntry::block_ids`
unfoldable pub block_ids : PrefixEntry → List BlockId
block_ids [] = []
block_ids (snapshot ∷ rest) = snapshot.block_id ∷ block_ids rest

-- `entry.terminal_hash() == Some(hash)`
unfoldable pub ends_with_hash : PrefixEntry → CacheBlockHash → Bool
ends_with_hash entry hash = elim (back entry) [
  | none ↦ false
  | some snapshot ↦ snapshot.content_hash == hash
]

-- The hash of a block that is in use.
unfoldable pub live_hash : BlockId → BlockPool → Option CacheBlockHash
live_hash id p = elim (get id p.blocks) [
  | none ↦ none
  | some b ↦ if b.ref_count == 0 then none else b.content_hash
]

unfoldable pub prefix_entry_for : List BlockId → BlockPool → Option PrefixEntry
unfolding live_hash
prefix_entry_for [] p = some []
prefix_entry_for (id ∷ ids) p = elim (live_hash id p) [
  | none ↦ none
  | some hash ↦ elim (prefix_entry_for ids p) [
    | none ↦ none
    | some entry ↦ some (record { block_id = id; content_hash = hash } ∷ entry)
  ]
]

-- `content_hash == &snapshot.content_hash`, where there is one.
unfoldable pub hash_is : CacheBlockHash → Option CacheBlockHash → Bool
hash_is expected none = false
hash_is expected (some hash) = hash == expected

-- The block of a snapshot is in use and has the hash it had.
unfoldable pub snapshot_matches : PrefixBlockSnapshot → BlockPool → Bool
unfolding hash_is
snapshot_matches snapshot p = elim (get snapshot.block_id p.blocks) [
  | none ↦ false
  | some b ↦ ltb 0 b.ref_count && hash_is snapshot.content_hash b.content_hash
]

unfoldable pub all_match : PrefixEntry → BlockPool → Bool
unfolding snapshot_matches
all_match [] p = true
all_match (snapshot ∷ rest) p = snapshot_matches snapshot p && all_match rest p

unfoldable pub prefix_blocks_match : CacheBlockHash → PrefixEntry → BlockPool → Bool
unfolding ends_with_hash all_match
prefix_blocks_match hash entry p = ends_with_hash entry hash && all_match entry p

unfoldable pub register_prefix : CacheBlockHash → List BlockId → BlockPool → BlockPool
unfolding prefix_entry_for ends_with_hash
register_prefix hash ids p = elim (prefix_entry_for ids p) [
  | none ↦ record p { prefixes = remove hash p.prefixes }
  | some entry ↦
      if ends_with_hash entry hash
      then record p { prefixes = insert hash entry p.prefixes }
      else record p { prefixes = remove hash p.prefixes }
]

unfoldable pub lookup_prefix : CacheBlockHash → BlockPool → Option (List BlockId)
unfolding prefix_blocks_match block_ids
lookup_prefix hash p = elim (get hash p.prefixes) [
  | none ↦ none
  | some entry ↦ if prefix_blocks_match hash entry p then some (block_ids entry) else none
]

-- The loop of `attach_prefix_to_session`: whether it ended, and the pool after it.
unfoldable pub append_all : SessionId → List BlockId → BlockPool → Bool × BlockPool
unfolding append_block_to_session_inner
append_all session_id [] p = (true, p)
append_all session_id (id ∷ ids) p =
    let (appended, p') = append_block_to_session_inner session_id id true p in
    let rest = append_all session_id ids p' in elim appended [ ok u ↦ rest | err e ↦ (false, p') ]

unfoldable pub attach_prefix_to_session :
    SessionId → CacheBlockHash → BlockPool → Option (List BlockId) × BlockPool
unfolding lookup_prefix append_all
attach_prefix_to_session session_id hash p = elim (get session_id p.sessions) [
  | none ↦ (none, p)
  | some t ↦ elim (lookup_prefix hash p) [
    | none ↦ (none, p)
    | some ids ↦
        let (ended, p') = append_all session_id ids p in (if ended then some ids else none, p')
  ]
]
