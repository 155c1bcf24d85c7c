-- ===== src/KvCache/Eviction.antt =====
-- crates/llm-kv-cache/src/block_pool.rs: the eviction of the sessions that were used least recently,
-- and the allocation of a block for a session. `min_by_key` walks the sessions in the order of the
-- list, on which its answer does not depend: the keys of two sessions differ.
pub mod Ends
use kir_ai.Prelude.{
  ℕ, zero, suc, ◌+◌, Bool, true, false, not, ◌&&◌, ◌||◌, Option, none, some, List, [], ◌∷◌, length,
  is_empty, ltb, ◌==◌, if◌then◌else◌, u64_max, saturating_add, get, insert, remove, Map,
}
use kir_ai.KvCache.Block.{BlockId, KvCacheError, Outcome, ok, err, CacheBlock, touch_block}
use kir_ai.KvCache.Contents.{copy_contents_from}
use kir_ai.KvCache.Table.{
  SessionId, SessionBlockTable, new_session, append_owned_block, read_block, replace_owned_block,
  touch_session,
}
use kir_ai.KvCache.Sessions.{release_session_inner, append_block_to_session_inner}
use kir_ai.KvCache.Pool.{
  BlockPool, next_access, resident_blocks_from_free_list, set_block, with_metrics, share_block,
  allocate, release, touch_live, record_eviction, record_cow_clone,
}

-- The key of `min_by_key` in `lru_session_except`, compared.
unfoldable pub older : SessionBlockTable → SessionBlockTable → Bool
older s t =
    ltb s.last_access t.last_access
    || (s.last_access == t.last_access
        && (ltb s.created_at t.created_at
            || (s.created_at == t.created_at && ltb s.session_id t.session_id)))

unfoldable pub is_evictable : Option SessionId → SessionBlockTable → Bool
is_evictable none t = not (is_empty t.block_table)
is_evictable (some excluded) t = not (t.session_id == excluded) && not (is_empty t.block_table)

-- The older of a session and the one of the rest.
unfoldable pub older_of : SessionBlockTable → Option SessionBlockTable → SessionBlockTable
unfolding older
older_of t none = t
older_of t (some rest) = if older rest t then rest else t

unfoldable pub oldest : Option SessionId → Map SessionBlockTable → Option SessionBlockTable
unfolding is_evictable older_of
oldest excluded [] = none
oldest excluded ((id, t) ∷ sessions) =
    let rest = oldest excluded sessions in
    if is_evictable excluded t then some (older_of t rest) else rest

unfoldable pub lru_session_except : Option SessionId → BlockPool → Option SessionId
unfolding oldest
lru_session_except excluded p = elim (oldest excluded p.sessions) [
  | none ↦ none
  | some t ↦ some t.session_id
]

-- The loop of `evict_sessions_until_free` on fuel.
unfoldable pub evict_loop : ℕ → SessionId → BlockPool → BlockPool
unfolding lru_session_except release_session_inner with_metrics record_eviction
    resident_blocks_from_free_list
evict_loop zero excluded p = p
evict_loop (suc fuel) excluded p = elim (is_empty p.free_list) [
  | false ↦ p
  | true ↦ elim (lru_session_except (some excluded) p) [
    | none ↦ p
    | some session_id ↦
        let (released, p') = release_session_inner session_id p in
        let high_water_blocks = resident_blocks_from_free_list p in
        elim released [
          | none ↦ p'
          | some evicted_blocks ↦
              evict_loop fuel excluded
                (with_metrics (record_eviction evicted_blocks high_water_blocks) p')
        ]
  ]
]

-- Every round that goes on removes a session.
unfoldable pub evict_sessions_until_free : SessionId → BlockPool → BlockPool
unfolding evict_loop
evict_sessions_until_free excluded p = evict_loop (length p.sessions) excluded p

unfoldable pub evict_if_full : SessionId → BlockPool → BlockPool
unfolding evict_sessions_until_free
evict_if_full session_id p =
    let evicted = evict_sessions_until_free session_id p in
    if is_empty p.free_list then evicted else p

-- `allocate_for_session` once the session is there and the eviction is done.
unfoldable pub allocate_and_append : SessionId → BlockPool → Option BlockId × BlockPool
unfolding allocate append_block_to_session_inner
allocate_and_append session_id p =
    let (allocated, p') = allocate p in
    elim allocated [
      | none ↦ (none, p')
      | some id ↦
          let (appended, p'') = append_block_to_session_inner session_id id false p' in
          elim appended [ ok u ↦ (some id, p'') | err e ↦ (none, p'') ]
    ]

unfoldable pub allocate_for_session : SessionId → BlockPool → Option BlockId × BlockPool
unfolding evict_if_full allocate_and_append
allocate_for_session session_id p = elim (get session_id p.sessions) [
  | none ↦ (none, p)
  | some t ↦ allocate_and_append session_id (evict_if_full session_id p)
]
