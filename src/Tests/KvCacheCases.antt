-- ===== src/Tests/KvCacheCases.antt =====
-- The pool of crates/llm-kv-cache/src/block_pool.rs on two blocks of two tokens, and its theorems.
use kir_ai.Prelude.{
  ◌+◌, ◌≤◌, ◌<◌, ◌≡◌, refl, ◌⊎◌, none, some, List, [], ◌∷◌, arith, get, insert, remove,
}
use kir_ai.KvCache.Block.{
  BlockId, KvCacheError, ok, err, CacheBlock, empty_block, next_block_id, new_block, new_storage,
  fill_zero, is_full, f32_bytes, payload_bytes, increment_ref_count, decrement_ref_count,
  touch_block, clear, reset_for_allocation,
}
use kir_ai.KvCache.Contents.{
  overwrite, validate_token_shape, write_token, append, write_at, slice, token_slice, key, value,
  copy_contents_from,
}
use kir_ai.KvCache.Table.{
  contains, add, discard, append_id, replace, new_session, append_owned_block, read_block,
  owned_after, replace_owned_block, touch_session,
}
use kir_ai.KvCache.Pool.{
  BlockPool, record_refcount, record_shared_refcount_increment, record_cow_clone, record_eviction,
  new_blocks, initial_pool, new_pool, next_access, resident_blocks_from_free_list,
  record_pool_residency, set_block, with_metrics, take_block, allocate, share_block, retain,
  release_block, release, touch_live, touch,
}
use kir_ai.KvCache.Sessions.{
  set_session, next_session_id, add_session, create_session, is_resident, is_unreferenced,
  release_owned, release_session_inner, release_session, own_block, append_to_session,
  append_block_to_session_inner, append_block_to_session,
}
use kir_ai.KvCache.Eviction.{
  older, is_evictable, older_of, oldest, lru_session_except, evict_loop, evict_sessions_until_free,
  evict_if_full, allocate_and_append, allocate_for_session,
}
use kir_ai.KvCache.Eviction.Ends.{IsEvicted, evict_sessions_until_free-IsEvicted}
use kir_ai.KvCache.CopyOnWrite.{
  touch_in_session, touch_session_block, live_block, session_block, keep_block, exchange_block,
  release_previous, copy_block, allocate_and_copy, copy_after_eviction, copy_on_write_session_block,
}
use kir_ai.KvCache.Prefixes.{
  block_ids, ends_with_hash, live_hash, prefix_entry_for, hash_is, snapshot_matches, all_match,
  prefix_blocks_match, register_prefix, lookup_prefix, append_all, attach_prefix_to_session,
}
use kir_ai.KvCache.Prefixes.Lookup.{IsPrefix, lookup_prefix-IsPrefix}
use kir_ai.KvCache.Prefixes.Registered.{lookup_prefix-register_prefix}
use kir_ai.KvCache.History.{
  PoolCommand, block_mut, set_content_hash, appended, edit_block, step, run, reached,
}
use kir_ai.KvCache.FreeList.{IsFreeListed}
use kir_ai.KvCache.FreeList.Allocated.{Allocated, Exhausted}
use kir_ai.KvCache.FreeList.Reached.{Reached-IsFreeListed, Reached-allocate}
use kir_ai.KvCache.Budget.{
  KvCacheBudget, new_budget, remaining_tokens, reserve, BudgetCommand, after_all,
  reserve-remaining_tokens,
}
use kir_ai.KvCache.Tokens.{IsShaped, IsWritten, write_at-key, append-key}

-- Opens what the commands call.
pool : Unit {0}
unfolding empty_block next_block_id new_block new_storage fill_zero is_full f32_bytes payload_bytes
    increment_ref_count decrement_ref_count touch_block clear reset_for_allocation overwrite
    validate_token_shape write_token append write_at slice token_slice key value copy_contents_from
    contains add discard append_id replace new_session append_owned_block read_block owned_after
    replace_owned_block touch_session record_refcount record_shared_refcount_increment
    record_cow_clone record_eviction new_blocks initial_pool new_pool next_access
    resident_blocks_from_free_list record_pool_residency set_block with_metrics take_block allocate
    share_block retain release_block release touch_live touch set_session next_session_id
    add_session create_session is_resident is_unreferenced release_owned release_session_inner
    release_session own_block append_to_session append_block_to_session_inner
    append_block_to_session older is_evictable older_of oldest lru_session_except evict_loop
    evict_sessions_until_free evict_if_full allocate_and_append allocate_for_session
    touch_in_session touch_session_block live_block session_block keep_block exchange_block
    release_previous copy_block allocate_and_copy copy_after_eviction copy_on_write_session_block
    block_ids ends_with_hash live_hash prefix_entry_for hash_is snapshot_matches all_match
    prefix_blocks_match register_prefix lookup_prefix append_all attach_prefix_to_session block_mut
    set_content_hash appended edit_block step run get insert remove
pool = tt

abbrev two_blocks : BlockPool
unfolding initial_pool empty_block
two_blocks = initial_pool ((1, empty_block 2 1 1) ∷ (2, empty_block 2 1 2) ∷ []) (1 ∷ 2 ∷ [])

-- A session takes a block, fills it, and shares it as a prefix with another, which writes to it.
abbrev sharing : List PoolCommand
sharing =
    PoolCommand.open_session
    ∷ PoolCommand.open_session
    ∷ PoolCommand.allocate_for 1
    ∷ PoolCommand.append_token 2 (5 ∷ []) (6 ∷ [])
    ∷ PoolCommand.set_hash 2 (some 77)
    ∷ PoolCommand.register 77 (2 ∷ [])
    ∷ PoolCommand.attach 2 77
    ∷ PoolCommand.copy_at 2 0
    ∷ []

two_blocks_new : new_pool 2 2 1 1 ≡ ok (two_blocks, 3)
unfolding pool
two_blocks_new = refl

sharing_free : (run sharing two_blocks).free_list ≡ []
unfolding pool
sharing_free = refl

sharing_prefix : lookup_prefix 77 (run sharing two_blocks) ≡ some (2 ∷ [])
unfolding pool
sharing_prefix = refl

-- The other session is evicted for a third block.
sharing_evicts : (allocate_for_session 2 (run sharing two_blocks)).0 ≡ some 2
unfolding pool
sharing_evicts = refl

-- The prefix is stale after that.
evicted_prefix : lookup_prefix 77 (allocate_for_session 2 (run sharing two_blocks)).1 ≡ none
unfolding pool
evicted_prefix = refl

Reached-IsFreeListed_example : IsFreeListed (run sharing two_blocks)
Reached-IsFreeListed_example =
    Reached-IsFreeListed (run sharing two_blocks)
      (reached 2 2 1 1 3 two_blocks two_blocks_new sharing)

Reached-allocate_example :
    Exhausted (run sharing two_blocks)
    ⊎ ((id : BlockId) × (b : CacheBlock) × Allocated (run sharing two_blocks) id b)
Reached-allocate_example =
    Reached-allocate (run sharing two_blocks) (reached 2 2 1 1 3 two_blocks two_blocks_new sharing)

evict_sessions_until_free_example :
    IsEvicted 2 (evict_sessions_until_free 2 (run sharing two_blocks))
evict_sessions_until_free_example =
    evict_sessions_until_free-IsEvicted 2 (run sharing two_blocks)
      (reached 2 2 1 1 3 two_blocks two_blocks_new sharing)

lookup_prefix-IsPrefix_example : IsPrefix (run sharing two_blocks) 77 (2 ∷ [])
lookup_prefix-IsPrefix_example =
    lookup_prefix-IsPrefix (run sharing two_blocks) 77 (2 ∷ []) sharing_prefix

lookup_prefix-register_prefix_example :
    (IsPrefix (run sharing two_blocks) 77 (2 ∷ [])
      × (lookup_prefix 77 (register_prefix 77 (2 ∷ []) (run sharing two_blocks)) ≡ some (2 ∷ [])))
    ⊎ (¬ IsPrefix (run sharing two_blocks) 77 (2 ∷ [])
        × (lookup_prefix 77 (register_prefix 77 (2 ∷ []) (run sharing two_blocks)) ≡ none))
lookup_prefix-register_prefix_example =
    lookup_prefix-register_prefix (run sharing two_blocks) 77 (2 ∷ [])

-- A block with one of its two tokens.
abbrev one_token : CacheBlock
unfolding empty_block write_token
one_token = record (write_token 0 (5 ∷ []) (6 ∷ []) (empty_block 2 1 1)) { token_count = 1 }

one_token-IsShaped : IsShaped one_token
unfolding pool IsShaped
one_token-IsShaped = (omega arith, refl, refl)

append-key_example :
    ((one_token.token_count ≡ one_token.capacity_tokens)
      × (append one_token (7 ∷ []) (8 ∷ []) ≡ err (KvCacheError.capacity_exceeded 1 0)))
    ⊎ ((b' : CacheBlock) × ((append one_token (7 ∷ []) (8 ∷ []) ≡ ok (one_token.token_count, b'))
          × (b'.token_count ≡ one_token.token_count + 1)
          × IsWritten one_token one_token.token_count (7 ∷ []) (8 ∷ []) b'))
unfolding pool
append-key_example = append-key one_token (7 ∷ []) (8 ∷ []) one_token-IsShaped refl refl

write_at-key_example :
    (b' : CacheBlock) × ((write_at one_token 0 (7 ∷ []) (8 ∷ []) ≡ ok b')
      × IsWritten one_token 0 (7 ∷ []) (8 ∷ []) b')
unfolding pool
write_at-key_example =
    write_at-key one_token 0 (7 ∷ []) (8 ∷ []) one_token-IsShaped refl refl (omega arith)

abbrev budget_use : List BudgetCommand
budget_use = BudgetCommand.reserving 3 ∷ BudgetCommand.reserving 3 ∷ BudgetCommand.releasing 1 ∷ []

reserve-remaining_tokens_example :
    let b = after_all budget_use (new_budget 4) in
    ((2 ≤ remaining_tokens b)
      × ((b' : KvCacheBudget) × (reserve b 2 ≡ ok b')
          × (remaining_tokens b' + 2 ≡ remaining_tokens b)))
    ⊎ ((remaining_tokens b < 2)
        × (reserve b 2 ≡ err (KvCacheError.capacity_exceeded 2 (remaining_tokens b))))
reserve-remaining_tokens_example = reserve-remaining_tokens 4 budget_use 2 (omega arith)
