-- ===== src/KvCache/Pool.antt =====
-- crates/llm-kv-cache/src/block_pool.rs: the state of the pool, and its operations on one block.
-- Each runs under the one mutex of the pool, and returns its answer with the state after it.
use kir_ai.Prelude.{
  ℕ, suc, zero, max, Bool, true, false, Option, none, some, List, [], ◌∷◌, ◌++◌, length, back,
  pop_back, ◌==◌, if◌then◌else◌, saturating_add, saturating_sub, Map, get, insert,
}
use kir_ai.KvCache.Block.{
  BlockId, CacheBlockHash, KvCacheError, Outcome, ok, err, CacheBlock, new_block, payload_bytes,
  increment_ref_count, decrement_ref_count, touch_block, clear, reset_for_allocation,
}
use kir_ai.KvCache.Table.{SessionId, SessionBlockTable}

pub record PrefixBlockSnapshot : Type 0 where
  pub block_id : BlockId
  pub content_hash : CacheBlockHash

-- The `blocks` of a `PrefixEntry`.
abbrev pub PrefixEntry : Type 0
PrefixEntry = List PrefixBlockSnapshot

pub record PagedKvCacheMetrics : Type 0 where
  pub total_refcount_increments : ℕ
  pub total_cow_clones : ℕ
  pub cow_bytes_saved : ℕ
  pub blocks_evicted_lru : ℕ
  pub sessions_evicted_lru : ℕ
  pub eviction_high_water_mark : ℕ
  pub pool_high_water_blocks : ℕ
  pub max_refcount_seen : ℕ

unfoldable pub record_refcount : ℕ → PagedKvCacheMetrics → PagedKvCacheMetrics
record_refcount ref_count m = record m { max_refcount_seen = max m.max_refcount_seen ref_count }

unfoldable pub record_shared_refcount_increment : ℕ → ℕ → PagedKvCacheMetrics → PagedKvCacheMetrics
unfolding record_refcount
record_shared_refcount_increment ref_count bytes_saved m = record_refcount ref_count (record m {
  total_refcount_increments = saturating_add m.total_refcount_increments 1;
  cow_bytes_saved = saturating_add m.cow_bytes_saved bytes_saved;
})

unfoldable pub record_cow_clone : PagedKvCacheMetrics → PagedKvCacheMetrics
record_cow_clone m = record m { total_cow_clones = saturating_add m.total_cow_clones 1 }

unfoldable pub record_eviction : ℕ → ℕ → PagedKvCacheMetrics → PagedKvCacheMetrics
record_eviction evicted_blocks high_water_blocks m = record m {
  sessions_evicted_lru = saturating_add m.sessions_evicted_lru 1;
  blocks_evicted_lru = saturating_add m.blocks_evicted_lru evicted_blocks;
  eviction_high_water_mark = max m.eviction_high_water_mark high_water_blocks;
}

-- `BlockPoolInner`
pub record BlockPool : Type 0 where
  pub blocks : Map CacheBlock
  pub free_list : List BlockId
  pub prefixes : Map PrefixEntry
  pub sessions : Map SessionBlockTable
  pub next_session_id : SessionId
  pub access_clock : ℕ
  pub metrics : PagedKvCacheMetrics

-- The loop of `new`: the blocks, the free list and the counter of identities after them.
unfoldable pub new_blocks :
    (block_count capacity_tokens vector_len counter : ℕ)
    → Map CacheBlock
    → List BlockId
    → Outcome ((Map CacheBlock × List BlockId) × ℕ)
unfolding new_block
new_blocks zero capacity_tokens vector_len counter blocks free_list =
    ok ((blocks, free_list), counter)
new_blocks (suc n) capacity_tokens vector_len counter blocks free_list =
    elim (new_block capacity_tokens vector_len counter) [
      | err e ↦ err e
      | ok (block, counter') ↦
          new_blocks n capacity_tokens vector_len counter' (insert block.id block blocks)
            (free_list ++ block.id ∷ [])
    ]

unfoldable pub initial_pool : Map CacheBlock → List BlockId → BlockPool
initial_pool blocks free_list = record {
  blocks = blocks;
  free_list = free_list;
  prefixes = [];
  sessions = [];
  next_session_id = 1;
  access_clock = 0;
  metrics = record {
    total_refcount_increments = 0;
    total_cow_clones = 0;
    cow_bytes_saved = 0;
    blocks_evicted_lru = 0;
    sessions_evicted_lru = 0;
    eviction_high_water_mark = 0;
    pool_high_water_blocks = 0;
    max_refcount_seen = 0;
  };
}

-- `new` on the counter of identities: the pool and the counter after it.
unfoldable pub new_pool :
    (block_count capacity_tokens vector_len counter : ℕ) → Outcome (BlockPool × ℕ)
unfolding new_blocks initial_pool
new_pool block_count capacity_tokens vector_len counter =
    if block_count == 0
    then err KvCacheError.invalid_shape
    else elim (new_blocks block_count capacity_tokens vector_len counter [] []) [
      | err e ↦ err e
      | ok ((blocks, free_list), counter') ↦ ok (initial_pool blocks free_list, counter')
    ]

-- `next_access` leaves the access in the clock.
unfoldable pub next_access : BlockPool → BlockPool
next_access p = record p { access_clock = saturating_add p.access_clock 1 }

unfoldable pub resident_blocks_from_free_list : BlockPool → ℕ
resident_blocks_from_free_list p = saturating_sub (length p.blocks) (length p.free_list)

unfoldable pub record_pool_residency : BlockPool → BlockPool
unfolding resident_blocks_from_free_list
record_pool_residency p = record p {
  metrics = record p.metrics {
    pool_high_water_blocks =
        max p.metrics.pool_high_water_blocks (resident_blocks_from_free_list p);
  };
}

-- A write through `get_mut`.
unfoldable pub set_block : BlockId → CacheBlock → BlockPool → BlockPool
set_block id b p = record p { blocks = insert id b p.blocks }

unfoldable pub with_metrics : (PagedKvCacheMetrics → PagedKvCacheMetrics) → BlockPool → BlockPool
with_metrics f p = record p { metrics = f p.metrics }

-- `allocate` once the identity is off the free list and the clock has run.
unfoldable pub take_block : BlockId → BlockPool → Option BlockId × BlockPool
unfolding reset_for_allocation set_block with_metrics record_refcount record_pool_residency
take_block id p = elim (get id p.blocks) [
  | none ↦ (none, p)
  | some b ↦
      let b' = reset_for_allocation p.access_clock b in
      (
        some id,
        record_pool_residency (with_metrics (record_refcount b'.ref_count) (set_block id b' p)),
      )
]

unfoldable pub allocate : BlockPool → Option BlockId × BlockPool
unfolding next_access take_block
allocate p = elim (back p.free_list) [
  | none ↦ (none, p)
  | some id ↦ take_block id (next_access (record p { free_list = pop_back p.free_list }))
]

-- The increment that `retain` and `append_block_to_session_inner` make.
unfoldable pub share_block : CacheBlock → BlockId → BlockPool → BlockPool
unfolding increment_ref_count payload_bytes set_block with_metrics record_shared_refcount_increment
share_block b id p =
    let b' = increment_ref_count b in
    with_metrics (record_shared_refcount_increment b'.ref_count (payload_bytes b))
      (set_block id b' p)

unfoldable pub retain : BlockId → BlockPool → Bool × BlockPool
unfolding share_block
retain id p = elim (get id p.blocks) [
  | none ↦ (false, p)
  | some b ↦ if b.ref_count == 0 then (false, p) else (true, share_block b id p)
]

-- What `release` leaves of a block that is in use.
unfoldable pub release_block : CacheBlock → BlockId → BlockPool → BlockPool
unfolding decrement_ref_count clear set_block
release_block b id p =
    let b' = decrement_ref_count b in
    if b'.ref_count == 0
    then (let freed = set_block id (clear b') p in
        record freed { free_list = freed.free_list ++ id ∷ [] })
    else set_block id b' p

-- `release`, which `deallocate` calls.
unfoldable pub release : BlockId → BlockPool → Bool × BlockPool
unfolding release_block
release id p = elim (get id p.blocks) [
  | none ↦ (false, p)
  | some b ↦ if b.ref_count == 0 then (false, p) else (true, release_block b id p)
]

-- The end of `touch`, once the clock has run.
unfoldable pub touch_live : BlockId → BlockPool → Bool × BlockPool
unfolding touch_block set_block
touch_live id p = elim (get id p.blocks) [
  | none ↦ (false, p)
  | some b ↦
      if b.ref_count == 0 then (false, p) else (true, set_block id (touch_block p.access_clock b) p)
]

-- Whether the block was touched.
unfoldable pub touch : BlockId → BlockPool → Bool × BlockPool
unfolding next_access touch_live
touch id p = touch_live id (next_access p)
