-- ===== src/KvCache/CopyOnWrite.antt =====
-- crates/llm-kv-cache/src/block_pool.rs: `copy_on_write_session_block`, which gives a session a
-- block of its own before it writes.
use kir_ai.Prelude.{ℕ, Bool, Option, none, some, ltb, ◌==◌, if◌then◌else◌, get}
use kir_ai.KvCache.Block.{BlockId, KvCacheError, Outcome, ok, err, CacheBlock}
use kir_ai.KvCache.Contents.{copy_contents_from}
use kir_ai.KvCache.Table.{SessionId, read_block, replace_owned_block, touch_session}
use kir_ai.KvCache.Pool.{
  BlockPool, next_access, set_block, with_metrics, allocate, release, touch_live, record_cow_clone,
}
use kir_ai.KvCache.Sessions.{set_session}
use kir_ai.KvCache.Eviction.{evict_if_full}

-- `touch_session_block` once the clock has run.
unfoldable pub touch_in_session : SessionId → BlockId → BlockPool → Outcome Unit × BlockPool
unfolding touch_session set_session touch_live
touch_in_session session_id id p = elim (get session_id p.sessions) [
  | none ↦ (err KvCacheError.invalid_shape, p)
  | some t ↦
      let (touched, p') =
        touch_live id (set_session session_id (touch_session p.access_clock t) p) in
      (if touched then ok tt else err KvCacheError.invalid_shape, p')
]

unfoldable pub touch_session_block : SessionId → BlockId → BlockPool → Outcome Unit × BlockPool
unfolding next_access touch_in_session
touch_session_block session_id id p = touch_in_session session_id id (next_access p)

-- `blocks.get(…).filter(|block| block.ref_count() > 0)`
unfoldable pub live_block : BlockId → BlockPool → Option CacheBlock
live_block id p = elim (get id p.blocks) [
  | none ↦ none
  | some b ↦ if ltb 0 b.ref_count then some b else none
]

unfoldable pub session_block : SessionId → ℕ → BlockPool → Option BlockId
unfolding read_block
session_block session_id index p = elim (get session_id p.sessions) [
  | none ↦ none
  | some t ↦ read_block t index
]

-- The block is the session's alone.
unfoldable pub keep_block : SessionId → BlockId → BlockPool → Outcome BlockId × BlockPool
unfolding touch_session_block
keep_block session_id id p =
    let (touched, p') = touch_session_block session_id id p in
    elim touched [ ok u ↦ (ok id, p') | err e ↦ (err e, p') ]

unfoldable pub fail_released : BlockId → KvCacheError → BlockPool → Outcome BlockId × BlockPool
unfolding release
fail_released new_id e p = (err e, (release new_id p).1)

-- The release of the block that the session no longer reads.
unfoldable pub release_previous : Bool → BlockId → BlockPool → BlockPool
unfolding release
release_previous should_release_previous id p =
    if should_release_previous then (release id p).1 else p

-- The exchange of the two blocks in the table of the session.
unfoldable pub exchange_block :
    SessionId → ℕ → BlockId → BlockId → BlockPool → Outcome BlockId × BlockPool
unfolding replace_owned_block touch_session set_session fail_released release_previous with_metrics
    record_cow_clone
exchange_block session_id index id new_id p = elim (get session_id p.sessions) [
  | none ↦ (err KvCacheError.invalid_shape, p)
  | some t ↦ elim (replace_owned_block t index new_id) [
    | err e ↦ fail_released new_id e (set_session session_id (touch_session p.access_clock t) p)
    | ok ((previous, should_release_previous), t') ↦ (
      ok new_id,
      with_metrics record_cow_clone (
          release_previous should_release_previous id
            (set_session session_id (touch_session p.access_clock t') p)),
    )
  ]
]

-- The copy into the block that was allocated. `get_disjoint_mut` wants two identities, which a block
-- in use and one off the free list have.
unfoldable pub copy_block :
    SessionId → ℕ → BlockId → BlockId → BlockPool → Outcome BlockId × BlockPool
unfolding copy_contents_from set_block fail_released exchange_block
copy_block session_id index id new_id p = elim (get id p.blocks) [
  | none ↦ fail_released new_id KvCacheError.invalid_shape p
  | some source ↦ elim (get new_id p.blocks) [
    | none ↦ fail_released new_id KvCacheError.invalid_shape p
    | some destination ↦ elim (copy_contents_from destination source p.access_clock) [
      | err e ↦ fail_released new_id e p
      | ok copied ↦ exchange_block session_id index id new_id (set_block new_id copied p)
    ]
  ]
]

unfoldable pub allocate_and_copy : SessionId → ℕ → BlockId → BlockPool → Outcome BlockId × BlockPool
unfolding allocate next_access copy_block
allocate_and_copy session_id index id p =
    let (allocated, p') = allocate p in
    elim allocated [
      | none ↦ (err (KvCacheError.capacity_exceeded 1 0), p')
      | some new_id ↦ copy_block session_id index id new_id (next_access p')
    ]

-- What follows the eviction, which may have left the session alone with the block.
unfoldable pub copy_after_eviction :
    SessionId → ℕ → BlockId → BlockPool → Outcome BlockId × BlockPool
unfolding live_block keep_block allocate_and_copy
copy_after_eviction session_id index id p = elim (live_block id p) [
  | none ↦ (err KvCacheError.invalid_shape, p)
  | some b ↦
      if b.ref_count == 1
      then keep_block session_id id p
      else allocate_and_copy session_id index id p
]

unfoldable pub copy_on_write_session_block : SessionId → ℕ → BlockPool → Outcome BlockId × BlockPool
unfolding session_block live_block keep_block evict_if_full copy_after_eviction
copy_on_write_session_block session_id index p = elim (session_block session_id index p) [
  | none ↦ (err KvCacheError.invalid_shape, p)
  | some id ↦ elim (live_block id p) [
    | none ↦ (err KvCacheError.invalid_shape, p)
    | some b ↦
        if b.ref_count == 1
        then keep_block session_id id p
        else copy_after_eviction session_id index id (evict_if_full session_id p)
  ]
]
