-- ===== src/KvCache/Sessions.antt =====
-- crates/llm-kv-cache/src/block_pool.rs: the sessions of the pool, their eviction, and the copy on
-- write. A `HashMap` or `HashSet` that the code walks is walked in the order of its list.
use kir_ai.Prelude.{
  ℕ, ◌+◌, Bool, true, false, ◌&&◌, Option, none, some, List, [], ◌∷◌, ltb, ◌==◌, if◌then◌else◌,
  u64_max, saturating_add, get, insert, remove,
}
use kir_ai.KvCache.Block.{BlockId, KvCacheError, Outcome, ok, err, CacheBlock}
use kir_ai.KvCache.Table.{
  SessionId, SessionBlockTable, new_session, append_owned_block, read_block, touch_session,
}
use kir_ai.KvCache.Pool.{BlockPool, next_access, share_block, release, touch_live}

unfoldable pub set_session : SessionId → SessionBlockTable → BlockPool → BlockPool
set_session id t p = record p { sessions = insert id t p.sessions }

unfoldable pub next_session_id : BlockPool → Outcome (SessionId × BlockPool)
next_session_id p =
    if ltb p.next_session_id u64_max
    then ok (p.next_session_id, record p { next_session_id = p.next_session_id + 1 })
    else err KvCacheError.invalid_shape

-- `create_session` once it has its number and its access.
unfoldable pub add_session : SessionId → BlockPool → Outcome SessionId × BlockPool
unfolding new_session set_session
add_session id p = elim (new_session id p.access_clock) [
  | err e ↦ (err e, p)
  | ok t ↦ (ok id, set_session id t p)
]

unfoldable pub create_session : BlockPool → Outcome SessionId × BlockPool
unfolding next_session_id next_access add_session
create_session p = elim (next_session_id p) [
  | err e ↦ (err e, p)
  | ok (id, p') ↦ add_session id (next_access p')
]

-- Whether a block with a nonzero reference count is there.
unfoldable pub is_resident : BlockId → BlockPool → Bool
is_resident id p = elim (get id p.blocks) [ none ↦ false | some b ↦ ltb 0 b.ref_count ]

-- Whether a block without references is there.
unfoldable pub is_unreferenced : BlockId → BlockPool → Bool
is_unreferenced id p = elim (get id p.blocks) [ none ↦ false | some b ↦ b.ref_count == 0 ]

-- The loop of `release_session_inner`: the number of blocks it freed and the pool after it.
unfoldable pub release_owned : List BlockId → ℕ → BlockPool → ℕ × BlockPool
unfolding release is_resident is_unreferenced
release_owned [] released p = (released, p)
release_owned (id ∷ ids) released p =
    let (done, p') = release id p in
    let freed = done && (is_resident id p && is_unreferenced id p') in
    release_owned ids (if freed then saturating_add released 1 else released) p'

unfoldable pub release_session_inner : SessionId → BlockPool → Option ℕ × BlockPool
unfolding release_owned
release_session_inner session_id p = elim (get session_id p.sessions) [
  | none ↦ (none, p)
  | some t ↦
      let (released, p') =
        release_owned t.owned_blocks 0 (record p { sessions = remove session_id p.sessions }) in
      (some released, p')
]

unfoldable pub release_session : SessionId → BlockPool → Bool × BlockPool
unfolding release_session_inner
release_session session_id p =
    let (released, p') = release_session_inner session_id p in
    elim released [ none ↦ (false, p') | some n ↦ (true, p') ]

-- The end of `append_block_to_session_inner`, on the block that it found.
unfoldable pub own_block : Bool → BlockId → CacheBlock → BlockPool → BlockPool
unfolding share_block touch_live
own_block retained id b p = (touch_live id (if retained then share_block b id p else p)).1

-- The part of `append_block_to_session_inner` after the clock has run.
unfoldable pub append_to_session :
    SessionId → BlockId → Bool → CacheBlock → BlockPool → Outcome Unit × BlockPool
unfolding append_owned_block touch_session set_session own_block
append_to_session session_id id retain_new_owner b p = elim (get session_id p.sessions) [
  | none ↦ (err KvCacheError.invalid_shape, p)
  | some t ↦ elim (append_owned_block t id) [
    | err e ↦ (err e, p)
    | ok (newly_owned, t') ↦ (
      ok tt,
      own_block (retain_new_owner && newly_owned) id b
          (set_session session_id (touch_session p.access_clock t') p),
    )
  ]
]

unfoldable pub append_block_to_session_inner :
    SessionId → BlockId → Bool → BlockPool → Outcome Unit × BlockPool
unfolding next_access append_to_session
append_block_to_session_inner session_id id retain_new_owner p = elim (get id p.blocks) [
  | none ↦ (err KvCacheError.invalid_shape, p)
  | some b ↦
      if b.ref_count == 0
      then (err KvCacheError.invalid_shape, p)
      else append_to_session session_id id retain_new_owner b (next_access p)
]

unfoldable pub append_block_to_session : SessionId → BlockId → BlockPool → Outcome Unit × BlockPool
unfolding append_block_to_session_inner
append_block_to_session session_id id p = append_block_to_session_inner session_id id true p

-- `read_session_block` once the clock has run.
unfoldable pub read_touched : SessionId → ℕ → BlockPool → Option BlockId × BlockPool
unfolding read_block touch_session set_session touch_live
read_touched session_id index p = elim (get session_id p.sessions) [
  | none ↦ (none, p)
  | some t ↦ elim (read_block t index) [
    | none ↦ (none, p)
    | some id ↦
        let (touched, p') =
          touch_live id (set_session session_id (touch_session p.access_clock t) p) in
        (if touched then some id else none, p')
  ]
]

unfoldable pub read_session_block : SessionId → ℕ → BlockPool → Option BlockId × BlockPool
unfolding next_access read_touched
read_session_block session_id index p = read_touched session_id index (next_access p)
