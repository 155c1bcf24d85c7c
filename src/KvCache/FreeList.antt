-- ===== src/KvCache/FreeList.antt =====
-- crates/llm-kv-cache/src/block_pool.rs: the free list against the reference counts, at each
-- operation on one block.
pub mod Sessions
pub mod Allocated
pub mod Copies
pub mod Reached
use kir_ai.Prelude.{
  ℕ, suc, zero, ◌+◌, ◌≡◌, refl, Bool, true, false, Option, none, some, List, [], ◌∷◌, ◌++◌, inl,
  inr, back, pop_back, ◌==◌, if◌then◌else◌, Map, get, insert, get-insert, Option-cases, Bool-cases,
  arith, saturating_add, saturating_sub,
}
use kir_ai.KvCache.Block.{
  BlockId, CacheBlock, payload_bytes, increment_ref_count, decrement_ref_count, touch_block, clear,
  reset_for_allocation,
}
use kir_ai.KvCache.Pool.{
  BlockPool, next_access, set_block, with_metrics, record_pool_residency, record_refcount,
  record_shared_refcount_increment, take_block, allocate, share_block, retain, release_block,
  release, touch_live, touch,
}

-- The number of times that an identity stands in a list.
unfoldable pub count : BlockId → List BlockId → ℕ
count id [] = 0
count id (x ∷ xs) = let rest = count id xs in if x == id then suc rest else rest

-- 1 for a block without references, and 0 for another and for none.
unfoldable pub unreferenced : Option CacheBlock → ℕ
unreferenced none = 0
unreferenced (some b) = if b.ref_count == 0 then 1 else 0

-- A block is on the free list, and there once, exactly when nothing refers to it.
pub IsFreeListed : BlockPool → Type 0
unfolding count unreferenced
IsFreeListed p = (id : BlockId) → count id p.free_list ≡ unreferenced (get id p.blocks)

pub count-append :
    (id : BlockId) (xs ys : List BlockId) → count id (xs ++ ys) ≡ count id xs + count id ys
unfolding count
count-append id [] ys = omega arith
count-append id (x ∷ xs) ys = ground (arith, count-append id xs ys)

pub count-pop_back :
    (id : BlockId) (xs : List BlockId) (last : BlockId)
    → back xs ≡ some last
    → count id xs ≡ count id (pop_back xs) + (if last == id then 1 else 0)
unfolding count
count-pop_back id [] last e = absurd (ground arith)
count-pop_back id (x ∷ []) last e = ground arith
count-pop_back id (x ∷ y ∷ xs) last e = ground (arith, count-pop_back id (y ∷ xs) last e)

-- A write that leaves the count of references zero or not zero.
pub set_block-IsFreeListed :
    (id : BlockId) (b b' : CacheBlock) (p : BlockPool)
    → get id p.blocks ≡ some b
    → (b.ref_count == 0) ≡ (b'.ref_count == 0)
    → IsFreeListed p
    → IsFreeListed (set_block id b' p)
unfolding IsFreeListed set_block unreferenced
set_block-IsFreeListed id b b' p e z h j = ground (arith, get-insert id j b' p.blocks, h j)

pub take_block-IsFreeListed :
    (p : BlockPool) (id : BlockId) (b : CacheBlock)
    → back p.free_list ≡ some id
    → get id p.blocks ≡ some b
    → IsFreeListed p
    → IsFreeListed (allocate p).1
unfolding IsFreeListed unreferenced allocate take_block next_access set_block with_metrics
    record_pool_residency reset_for_allocation
take_block-IsFreeListed p id b e eb h j =
    rw (e, allocate)
      (rw (eb, take_block)
        (ground (
          arith,
          get-insert id j (reset_for_allocation (saturating_add p.access_clock 1) b) p.blocks,
          h j,
          count-pop_back j p.free_list id e,
        )))

pub not_unreferenced :
    (p : BlockPool) (id : BlockId) → get id p.blocks ≡ none → unreferenced (get id p.blocks) ≡ 1 → ⊥
unfolding unreferenced
not_unreferenced p id n u = ground arith

-- A block at the end of the free list is there, and nothing refers to it.
pub back-unreferenced :
    (p : BlockPool) (id : BlockId)
    → back p.free_list ≡ some id
    → IsFreeListed p
    → unreferenced (get id p.blocks) ≡ 1
unfolding IsFreeListed unreferenced
back-unreferenced p id e h = elim (Option-cases (get id p.blocks)) [
  | inl n ↦ absurd (ground (arith, h id, n, count-pop_back id p.free_list id e))
  | inr (b, eb) ↦ rw eb (ground (arith, h id, eb, count-pop_back id p.free_list id e))
]

pub allocate-IsFreeListed : (p : BlockPool) → IsFreeListed p → IsFreeListed (allocate p).1
unfolding allocate
allocate-IsFreeListed p h = elim (Option-cases (back p.free_list)) [
  | inl n ↦ rw (n, allocate) h
  | inr (id, e) ↦ elim (Option-cases (get id p.blocks)) [
    | inl n ↦ absurd (not_unreferenced p id n (back-unreferenced p id e h))
    | inr (b, eb) ↦ take_block-IsFreeListed p id b e eb h
  ]
]

pub share_block-IsFreeListed :
    (id : BlockId) (b : CacheBlock) (p : BlockPool)
    → get id p.blocks ≡ some b
    → (b.ref_count == 0) ≡ false
    → IsFreeListed p
    → IsFreeListed (share_block b id p)
unfolding share_block with_metrics increment_ref_count set_block IsFreeListed unreferenced
share_block-IsFreeListed id b p e z h j =
    ground (arith, get-insert id j (increment_ref_count b) p.blocks, h j)

pub retain-IsFreeListed :
    (id : BlockId) (p : BlockPool) → IsFreeListed p → IsFreeListed (retain id p).1
unfolding retain
retain-IsFreeListed id p h = elim (Option-cases (get id p.blocks)) [
  | inl n ↦ rw (n, retain) h
  | inr (b, e) ↦ elim (Bool-cases (b.ref_count == 0)) [
    | inl z ↦ rw (e, retain) (rw z h)
    | inr z ↦ rw (e, retain) (rw z (share_block-IsFreeListed id b p e z h))
  ]
]

release_block-IsFreeListed :
    (id : BlockId) (b : CacheBlock) (p : BlockPool)
    → get id p.blocks ≡ some b
    → (b.ref_count == 0) ≡ false
    → IsFreeListed p
    → IsFreeListed (release_block b id p)
unfolding release_block decrement_ref_count clear set_block IsFreeListed unreferenced count
release_block-IsFreeListed id b p e z h j = elim (Bool-cases (saturating_sub b.ref_count 1 == 0)) [
  | inl d ↦ rw d (
      ground (
        arith,
        get-insert id j (clear (decrement_ref_count b)) p.blocks,
        h j,
        count-append j p.free_list (id ∷ []),
      ))
  | inr d ↦ rw d (ground (arith, get-insert id j (decrement_ref_count b) p.blocks, h j))
]

pub release-IsFreeListed :
    (id : BlockId) (p : BlockPool) → IsFreeListed p → IsFreeListed (release id p).1
unfolding release
release-IsFreeListed id p h = elim (Option-cases (get id p.blocks)) [
  | inl n ↦ rw (n, release) h
  | inr (b, e) ↦ elim (Bool-cases (b.ref_count == 0)) [
    | inl z ↦ rw (e, release) (rw z h)
    | inr z ↦ rw (e, release) (rw z (release_block-IsFreeListed id b p e z h))
  ]
]

pub touch_live-IsFreeListed :
    (id : BlockId) (p : BlockPool) → IsFreeListed p → IsFreeListed (touch_live id p).1
unfolding touch_live touch_block
touch_live-IsFreeListed id p h = elim (Option-cases (get id p.blocks)) [
  | inl n ↦ rw (n, touch_live) h
  | inr (b, e) ↦ elim (Bool-cases (b.ref_count == 0)) [
    | inl z ↦ rw (e, touch_live) (rw z h)
    | inr z ↦
        rw (e, touch_live)
          (rw z (set_block-IsFreeListed id b (touch_block p.access_clock b) p e refl h))
  ]
]
