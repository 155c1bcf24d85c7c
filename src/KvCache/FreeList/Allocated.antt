-- ===== src/KvCache/FreeList/Allocated.antt =====
-- crates/llm-kv-cache/src/block_pool.rs: what `allocate` does to the block that it answers.
use kir_ai.Prelude.{
  ◌≡◌, refl, sym, ap, subst, ◌∙◌, ◌⊎◌, none, some, List, [], ◌∷◌, inl, inr, back, ◌==◌,
  if◌then◌else◌, get, get-insert, Option-cases, arith, saturating_add,
}
use kir_ai.KvCache.Block.{BlockId, CacheBlock, clear, reset_for_allocation}
use kir_ai.KvCache.Pool.{
  BlockPool, next_access, set_block, with_metrics, record_pool_residency, take_block, allocate,
}
use kir_ai.KvCache.FreeList.{IsFreeListed, unreferenced, not_unreferenced, back-unreferenced, count}

unreferenced-some : (b : CacheBlock) → unreferenced (some b) ≡ 1 → b.ref_count ≡ 0
unfolding unreferenced
unreferenced-some b u = ground arith

allocate_answer :
    (p : BlockPool) (id : BlockId) (b : CacheBlock)
    → back p.free_list ≡ some id
    → get id p.blocks ≡ some b
    → (allocate p).0 ≡ some id
unfolding allocate take_block next_access
allocate_answer p id b e eb = rw (e, allocate) (rw (eb, take_block) refl)

-- What `clear` leaves of the block, with one reference and the access.
handed_out : BlockPool → CacheBlock → CacheBlock
handed_out p b = record (clear b) { ref_count = 1; last_access = saturating_add p.access_clock 1 }

allocate_blocks :
    (p : BlockPool) (id : BlockId) (b : CacheBlock)
    → back p.free_list ≡ some id
    → get id p.blocks ≡ some b
    → (j : BlockId)
    → get j (allocate p).1.blocks ≡ (if id == j then some (handed_out p b) else get j p.blocks)
unfolding allocate take_block next_access set_block with_metrics record_pool_residency handed_out
    reset_for_allocation
allocate_blocks p id b e eb j =
    rw (e, allocate)
      (rw (eb, take_block)
        (get-insert id j (reset_for_allocation (saturating_add p.access_clock 1) b) p.blocks))

-- The answer `some id`: the block was there without references, it is now as `CacheBlock::clear`
-- leaves it, with one reference and the access, and no other block has changed.
pub Allocated : BlockPool → BlockId → CacheBlock → Type 0
unfolding handed_out
Allocated p id b =
    ((allocate p).0 ≡ some id)
    × (get id p.blocks ≡ some b)
    × (b.ref_count ≡ 0)
    × ((j : BlockId)
        → get j (allocate p).1.blocks ≡ (if id == j then some (handed_out p b) else get j p.blocks))

-- The answer `none`: the pool is as before, and no block in it is unreferenced.
pub Exhausted : BlockPool → Type 0
Exhausted p = (allocate p ≡ (none, p)) × ((id : BlockId) → unreferenced (get id p.blocks) ≡ 0)

back-none : (xs : List BlockId) → back xs ≡ none → xs ≡ []
back-none [] e = refl
back-none (x ∷ []) e = ground arith
back-none (x ∷ y ∷ xs) e = absurd (ground (arith, back-none (y ∷ xs)))

full-unreferenced :
    (p : BlockPool)
    → IsFreeListed p
    → p.free_list ≡ []
    → (id : BlockId) → unreferenced (get id p.blocks) ≡ 0
unfolding IsFreeListed count
full-unreferenced p h f id = sym (h id) ∙ ap (count id) f

pub allocate_cases :
    (p : BlockPool)
    → IsFreeListed p
    → Exhausted p ⊎ ((id : BlockId) × (b : CacheBlock) × Allocated p id b)
unfolding Allocated Exhausted allocate reset_for_allocation
allocate_cases p h = elim (Option-cases (back p.free_list)) [
  | inl n ↦ inl (rw (n, allocate) refl, full-unreferenced p h (back-none p.free_list n))
  | inr (id, e) ↦ elim (Option-cases (get id p.blocks)) [
    | inl n ↦ absurd (not_unreferenced p id n (back-unreferenced p id e h))
    | inr (b, eb) ↦
        let u : unreferenced (some b) ≡ 1 =
          subst (λ o. unreferenced o ≡ 1) eb (back-unreferenced p id e h) in
        let answer : Allocated p id b =
          (allocate_answer p id b e eb, eb, unreferenced-some b u, allocate_blocks p id b e eb) in
        inr (id, b, answer)
  ]
]

-- The block that `allocate` answers is not free any more.
pub allocated-unreferenced :
    (p : BlockPool) (id : BlockId)
    → IsFreeListed p
    → (allocate p).0 ≡ some id
    → unreferenced (get id (allocate p).1.blocks) ≡ 0
unfolding unreferenced Exhausted Allocated handed_out
allocated-unreferenced p id h a = elim (allocate_cases p h) [
  | inl x ↦ absurd (ground (arith, a, ap (λ r. r.0) x.0))
  | inr (k, b, w) ↦
      let same : k ≡ id = ground (arith, a, w.0) in
      let now : get k (allocate p).1.blocks ≡ some (handed_out p b) = ground (arith, w.3 k) in
      subst (λ j. unreferenced (get j (allocate p).1.blocks) ≡ 0) same (rw now refl)
]
