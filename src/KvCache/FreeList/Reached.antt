-- ===== src/KvCache/FreeList/Reached.antt =====
-- crates/llm-kv-cache/src/block_pool.rs: the free list of every pool that is reached from `new`.
use kir_ai.Prelude.{
  ℕ, suc, zero, ◌+◌, ◌≤◌, ◌≡◌, refl, sym, ap, subst, ◌⊎◌, true, none, List, [], ◌∷◌, ◌++◌, inl, inr,
  ◌==◌, Map, get, get-insert, insert, Option-cases, Bool-cases, arith,
}
use kir_ai.KvCache.Block.{
  BlockId, CacheBlockHash, F32, ok, Outcome-cases, CacheBlock, is_full, new_block, empty_block,
  next_block_id,
}
use kir_ai.KvCache.Contents.{append, validate_token_shape, write_token}
use kir_ai.KvCache.Pool.{BlockPool, new_blocks, initial_pool, new_pool, next_access, touch}
use kir_ai.KvCache.History.{
  PoolCommand, block_mut, set_content_hash, appended, edit_block, step, run, Reached, reached,
}
use kir_ai.KvCache.FreeList.{
  IsFreeListed, count, count-append, unreferenced, set_block-IsFreeListed, allocate-IsFreeListed,
  retain-IsFreeListed, release-IsFreeListed, touch_live-IsFreeListed,
}
use kir_ai.KvCache.FreeList.Sessions.{
  create_session-IsFreeListed, release_session-IsFreeListed,
  append_block_to_session_inner-IsFreeListed, allocate_for_session-IsFreeListed,
  read_touched-IsFreeListed,
}
use kir_ai.KvCache.FreeList.Copies.{
  copy_on_write_session_block-IsFreeListed, attach_prefix_to_session-IsFreeListed,
}
use kir_ai.KvCache.FreeList.Allocated.{Allocated, Exhausted, allocate_cases}
use kir_ai.KvCache.Sessions.{append_block_to_session, read_session_block}
use kir_ai.KvCache.Prefixes.{register_prefix, prefix_entry_for, ends_with_hash}

-- The free list of the loop of `new`, whose identities are below the counter.
IsNew : ℕ → Map CacheBlock → List BlockId → Type 0
IsNew counter blocks free_list =
    (j : BlockId)
    → (count j free_list ≡ unreferenced (get j blocks)) × (counter ≤ j → get j blocks ≡ none)

new_block_ok :
    (capacity_tokens vector_len counter counter' : ℕ) (b : CacheBlock)
    → new_block capacity_tokens vector_len counter ≡ ok (b, counter')
    → (b.id ≡ counter) × (b.ref_count ≡ 0) × (counter' ≡ counter + 1)
unfolding new_block next_block_id empty_block
new_block_ok capacity_tokens vector_len counter counter' b e = ground arith

new_blocks-IsNew :
    (n capacity_tokens vector_len counter : ℕ) (blocks : Map CacheBlock) (free_list : List BlockId)
    (blocks' : Map CacheBlock) (free_list' : List BlockId) (counter' : ℕ)
    → IsNew counter blocks free_list
    → new_blocks n capacity_tokens vector_len counter blocks free_list
      ≡ ok ((blocks', free_list'), counter')
    → (j : BlockId) → count j free_list' ≡ unreferenced (get j blocks')
unfolding IsNew new_blocks unreferenced count
new_blocks-IsNew zero c v counter blocks free_list blocks' free_list' counter' h e j =
    ground (arith, h j)
new_blocks-IsNew (suc n) c v counter blocks free_list blocks' free_list' counter' h e j =
    elim (Outcome-cases (new_block c v counter)) [
      | inr (x, o) ↦ absurd (ground (arith, o))
      | inl ((b, next), o) ↦
          let made = new_block_ok c v counter next b o in
          let fresh : IsNew next (insert b.id b blocks) (free_list ++ b.id ∷ []) = (λ k. (
            ground (
              arith,
              made,
              h k,
              get-insert b.id k b blocks,
              count-append k free_list (b.id ∷ []),
            ),
            (λ le. ground (arith, le, made, h k, get-insert b.id k b blocks)),
          )) in
          new_blocks-IsNew n c v next (insert b.id b blocks) (free_list ++ b.id ∷ []) blocks'
            free_list' counter' fresh (ground (arith, e, o)) j
    ]

new_pool-IsFreeListed :
    (n capacity_tokens vector_len counter counter' : ℕ) (p : BlockPool)
    → new_pool n capacity_tokens vector_len counter ≡ ok (p, counter')
    → IsFreeListed p
unfolding new_pool IsFreeListed initial_pool IsNew count unreferenced get
new_pool-IsFreeListed n c v counter counter' p e j =
    elim (Outcome-cases (new_blocks n c v counter [] [])) [
      | inr (x, o) ↦ absurd (ground (arith, e, o))
      | inl (((blocks, free_list), next), o) ↦
          let same : p ≡ initial_pool blocks free_list = ground (arith, e, o) in
          subst (λ q. count j q.free_list ≡ unreferenced (get j q.blocks)) (sym same)
            (new_blocks-IsNew n c v counter [] [] blocks free_list next (λ k. (refl, λ le. refl)) o
              j)
    ]

edit_block-IsFreeListed :
    (id : BlockId) (f : CacheBlock → CacheBlock) (p : BlockPool)
    → ((b : CacheBlock) → (f b).ref_count ≡ b.ref_count)
    → IsFreeListed p
    → IsFreeListed (edit_block id f p)
unfolding edit_block block_mut
edit_block-IsFreeListed id f p same h = elim (Option-cases (get id p.blocks)) [
  | inl n ↦ rw (n, edit_block) h
  | inr (b, e) ↦ elim (Bool-cases (b.ref_count == 1)) [
    | inr more ↦ rw (e, edit_block) (rw more h)
    | inl one ↦
        rw (e, edit_block)
          (rw one (set_block-IsFreeListed id b (f b) p e (sym (ap (λ n. n == 0) (same b))) h))
  ]
]

appended_ref_count :
    (b : CacheBlock) (key value : List F32)
    → (appended b (append b key value)).ref_count ≡ b.ref_count
unfolding appended append write_token
appended_ref_count b key value = elim (Option-cases (validate_token_shape b key value)) [
  | inr (e, v) ↦ rw (v, appended, append) refl
  | inl v ↦ elim (Bool-cases (is_full b)) [
    | inl f ↦ rw (v, appended, append) (rw (f, appended) refl)
    | inr f ↦ rw (v, appended, append) (rw (f, appended) refl)
  ]
]

register_prefix-IsFreeListed :
    (hash : CacheBlockHash) (ids : List BlockId) (p : BlockPool)
    → IsFreeListed p
    → IsFreeListed (register_prefix hash ids p)
unfolding register_prefix IsFreeListed
register_prefix-IsFreeListed hash ids p h = elim (Option-cases (prefix_entry_for ids p)) [
  | inl n ↦ rw (n, register_prefix) h
  | inr (entry, e) ↦ elim (Bool-cases (ends_with_hash entry hash)) [
    | inl t ↦ rw (e, register_prefix) (rw t h)
    | inr f ↦ rw (e, register_prefix) (rw f h)
  ]
]

step-IsFreeListed : (c : PoolCommand) (p : BlockPool) → IsFreeListed p → IsFreeListed (step c p)
unfolding step append_block_to_session read_session_block touch next_access IsFreeListed
    set_content_hash
step-IsFreeListed PoolCommand.allocate_block p h = allocate-IsFreeListed p h
step-IsFreeListed (PoolCommand.retain_block id) p h = retain-IsFreeListed id p h
step-IsFreeListed (PoolCommand.deallocate_block id) p h = release-IsFreeListed id p h
step-IsFreeListed (PoolCommand.touch_one id) p h = touch_live-IsFreeListed id (next_access p) h
step-IsFreeListed PoolCommand.open_session p h = create_session-IsFreeListed p h
step-IsFreeListed (PoolCommand.close_session id) p h = release_session-IsFreeListed id p h
step-IsFreeListed (PoolCommand.append_to session_id id) p h =
    append_block_to_session_inner-IsFreeListed session_id id true p h
step-IsFreeListed (PoolCommand.allocate_for session_id) p h =
    allocate_for_session-IsFreeListed session_id p h
step-IsFreeListed (PoolCommand.read_at session_id index) p h =
    read_touched-IsFreeListed session_id index (next_access p) h
step-IsFreeListed (PoolCommand.copy_at session_id index) p h =
    copy_on_write_session_block-IsFreeListed session_id index p h
step-IsFreeListed (PoolCommand.register hash ids) p h = register_prefix-IsFreeListed hash ids p h
step-IsFreeListed (PoolCommand.attach session_id hash) p h =
    attach_prefix_to_session-IsFreeListed session_id hash p h
step-IsFreeListed (PoolCommand.append_token id key value) p h =
    edit_block-IsFreeListed id (λ b. appended b (append b key value)) p
      (λ b. appended_ref_count b key value) h
step-IsFreeListed (PoolCommand.set_hash id hash) p h =
    edit_block-IsFreeListed id (set_content_hash hash) p (λ b. refl) h

run-IsFreeListed :
    (cs : List PoolCommand) (p : BlockPool) → IsFreeListed p → IsFreeListed (run cs p)
unfolding run
run-IsFreeListed [] p h = h
run-IsFreeListed (c ∷ cs) p h = run-IsFreeListed cs (step c p) (step-IsFreeListed c p h)

-- In every pool that is reached from a new one by the operations of the pool, an identity stands
-- on the free list once where its block is there with no reference, and not at all otherwise.
pub Reached-IsFreeListed : (p : BlockPool) → Reached p → IsFreeListed p
Reached-IsFreeListed p (reached n c v counter counter' start e cs) =
    run-IsFreeListed cs start (new_pool-IsFreeListed n c v counter counter' start e)

-- In every pool that is reached from a new one, `allocate` either answers a block that was there
-- with no reference, and leaves it cleared with one reference and the other blocks as they were, or
-- answers `none` and changes nothing, and then the pool has no block without references.
pub Reached-allocate :
    (p : BlockPool)
    → Reached p
    → Exhausted p ⊎ ((id : BlockId) × (b : CacheBlock) × Allocated p id b)
Reached-allocate p r = allocate_cases p (Reached-IsFreeListed p r)
