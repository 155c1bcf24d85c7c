-- ===== src/KvCache/Keyed/Reached.antt =====
-- crates/llm-kv-cache/src/block_pool.rs: the numbers of the sessions in every pool that is reached from
-- `new`.
use kir_ai.Prelude.{
  ℕ, ◌≡◌, sym, subst, true, List, [], ◌∷◌, inl, inr, ◌==◌, get, Option-cases, Bool-cases, arith,
}
use kir_ai.KvCache.Block.{BlockId, CacheBlockHash, ok, Outcome-cases, CacheBlock}
use kir_ai.KvCache.Contents.{append}
use kir_ai.KvCache.Pool.{
  BlockPool, set_block, new_blocks, initial_pool, new_pool, next_access, touch,
}
use kir_ai.KvCache.History.{
  PoolCommand, block_mut, set_content_hash, appended, edit_block, step, run, Reached, reached,
}
use kir_ai.KvCache.Keyed.{
  IsKeyed, HasKeys, allocate-HasKeys, retain-HasKeys, release-HasKeys, touch_live-HasKeys,
}
use kir_ai.KvCache.Keyed.Sessions.{
  create_session-HasKeys, release_session-HasKeys, append_block_to_session_inner-HasKeys,
  allocate_for_session-HasKeys, read_touched-HasKeys,
}
use kir_ai.KvCache.Keyed.Copies.{
  copy_on_write_session_block-HasKeys, attach_prefix_to_session-HasKeys,
}
use kir_ai.KvCache.Sessions.{append_block_to_session, read_session_block}
use kir_ai.KvCache.Prefixes.{register_prefix, prefix_entry_for, ends_with_hash}

new_pool-HasKeys :
    (n capacity_tokens vector_len counter counter' : ℕ) (p : BlockPool)
    → new_pool n capacity_tokens vector_len counter ≡ ok (p, counter')
    → HasKeys p
unfolding new_pool initial_pool IsKeyed
new_pool-HasKeys n c v counter counter' p e =
    elim (Outcome-cases (new_blocks n c v counter [] [])) [
      | inr (x, o) ↦ absurd (ground (arith, e, o))
      | inl (((blocks, free_list), next), o) ↦
          let same : p ≡ initial_pool blocks free_list = ground (arith, e, o) in
          subst HasKeys (sym same) tt
    ]

edit_block-HasKeys :
    (id : BlockId) (f : CacheBlock → CacheBlock) (p : BlockPool)
    → HasKeys p
    → HasKeys (edit_block id f p)
unfolding edit_block block_mut set_block
edit_block-HasKeys id f p h = elim (Option-cases (get id p.blocks)) [
  | inl n ↦ rw (n, edit_block) h
  | inr (b, e) ↦ elim (Bool-cases (b.ref_count == 1)) [
    | inr more ↦ rw (e, edit_block) (rw more h)
    | inl one ↦ rw (e, edit_block) (rw one h)
  ]
]

register_prefix-HasKeys :
    (hash : CacheBlockHash) (ids : List BlockId) (p : BlockPool)
    → HasKeys p
    → HasKeys (register_prefix hash ids p)
unfolding register_prefix
register_prefix-HasKeys hash ids p h = elim (Option-cases (prefix_entry_for ids p)) [
  | inl n ↦ rw (n, register_prefix) h
  | inr (entry, e) ↦ elim (Bool-cases (ends_with_hash entry hash)) [
    | inl t ↦ rw (e, register_prefix) (rw t h)
    | inr f ↦ rw (e, register_prefix) (rw f h)
  ]
]

step-HasKeys : (c : PoolCommand) (p : BlockPool) → HasKeys p → HasKeys (step c p)
unfolding step append_block_to_session read_session_block touch next_access set_content_hash
step-HasKeys PoolCommand.allocate_block p h = allocate-HasKeys p h
step-HasKeys (PoolCommand.retain_block id) p h = retain-HasKeys id p h
step-HasKeys (PoolCommand.deallocate_block id) p h = release-HasKeys id p h
step-HasKeys (PoolCommand.touch_one id) p h = touch_live-HasKeys id (next_access p) h
step-HasKeys PoolCommand.open_session p h = create_session-HasKeys p h
step-HasKeys (PoolCommand.close_session id) p h = release_session-HasKeys id p h
step-HasKeys (PoolCommand.append_to session_id id) p h =
    append_block_to_session_inner-HasKeys session_id id true p h
step-HasKeys (PoolCommand.allocate_for session_id) p h = allocate_for_session-HasKeys session_id p h
step-HasKeys (PoolCommand.read_at session_id index) p h =
    read_touched-HasKeys session_id index (next_access p) h
step-HasKeys (PoolCommand.copy_at session_id index) p h =
    copy_on_write_session_block-HasKeys session_id index p h
step-HasKeys (PoolCommand.register hash ids) p h = register_prefix-HasKeys hash ids p h
step-HasKeys (PoolCommand.attach session_id hash) p h =
    attach_prefix_to_session-HasKeys session_id hash p h
step-HasKeys (PoolCommand.append_token id key value) p h =
    edit_block-HasKeys id (λ b. appended b (append b key value)) p h
step-HasKeys (PoolCommand.set_hash id hash) p h = edit_block-HasKeys id (set_content_hash hash) p h

run-HasKeys : (cs : List PoolCommand) (p : BlockPool) → HasKeys p → HasKeys (run cs p)
unfolding run
run-HasKeys [] p h = h
run-HasKeys (c ∷ cs) p h = run-HasKeys cs (step c p) (step-HasKeys c p h)

-- In every pool that is reached from a new one each session stands in the map under its number.
pub Reached-HasKeys : (p : BlockPool) → Reached p → HasKeys p
Reached-HasKeys p (reached n c v counter counter' start e cs) =
    run-HasKeys cs start (new_pool-HasKeys n c v counter counter' start e)
