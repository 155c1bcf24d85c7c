-- ===== src/KvCache/History.antt =====
-- crates/llm-kv-cache/src/block_pool.rs: the methods of `BlockPool` as commands, each under the
-- lock of the pool, and the pools that they reach. A write to a block goes through `block_mut`,
-- which answers a block with one reference only: the commands append a token to it and set its hash.
use kir_ai.Prelude.{ℕ, ◌≡◌, Option, none, some, List, [], ◌∷◌, ◌==◌, if◌then◌else◌, get}
use kir_ai.KvCache.Block.{BlockId, CacheBlockHash, F32, Outcome, ok, err, CacheBlock}
use kir_ai.KvCache.Contents.{append}
use kir_ai.KvCache.Table.{SessionId}
use kir_ai.KvCache.Pool.{BlockPool, new_pool, set_block, allocate, retain, release, touch}
use kir_ai.KvCache.Sessions.{
  create_session, release_session, append_block_to_session, read_session_block,
}
use kir_ai.KvCache.Eviction.{allocate_for_session}
use kir_ai.KvCache.CopyOnWrite.{copy_on_write_session_block}
use kir_ai.KvCache.Prefixes.{register_prefix, attach_prefix_to_session}

pub data PoolCommand : Type 0 where
  allocate_block : PoolCommand
  retain_block : BlockId → PoolCommand
  deallocate_block : BlockId → PoolCommand
  touch_one : BlockId → PoolCommand
  open_session : PoolCommand
  close_session : SessionId → PoolCommand
  append_to : SessionId → BlockId → PoolCommand
  allocate_for : SessionId → PoolCommand
  read_at : SessionId → ℕ → PoolCommand
  copy_at : SessionId → ℕ → PoolCommand
  register : CacheBlockHash → List BlockId → PoolCommand
  attach : SessionId → CacheBlockHash → PoolCommand
  append_token : BlockId → List F32 → List F32 → PoolCommand
  set_hash : BlockId → Option CacheBlockHash → PoolCommand

-- The block that `block_mut` answers.
unfoldable pub block_mut : BlockId → BlockPool → Option CacheBlock
block_mut id p = elim (get id p.blocks) [
  | none ↦ none
  | some b ↦ if b.ref_count == 1 then some b else none
]

-- `CacheBlock::set_content_hash`
unfoldable pub set_content_hash : Option CacheBlockHash → CacheBlock → CacheBlock
set_content_hash hash b = record b { content_hash = hash }

-- What an append leaves of a block: on an error, the block.
unfoldable pub appended : CacheBlock → Outcome (ℕ × CacheBlock) → CacheBlock
appended b (ok r) = r.1
appended b (err e) = b

unfoldable pub edit_block : BlockId → (CacheBlock → CacheBlock) → BlockPool → BlockPool
unfolding block_mut set_block
edit_block id f p = elim (block_mut id p) [ none ↦ p | some b ↦ set_block id (f b) p ]

unfoldable pub step : PoolCommand → BlockPool → BlockPool
unfolding allocate retain release touch create_session release_session append_block_to_session
    allocate_for_session read_session_block copy_on_write_session_block register_prefix
    attach_prefix_to_session edit_block appended append set_content_hash
step PoolCommand.allocate_block p = (allocate p).1
step (PoolCommand.retain_block id) p = (retain id p).1
step (PoolCommand.deallocate_block id) p = (release id p).1
step (PoolCommand.touch_one id) p = (touch id p).1
step PoolCommand.open_session p = (create_session p).1
step (PoolCommand.close_session id) p = (release_session id p).1
step (PoolCommand.append_to session_id id) p = (append_block_to_session session_id id p).1
step (PoolCommand.allocate_for session_id) p = (allocate_for_session session_id p).1
step (PoolCommand.read_at session_id index) p = (read_session_block session_id index p).1
step (PoolCommand.copy_at session_id index) p = (copy_on_write_session_block session_id index p).1
step (PoolCommand.register hash ids) p = register_prefix hash ids p
step (PoolCommand.attach session_id hash) p = (attach_prefix_to_session session_id hash p).1
step (PoolCommand.append_token id key value) p =
    edit_block id (λ b. appended b (append b key value)) p
step (PoolCommand.set_hash id hash) p = edit_block id (set_content_hash hash) p

unfoldable pub run : List PoolCommand → BlockPool → BlockPool
unfolding step
run [] p = p
run (c ∷ cs) p = run cs (step c p)

-- A pool that `BlockPool::new` made, after some commands.
pub data Reached : BlockPool → Type 0 where
  reached :
      (block_count capacity_tokens vector_len counter counter' : ℕ)
      → (p : BlockPool) → new_pool block_count capacity_tokens vector_len counter ≡ ok (p, counter')
      → (cs : List PoolCommand) → Reached (run cs p)
