-- ===== src/KvCache.antt =====
-- The crate llm-kv-cache: the blocks of the paged cache, the tables of the sessions, and the pool.
pub mod Block
pub mod Contents
pub mod Table
pub mod Pool
pub mod Sessions
pub mod Eviction
pub mod CopyOnWrite
pub mod Prefixes
pub mod FreeList
pub mod Keyed
pub mod History
pub mod Tokens
pub mod Budget
