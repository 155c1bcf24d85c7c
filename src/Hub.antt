-- ===== src/Hub.antt =====
-- crates/llm-hub/src: the store of model snapshots. Prune chooses the snapshots to delete.
pub mod Prune
