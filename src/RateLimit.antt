-- ===== src/RateLimit.antt =====
-- crates/llm-server/src/engine/rate_limit.rs: a sliding window of accepted requests for each client.
pub mod Key
pub mod Log
pub mod Buckets
pub mod Limiter
pub mod Window
pub mod Stored
pub mod Step
pub mod History
pub mod Bound
pub mod Held
pub mod Retry
