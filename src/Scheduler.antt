-- ===== src/Scheduler.antt =====
-- crates/llm-server/src/engine/scheduler.rs: the admission of requests to one model.
pub mod State
pub mod Permit
pub mod Ticket
pub mod Admission
pub mod Acquire
pub mod World
pub mod Estimate
pub mod Digits
pub mod Prompt
pub mod Volume
pub mod Invariant
pub mod Capacity
pub mod Order
pub mod Fairness
