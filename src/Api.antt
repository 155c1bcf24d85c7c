-- ===== src/Api.antt =====
-- crates/llm-api/src: the checks of requests. Size counts the bytes of a JSON value.
pub mod Size
pub mod Error
pub mod Types
pub mod Checks
pub mod Messages
pub mod Tools
pub mod Request
