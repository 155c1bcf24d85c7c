-- ===== src/Runtime.antt =====
-- The crate llm-runtime: stop sequences, and text completions answered at once or as a stream.
pub mod Stop
pub mod Usage
pub mod Completion
