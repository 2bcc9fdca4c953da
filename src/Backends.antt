-- ===== src/Backends.antt =====
-- src/llm_runtime/backends: what a backend is to the runtime, and the mock that generates tokens.
pub mod Base
pub mod Mock
pub mod Server
