-- ===== src/Api.antt =====
-- src/llm_runtime/api: the HTTP handlers and the event stream.
pub mod Streaming
pub mod Routes
pub mod Endpoints
pub mod Answers
