-- ===== src/Core.antt =====
-- src/llm_runtime/core and the request schema of src/llm_runtime/api: the objects that the
-- scheduler, the workers and the API share.
pub mod Request
pub mod Prompt
pub mod Strip
pub mod Response
pub mod Lifecycle
