-- ===== src/Workers.antt =====
-- src/llm_runtime/workers: the manager that runs batches on the backend.
pub mod Batch
pub mod Manager
pub mod Pool
pub mod Loop
