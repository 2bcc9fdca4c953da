-- ===== src/Scheduler.antt =====
-- src/llm_runtime/scheduler: batches, and the two schedulers behind one interface.
pub mod Batching
pub mod Interface
pub mod Fifo
pub mod Priority
pub mod Source
