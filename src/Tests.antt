-- ===== src/Tests.antt =====
-- The theorems at concrete inputs, for the parts of the runtime.
mod Data
mod Admission
mod Scheduler
mod Metrics
mod Workers
mod Api
mod Core
mod Backends
mod Gpu
mod Loop
mod Server
mod Exposition
mod Settings
mod App
mod Scripts
mod Logging
mod Pool
mod Loopback
mod Settled
