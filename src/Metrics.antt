-- ===== src/Metrics.antt =====
-- src/llm_runtime/metrics: percentiles, histograms, the collector, and the GPU sampler.
pub mod Latency
pub mod Histogram
pub mod Collector
pub mod Gpu
pub mod Exposition
pub mod Snapshot
