-- ===== src/Tests/Exposition.antt =====
-- metrics/collector.py: the text and the snapshot of some metrics.
use llm_serving_runtime.Base.{List, [], ◌∷◌}
use llm_serving_runtime.Core.Request.{codes}
use llm_serving_runtime.Metrics.Collector
use llm_serving_runtime.Metrics.Collector.{MetricsCollector}
use llm_serving_runtime.Metrics.Collector.Timing.{
  MetricsCall, request, success, failure, rejection, batch, call_all,
}
use llm_serving_runtime.Metrics.Gpu.{GpuSnapshot, unavailable}
use llm_serving_runtime.Metrics.Snapshot.{snapshot}
use llm_serving_runtime.Metrics.Snapshot.Totals.{IsCoherent, snapshot-call_all-IsCoherent}
use llm_serving_runtime.Tests.Data

-- A reason with a quotation mark and a line break.
abbrev refused : MetricsCollector
refused = record Collector.init {
  rejections_by_reason_priority = (("a \"b\"\n", 1), 2) ∷ (("queue_full", 0), 1) ∷ [];
}

abbrev calls : List MetricsCall
calls =
    request
    ∷ batch 1
    ∷ success (Data.request "r1" 1) 3
    ∷ request
    ∷ failure 9 (Data.request "r2" 0)
    ∷ rejection 1 "queue_full"
    ∷ []

abbrev no_gpu : GpuSnapshot
no_gpu = unavailable (codes "nvidia-smi not found")

snapshot-call_all-IsCoherent_example : IsCoherent (snapshot no_gpu (call_all calls Collector.init))
snapshot-call_all-IsCoherent_example = snapshot-call_all-IsCoherent no_gpu calls
