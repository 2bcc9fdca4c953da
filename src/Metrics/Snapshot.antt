-- ===== src/Metrics/Snapshot.antt =====
-- metrics/collector.py: `snapshot`, the JSON form of the metrics. Averages are exact fractions.
pub mod Totals
use llm_serving_runtime.Base.{ℕ, Bool, List, [], ◌∷◌, map, ltb, ◌==◌, length}
use llm_serving_runtime.Base.Text.{String}
use llm_serving_runtime.Base.Int.{ℤ, pos, ◌+ℤ◌}
use llm_serving_runtime.Base.Sorting.{sort_by}
use llm_serving_runtime.Base.Decimal.{decimal}
use llm_serving_runtime.Core.Request.{codes}
use llm_serving_runtime.Metrics.Latency.{percentile}
use llm_serving_runtime.Metrics.Histogram.{Exposition}
use llm_serving_runtime.Metrics.Histogram
use llm_serving_runtime.Metrics.Gpu.{GpuSnapshot}
use llm_serving_runtime.Metrics.Collector.{MetricsCollector, increment}
use llm_serving_runtime.Base.Codes.{text_lt}
use llm_serving_runtime.Metrics.Exposition.{max_or_0}

-- A mean: a sum over a number that is not 0.
pub record Mean : Type 0 where
  pub total : ℤ
  pub number : ℕ

abbrev pub total_of : List ℤ → ℤ
total_of [] = pos 0
total_of (v ∷ values) = v +ℤ total_of values

-- `_avg`; it is 0 with no value.
unfoldable pub avg : List ℤ → Mean
unfolding ◌+ℤ◌
avg [] = record { total = pos 0; number = 1 }
avg (v ∷ values) = record { total = total_of (v ∷ values); number = length (v ∷ values) }

-- What is shown of one list of latencies and its histogram.
pub record LatencySummary : Type 0 where
  pub mean : Mean
  pub p50 : ℤ
  pub p95 : ℤ
  pub p99 : ℤ
  pub histogram : Exposition

unfoldable pub latency_summary : List ℤ → Histogram.Histogram → LatencySummary
unfolding avg Histogram.snapshot
latency_summary times h = record {
  mean = avg times;
  p50 = percentile times 50;
  p95 = percentile times 95;
  p99 = percentile times 99;
  histogram = Histogram.snapshot h;
}

pub record Snapshot : Type 0 where
  pub request_count : ℕ
  pub completed_count : ℕ
  pub failed_count : ℕ
  pub rejected_count : ℕ
  pub rejections_by_reason : List (String × ℕ)
  pub rejections_by_priority : List (ℕ × ℕ)
  pub active_requests : ℕ
  pub generated_tokens_total : ℕ
  pub batch_count : ℕ
  pub batch_size_avg : Mean
  pub batch_size_max : ℕ
  pub batch_size_distribution : List (ℕ × ℕ)
  pub queue_wait : LatencySummary
  pub ttft : LatencySummary
  pub total_latency : LatencySummary
  pub gpu : GpuSnapshot

-- `Counter(values)`.
unfoldable pub counter : List ℕ → List (ℕ × ℕ) → List (ℕ × ℕ)
counter [] counts = counts
counter (v ∷ values) counts = counter values (increment ◌==◌ v counts)

-- The order of the dictionaries: by the reason, by the text of a priority, and by the size.
abbrev pub by_reason : String × ℕ → String × ℕ → Bool
by_reason (r, n) (r', n') = text_lt (codes r) (codes r')

abbrev pub by_label : ℕ × ℕ → ℕ × ℕ → Bool
by_label (p, n) (p', n') = text_lt (decimal p) (decimal p')

abbrev pub by_size : ℕ × ℕ → ℕ × ℕ → Bool
by_size (k, n) (k', n') = ltb k k'

unfoldable pub snapshot : GpuSnapshot → MetricsCollector → Snapshot
unfolding latency_summary counter sort_by increment
snapshot gpu m = record {
  request_count = m.request_count;
  completed_count = m.completed_count;
  failed_count = m.failed_count;
  rejected_count = m.rejected_count;
  rejections_by_reason = sort_by by_reason m.rejections_by_reason;
  rejections_by_priority = sort_by by_label m.rejections_by_priority;
  active_requests = m.active_requests;
  generated_tokens_total = m.generated_tokens_total;
  batch_count = m.batch_count;
  batch_size_avg = avg (map pos m.batch_sizes);
  batch_size_max = max_or_0 m.batch_sizes;
  batch_size_distribution = sort_by by_size (counter m.batch_sizes []);
  queue_wait = latency_summary m.queue_wait_times m.queue_wait_histogram;
  ttft = latency_summary m.ttft_times m.ttft_histogram;
  total_latency = latency_summary m.total_latencies m.total_latency_histogram;
  gpu = gpu;
}
