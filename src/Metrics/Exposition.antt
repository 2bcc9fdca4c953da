-- ===== src/Metrics/Exposition.antt =====
-- metrics/collector.py: `snapshot_prometheus` and `_gpu_prometheus_lines`, as text. Python's text of a
-- float is an argument: of a number of nanoseconds in seconds, and of the mean of some numbers.
pub mod Labels
pub mod Reader
pub mod Rejections
use llm_serving_runtime.Base.{
  ℕ, ◌+◌, ◌*◌, max, Bool, ◌&&◌, ◌||◌, none, some, List, [], ◌∷◌, ◌++◌, map, length, sum,
}
use llm_serving_runtime.Base.Text.{String}
use llm_serving_runtime.Base.Int.{ℤ}
use llm_serving_runtime.Base.Sorting.{sort_by}
use llm_serving_runtime.Base.Decimal.{decimal}
use llm_serving_runtime.Core.Request.{codes}
use llm_serving_runtime.Core.Prompt.{join_lines}
use llm_serving_runtime.Metrics.Latency.{percentile}
use llm_serving_runtime.Metrics.Histogram.{Histogram, prometheus_lines}
use llm_serving_runtime.Metrics.Gpu.{GpuDevice, GpuSnapshot}
use llm_serving_runtime.Core.Strip.{strip_end}
use llm_serving_runtime.Base.Codes.{text_lt, text_eq}
use llm_serving_runtime.Metrics.Collector.{MetricsCollector}
use llm_serving_runtime.Metrics.Exposition.Labels.{labelled}

-- The lines `# HELP` and `# TYPE` of a metric.
unfoldable pub header : String → String → String → List (List ℕ)
header name help kind =
    (codes "# HELP " ++ (codes name ++ (32 ∷ codes help)))
    ∷ (codes "# TYPE " ++ (codes name ++ (32 ∷ codes kind)))
    ∷ []

-- A sample with no label.
unfoldable pub plain : List ℕ → List ℕ → List ℕ
plain name value = name ++ (32 ∷ value)

-- A reason and a priority, both as texts, with their count.
abbrev pub Rejection : Type 0
Rejection = (List ℕ × List ℕ) × ℕ

-- The order of the pairs in `sorted`; no two have the same reason and priority.
unfoldable pub rejection_lt : Rejection → Rejection → Bool
unfolding text_lt text_eq
rejection_lt ((reason, priority), n) ((reason', priority'), n') =
    text_lt reason reason' || (text_eq reason reason' && text_lt priority priority')

-- The items of `rejections_by_reason_priority`, with the labels' texts.
unfoldable pub rejection_items : MetricsCollector → List Rejection
rejection_items m = map (λ e. ((codes e.0.0, decimal e.0.1), e.1)) m.rejections_by_reason_priority

unfoldable pub rejection_line : Rejection → List ℕ
rejection_line ((reason, priority), count) =
    labelled (codes "llm_rejected_requests_total")
      ((codes "reason", reason) ∷ (codes "priority", priority) ∷ []) (decimal count)

unfoldable pub rejection_lines : MetricsCollector → List (List ℕ)
unfolding sort_by rejection_lt rejection_items rejection_line
rejection_lines m = map rejection_line (sort_by rejection_lt (rejection_items m))

-- The requests in each status.
unfoldable pub request_lines : MetricsCollector → List (List ℕ)
request_lines m =
    status "received" (m.request_count + m.rejected_count)
    ∷ status "accepted" m.request_count
    ∷ status "completed" m.completed_count
    ∷ status "failed" m.failed_count
    ∷ status "rejected" m.rejected_count
    ∷ []
  where
    status : String → ℕ → List ℕ
    status name count =
        labelled (codes "llm_requests_total") ((codes "status", codes name) ∷ []) (decimal count)

abbrev pub bytes_per_mb : ℕ
bytes_per_mb = 1024 * 1024

abbrev pub source : List ℕ × List ℕ
source = (codes "source", codes "nvidia-smi")

-- A gauge of the sampler: its header and its sample.
unfoldable pub gpu_gauge : String → String → ℕ → List (List ℕ)
unfolding header
gpu_gauge name help value =
    header name help "gauge" ++ (labelled (codes name) (source ∷ []) (decimal value) ∷ [])

unfoldable pub device_lines : GpuDevice → List (List ℕ)
device_lines g =
    device "llm_gpu_device_memory_used_bytes" (g.memory_used_mb * bytes_per_mb)
    ∷ device "llm_gpu_device_memory_total_bytes" (g.memory_total_mb * bytes_per_mb)
    ∷ device "llm_gpu_device_utilization_percent" g.utilization_pct
    ∷ []
  where
    device : String → ℕ → List ℕ
    device name value =
        labelled (codes name)
          ((codes "gpu", decimal g.index) ∷ (codes "name", g.name) ∷ source ∷ []) (decimal value)

unfoldable pub concat_lines : List (List (List ℕ)) → List (List ℕ)
concat_lines [] = []
concat_lines (ls ∷ rest) = ls ++ concat_lines rest

-- The lines for the devices, if there are any.
unfoldable pub devices_lines : List GpuDevice → List (List ℕ)
unfolding header device_lines concat_lines
devices_lines [] = []
devices_lines (g ∷ gpus) =
    []
    ∷ (header "llm_gpu_device_memory_used_bytes" "Per-GPU memory used." "gauge"
        ++ (header "llm_gpu_device_memory_total_bytes" "Per-GPU memory capacity." "gauge"
            ++ (header "llm_gpu_device_utilization_percent" "Per-GPU utilization percent." "gauge"
                ++ concat_lines (map device_lines (g ∷ gpus)))))

unfoldable pub gpu_prometheus_lines : GpuSnapshot → List (List ℕ)
unfolding gpu_gauge devices_lines concat_lines
gpu_prometheus_lines s =
    let available : ℕ = elim s.reason [ none ↦ 1 | some reason ↦ 0 ] in
    concat_lines (
      gpu_gauge "llm_gpu_available" "Whether GPU metrics are available from the sampler." available
      ∷ ([] ∷ [])
      ∷ gpu_gauge "llm_gpu_count" "Number of GPUs reported by the sampler." s.gpu_count
      ∷ ([] ∷ [])
      ∷ gpu_gauge "llm_gpu_memory_used_bytes" "Total GPU memory used."
          (s.memory_used_mb * bytes_per_mb)
      ∷ ([] ∷ [])
      ∷ gpu_gauge "llm_gpu_memory_total_bytes" "Total GPU memory capacity."
          (s.memory_total_mb * bytes_per_mb)
      ∷ ([] ∷ [])
      ∷ gpu_gauge "llm_gpu_utilization_percent" "Average GPU utilization percent." s.utilization_pct
      ∷ devices_lines s.gpus
      ∷ [])

-- `max(values, default=0)`.
unfoldable pub max_or_0 : List ℕ → ℕ
max_or_0 [] = 0
max_or_0 (n ∷ ns) = max n (max_or_0 ns)

module _ (show_seconds : ℤ → List ℕ) (show_mean : ℕ → ℕ → List ℕ) where
  -- `_avg`, by the sum and the number of the values.
  unfoldable pub avg_text : List ℕ → List ℕ
  avg_text [] = show_mean 0 1
  avg_text (n ∷ ns) = show_mean (sum (n ∷ ns)) (length (n ∷ ns))

  unfoldable pub quantile_lines : String → List ℤ → List (List ℕ)
  unfolding header
  quantile_lines name values =
      []
      ∷ (header name "Latency quantiles in seconds." "gauge"
          ++ (quantile "0.5" 50 ∷ quantile "0.95" 95 ∷ quantile "0.99" 99 ∷ []))
    where
      quantile : String → ℕ → List ℕ
      quantile level pct =
          labelled (codes name) ((codes "quantile", codes level) ∷ [])
            (show_seconds (percentile values pct))

  -- `Histogram.prometheus_lines`, as text; it is empty with no sample.
  unfoldable pub histogram_text : String → String → Histogram → List ℕ
  unfolding header
  histogram_text name help h = elim (prometheus_lines h) [
    | none ↦ []
    | some e ↦
        join_lines (
          header name help "histogram"
          ++ (map bucket e.buckets
              ++ (labelled (codes name ++ codes "_bucket") ((codes "le", codes "+Inf") ∷ [])
                    (decimal e.inf)
                  ∷ plain (codes name ++ codes "_sum") (show_seconds e.sum_samples)
                  ∷ plain (codes name ++ codes "_count") (decimal e.count)
                  ∷ [])))
        ++ (10 ∷ [])
  ]
    where
      bucket : ℤ × ℕ → List ℕ
      bucket (boundary, cumulative) =
          labelled (codes name ++ codes "_bucket") ((codes "le", show_seconds boundary) ∷ [])
            (decimal cumulative)

  -- A text that is not empty, after an empty line and with its end stripped.
  unfoldable pub histogram_lines : String → String → Histogram → List (List ℕ)
  unfolding histogram_text strip_end
  histogram_lines name help h = elim (histogram_text name help h) [
    | [] ↦ []
    | c ∷ text ↦ [] ∷ strip_end (c ∷ text) ∷ []
  ]

  -- A metric with one plain sample.
  unfoldable pub plain_metric : String → String → String → List ℕ → List (List ℕ)
  unfolding header plain
  plain_metric name help kind value =
      [] ∷ (header name help kind ++ (plain (codes name) value ∷ []))

  unfoldable pub snapshot_prometheus : ℕ → GpuSnapshot → MetricsCollector → List ℕ
  unfolding concat_lines
  snapshot_prometheus queue_size gpu m =
      join_lines (
        concat_lines (
          header "llm_requests_total" "Total requests received." "counter"
          ∷ request_lines m
          ∷ ([] ∷ header "llm_rejected_requests_total" "Total rejected requests." "counter")
          ∷ rejection_lines m
          ∷ plain_metric "llm_generated_tokens_total" "Total generated tokens." "counter"
              (decimal m.generated_tokens_total)
          ∷ plain_metric "llm_batches_total" "Total batch executions." "counter"
              (decimal m.batch_count)
          ∷ plain_metric "llm_active_requests" "Currently active requests." "gauge"
              (decimal m.active_requests)
          ∷ plain_metric "llm_queue_size" "Current scheduler queue depth." "gauge"
              (decimal queue_size)
          ∷ plain_metric "llm_batch_size_avg" "Average observed batch size." "gauge"
              (avg_text m.batch_sizes)
          ∷ plain_metric "llm_batch_size_max" "Maximum observed batch size." "gauge"
              (decimal (max_or_0 m.batch_sizes))
          ∷ ([] ∷ gpu_prometheus_lines gpu)
          ∷ quantile_lines "llm_queue_wait_quantile_seconds" m.queue_wait_times
          ∷ quantile_lines "llm_ttft_quantile_seconds" m.ttft_times
          ∷ quantile_lines "llm_total_latency_quantile_seconds" m.total_latencies
          ∷ histogram_lines "llm_queue_wait_seconds" "Queue wait time histogram."
              m.queue_wait_histogram
          ∷ histogram_lines "llm_ttft_seconds" "Time-to-first-token histogram." m.ttft_histogram
          ∷ histogram_lines "llm_total_latency_seconds" "Total request latency histogram."
              m.total_latency_histogram
          ∷ []))
      ++ (10 ∷ [])
