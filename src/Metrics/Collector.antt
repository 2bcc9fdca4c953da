-- ===== src/Metrics/Collector.antt =====
-- metrics/collector.py, `MetricsCollector`: counters, latencies and their snapshot. The labels of
-- rejections count in dictionaries; the priority's label, its decimal text, is the number itself,
-- since different numbers have different texts. The GPU sampler is an argument of the snapshot.
pub mod Tallies
pub mod Timing
pub mod Accounts
use llm_serving_runtime.Base.{
  ℕ, zero, suc, ◌+◌, ◌-◌, Bool, ◌&&◌, Option, none, some, List, [], ◌∷◌, ◌++◌, ◌==◌, if◌then◌else◌,
}
use llm_serving_runtime.Base.Text.{String, str_eq}
use llm_serving_runtime.Base.Int.{ℤ, sub_ℕ}
use llm_serving_runtime.Core.Request.{RuntimeRequest, mark_failed}
use llm_serving_runtime.Metrics.Histogram.{Histogram, observe}
use llm_serving_runtime.Metrics.Histogram

-- `collections.Counter`, in order of first insertion.
module _ {K : Type 0} (test : K → K → Bool) where
  unfoldable pub increment : K → List (K × ℕ) → List (K × ℕ)
  increment k [] = (k, 1) ∷ []
  increment k ((j, n) ∷ m) =
      let rest = increment k m in if test j k then (j, n + 1) ∷ m else (j, n) ∷ rest

  -- A key that is missing counts 0.
  unfoldable pub lookup_count : K → List (K × ℕ) → ℕ
  lookup_count k [] = 0
  lookup_count k ((j, n) ∷ m) = let rest = lookup_count k m in if test j k then n else rest

abbrev pub pair_eq : String × ℕ → String × ℕ → Bool
pair_eq (r, p) (r', p') = str_eq r r' && p == p'

pub record MetricsCollector : Type 0 where
  pub request_count : ℕ
  pub completed_count : ℕ
  pub failed_count : ℕ
  pub rejected_count : ℕ
  pub rejections_by_reason : List (String × ℕ)
  pub rejections_by_priority : List (ℕ × ℕ)
  pub rejections_by_reason_priority : List ((String × ℕ) × ℕ)
  pub active_requests : ℕ
  pub generated_tokens_total : ℕ
  pub batch_count : ℕ
  pub batch_sizes : List ℕ
  pub queue_wait_times : List ℤ
  pub ttft_times : List ℤ
  pub total_latencies : List ℤ
  pub queue_wait_histogram : Histogram
  pub ttft_histogram : Histogram
  pub total_latency_histogram : Histogram

unfoldable pub init : MetricsCollector
unfolding Histogram.init
init = record {
  request_count = 0;
  completed_count = 0;
  failed_count = 0;
  rejected_count = 0;
  rejections_by_reason = [];
  rejections_by_priority = [];
  rejections_by_reason_priority = [];
  active_requests = 0;
  generated_tokens_total = 0;
  batch_count = 0;
  batch_sizes = [];
  queue_wait_times = [];
  ttft_times = [];
  total_latencies = [];
  queue_wait_histogram = Histogram.init [];
  ttft_histogram = Histogram.init [];
  total_latency_histogram = Histogram.init [];
}

-- The three parts of `_record_timing`.
unfoldable pub record_wait : RuntimeRequest → MetricsCollector → MetricsCollector
record_wait r m = elim r.enqueued_at [
  | none ↦ m
  | some enqueued ↦ elim r.started_at [
    | none ↦ m
    | some started ↦
        let wait = sub_ℕ started enqueued in
        record m {
          queue_wait_times = m.queue_wait_times ++ (wait ∷ []);
          queue_wait_histogram = observe wait m.queue_wait_histogram;
        }
  ]
]

unfoldable pub record_ttft : RuntimeRequest → MetricsCollector → MetricsCollector
record_ttft r m = elim r.first_token_at [
  | none ↦ m
  | some first ↦
      let ttft = sub_ℕ first r.created_at in
      record m {
        ttft_times = m.ttft_times ++ (ttft ∷ []);
        ttft_histogram = observe ttft m.ttft_histogram;
      }
]

-- `completed_at or failed_at`: the reading 0 counts as missing on the left.
abbrev pub or_else : Option ℕ → Option ℕ → Option ℕ
or_else none b = b
or_else (some zero) b = b
or_else (some (suc n)) b = some (suc n)

unfoldable pub record_total : RuntimeRequest → MetricsCollector → MetricsCollector
record_total r m = elim (or_else r.completed_at r.failed_at) [
  | none ↦ m
  | some end_time ↦
      let total = sub_ℕ end_time r.created_at in
      record m {
        total_latencies = m.total_latencies ++ (total ∷ []);
        total_latency_histogram = observe total m.total_latency_histogram;
      }
]

unfoldable pub record_timing : RuntimeRequest → MetricsCollector → MetricsCollector
unfolding record_wait record_ttft record_total
record_timing r m = record_total r (record_ttft r (record_wait r m))

unfoldable pub record_request : MetricsCollector → MetricsCollector
record_request m = record m {
  request_count = m.request_count + 1;
  active_requests = m.active_requests + 1;
}

unfoldable pub record_success : RuntimeRequest → ℕ → MetricsCollector → MetricsCollector
record_success r generated_tokens m = record_timing r (record m {
  completed_count = m.completed_count + 1;
  active_requests = m.active_requests - 1;
  generated_tokens_total = m.generated_tokens_total + generated_tokens;
})

-- The request is marked too, at the reading `now`.
unfoldable pub record_failure :
    ℕ → RuntimeRequest → MetricsCollector → RuntimeRequest × MetricsCollector
record_failure now r m =
    let r' = mark_failed now r in
    (
      r',
      record_timing r'
          (record m { failed_count = m.failed_count + 1; active_requests = m.active_requests - 1 }),
    )

unfoldable pub record_rejection : ℕ → String → MetricsCollector → MetricsCollector
unfolding increment
record_rejection priority reason m =
    let normalized = if str_eq reason "" then "unknown" else reason in
    record m {
      rejected_count = m.rejected_count + 1;
      rejections_by_reason = increment str_eq normalized m.rejections_by_reason;
      rejections_by_priority = increment ◌==◌ priority m.rejections_by_priority;
      rejections_by_reason_priority =
          increment pair_eq (normalized, priority) m.rejections_by_reason_priority;
    }

unfoldable pub record_batch : ℕ → MetricsCollector → MetricsCollector
record_batch batch_size m = record m {
  batch_count = m.batch_count + 1;
  batch_sizes = m.batch_sizes ++ (batch_size ∷ []);
}
