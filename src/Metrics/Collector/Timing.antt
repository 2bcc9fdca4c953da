-- ===== src/Metrics/Collector/Timing.antt =====
-- metrics/collector.py: what the counters, the lists and the histograms of a collector say of one
-- another after any calls.
use llm_serving_runtime.Base.{
  ℕ, ◌+◌, ◌≤◌, ◌≡◌, refl, inl, inr, List, [], ◌∷◌, ◌++◌, arith, Option-cases, length, length-append,
}
use llm_serving_runtime.Base.Text.{String}
use llm_serving_runtime.Base.Int.{ℤ, sub_ℕ}
use llm_serving_runtime.Core.Request.{RuntimeRequest}
use llm_serving_runtime.Metrics.Histogram.Cumulative.{IsValid, observe-IsValid, init-IsValid}
use llm_serving_runtime.Metrics.Histogram.{observe}
use llm_serving_runtime.Metrics.Histogram
use llm_serving_runtime.Metrics.Collector.{
  MetricsCollector, init, record_wait, record_ttft, record_total, record_timing, record_request,
  record_success, record_failure, record_rejection, record_batch, or_else,
}

-- A call of one of the collector's methods.
pub data MetricsCall : Type 0 where
  request : MetricsCall
  success : RuntimeRequest → (generated_tokens : ℕ) → MetricsCall
  failure : (now : ℕ) → RuntimeRequest → MetricsCall
  rejection : (priority : ℕ) → (reason : String) → MetricsCall
  batch : (batch_size : ℕ) → MetricsCall

unfoldable pub call : MetricsCall → MetricsCollector → MetricsCollector
call request m = record_request m
call (success r n) m = record_success r n m
call (failure now r) m = (record_failure now r m).1
call (rejection priority reason) m = record_rejection priority reason m
call (batch size) m = record_batch size m

unfoldable pub call_all : List MetricsCall → MetricsCollector → MetricsCollector
call_all [] m = m
call_all (c ∷ calls) m = call_all calls (call c m)

-- A list of latencies beside the histogram that observed them.
pub record IsSeries (times : List ℤ) (h : Histogram.Histogram) : Type 0 where
  pub counted : length times ≡ h.total
  pub valid : IsValid h

observe-IsSeries :
    (v : ℤ) (times : List ℤ) (h : Histogram.Histogram)
    → IsSeries times h
    → IsSeries (times ++ (v ∷ [])) (observe v h)
unfolding observe
observe-IsSeries v times h s = record {
  counted = omega (arith, length-append times (v ∷ []), s.counted);
  valid = observe-IsValid v h s.valid;
}

-- The lists and the histograms hold the same number of samples, and no request that was counted in
-- is missing from the active, completed and failed ones.
pub record IsConsistent (m : MetricsCollector) : Type 0 where
  pub batches : length m.batch_sizes ≡ m.batch_count
  pub waits : IsSeries m.queue_wait_times m.queue_wait_histogram
  pub ttfts : IsSeries m.ttft_times m.ttft_histogram
  pub latencies : IsSeries m.total_latencies m.total_latency_histogram
  pub accounted : m.request_count ≤ m.active_requests + m.completed_count + m.failed_count

init-IsConsistent : IsConsistent init
unfolding init
init-IsConsistent = record {
  batches = refl;
  waits = record { counted = refl; valid = init-IsValid [] };
  ttfts = record { counted = refl; valid = init-IsValid [] };
  latencies = record { counted = refl; valid = init-IsValid [] };
  accounted = omega arith;
}

record_wait-IsConsistent :
    (r : RuntimeRequest) (m : MetricsCollector) → IsConsistent m → IsConsistent (record_wait r m)
unfolding record_wait
record_wait-IsConsistent r m c = elim (Option-cases r.enqueued_at) [
  | inl e ↦ rw (e, record_wait) c
  | inr (enqueued, e) ↦ elim (Option-cases r.started_at) [
    | inl e' ↦ rw (e, e', record_wait) c
    | inr (started, e') ↦
        rw (e, e', record_wait)
          (record {
            batches = c.batches;
            waits =
                observe-IsSeries (sub_ℕ started enqueued) m.queue_wait_times m.queue_wait_histogram
                  c.waits;
            ttfts = c.ttfts;
            latencies = c.latencies;
            accounted = c.accounted;
          })
  ]
]

record_ttft-IsConsistent :
    (r : RuntimeRequest) (m : MetricsCollector) → IsConsistent m → IsConsistent (record_ttft r m)
unfolding record_ttft
record_ttft-IsConsistent r m c = elim (Option-cases r.first_token_at) [
  | inl e ↦ rw (e, record_ttft) c
  | inr (first, e) ↦
      rw (e, record_ttft)
        (record {
          batches = c.batches;
          waits = c.waits;
          ttfts = observe-IsSeries (sub_ℕ first r.created_at) m.ttft_times m.ttft_histogram c.ttfts;
          latencies = c.latencies;
          accounted = c.accounted;
        })
]

record_total-IsConsistent :
    (r : RuntimeRequest) (m : MetricsCollector) → IsConsistent m → IsConsistent (record_total r m)
unfolding record_total
record_total-IsConsistent r m c = elim (Option-cases (or_else r.completed_at r.failed_at)) [
  | inl e ↦ rw (e, record_total) c
  | inr (end_time, e) ↦
      rw (e, record_total)
        (record {
          batches = c.batches;
          waits = c.waits;
          ttfts = c.ttfts;
          latencies =
              observe-IsSeries (sub_ℕ end_time r.created_at) m.total_latencies
                m.total_latency_histogram c.latencies;
          accounted = c.accounted;
        })
]

record_timing-IsConsistent :
    (r : RuntimeRequest) (m : MetricsCollector) → IsConsistent m → IsConsistent (record_timing r m)
unfolding record_timing
record_timing-IsConsistent r m c =
    record_total-IsConsistent r (record_ttft r (record_wait r m))
      (record_ttft-IsConsistent r (record_wait r m) (record_wait-IsConsistent r m c))

call-IsConsistent :
    (c : MetricsCall) (m : MetricsCollector) → IsConsistent m → IsConsistent (call c m)
unfolding call record_request record_success record_failure record_rejection record_batch
call-IsConsistent request m v = record {
  batches = v.batches;
  waits = v.waits;
  ttfts = v.ttfts;
  latencies = v.latencies;
  accounted = omega (arith, v.accounted);
}
call-IsConsistent (success r n) m v = record_timing-IsConsistent r _ (record {
  batches = v.batches;
  waits = v.waits;
  ttfts = v.ttfts;
  latencies = v.latencies;
  accounted = omega (arith, v.accounted);
})
call-IsConsistent (failure now r) m v = record_timing-IsConsistent _ _ (record {
  batches = v.batches;
  waits = v.waits;
  ttfts = v.ttfts;
  latencies = v.latencies;
  accounted = omega (arith, v.accounted);
})
call-IsConsistent (rejection priority reason) m v = record {
  batches = v.batches;
  waits = v.waits;
  ttfts = v.ttfts;
  latencies = v.latencies;
  accounted = v.accounted;
}
call-IsConsistent (batch size) m v = record {
  batches = omega (arith, length-append m.batch_sizes (size ∷ []), v.batches);
  waits = v.waits;
  ttfts = v.ttfts;
  latencies = v.latencies;
  accounted = v.accounted;
}

call_all-IsConsistent :
    (calls : List MetricsCall) (m : MetricsCollector)
    → IsConsistent m
    → IsConsistent (call_all calls m)
unfolding call_all
call_all-IsConsistent [] m v = v
call_all-IsConsistent (c ∷ calls) m v =
    call_all-IsConsistent calls (call c m) (call-IsConsistent c m v)

-- After any calls of a new collector's methods, in any order, each list of latencies is as long as
-- its histogram's total, each histogram is valid, the sizes of batches are as many as the batches,
-- and the requests are at most the active, completed and failed ones together.
pub call_all-init-IsConsistent : (calls : List MetricsCall) → IsConsistent (call_all calls init)
call_all-init-IsConsistent calls = call_all-IsConsistent calls init init-IsConsistent
