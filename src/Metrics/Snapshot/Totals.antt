-- ===== src/Metrics/Snapshot/Totals.antt =====
-- metrics/collector.py: the numbers of a snapshot agree with one another.
use llm_serving_runtime.Base.{
  ℕ, suc, ◌+◌, ◌*◌, ◌≤◌, ◌≡◌, refl, sym, ap, subst, ◌∙◌, Bool, List, [], ◌∷◌, map, arith, ◌==◌,
  if◌then◌else◌, length, sum,
}
use llm_serving_runtime.Base.Text.{String, str_eq}
use llm_serving_runtime.Base.Int.{ℤ, pos, ◌+ℤ◌, ◌≤ℤ◌}
use llm_serving_runtime.Base.Sorting.{sort_by-sum}
use llm_serving_runtime.Core.Request.{RuntimeRequest}
use llm_serving_runtime.Metrics.Latency.Rank.{percentile-mono}
use llm_serving_runtime.Metrics.Histogram.{Histogram, pair_up, last_or_0}
use llm_serving_runtime.Metrics.Histogram
use llm_serving_runtime.Metrics.Histogram.Cumulative.{IsValid}
use llm_serving_runtime.Metrics.Gpu.{GpuSnapshot}
use llm_serving_runtime.Metrics.Collector.{
  MetricsCollector, init, increment, record_wait, record_ttft, record_total, record_timing,
  record_request, record_success, record_failure, record_rejection, record_batch,
}
use llm_serving_runtime.Metrics.Collector.Timing.{
  MetricsCall, request, success, failure, rejection, batch, call, call_all, IsConsistent,
  call_all-init-IsConsistent,
}
use llm_serving_runtime.Metrics.Snapshot.{
  Snapshot, LatencySummary, snapshot, latency_summary, avg, total_of, counter, by_reason, by_label,
  by_size,
}

-- The counts of a dictionary, together.
abbrev pub counted {ℓ} : {K : Type ℓ} → List (K × ℕ) → ℕ
counted m = sum (map (λ e. e.1) m)

increment-counted :
    {K : Type 0} (test : K → K → Bool) (k : K) (m : List (K × ℕ))
    → counted (increment test k m) ≡ suc (counted m)
unfolding increment
increment-counted test k [] = refl
increment-counted test k ((j, n) ∷ m) = ground (arith, increment-counted test k m)

-- What a collector has of rejections.
record Rejected : Type 0 where
  total : ℕ
  by_reason : List (String × ℕ)
  by_priority : List (ℕ × ℕ)

abbrev rejected : MetricsCollector → Rejected
rejected m = record {
  total = m.rejected_count;
  by_reason = m.rejections_by_reason;
  by_priority = m.rejections_by_priority;
}

record IsTallied (r : Rejected) : Type 0 where
  reasons : counted r.by_reason ≡ r.total
  priorities : counted r.by_priority ≡ r.total

rejected-record_wait :
    (r : RuntimeRequest) (m : MetricsCollector) → rejected (record_wait r m) ≡ rejected m
unfolding record_wait
rejected-record_wait r m = ground arith

rejected-record_ttft :
    (r : RuntimeRequest) (m : MetricsCollector) → rejected (record_ttft r m) ≡ rejected m
unfolding record_ttft
rejected-record_ttft r m = ground arith

rejected-record_total :
    (r : RuntimeRequest) (m : MetricsCollector) → rejected (record_total r m) ≡ rejected m
unfolding record_total
rejected-record_total r m = ground arith

rejected-record_timing :
    (r : RuntimeRequest) (m : MetricsCollector) → rejected (record_timing r m) ≡ rejected m
unfolding record_timing
rejected-record_timing r m =
    rejected-record_total r (record_ttft r (record_wait r m))
    ∙ rejected-record_ttft r (record_wait r m)
    ∙ rejected-record_wait r m

call-IsTallied :
    (c : MetricsCall) (m : MetricsCollector)
    → IsTallied (rejected m)
    → IsTallied (rejected (call c m))
unfolding call record_request record_success record_failure record_rejection record_batch
call-IsTallied request m t = t
call-IsTallied (success r n) m t = rw (rejected-record_timing r _) t
call-IsTallied (failure now r) m t = subst IsTallied (sym (rejected-record_timing _ _)) t
call-IsTallied (rejection priority reason) m t = record {
  reasons = omega (
    arith,
    increment-counted str_eq (if str_eq reason "" then "unknown" else reason)
        m.rejections_by_reason,
    t.reasons,
  );
  priorities =
      omega (arith, increment-counted ◌==◌ priority m.rejections_by_priority, t.priorities);
}
call-IsTallied (batch size) m t = t

call_all-IsTallied :
    (calls : List MetricsCall) (m : MetricsCollector)
    → IsTallied (rejected m)
    → IsTallied (rejected (call_all calls m))
unfolding call_all
call_all-IsTallied [] m t = t
call_all-IsTallied (c ∷ calls) m t = call_all-IsTallied calls (call c m) (call-IsTallied c m t)

init-IsTallied : IsTallied (rejected init)
unfolding init
init-IsTallied = record { reasons = refl; priorities = refl }

-- The sizes of a distribution, each as often as it is counted, together.
abbrev pub batched : List (ℕ × ℕ) → ℕ
batched m = sum (map (λ e. e.0 * e.1) m)

increment-batched : (k : ℕ) (m : List (ℕ × ℕ)) → batched (increment ◌==◌ k m) ≡ k + batched m
unfolding increment
increment-batched k [] = omega arith
increment-batched k ((j, n) ∷ m) = grind (arith, increment-batched k m)

counter-counted :
    (values : List ℕ) (m : List (ℕ × ℕ)) → counted (counter values m) ≡ length values + counted m
unfolding counter
counter-counted [] m = omega arith
counter-counted (v ∷ values) m =
    omega (arith, counter-counted values (increment ◌==◌ v m), increment-counted ◌==◌ v m)

counter-batched :
    (values : List ℕ) (m : List (ℕ × ℕ)) → batched (counter values m) ≡ sum values + batched m
unfolding counter
counter-batched [] m = omega arith
counter-batched (v ∷ values) m =
    omega (arith, counter-batched values (increment ◌==◌ v m), increment-batched v m)

total_of-pos : (values : List ℕ) → total_of (map pos values) ≡ pos (sum values)
unfolding ◌+ℤ◌
total_of-pos [] = refl
total_of-pos (v ∷ values) = rw (total_of-pos values) (ground arith)

avg-total : (values : List ℕ) → (avg (map pos values)).total ≡ pos (sum values)
unfolding avg
avg-total [] = refl
avg-total (v ∷ values) = total_of-pos (v ∷ values)

pair_up-counted :
    (bounds : List ℤ) (counts : List ℕ)
    → length counts ≡ length bounds + 1
    → counted (pair_up bounds counts) + last_or_0 counts ≡ sum counts
pair_up-counted [] [] h = absurd (omega arith)
pair_up-counted [] (c ∷ []) h = omega arith
pair_up-counted [] (c ∷ d ∷ counts) h = absurd (omega arith)
pair_up-counted (b ∷ bounds) [] h = absurd (omega arith)
pair_up-counted (b ∷ []) (c ∷ []) h = absurd (omega arith)
pair_up-counted (b ∷ b' ∷ bounds) (c ∷ []) h = absurd (omega arith)
pair_up-counted (b ∷ bounds) (c ∷ d ∷ counts) h =
    omega (arith, pair_up-counted bounds (d ∷ counts) (omega arith))

-- Each sample is in one bucket, and the percentiles rise.
pub record IsSummary (l : LatencySummary) : Type 0 where
  pub samples : counted l.histogram.buckets + l.histogram.inf ≡ l.histogram.count
  pub p50_le_p95 : l.p50 ≤ℤ l.p95
  pub p95_le_p99 : l.p95 ≤ℤ l.p99

latency_summary-IsSummary :
    (times : List ℤ) (h : Histogram) → IsValid h → IsSummary (latency_summary times h)
unfolding latency_summary Histogram.snapshot
latency_summary-IsSummary times h v = record {
  samples = pair_up-counted h.boundaries h.counts v.sized ∙ v.counted;
  p50_le_p95 = percentile-mono times 50 95 (omega arith);
  p95_le_p99 = percentile-mono times 95 99 (omega arith);
}

pub record IsCoherent (s : Snapshot) : Type 0 where
  pub requests : s.request_count ≤ s.active_requests + s.completed_count + s.failed_count
  pub reasons : counted s.rejections_by_reason ≡ s.rejected_count
  pub priorities : counted s.rejections_by_priority ≡ s.rejected_count
  pub batches : counted s.batch_size_distribution ≡ s.batch_count
  pub sizes : pos (batched s.batch_size_distribution) ≡ s.batch_size_avg.total
  pub queue_waits : IsSummary s.queue_wait
  pub ttfts : IsSummary s.ttft
  pub latencies : IsSummary s.total_latency

snapshot-IsCoherent :
    (gpu : GpuSnapshot) (m : MetricsCollector)
    → IsConsistent m
    → IsTallied (rejected m)
    → IsCoherent (snapshot gpu m)
unfolding snapshot
snapshot-IsCoherent gpu m c t = record {
  requests = c.accounted;
  reasons = sort_by-sum by_reason (λ e. e.1) m.rejections_by_reason ∙ t.reasons;
  priorities = sort_by-sum by_label (λ e. e.1) m.rejections_by_priority ∙ t.priorities;
  batches = omega (
    arith,
    sort_by-sum by_size (λ e. e.1) (counter m.batch_sizes []),
    counter-counted m.batch_sizes [],
    c.batches,
  );
  sizes =
      ap pos (
        sort_by-sum by_size (λ e. e.0 * e.1) (counter m.batch_sizes [])
        ∙ counter-batched m.batch_sizes []
        ∙ omega arith)
      ∙ sym (avg-total m.batch_sizes);
  queue_waits = latency_summary-IsSummary m.queue_wait_times m.queue_wait_histogram c.waits.valid;
  ttfts = latency_summary-IsSummary m.ttft_times m.ttft_histogram c.ttfts.valid;
  latencies =
      latency_summary-IsSummary m.total_latencies m.total_latency_histogram c.latencies.valid;
}

-- After any calls of a new collector's methods its snapshot adds up: the rejections by reason and
-- those by priority are all rejections; the distribution of batch sizes counts all batches, and the
-- batches of each size together are the sum behind their mean; each histogram's buckets hold all of
-- its samples; the percentiles of each latency rise; and the requests are at most the active,
-- completed and failed ones together.
pub snapshot-call_all-IsCoherent :
    (gpu : GpuSnapshot) (calls : List MetricsCall) → IsCoherent (snapshot gpu (call_all calls init))
snapshot-call_all-IsCoherent gpu calls =
    snapshot-IsCoherent gpu (call_all calls init) (call_all-init-IsConsistent calls)
      (call_all-IsTallied calls init init-IsTallied)
