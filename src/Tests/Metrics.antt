-- ===== src/Tests/Metrics.antt =====
-- The metrics at concrete inputs.
use llm_serving_runtime.Base.{ℕ, ◌*◌, ◌<◌, ◌+◌, ◌≤◌, ◌≡◌, refl, ◌≢◌, List, [], ◌∷◌, arith}
use llm_serving_runtime.Base.Int.{ℤ, pos, IsSorted}
use llm_serving_runtime.Metrics.Latency.{percentile, rank, sorted, insert, round_div}
use llm_serving_runtime.Metrics.Latency.Rank.{IsNearest, at_most, at_least, percentile-rank}
use llm_serving_runtime.Metrics.Histogram.{prometheus_lines, observe_all, init}
use llm_serving_runtime.Metrics.Histogram.Cumulative.{exported, prometheus_lines-observe_all}
use llm_serving_runtime.Metrics.Collector.{lookup_count, pair_eq}
use llm_serving_runtime.Metrics.Collector
use llm_serving_runtime.Metrics.Collector.Timing.{
  MetricsCall, request, success, failure, rejection, batch, call_all, IsConsistent,
  call_all-init-IsConsistent,
}
use llm_serving_runtime.Tests.Data

abbrev latencies : List ℤ
latencies = pos 30 ∷ pos 10 ∷ pos 20 ∷ pos 40 ∷ []

-- A half rounds to the even neighbour: the rank of the median of four is 2.
median_example : percentile latencies 50 ≡ pos 30
unfolding percentile rank round_div sorted insert
median_example = refl

not_empty : latencies ≢ []
not_empty e = absurd (cc)

percentile-rank_example :
    (k : ℕ) × IsNearest (95 * 3) k
    × (k < 4)
    × (k < at_most (percentile latencies 95) latencies)
    × (4 ≤ at_least (percentile latencies 95) latencies + k)
percentile-rank_example = percentile-rank latencies 95 not_empty (omega arith)

abbrev bounds : List ℤ
bounds = pos 10 ∷ pos 25 ∷ pos 50 ∷ []

bounds-IsSorted : IsSorted bounds
bounds-IsSorted = ((omega arith, (omega arith, tt)), ((omega arith, tt), (tt, tt)))

prometheus_lines-observe_all_example :
    prometheus_lines (observe_all latencies (init bounds)) ≡ exported bounds latencies
prometheus_lines-observe_all_example = prometheus_lines-observe_all bounds latencies bounds-IsSorted

abbrev calls : List MetricsCall
calls =
    request
    ∷ batch 1
    ∷ success (Data.request "r1" 1) 3
    ∷ request
    ∷ failure 9 (Data.request "r2" 0)
    ∷ rejection 1 "queue_full"
    ∷ []

call_all-init-IsConsistent_example : IsConsistent (call_all calls Collector.init)
call_all-init-IsConsistent_example = call_all-init-IsConsistent calls
