-- ===== src/Metrics/Collector/Accounts.antt =====
-- metrics/collector.py: what each call does to the counters of requests.
use llm_serving_runtime.Base.{ℕ, ◌+◌, ◌-◌, ◌≡◌, ◌∙◌, arith}
use llm_serving_runtime.Core.Request.{RuntimeRequest}
use llm_serving_runtime.Metrics.Collector.{
  MetricsCollector, record_wait, record_ttft, record_total, record_timing, record_success,
  record_failure,
}

-- The counters of requests: accepted, active, completed, failed, rejected.
pub record Counters : Type 0 where
  pub requests : ℕ
  pub active : ℕ
  pub completed : ℕ
  pub failed : ℕ
  pub rejected : ℕ

abbrev pub counters : MetricsCollector → Counters
counters m = record {
  requests = m.request_count;
  active = m.active_requests;
  completed = m.completed_count;
  failed = m.failed_count;
  rejected = m.rejected_count;
}

-- One more request completed, or failed.
abbrev pub one_completed : Counters → Counters
one_completed c = record c { active = c.active - 1; completed = c.completed + 1 }

abbrev pub one_failed : Counters → Counters
one_failed c = record c { active = c.active - 1; failed = c.failed + 1 }

counters-record_wait :
    (r : RuntimeRequest) (m : MetricsCollector) → counters (record_wait r m) ≡ counters m
unfolding record_wait
counters-record_wait r m = ground arith

counters-record_ttft :
    (r : RuntimeRequest) (m : MetricsCollector) → counters (record_ttft r m) ≡ counters m
unfolding record_ttft
counters-record_ttft r m = ground arith

counters-record_total :
    (r : RuntimeRequest) (m : MetricsCollector) → counters (record_total r m) ≡ counters m
unfolding record_total
counters-record_total r m = ground arith

counters-record_timing :
    (r : RuntimeRequest) (m : MetricsCollector) → counters (record_timing r m) ≡ counters m
unfolding record_timing
counters-record_timing r m =
    counters-record_total r (record_ttft r (record_wait r m))
    ∙ counters-record_ttft r (record_wait r m)
    ∙ counters-record_wait r m

pub counters-record_success :
    (r : RuntimeRequest) (n : ℕ) (m : MetricsCollector)
    → counters (record_success r n m) ≡ one_completed (counters m)
unfolding record_success
counters-record_success r n m = counters-record_timing r _

pub counters-record_failure :
    (now : ℕ) (r : RuntimeRequest) (m : MetricsCollector)
    → counters (record_failure now r m).1 ≡ one_failed (counters m)
unfolding record_failure
counters-record_failure now r m = counters-record_timing _ _
