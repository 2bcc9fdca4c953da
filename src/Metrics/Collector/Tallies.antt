-- ===== src/Metrics/Collector/Tallies.antt =====
-- metrics/collector.py: the dictionaries of rejections count each label's rejections.
use llm_serving_runtime.Base.{
  ℕ, ◌+◌, ◌≡◌, ◌↔◌, Bool, true, List, [], ◌∷◌, arith, ◌==◌, if◌then◌else◌, length, count_p,
}
use llm_serving_runtime.Base.Text.{String, str_eq, eq_iff}
use llm_serving_runtime.Metrics.Collector.{
  MetricsCollector, increment, lookup_count, pair_eq, record_rejection,
}

module _ {K : Type 0} (test : K → K → Bool) (law : (j k : K) → (test j k ≡ true) ↔ (j ≡ k)) where
  -- An increment of one key adds one to it, and leaves the others alone.
  pub lookup_count-increment :
      (k j : K) (m : List (K × ℕ))
      → lookup_count test j (increment test k m)
        ≡ (if test k j then 1 else 0) + lookup_count test j m
  unfolding lookup_count increment
  lookup_count-increment k j [] = ground arith
  lookup_count-increment k j ((i, n) ∷ m) =
      ground (arith, law k j, law i k, law i j, lookup_count-increment k j m)

pub num_law : (j k : ℕ) → ((j == k) ≡ true) ↔ (j ≡ k)
num_law j k = ground arith

pair_law : (j k : String × ℕ) → (pair_eq j k ≡ true) ↔ (j ≡ k)
pair_law (r, p) (r', p') = (ground (arith, eq_iff r r'), ground (arith, eq_iff r r'))

-- The label under which a reason counts.
abbrev pub normalized : String → String
normalized reason = if str_eq reason "" then "unknown" else reason

-- A history of rejections, each a priority and a reason.
unfoldable pub reject_all : List (ℕ × String) → MetricsCollector → MetricsCollector
reject_all [] m = m
reject_all ((priority, reason) ∷ rest) m = reject_all rest (record_rejection priority reason m)

-- After any rejections each dictionary shows, for each label, how many rejections had it, and the
-- total is their number.
pub reject_all-counts :
    (events : List (ℕ × String)) (m : MetricsCollector)
    → let m' = reject_all events m in
      (m'.rejected_count ≡ length events + m.rejected_count)
      × ((r : String)
          → lookup_count str_eq r m'.rejections_by_reason
            ≡ count_p (λ e. str_eq (normalized e.1) r) events
              + lookup_count str_eq r m.rejections_by_reason)
      × ((p : ℕ)
          → lookup_count ◌==◌ p m'.rejections_by_priority
            ≡ count_p (λ e. e.0 == p) events + lookup_count ◌==◌ p m.rejections_by_priority)
      × ((k : String × ℕ)
          → lookup_count pair_eq k m'.rejections_by_reason_priority
            ≡ count_p (λ e. pair_eq (normalized e.1, e.0) k) events
              + lookup_count pair_eq k m.rejections_by_reason_priority)
unfolding reject_all record_rejection
reject_all-counts [] m = (omega arith, λ r. omega arith, λ p. omega arith, λ k. omega arith)
reject_all-counts ((priority, reason) ∷ rest) m =
    let (total, reasons, priorities, pairs) =
      reject_all-counts rest (record_rejection priority reason m) in
    (
      omega (arith, total),
      λ r. omega (
        arith,
        reasons r,
        lookup_count-increment str_eq eq_iff (normalized reason) r m.rejections_by_reason,
      ),
      λ p. omega (
        arith,
        priorities p,
        lookup_count-increment ◌==◌ num_law priority p m.rejections_by_priority,
      ),
      λ k. omega (
        arith,
        pairs k,
        lookup_count-increment pair_eq pair_law (normalized reason, priority) k
            m.rejections_by_reason_priority,
      ),
    )
