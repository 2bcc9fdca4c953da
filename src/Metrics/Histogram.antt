-- ===== src/Metrics/Histogram.antt =====
-- metrics/collector.py, `Histogram`: the counts for each bucket and the cumulative export. Samples
-- and bounds are signed numbers of nanoseconds. The text of the export is left out; its samples
-- are a value.
pub mod Cumulative
use llm_serving_runtime.Base.{
  ℕ, suc, ◌+◌, ◌*◌, Option, none, some, List, [], ◌∷◌, ◌==◌, if◌then◌else◌, length, replicate,
}
use llm_serving_runtime.Base.Int.{ℤ, pos, negsuc, sub_ℕ, ◌+ℤ◌, leb_ℤ}
use llm_serving_runtime.Metrics.Latency.{round_div}

pub record Histogram : Type 0 where
  pub boundaries : List ℤ
  pub counts : List ℕ
  pub sum_samples : ℤ
  pub total : ℕ

abbrev us : ℕ → ℤ
us n = pos (n * 1_000)

-- `_LATENCY_BUCKETS`.
abbrev pub latency_buckets : List ℤ
latency_buckets =
    us 1_000
    ∷ us 5_000
    ∷ us 10_000
    ∷ us 25_000
    ∷ us 50_000
    ∷ us 100_000
    ∷ us 250_000
    ∷ us 500_000
    ∷ us 1_000_000
    ∷ us 2_500_000
    ∷ us 5_000_000
    ∷ us 10_000_000
    ∷ []

-- `buckets or _LATENCY_BUCKETS`: an empty list counts as none.
abbrev pub or_default : List ℤ → List ℤ
or_default [] = latency_buckets
or_default (b ∷ buckets) = b ∷ buckets

unfoldable pub init : List ℤ → Histogram
init buckets = record {
  boundaries = or_default buckets;
  counts = replicate (suc (length (or_default buckets))) 0;
  sum_samples = pos 0;
  total = 0;
}

-- `counts[-1] += 1`.
unfoldable pub bump_last : List ℕ → List ℕ
bump_last [] = []
bump_last (c ∷ []) = (c + 1) ∷ []
bump_last (c ∷ d ∷ counts) = c ∷ bump_last (d ∷ counts)

-- The loop of `observe` over the bounds and the counts that go with them.
unfoldable pub tally : ℤ → List ℤ → List ℕ → List ℕ
unfolding bump_last
tally value [] counts = bump_last counts
tally value (boundary ∷ boundaries) [] = []
tally value (boundary ∷ boundaries) (c ∷ counts) =
    let rest = tally value boundaries counts in
    if leb_ℤ value boundary then (c + 1) ∷ counts else c ∷ rest

unfoldable pub observe : ℤ → Histogram → Histogram
unfolding tally ◌+ℤ◌
observe value h = record h {
  sum_samples = h.sum_samples +ℤ value;
  total = h.total + 1;
  counts = tally value h.boundaries h.counts;
}

-- The pairs of a bound and its cumulative count, in the loop of `prometheus_lines`.
unfoldable pub cumulate : ℕ → List ℤ → List ℕ → List (ℤ × ℕ)
cumulate cumulative [] counts = []
cumulate cumulative (boundary ∷ boundaries) [] = []
cumulate cumulative (boundary ∷ boundaries) (c ∷ counts) =
    (boundary, cumulative + c) ∷ cumulate (cumulative + c) boundaries counts

-- The samples of the export: the buckets, `+Inf`, the sum and the count. `none`: no line at all.
pub record Exposition : Type 0 where
  pub buckets : List (ℤ × ℕ)
  pub inf : ℕ
  pub sum_samples : ℤ
  pub count : ℕ

unfoldable pub prometheus_lines : Histogram → Option Exposition
unfolding cumulate
prometheus_lines h =
    if h.total == 0
    then none
    else some (record {
      buckets = cumulate 0 h.boundaries h.counts;
      inf = h.total;
      sum_samples = h.sum_samples;
      count = h.total;
    })

abbrev pub last_or_0 : List ℕ → ℕ
last_or_0 [] = 0
last_or_0 (c ∷ []) = c
last_or_0 (c ∷ d ∷ counts) = last_or_0 (d ∷ counts)

-- `{str(b): counts[i]}`, by the bounds themselves.
abbrev pub pair_up : List ℤ → List ℕ → List (ℤ × ℕ)
pair_up [] counts = []
pair_up (b ∷ boundaries) [] = []
pair_up (b ∷ boundaries) (c ∷ counts) = (b, c) ∷ pair_up boundaries counts

-- `round(…, 6)` of seconds: to whole microseconds, a half to the even one.
unfoldable pub round_us : ℤ → ℤ
unfolding round_div
round_us (pos n) = pos (round_div n 1_000 * 1_000)
round_us (negsuc n) = sub_ℕ 0 (round_div (suc n) 1_000 * 1_000)

unfoldable pub snapshot : Histogram → Exposition
unfolding round_us
snapshot h = record {
  buckets = pair_up h.boundaries h.counts;
  inf = last_or_0 h.counts;
  sum_samples = round_us h.sum_samples;
  count = h.total;
}

unfoldable pub observe_all : List ℤ → Histogram → Histogram
observe_all [] h = h
observe_all (v ∷ values) h = observe_all values (observe v h)
