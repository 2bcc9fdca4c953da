-- ===== src/Metrics/Gpu/Readings.antt =====
-- metrics/gpu.py: what the numbers of a snapshot say of its devices.
use native.Mathlib.Nat.{le-div_iff_mul-le, le_trans, div-mul-le_self, mul-div_cancel, div-add-mod'}
use llm_serving_runtime.Base.{
  Bool, not, ◌&&◌, Bool-cases, max, ℕ, suc, ◌*◌, ◌/◌, ◌%◌, ◌≤◌, ◌<◌, ◌≡◌, refl, subst, ◌≢◌, ◌⊎◌,
  inl, inr, none, List, [], ◌∷◌, map, arith, length, All, sum,
}
use llm_serving_runtime.Metrics.Latency.{round_div}
use llm_serving_runtime.Metrics.Gpu.{
  GpuDevice, GpuSnapshot, RunResult, timed_out, os_error, failed, printed, unavailable, available,
  of_gpus, sample, Runner, NvidiaSmiSampler, snapshot, lacks_runner, runner_or, query_args,
  parse_nvidia_smi,
}

abbrev pub highest : List GpuDevice → ℕ
highest [] = 0
highest (g ∷ gpus) = max g.utilization_pct (highest gpus)

All-le_highest :
    (m : ℕ) (gpus : List GpuDevice) → highest gpus ≤ m → All (λ g. g.utilization_pct ≤ m) gpus
All-le_highest m [] h = tt
All-le_highest m (g ∷ gpus) h = (omega (arith, h), All-le_highest m gpus (omega (arith, h)))

-- The totals are those of the devices; there are devices exactly if no reason is given; and no
-- utilization above all of theirs is shown.
pub record IsSummary (s : GpuSnapshot) : Type 0 where
  pub counted : s.gpu_count ≡ length s.gpus
  pub used : s.memory_used_mb ≡ sum (map (λ g. g.memory_used_mb) s.gpus)
  pub total : s.memory_total_mb ≡ sum (map (λ g. g.memory_total_mb) s.gpus)
  pub status : ((s.reason ≡ none) × (s.gpus ≢ [])) ⊎ ((s.reason ≢ none) × (s.gpus ≡ []))
  pub bounded : s.utilization_pct ≤ highest s.gpus

quotient_le : (n d m : ℕ) → 0 < d → n ≤ m * d → n / d ≤ m
quotient_le n d m h le =
    subst (λ (x : ℕ). n / d ≤ x) (mul-div_cancel m h)
      ((le-div_iff_mul-le h).1 (le_trans (div-mul-le_self n d) le))

remainder_zero : (n d m : ℕ) → n ≤ m * d → n / d ≡ m → n % d ≡ 0
remainder_zero n d m le e = omega (arith, rw e at (div-add-mod' n d))

round_div_le : (n d m : ℕ) → 0 < d → n ≤ m * d → round_div n d ≤ m
unfolding round_div
round_div_le n d m h le = ground (arith, quotient_le n d m h le, remainder_zero n d m le)

sum-le :
    (m : ℕ) (gpus : List GpuDevice)
    → All (λ g. g.utilization_pct ≤ m) gpus
    → sum (map (λ g. g.utilization_pct) gpus) ≤ m * length gpus
sum-le m [] h = omega arith
sum-le m (g ∷ gpus) h = omega (arith, h.0, sum-le m gpus h.1)

available-IsSummary : (g : GpuDevice) (gpus : List GpuDevice) → IsSummary (available (g ∷ gpus))
unfolding available
available-IsSummary g gpus = record {
  counted = refl;
  used = refl;
  total = refl;
  status = inl (refl, λ e. absurd (cc));
  bounded = round_div_le _ (suc (length gpus)) (highest (g ∷ gpus)) (omega arith) (
      sum-le (highest (g ∷ gpus)) (g ∷ gpus)
        (All-le_highest (highest (g ∷ gpus)) (g ∷ gpus) (omega arith)));
}

unavailable-IsSummary : (reason : List ℕ) → IsSummary (unavailable reason)
unfolding unavailable
unavailable-IsSummary reason = record {
  counted = refl;
  used = refl;
  total = refl;
  status = inr (λ e. absurd (cc), refl);
  bounded = omega arith;
}

of_gpus-IsSummary : (gpus : List GpuDevice) → IsSummary (of_gpus gpus)
unfolding of_gpus
of_gpus-IsSummary [] = unavailable-IsSummary _
of_gpus-IsSummary (g ∷ gpus) = available-IsSummary g gpus

sample-IsSummary : (r : RunResult) → IsSummary (sample r)
unfolding sample
sample-IsSummary timed_out = unavailable-IsSummary _
sample-IsSummary (os_error message) = unavailable-IsSummary message
sample-IsSummary (failed stderr exit_message) = unavailable-IsSummary _
sample-IsSummary (printed rows) = of_gpus-IsSummary (parse_nvidia_smi rows)

-- Whether the command is found or not, and however the run of it or of the given runner ends: the
-- snapshot gives either a reason and no device, or no reason and at least one device; its count and
-- its memory totals are those of its devices, so 0 when there is none; and the utilization that it
-- shows is no higher than the highest of its devices.
pub snapshot-IsSummary :
    (which : List ℕ → Bool) (run : Runner) (s : NvidiaSmiSampler) → IsSummary (snapshot which run s)
unfolding snapshot
snapshot-IsSummary which run s = elim (Bool-cases (lacks_runner s && not (which s.command))) [
  | inl missing ↦ rw missing (unavailable-IsSummary _)
  | inr found ↦
      rw found (sample-IsSummary (runner_or s.runner run (query_args s.command) s.timeout_s))
]
