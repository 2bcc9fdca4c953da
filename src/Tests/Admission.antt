-- ===== src/Tests/Admission.antt =====
-- core/admission.py at concrete inputs.
use llm_serving_runtime.Base.{
  ℕ, ◌+◌, ◌-◌, ◌*◌, ◌≤◌, ◌≡◌, refl, ◌↔◌, ◌⊎◌, true, false, List, [], ◌∷◌, arith,
}
use llm_serving_runtime.Admission.{
  AdmissionController, token, one_per_s, bucket_capacity, init, admit, run,
}
use llm_serving_runtime.Admission.Bounds.{IsValid, run-init-rate_bound}
use llm_serving_runtime.Admission.Decisions.{HasRoom, available, admit-accepted_iff}

-- Two requests per second, a burst of three and four places in the queue.
abbrev limiter : ℕ → AdmissionController
limiter tokens = record {
  max_queue_size = 4;
  request_rate_limit_per_s = 2 * one_per_s;
  request_rate_limit_burst = 3;
  capacity = 3;
  tokens = tokens;
  last_refill_at = 10;
}

limiter-IsValid : IsValid (limiter (2 * token))
unfolding bucket_capacity
limiter-IsValid = record { sized = refl; capped = omega arith }

abbrev burst : List (ℕ × ℕ)
burst = (10, 0) ∷ (10, 1) ∷ (10, 2) ∷ (10, 3) ∷ (20, 3) ∷ []

burst_passed : (run (init 4 (2 * one_per_s) 3 10) burst).0 ≡ 3
unfolding run init bucket_capacity admit
burst_passed = refl

burst_passed_twice : (run (limiter (2 * token)) ((10, 0) ∷ (10, 4) ∷ (10, 1) ∷ (10, 2) ∷ [])).0 ≡ 2
unfolding run admit
burst_passed_twice = refl

run-init-rate_bound_example :
    (run (init 4 (2 * one_per_s) 3 10) burst).0 * token
    ≤ bucket_capacity (2 * one_per_s) 3 * token + (20 - 10) * (2 * one_per_s)
run-init-rate_bound_example =
    run-init-rate_bound 4 (2 * one_per_s) 3 10 20 burst (omega arith)
      (omega arith, (omega arith, (omega arith, (omega arith, (omega arith, omega arith)))))

admit-accepted_iff_example :
    ((admit 15 3 (limiter (2 * token))).0.accepted ≡ true)
    ↔ (HasRoom 4 3 × ((2 * one_per_s ≡ 0) ⊎ (token ≤ available 15 (limiter (2 * token)))))
admit-accepted_iff_example = admit-accepted_iff 15 3 (limiter (2 * token)) limiter-IsValid

full_queue : (admit 15 4 (limiter (2 * token))).0.accepted ≡ false
unfolding admit
full_queue = refl

abbrev two_calls : List (ℕ × ℕ)
two_calls = (10, 0) ∷ (10, 1) ∷ []
