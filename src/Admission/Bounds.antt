-- ===== src/Admission/Bounds.antt =====
-- core/admission.py: the bucket stays within its capacity, and it bounds the rate of admissions.
use llm_serving_runtime.Base.{
  ℕ, ◌+◌, ◌-◌, ◌*◌, ◌≤◌, ◌<◌, ◌≡◌, refl, ap, Bool, List, [], ◌∷◌, arith, if◌then◌else◌,
}
use llm_serving_runtime.Admission.{
  AdmissionController, token, bucket_capacity, init, refill_locked, admit, run,
}

-- What holds of a controller between two calls.
pub record IsValid (c : AdmissionController) : Type 0 where
  pub sized : c.capacity ≡ bucket_capacity c.request_rate_limit_per_s c.request_rate_limit_burst
  pub capped : c.tokens ≤ c.capacity * token

-- A bucket that limits holds at least one token.
pub bucket_capacity_pos : (rate burst : ℕ) → 0 < rate → 1 ≤ bucket_capacity rate burst
unfolding bucket_capacity
bucket_capacity_pos rate burst h = ground arith

pub init-IsValid : (size rate burst now : ℕ) → IsValid (init size rate burst now)
unfolding init
init-IsValid size rate burst now = record { sized = refl; capped = omega arith }

pub admit-IsValid :
    (now queue_size : ℕ) (c : AdmissionController) → IsValid c → IsValid (admit now queue_size c).1
unfolding admit
admit-IsValid now queue_size c v = ground arith

pub run-IsValid :
    (c : AdmissionController) (calls : List (ℕ × ℕ)) → IsValid c → IsValid (run c calls).1
unfolding run
run-IsValid c [] v = v
run-IsValid c ((now, queue_size) ∷ calls) v =
    run-IsValid (admit now queue_size c).1 calls (admit-IsValid now queue_size c v)

-- The configuration of a controller never changes.
pub admit-config :
    (now queue_size : ℕ) (c : AdmissionController)
    → ((admit now queue_size c).1.request_rate_limit_per_s ≡ c.request_rate_limit_per_s)
      × ((admit now queue_size c).1.capacity ≡ c.capacity)
      × ((admit now queue_size c).1.max_queue_size ≡ c.max_queue_size)
unfolding admit
admit-config now queue_size c = ground arith

-- The clock readings of a history do not go back, and end by a horizon.
abbrev pub Timely : ℕ → ℕ → List (ℕ × ℕ) → Type 0
Timely start horizon [] = start ≤ horizon
Timely start horizon ((now, queue_size) ∷ calls) = (start ≤ now) × Timely now horizon calls

Timely-le :
    (start horizon : ℕ) (calls : List (ℕ × ℕ)) → Timely start horizon calls → start ≤ horizon
Timely-le start horizon [] h = h
Timely-le start horizon ((now, queue_size) ∷ calls) h =
    omega (arith, Timely-le now horizon calls h.1)

-- A refill adds at most the rate times the time that passed.
refill_budget :
    (now : ℕ) (c : AdmissionController)
    → c.last_refill_at ≤ now
    → ((refill_locked now c).tokens + c.last_refill_at * c.request_rate_limit_per_s
        ≤ c.tokens + now * c.request_rate_limit_per_s)
unfolding refill_locked
refill_budget now c h =
    let e : now - c.last_refill_at + c.last_refill_at ≡ now = omega arith in
    omega (arith, ap (λ (t : ℕ). t * c.request_rate_limit_per_s) e)

abbrev spent : Bool → ℕ
spent b = (if b then 1 else 0) * token

admit_budget :
    (now queue_size : ℕ) (c : AdmissionController)
    → 0 < c.request_rate_limit_per_s
    → c.last_refill_at ≤ now
    → ((admit now queue_size c).1.last_refill_at ≤ now)
      × (spent (admit now queue_size c).0.accepted
            + (admit now queue_size c).1.tokens
            + c.last_refill_at * c.request_rate_limit_per_s
          ≤ c.tokens + (admit now queue_size c).1.last_refill_at * c.request_rate_limit_per_s)
unfolding admit
admit_budget now queue_size c pos h = ground (arith, refill_budget now c h)

-- Over a history the admissions and what is left of the bucket cost no more than the bucket held
-- and the refills that the elapsed time paid for.
pub run_budget :
    (c : AdmissionController) (calls : List (ℕ × ℕ)) (start horizon : ℕ)
    → 0 < c.request_rate_limit_per_s
    → c.last_refill_at ≤ start
    → Timely start horizon calls
    → (run c calls).0 * token
        + (run c calls).1.tokens
        + c.last_refill_at * c.request_rate_limit_per_s
      ≤ c.tokens + horizon * c.request_rate_limit_per_s
unfolding run
run_budget c [] start horizon pos h timely = grind arith
run_budget c ((now, queue_size) ∷ calls) start horizon pos h timely =
    let (d, c') = admit now queue_size c in
    let (rate, _, _) = admit-config now queue_size c in
    let (late, paid) = admit_budget now queue_size c pos (omega arith) in
    let ih = run_budget c' calls now horizon (omega (arith, rate)) late timely.1 in
    omega (arith, rw rate at ih)

-- If the readings of the clock do not go back from the start of a new limiter with a rate, and end
-- by a horizon, then the calls that it accepts are at most its capacity and what its rate allows
-- from the start to the horizon.
pub run-init-rate_bound :
    (size rate burst start horizon : ℕ) (calls : List (ℕ × ℕ))
    → 0 < rate
    → Timely start horizon calls
    → (run (init size rate burst start) calls).0 * token
      ≤ bucket_capacity rate burst * token + (horizon - start) * rate
unfolding init
run-init-rate_bound size rate burst start horizon calls pos timely =
    let e : horizon - start + start ≡ horizon =
      omega (arith, Timely-le start horizon calls timely) in
    omega (
      arith,
      run_budget (init size rate burst start) calls start horizon pos (omega arith) timely,
      ap (λ (t : ℕ). t * rate) e,
    )
