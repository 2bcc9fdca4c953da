-- ===== src/Admission/Decisions.antt =====
-- core/admission.py: what `admit` decides, on every branch.
use llm_serving_runtime.Base.{
  ℕ, ◌+◌, ◌-◌, ◌*◌, ◌≤◌, ◌<◌, ◌≡◌, refl, ◌↔◌, ◌⊎◌, true, false, List, [], ◌∷◌, arith, length, All,
}
use llm_serving_runtime.Admission.{
  AdmissionController, queue_full, rate_limited, token, refill_locked, admit, run,
}
use llm_serving_runtime.Admission.Bounds.{IsValid, bucket_capacity_pos, admit-IsValid, admit-config}

-- The queue takes one more request under a cap; the cap 0 means none.
abbrev pub HasRoom : ℕ → ℕ → Type 0
HasRoom cap queue_size = (cap ≡ 0) ⊎ (queue_size < cap)

-- What the bucket would hold at a reading of the clock, were it not capped.
abbrev pub available : ℕ → AdmissionController → ℕ
available now c = c.tokens + (now - c.last_refill_at) * c.request_rate_limit_per_s

capacity_pos :
    (c : AdmissionController) → IsValid c → 0 < c.request_rate_limit_per_s → 1 ≤ c.capacity
capacity_pos c v h =
    omega
      (arith, v.sized, bucket_capacity_pos c.request_rate_limit_per_s c.request_rate_limit_burst h)

-- In a valid state, a request passes exactly when the queue has room and, under a rate limit, a
-- whole token is there after the refill.
pub admit-accepted_iff :
    (now queue_size : ℕ) (c : AdmissionController)
    → IsValid c
    → ((admit now queue_size c).0.accepted ≡ true) ↔ (
        HasRoom c.max_queue_size queue_size
        × ((c.request_rate_limit_per_s ≡ 0) ⊎ (token ≤ available now c)))
unfolding admit
admit-accepted_iff now queue_size c v =
    (ground (arith, capacity_pos c v), ground (arith, capacity_pos c v))

-- A refusal is one of two: the queue is full, and nothing changes; or the queue has room, less than
-- a token is there after the refill, and only the refill is kept.
pub admit-refusal :
    (now queue_size : ℕ) (c : AdmissionController)
    → (admit now queue_size c).0.accepted ≡ false
    → ((admit now queue_size c ≡ (queue_full, c)) × (¬ HasRoom c.max_queue_size queue_size))
      ⊎ ((admit now queue_size c ≡ (rate_limited, refill_locked now c))
          × HasRoom c.max_queue_size queue_size
          × ((refill_locked now c).tokens < token))
unfolding admit
admit-refusal now queue_size c h = ground arith

admit_whole_token :
    (now queue_size : ℕ) (c : AdmissionController)
    → IsValid c
    → HasRoom c.max_queue_size queue_size
    → token ≤ c.tokens
    → ((admit now queue_size c).0.accepted ≡ true)
      × (c.tokens ≤ (admit now queue_size c).1.tokens + token)
unfolding admit
admit_whole_token now queue_size c v room h = ground (arith, capacity_pos c v)

-- A valid bucket that holds a token for each call of a history lets all of them pass, however close
-- together they come, if the queue has room for each.
run-burst :
    (c : AdmissionController) (calls : List (ℕ × ℕ))
    → IsValid c
    → All (λ call. HasRoom c.max_queue_size call.1) calls
    → length calls * token ≤ c.tokens
    → (run c calls).0 ≡ length calls
unfolding run
run-burst c [] v room h = refl
run-burst c ((now, queue_size) ∷ calls) v room h =
    let (_, _, cap) = admit-config now queue_size c in
    let (passed, left) = admit_whole_token now queue_size c v room.0 (omega arith) in
    rw passed (
      omega (
        arith,
        run-burst (admit now queue_size c).1 calls (admit-IsValid now queue_size c v)
            (rw cap room.1) (omega arith),
      ))
