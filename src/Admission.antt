-- ===== src/Admission.antt =====
-- src/llm_runtime/core/admission.py: the queue cap and the token bucket in front of the scheduler.
-- A clock reading is a number of nanoseconds, a rate a number of nano-requests per second, and a
-- token is cut into 10^18 parts, so that `elapsed * rate` is a whole number of parts. `time_fn` is
-- outside the component: each call takes the reading. `-` stops at 0, as `max(0.0, …)` does.
pub mod Bounds
pub mod Decisions
use llm_serving_runtime.Base.{
  ℕ, ◌+◌, ◌-◌, ◌*◌, ◌/◌, min, max, Bool, true, false, ◌&&◌, List, [], ◌∷◌, ltb, leb, if◌then◌else◌,
}
use llm_serving_runtime.Base.Text.{String}

-- One token of the bucket, in its parts.
abbrev pub token : ℕ
token = 1_000_000_000_000_000_000

abbrev pub one_per_s : ℕ
one_per_s = 1_000_000_000

pub record AdmissionDecision : Type 0 where
  pub accepted : Bool
  pub reason : String
  pub detail : String
  pub status_code : ℕ

abbrev pub accept : AdmissionDecision
accept = record { accepted = true; reason = ""; detail = ""; status_code = 200 }

abbrev pub queue_full : AdmissionDecision
queue_full = record {
  accepted = false;
  reason = "queue_full";
  detail = "scheduler queue is full";
  status_code = 503;
}

abbrev pub rate_limited : AdmissionDecision
rate_limited = record {
  accepted = false;
  reason = "rate_limited";
  detail = "request rate limit exceeded";
  status_code = 429;
}

pub record AdmissionController : Type 0 where
  pub max_queue_size : ℕ
  pub request_rate_limit_per_s : ℕ
  pub request_rate_limit_burst : ℕ
  pub capacity : ℕ
  pub tokens : ℕ
  pub last_refill_at : ℕ

-- `ceil` of a rate in nano-requests is a division that rounds up.
unfoldable pub bucket_capacity : ℕ → ℕ → ℕ
bucket_capacity rate burst =
    if leb rate 0
    then 0
    else if ltb 0 burst
    then burst
    else max 1 ((rate + (one_per_s - 1)) / one_per_s)

unfoldable pub init : ℕ → ℕ → ℕ → ℕ → AdmissionController
init max_queue_size rate burst now = record {
  max_queue_size = max_queue_size;
  request_rate_limit_per_s = rate;
  request_rate_limit_burst = burst;
  capacity = bucket_capacity rate burst;
  tokens = bucket_capacity rate burst * token;
  last_refill_at = now;
}

unfoldable pub refill_locked : ℕ → AdmissionController → AdmissionController
refill_locked now c =
    let elapsed = now - c.last_refill_at in
    record c {
      last_refill_at = now;
      tokens = min (c.capacity * token) (c.tokens + elapsed * c.request_rate_limit_per_s);
    }

-- The part of `admit` under the lock, after the refill.
unfoldable pub spend : AdmissionController → AdmissionDecision × AdmissionController
spend c =
    if ltb c.tokens token
    then (rate_limited, c)
    else (accept, record c { tokens = c.tokens - token })

unfoldable pub admit : ℕ → ℕ → AdmissionController → AdmissionDecision × AdmissionController
unfolding spend refill_locked
admit now queue_size c =
    if ltb 0 c.max_queue_size && leb c.max_queue_size queue_size
    then (queue_full, c)
    else if leb c.request_rate_limit_per_s 0
    then (accept, c)
    else spend (refill_locked now c)

-- A history of calls: each gives the clock reading and the queue size. The result counts the
-- accepted calls.
unfoldable pub run : AdmissionController → List (ℕ × ℕ) → ℕ × AdmissionController
run c [] = (0, c)
run c ((now, queue_size) ∷ calls) =
    let (d, c') = admit now queue_size c in
    let (n, last) = run c' calls in ((if d.accepted then 1 else 0) + n, last)
