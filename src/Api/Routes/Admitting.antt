-- ===== src/Api/Routes/Admitting.antt =====
-- api/routes.py, `create_chat_completion` up to its first wait: what the request leaves behind on each
-- branch.
use llm_serving_runtime.Base.{
  ℕ, ◌+◌, ◌≤◌, ◌<◌, ◌≡◌, refl, sym, ap, ◌∙◌, ◌⊎◌, inl, inr, true, false, arith, leb, ◌==◌,
  if◌then◌else◌, Bool-cases,
}
use llm_serving_runtime.Base.Text.{String}
use llm_serving_runtime.Core.Request.{ChatCompletionRequest, from_chat_request}
use llm_serving_runtime.Core.Response.{
  ScheduledRequest, streaming, completion, new_streaming, new_completion,
}
use llm_serving_runtime.Admission.{AdmissionController, AdmissionDecision, token, admit}
use llm_serving_runtime.Admission.Bounds.{IsValid}
use llm_serving_runtime.Admission.Decisions.{HasRoom, available, admit-accepted_iff, admit-refusal}
use llm_serving_runtime.Metrics.Collector.{MetricsCollector, record_request, record_rejection}
use llm_serving_runtime.Metrics.Collector.Accounts.{Counters, counters}
use llm_serving_runtime.Scheduler.Interface.{Scheduler}
use llm_serving_runtime.Api.Routes.{
  Services, http_error, refused, admitted, reject_chat, accept_chat, admit_chat,
}

-- One more request accepted, or rejected.
abbrev pub one_requested : Counters → Counters
one_requested c = record c { requests = c.requests + 1; active = c.active + 1 }

abbrev pub one_rejected : Counters → Counters
one_rejected c = record c { rejected = c.rejected + 1 }

counters-record_request :
    (m : MetricsCollector) → counters (record_request m) ≡ one_requested (counters m)
unfolding record_request
counters-record_request m = refl

counters-record_rejection :
    (priority : ℕ) (reason : String) (m : MetricsCollector)
    → counters (record_rejection priority reason m) ≡ one_rejected (counters m)
unfolding record_rejection
counters-record_rejection priority reason m = refl

-- The item that an accepted request becomes.
abbrev pub new_item : String → ℕ → ChatCompletionRequest → ScheduledRequest
new_item id now body = record {
  request = from_chat_request id now body;
  handle = if body.stream then streaming new_streaming else completion new_completion;
}

-- Under a rate limit, less than a token is there after the refill.
abbrev pub IsShort : ℕ → AdmissionController → Type 0
IsShort now c = (0 < c.request_rate_limit_per_s) × (available now c < token)

IsShort-refused :
    (now queue_size : ℕ) (c : AdmissionController)
    → IsValid c
    → (admit now queue_size c).0.accepted ≡ false
    → HasRoom c.max_queue_size queue_size
    → IsShort now c
IsShort-refused now queue_size c v a room = by_order (Bool-cases (leb token (available now c)))
  where
    passes : (c.request_rate_limit_per_s ≡ 0) ⊎ (token ≤ available now c) → ⊥
    passes enough =
        let ok = (admit-accepted_iff now queue_size c v).1 (room, enough) in
        let g : true ≡ false = sym ok ∙ a in absurd (cc)

    limited : 0 < c.request_rate_limit_per_s
    limited = elim (Bool-cases (c.request_rate_limit_per_s == 0)) [
      | inl e ↦ absurd (passes (inl (ground arith)))
      | inr e ↦ ground arith
    ]

    by_order :
        (leb token (available now c) ≡ true) ⊎ (leb token (available now c) ≡ false) → IsShort now c
    by_order (inl e) = absurd (passes (inr (ground arith)))
    by_order (inr e) = (limited, ground arith)

module _ {sch : Scheduler} where
  -- The number of requests that wait, and the decision on one more.
  abbrev pub waiting : Services sch → ℕ
  waiting s = sch.size s.scheduler

  abbrev pub decision : ℕ → Services sch → AdmissionDecision
  decision now s = (admit now (waiting s) s.admission).0

  pub admit_chat-accepted :
      (id : String) (now : ℕ) (body : ChatCompletionRequest) (s : Services sch)
      → (decision now s).accepted ≡ true
      → ((admit_chat id now body s).0 ≡ admitted (new_item id now body))
        × ((admit_chat id now body s).1.scheduler ≡ s.scheduler)
        × (counters (admit_chat id now body s).1.metrics ≡ one_requested (counters s.metrics))
  unfolding admit_chat accept_chat
  admit_chat-accepted id now body s a = (rw a refl, rw a refl, rw a (counters-record_request _))

  pub admit_chat-refused :
      (id : String) (now : ℕ) (body : ChatCompletionRequest) (s : Services sch)
      → (decision now s).accepted ≡ false
      → ((admit_chat id now body s).0
          ≡ refused (http_error (decision now s).status_code (decision now s).detail))
        × ((admit_chat id now body s).1.scheduler ≡ s.scheduler)
        × (counters (admit_chat id now body s).1.metrics ≡ one_rejected (counters s.metrics))
  unfolding admit_chat reject_chat
  admit_chat-refused id now body s a =
      (rw a refl, rw a refl, rw a (counters-record_rejection _ _ _))

  -- While the bucket is valid, a request is admitted exactly when the queue has room and, under a
  -- rate limit, a whole token is there after the refill: then the counters of requests and of active
  -- requests grow by one. It is refused with a 503 exactly when the queue is full, and with a 429
  -- when the queue has room but less than a token is there: then of the counters of requests only
  -- that of rejections grows, by one. The queue keeps its state up to here.
  pub admit_chat_outcome :
      (id : String) (now : ℕ) (body : ChatCompletionRequest) (s : Services sch)
      → IsValid s.admission
      → let (answer, t) = admit_chat id now body s in
        let room = HasRoom s.admission.max_queue_size (waiting s) in
        (t.scheduler ≡ s.scheduler)
        × ((room
              × ((s.admission.request_rate_limit_per_s ≡ 0) ⊎ (token ≤ available now s.admission))
              × (answer ≡ admitted (new_item id now body))
              × (counters t.metrics ≡ one_requested (counters s.metrics)))
            ⊎ ((¬ room)
                × (answer ≡ refused (http_error 503 "scheduler queue is full"))
                × (counters t.metrics ≡ one_rejected (counters s.metrics)))
            ⊎ (room
                × IsShort now s.admission
                × (answer ≡ refused (http_error 429 "request rate limit exceeded"))
                × (counters t.metrics ≡ one_rejected (counters s.metrics))))
  admit_chat_outcome id now body s v = elim (Bool-cases (decision now s).accepted) [
    | inl a ↦
        let (answer, same, counted) = admit_chat-accepted id now body s a in
        let (room, enough) = (admit-accepted_iff now (waiting s) s.admission v).0 a in
        (same, inl (room, enough, answer, counted))
    | inr a ↦
        let (answer, same, counted) = admit_chat-refused id now body s a in
        elim (admit-refusal now (waiting s) s.admission a) [
          | inl (d, full) ↦
              let detail = ap (λ d. refused (http_error d.0.status_code d.0.detail)) d in
              (same, inr (inl (full, answer ∙ detail, counted)))
          | inr (d, room, _) ↦
              let detail = ap (λ d. refused (http_error d.0.status_code d.0.detail)) d in
              let short = IsShort-refused now (waiting s) s.admission v a room in
              (same, inr (inr (room, short, answer ∙ detail, counted)))
        ]
  ]
