-- ===== src/Backends/Mock/Batches.antt =====
-- backends/mock_backend.py: the batch that advances all requests together, seen by one of them.
use llm_serving_runtime.Base.{
  ℕ, zero, suc, ◌+◌, ◌-◌, ◌≤◌, ◌≡◌, refl, subst, ◌∙◌, false, some, List, [], ◌∷◌, ◌++◌, map,
  append-nil, arith, get_elem?, All,
}
use llm_serving_runtime.Base.Text.{String, str_eq}
use llm_serving_runtime.Core.Request.{RuntimeRequest}
use llm_serving_runtime.Backends.Base.Served.{
  events_for, HasDistinctIds, served, keep-append, str_eq_sym, str_eq_refl, All-get_elem?,
  generate_batch-served,
}
use llm_serving_runtime.Backends.Base.{
  BatchEvent, batch_token, batch_completed, event_id, generate_batch,
}
use llm_serving_runtime.Backends.Mock.{
  tokens_from, generate, request_step, decode_step, decode, most_tokens, mock_generate_batch,
}

module _ (token_text : ℕ → String) where
  request_step_own :
      (index : ℕ) (r : RuntimeRequest)
      → events_for r.request_id (request_step token_text index r) ≡ request_step token_text index r
  unfolding request_step
  request_step_own index r = ground (arith, str_eq_refl r.request_id)

  request_step_other :
      (index : ℕ) (r : RuntimeRequest) (id : String)
      → str_eq r.request_id id ≡ false
      → events_for id (request_step token_text index r) ≡ []
  unfolding request_step
  request_step_other index r id h = ground (arith, h)

  decode_step_other :
      (index : ℕ) (id : String) (requests : List RuntimeRequest)
      → All (λ y. str_eq id y.request_id ≡ false) requests
      → events_for id (decode_step token_text index requests) ≡ []
  unfolding decode_step
  decode_step_other index id [] h = refl
  decode_step_other index id (r ∷ requests) h =
      keep-append (λ e. str_eq (event_id e) id) (request_step token_text index r) _
      ∙ rw (request_step_other index r id (str_eq_sym id r.request_id h.0))
          (decode_step_other index id requests h.1)

  decode_step_own :
      (index : ℕ) (requests : List RuntimeRequest) (k : ℕ) (r : RuntimeRequest)
      → HasDistinctIds requests
      → get_elem? requests k ≡ some r
      → events_for r.request_id (decode_step token_text index requests)
        ≡ request_step token_text index r
  unfolding decode_step
  decode_step_own index [] k r d e = absurd (cc)
  decode_step_own index (x ∷ requests) zero r d e =
      let same : x ≡ r = cc in
      subst
        (λ (r : RuntimeRequest).
          events_for r.request_id (decode_step token_text index (x ∷ requests))
          ≡ request_step token_text index r)
        same
        (keep-append (λ e. str_eq (event_id e) x.request_id) (request_step token_text index x) _
          ∙ rw (request_step_own index x, decode_step_other index x.request_id requests d.0)
              (append-nil _))
  decode_step_own index (x ∷ requests) (suc k) r d e =
      keep-append (λ e. str_eq (event_id e) r.request_id) (request_step token_text index x) _
      ∙ rw
          (request_step_other index x r.request_id
            (All-get_elem? (λ y. str_eq x.request_id y.request_id ≡ false) requests k e d.0))
          (decode_step_own index requests k r d.1 e)

  -- What the steps yield for one request.
  own_decode : ℕ → ℕ → RuntimeRequest → List BatchEvent
  own_decode index zero r = []
  own_decode index (suc todo) r = request_step token_text index r ++ own_decode (suc index) todo r

  decode_own :
      (index todo : ℕ) (requests : List RuntimeRequest) (k : ℕ) (r : RuntimeRequest)
      → HasDistinctIds requests
      → get_elem? requests k ≡ some r
      → events_for r.request_id (decode token_text index todo requests) ≡ own_decode index todo r
  unfolding decode own_decode
  decode_own index zero requests k r d e = refl
  decode_own index (suc todo) requests k r d e =
      keep-append (λ e. str_eq (event_id e) r.request_id) (decode_step token_text index requests) _
      ∙ rw (decode_step_own index requests k r d e, decode_own (suc index) todo requests k r d e)
          refl

  own_decode_done :
      (index todo : ℕ) (r : RuntimeRequest)
      → r.sampling.max_tokens ≤ index
      → own_decode index todo r ≡ []
  unfolding own_decode request_step
  own_decode_done index zero r h = refl
  own_decode_done index (suc todo) r h =
      ground (arith, own_decode_done (suc index) todo r (omega arith))

  own_decode-served :
      (n index todo : ℕ) (r : RuntimeRequest)
      → r.sampling.max_tokens ≡ index + suc n
      → suc n ≤ todo
      → own_decode index todo r
        ≡ map (batch_token r.request_id) (tokens_from token_text index (suc n))
          ++ (batch_completed r.request_id ∷ [])
  unfolding own_decode request_step tokens_from
  own_decode-served n index zero r e h = absurd (omega arith)
  own_decode-served zero index (suc todo) r e h =
      ground (arith, own_decode_done (suc index) todo r (omega arith))
  own_decode-served (suc n) index (suc todo) r e h =
      ground (arith, own_decode-served n (suc index) todo r (omega arith) (omega arith))

le-most_tokens :
    (requests : List RuntimeRequest) (k : ℕ) (r : RuntimeRequest)
    → get_elem? requests k ≡ some r
    → r.sampling.max_tokens ≤ most_tokens requests
unfolding most_tokens
le-most_tokens [] k r e = absurd (cc)
le-most_tokens (x ∷ requests) zero r e =
    let same : x ≡ r = cc in
    subst (λ (r : RuntimeRequest). r.sampling.max_tokens ≤ most_tokens (x ∷ requests)) same
      (omega arith)
le-most_tokens (x ∷ requests) (suc k) r e = omega (arith, le-most_tokens requests k r e)

mock_generate_batch-served :
    (token_text : ℕ → String) (requests : List RuntimeRequest) (k : ℕ) (r : RuntimeRequest) (n : ℕ)
    → HasDistinctIds requests
    → get_elem? requests k ≡ some r
    → r.sampling.max_tokens ≡ suc n
    → events_for r.request_id (mock_generate_batch token_text requests)
      ≡ served (generate token_text) r
unfolding mock_generate_batch generate
mock_generate_batch-served token_text [] k r n d e some_token = absurd (cc)
mock_generate_batch-served token_text (x ∷ requests) k r n d e some_token =
    decode_own token_text 0 (most_tokens (x ∷ requests)) (x ∷ requests) k r d e
    ∙ own_decode-served token_text n 0 (most_tokens (x ∷ requests)) r (omega arith)
        (omega (arith, le-most_tokens (x ∷ requests) k r e))
    ∙ rw some_token refl

-- In a batch whose ids differ, a request that asks for at least one token gets its own tokens, in
-- order, and then its completion, once: both from the batch that advances all requests together and
-- from the compatibility mode, which runs one after the other.
pub mock_generate_batch-generate_batch :
    (token_text : ℕ → String) (requests : List RuntimeRequest) (k : ℕ) (r : RuntimeRequest)
    → HasDistinctIds requests
    → get_elem? requests k ≡ some r
    → 1 ≤ r.sampling.max_tokens
    → (events_for r.request_id (mock_generate_batch token_text requests)
        ≡ served (generate token_text) r)
      × (events_for r.request_id (generate_batch (generate token_text) requests)
          ≡ served (generate token_text) r)
mock_generate_batch-generate_batch token_text requests k r d e some_token = (
  mock_generate_batch-served token_text requests k r (r.sampling.max_tokens - 1) d e (omega arith),
  generate_batch-served (generate token_text) requests k r d e,
)
