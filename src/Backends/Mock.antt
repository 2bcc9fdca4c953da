-- ===== src/Backends/Mock.antt =====
-- backends/mock_backend.py. The sleeps are left out: they change no event. A token's text is a
-- function of its index, `f"tok{index} "` in the source.
pub mod Batches
use llm_serving_runtime.Base.{ℕ, zero, suc, ◌+◌, max, List, [], ◌∷◌, ◌++◌, leb, ◌==◌, if◌then◌else◌}
use llm_serving_runtime.Base.Text.{String}
use llm_serving_runtime.Core.Request.{RuntimeRequest}
use llm_serving_runtime.Backends.Base.{BatchEvent, batch_token, batch_completed}

module _ (token_text : ℕ → String) where
  -- `count` tokens from an index on.
  unfoldable pub tokens_from : ℕ → ℕ → List String
  tokens_from index zero = []
  tokens_from index (suc count) = token_text index ∷ tokens_from (suc index) count

  unfoldable pub generate : RuntimeRequest → List String
  unfolding tokens_from
  generate r = tokens_from 0 r.sampling.max_tokens

  -- What one decode step yields for a request.
  unfoldable pub request_step : ℕ → RuntimeRequest → List BatchEvent
  request_step index r =
      if leb r.sampling.max_tokens index
      then []
      else if index + 1 == r.sampling.max_tokens
      then batch_token r.request_id (token_text index) ∷ batch_completed r.request_id ∷ []
      else batch_token r.request_id (token_text index) ∷ []

  unfoldable pub decode_step : ℕ → List RuntimeRequest → List BatchEvent
  unfolding request_step
  decode_step index [] = []
  decode_step index (r ∷ requests) = request_step index r ++ decode_step index requests

  -- The decode steps from an index on; `todo` of them are left.
  unfoldable pub decode : ℕ → ℕ → List RuntimeRequest → List BatchEvent
  unfolding decode_step
  decode index zero requests = []
  decode index (suc todo) requests = decode_step index requests ++ decode (suc index) todo requests

-- `max(request.sampling.max_tokens for request in requests)`.
unfoldable pub most_tokens : List RuntimeRequest → ℕ
most_tokens [] = 0
most_tokens (r ∷ requests) = max r.sampling.max_tokens (most_tokens requests)

unfoldable pub mock_generate_batch : (ℕ → String) → List RuntimeRequest → List BatchEvent
unfolding decode most_tokens
mock_generate_batch token_text [] = []
mock_generate_batch token_text (r ∷ requests) =
    decode token_text 0 (most_tokens (r ∷ requests)) (r ∷ requests)
