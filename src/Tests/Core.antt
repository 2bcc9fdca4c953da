-- ===== src/Tests/Core.antt =====
-- The runtime's request, handle and settings at concrete inputs.
use llm_serving_runtime.Base.{◌≡◌, refl}
use llm_serving_runtime.Core.Prompt.{
  prompt_token_estimate, is_space, count_words, line, join_lines, prompt,
}
use llm_serving_runtime.Tests.Data.{request}

-- "user: hello there" has three words.
estimate_example : prompt_token_estimate (request "r1" 1) ≡ 3
unfolding prompt_token_estimate prompt join_lines line count_words is_space
estimate_example = refl
