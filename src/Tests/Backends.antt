-- ===== src/Tests/Backends.antt =====
-- The backends at concrete inputs.
use llm_serving_runtime.Base.{ℕ, zero, suc, ◌≡◌, refl, ◌↔◌, none, some, [], ◌∷◌, arith}
use llm_serving_runtime.Base.Text.{String}
use llm_serving_runtime.Core.Request.{RuntimeRequest}
use llm_serving_runtime.Backends.Base.{batch_token, batch_completed, generate_batch}
use llm_serving_runtime.Backends.Mock.{
  generate, mock_generate_batch, decode, decode_step, request_step, most_tokens,
}
use llm_serving_runtime.Backends.Base.Served.{events_for, served}
use llm_serving_runtime.Backends.Mock.Batches.{mock_generate_batch-generate_batch}
use llm_serving_runtime.Backends.Server.{
  new_server, Health, status, connect_error, returns, fails, start,
}
use llm_serving_runtime.Backends.Server.Readiness.{
  BecomesHealthy, refused, start_succeeds_iff, start-start_failed,
}
use llm_serving_runtime.Tests.Data

abbrev short : RuntimeRequest
short = record (Data.request "r1" 1) {
  sampling = record { max_tokens = 1; temperature = 0; top_p = 0 };
}

abbrev long : RuntimeRequest
long = record (Data.request "r2" 1) {
  sampling = record { max_tokens = 2; temperature = 0; top_p = 0 };
}

abbrev token_text : ℕ → String
token_text zero = "tok0 "
token_text (suc n) = "tok1 "

round_robin_example :
    mock_generate_batch token_text (short ∷ long ∷ [])
    ≡ batch_token "r1" "tok0 "
      ∷ batch_completed "r1"
      ∷ batch_token "r2" "tok0 "
      ∷ batch_token "r2" "tok1 "
      ∷ batch_completed "r2"
      ∷ []
unfolding mock_generate_batch decode decode_step request_step most_tokens
round_robin_example = refl

mock_generate_batch-generate_batch_example :
    (events_for "r2" (mock_generate_batch token_text (short ∷ long ∷ []))
      ≡ served (generate token_text) long)
    × (events_for "r2" (generate_batch (generate token_text) (short ∷ long ∷ []))
        ≡ served (generate token_text) long)
mock_generate_batch-generate_batch_example =
    mock_generate_batch-generate_batch token_text (short ∷ long ∷ []) 1 long ((refl, tt), (tt, tt))
      refl (omega arith)

-- The server answers from the third check on.
abbrev warming_up : ℕ → Health
warming_up zero = connect_error
warming_up (suc zero) = status 503
warming_up (suc (suc n)) = status 200

start_succeeds_iff_example :
    ((start 120 none none warming_up "failed to start" new_server).0 ≡ returns)
    ↔ BecomesHealthy warming_up 0 120
start_succeeds_iff_example =
    start_succeeds_iff 120 none warming_up "failed to start" new_server refl

abbrev unreachable : ℕ → Health
unreachable i = connect_error

start-start_failed_example :
    let (outcome, s') = start 120 none none unreachable "failed to start" new_server in
    (outcome ≡ fails "failed to start")
    × (s'.process ≡ some (record { returncode = none }))
    × (start 120 none (some 1) unreachable "failed to start" s' ≡ (returns, s'))
start-start_failed_example =
    start-start_failed 120 120 unreachable unreachable "failed to start" "failed to start" none none
      (some 1) new_server refl (λ i h. refused)
