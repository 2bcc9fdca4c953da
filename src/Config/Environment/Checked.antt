-- ===== src/Config/Environment/Checked.antt =====
-- src/llm_runtime/config.py: settings that `get_settings` returns are within the bounds of their
-- fields.
use llm_serving_runtime.Base.{ℕ, ◌≡◌, subst, inl, inr, true, Option, none, some, Bool-cases}
use llm_serving_runtime.Base.Text.{String}
use llm_serving_runtime.Base.Int.{ℤ}
use llm_serving_runtime.Config.{Settings, fields_ok}
use llm_serving_runtime.Config.Environment.{
  ◌>>=◌, nano, millionths, env_int, env_nat, env_float, env_optional, validated, get_settings,
}

-- The settings are within their bounds, if there are any.
abbrev IsChecked : Option Settings → Type 0
IsChecked none = Unit
IsChecked (some s) = fields_ok s ≡ true

bound :
    {A : Type 0} (m : Option A) (f : A → Option Settings)
    → ((a : A) → IsChecked (f a))
    → IsChecked (m >>= f)
bound none f rest = tt
bound (some a) f rest = rest a

validated-IsChecked : (s : Settings) → IsChecked (validated s)
unfolding validated
validated-IsChecked s = elim (Bool-cases (fields_ok s)) [
  | inl ok ↦ rw (ok, validated) ok
  | inr bad ↦ rw (bad, validated) tt
]

get_settings-IsChecked :
    (float : ℕ → String → Option ℤ) (getenv : String → Option String) (default_model : String)
    → IsChecked (get_settings float getenv default_model)
unfolding get_settings
get_settings-IsChecked float getenv default_model =
    bound (env_float float getenv nano "LLM_RUNTIME_PRIORITY_AGING_BOOST_INTERVAL_S" "0") _
      (λ aging. bound (env_nat float getenv "LLM_RUNTIME_PREFILL_LATENCY_MS" "25") _ (λ prefill.
        bound (env_nat float getenv "LLM_RUNTIME_DECODE_LATENCY_MS" "10") _ (λ decode.
          bound (env_nat float getenv "LLM_RUNTIME_MAX_BATCH_SIZE" "8") _ (λ batch_size.
            bound (env_nat float getenv "LLM_RUNTIME_BATCH_TIMEOUT_MS" "10") _ (λ batch_timeout.
              bound (env_float float getenv nano "LLM_RUNTIME_REQUEST_TIMEOUT_S" "120") _
                (λ request_timeout.
                  bound (env_nat float getenv "LLM_RUNTIME_MAX_QUEUE_SIZE" "0") _ (λ queue_size.
                    bound (env_float float getenv nano "LLM_RUNTIME_REQUEST_RATE_LIMIT_PER_S" "0") _
                      (λ rate.
                        bound (env_nat float getenv "LLM_RUNTIME_REQUEST_RATE_LIMIT_BURST" "0") _
                          (λ burst.
                            bound
                              (env_nat float getenv "LLM_RUNTIME_NATIVE_BACKEND_CONCURRENCY" "4") _
                              (λ concurrency.
                                bound (env_nat float getenv "LLM_RUNTIME_N_CTX" "2048") _ (λ n_ctx.
                                  bound (env_int float getenv "LLM_RUNTIME_N_GPU_LAYERS" "0") _
                                    (λ n_gpu_layers.
                                      bound (env_int float getenv "LLM_RUNTIME_VLLM_PORT" "8082") _
                                        (λ port.
                                          bound
                                            (env_float float getenv millionths
                                              "LLM_RUNTIME_VLLM_GPU_MEMORY_UTILIZATION" "0.9")
                                            _
                                            (λ utilization.
                                              bound
                                                (env_optional float getenv
                                                  "LLM_RUNTIME_VLLM_MAX_MODEL_LEN")
                                                _
                                                (λ max_model_len.
                                                  search validated-IsChecked)))))))))))))))

pub get_settings-fields_ok :
    (float : ℕ → String → Option ℤ) (getenv : String → Option String) (default_model : String)
    (s : Settings)
    → get_settings float getenv default_model ≡ some s
    → fields_ok s ≡ true
get_settings-fields_ok float getenv default_model s e =
    subst IsChecked e (get_settings-IsChecked float getenv default_model)
