-- ===== src/Config/Environment/Readback.antt =====
-- src/llm_runtime/config.py: `get_settings` on an environment that was written from settings, and on
-- one that is empty.
use llm_serving_runtime.Base.{
  ℕ, ◌≡◌, refl, sym, ap, subst, ◌∙◌, ◌≢◌, Bool, true, false, Option, none, some, List, [], ◌∷◌,
  if◌then◌else◌,
}
use mathlib.Core.Path.{fun_ext}
use llm_serving_runtime.Base.Text.{String}
use llm_serving_runtime.Base.Int.{ℤ, pos, negsuc}
use llm_serving_runtime.Base.Codes.{text_eq}
use llm_serving_runtime.Base.Decimal.{decimal, integer, decimal-ne-nil}
use llm_serving_runtime.Core.Request.{codes}
use llm_serving_runtime.Core.Prompt.{is_space}
use llm_serving_runtime.Core.Strip.{strip, strip_start, strip_end}
use llm_serving_runtime.Config.{Settings, fields_ok, default}
use llm_serving_runtime.Config.Environment.{
  ◌>>=◌, read_digits, read_signed, int, at_least_0, is_on, nano, millionths, validated, env_text,
  env_int, env_nat, env_float, env_optional, get_settings,
}
use llm_serving_runtime.Config.Environment.Integers.{int-integer}

-- The variable holds a text.
abbrev pub Writes : (String → Option String) → String → List ℕ → Type 0
Writes getenv name text = (value : String) × (getenv name ≡ some value) × (codes value ≡ text)

-- It holds a text that `float` reads as so many units.
abbrev pub WritesFloat :
    (ℕ → String → Option ℤ) → (String → Option String) → ℕ → String → ℕ → Type 0
WritesFloat float getenv unit name n =
    (value : String) × (getenv name ≡ some value) × (float unit value ≡ some (pos n))

-- It is unset, or holds the number.
abbrev pub WritesOptional : (String → Option String) → String → Option ℤ → Type 0
WritesOptional getenv name none = getenv name ≡ none
WritesOptional getenv name (some z) = Writes getenv name (integer z)

-- The environment holds each of the settings.
pub record HoldsSettings (float : ℕ → String → Option ℤ) (getenv : String → Option String)
    (s : Settings) : Type 0 where
  pub backend : getenv "LLM_RUNTIME_BACKEND" ≡ some s.backend
  pub scheduler : getenv "LLM_RUNTIME_SCHEDULER" ≡ some s.scheduler
  pub priority_aging_boost_interval_s :
      WritesFloat float getenv nano "LLM_RUNTIME_PRIORITY_AGING_BOOST_INTERVAL_S"
        s.priority_aging_boost_interval_s
  pub enable_batching :
      Writes getenv "LLM_RUNTIME_ENABLE_BATCHING"
        (codes (if s.enable_batching then "true" else "false"))
  pub prefill_latency_ms :
      Writes getenv "LLM_RUNTIME_PREFILL_LATENCY_MS" (integer (pos s.prefill_latency_ms))
  pub decode_latency_ms :
      Writes getenv "LLM_RUNTIME_DECODE_LATENCY_MS" (integer (pos s.decode_latency_ms))
  pub max_batch_size : Writes getenv "LLM_RUNTIME_MAX_BATCH_SIZE" (integer (pos s.max_batch_size))
  pub batch_timeout_ms :
      Writes getenv "LLM_RUNTIME_BATCH_TIMEOUT_MS" (integer (pos s.batch_timeout_ms))
  pub request_timeout_s :
      WritesFloat float getenv nano "LLM_RUNTIME_REQUEST_TIMEOUT_S" s.request_timeout_s
  pub max_queue_size : Writes getenv "LLM_RUNTIME_MAX_QUEUE_SIZE" (integer (pos s.max_queue_size))
  pub request_rate_limit_per_s :
      WritesFloat float getenv nano "LLM_RUNTIME_REQUEST_RATE_LIMIT_PER_S"
        s.request_rate_limit_per_s
  pub request_rate_limit_burst :
      Writes getenv "LLM_RUNTIME_REQUEST_RATE_LIMIT_BURST"
        (integer (pos s.request_rate_limit_burst))
  pub native_backend_concurrency :
      Writes getenv "LLM_RUNTIME_NATIVE_BACKEND_CONCURRENCY"
        (integer (pos s.native_backend_concurrency))
  pub model_path : getenv "LLM_RUNTIME_MODEL_PATH" ≡ some s.model_path
  pub n_ctx : Writes getenv "LLM_RUNTIME_N_CTX" (integer (pos s.n_ctx))
  pub n_gpu_layers : Writes getenv "LLM_RUNTIME_N_GPU_LAYERS" (integer s.n_gpu_layers)
  pub vllm_port : Writes getenv "LLM_RUNTIME_VLLM_PORT" (integer s.vllm_port)
  pub vllm_gpu_memory_utilization :
      WritesFloat float getenv millionths "LLM_RUNTIME_VLLM_GPU_MEMORY_UTILIZATION"
        s.vllm_gpu_memory_utilization
  pub vllm_max_model_len :
      WritesOptional getenv "LLM_RUNTIME_VLLM_MAX_MODEL_LEN" s.vllm_max_model_len
  pub vllm_command : getenv "LLM_RUNTIME_VLLM_COMMAND" ≡ some s.vllm_command

integer-nonempty : (z : ℤ) → text_eq (integer z) [] ≡ false
unfolding text_eq
integer-nonempty (negsuc n) = refl
integer-nonempty (pos n) = by_text (decimal n) (decimal-ne-nil n)
  where
    by_text : (text : List ℕ) → text ≢ [] → text_eq text [] ≡ false
    by_text [] ne = absurd (ne refl)
    by_text (c ∷ text) ne = refl

on_text : (b : Bool) → is_on (codes (if b then "true" else "false")) ≡ b
unfolding is_on text_eq
on_text true = refl
on_text false = refl

module _ (float : ℕ → String → Option ℤ) (getenv : String → Option String) where
  env_text-written :
      (name otherwise value : String)
      → getenv name ≡ some value
      → env_text float getenv name otherwise ≡ value
  unfolding env_text
  env_text-written name otherwise value found = rw (found, env_text) refl

  env_int-written :
      (name otherwise : String) (z : ℤ)
      → Writes getenv name (integer z)
      → env_int float getenv name otherwise ≡ some z
  unfolding env_int
  env_int-written name otherwise z (value, found, text) =
      ap int (env_text-written name otherwise value found) ∙ int-integer value z text

  env_nat-written :
      (name otherwise : String) (n : ℕ)
      → Writes getenv name (integer (pos n))
      → env_nat float getenv name otherwise ≡ some n
  unfolding env_nat at_least_0
  env_nat-written name otherwise n w =
      ap (λ z. z >>= at_least_0) (env_int-written name otherwise (pos n) w)

  env_float-written :
      (unit : ℕ) (name otherwise : String) (n : ℕ)
      → WritesFloat float getenv unit name n
      → env_float float getenv unit name otherwise ≡ some n
  unfolding env_float at_least_0
  env_float-written unit name otherwise n (value, found, read) =
      ap (λ t. float unit t >>= at_least_0) (env_text-written name otherwise value found)
      ∙ ap (λ z. z >>= at_least_0) read

  is_on-written :
      (name otherwise : String) (b : Bool)
      → Writes getenv name (codes (if b then "true" else "false"))
      → is_on (codes (env_text float getenv name otherwise)) ≡ b
  is_on-written name otherwise b (value, found, text) =
      ap is_on (ap codes (env_text-written name otherwise value found) ∙ text) ∙ on_text b

  env_optional-written :
      (name : String) (z : Option ℤ)
      → WritesOptional getenv name z
      → env_optional float getenv name ≡ some z
  unfolding env_optional text_eq
  env_optional-written name none unset = rw (unset, env_text) refl
  env_optional-written name (some z) (value, found, text) =
      let read = env_text-written name "" value found in
      let full : text_eq (codes (env_text float getenv name "")) [] ≡ false =
        ap (λ t. text_eq t []) (ap codes read ∙ text) ∙ integer-nonempty z in
      let value_ : int (env_text float getenv name "") ≡ some z =
        ap int read ∙ int-integer value z text in
      rw (full, value_) refl

-- Settings within their bounds come back from an environment that holds each of them: a number as
-- `str` writes it, a float as some text that `float` reads as it, the flag as `true` or `false`, the
-- texts as they are, and an optional number unset if it is missing.
pub get_settings-written :
    (float : ℕ → String → Option ℤ) (getenv : String → Option String) (default_model : String)
    (s : Settings)
    → fields_ok s ≡ true
    → HoldsSettings float getenv s
    → get_settings float getenv default_model ≡ some s
unfolding get_settings validated
get_settings-written float getenv default_model s ok h =
    rw
      (
        get_settings,
        env_text-written float getenv "LLM_RUNTIME_BACKEND" "mock" s.backend h.backend,
        env_text-written float getenv "LLM_RUNTIME_SCHEDULER" "fifo" s.scheduler h.scheduler,
        env_float-written float getenv nano "LLM_RUNTIME_PRIORITY_AGING_BOOST_INTERVAL_S" "0"
            s.priority_aging_boost_interval_s h.priority_aging_boost_interval_s,
        is_on-written float getenv "LLM_RUNTIME_ENABLE_BATCHING" "true" s.enable_batching
            h.enable_batching,
        env_nat-written float getenv "LLM_RUNTIME_PREFILL_LATENCY_MS" "25" s.prefill_latency_ms
            h.prefill_latency_ms,
        env_nat-written float getenv "LLM_RUNTIME_DECODE_LATENCY_MS" "10" s.decode_latency_ms
            h.decode_latency_ms,
        env_nat-written float getenv "LLM_RUNTIME_MAX_BATCH_SIZE" "8" s.max_batch_size
            h.max_batch_size,
        env_nat-written float getenv "LLM_RUNTIME_BATCH_TIMEOUT_MS" "10" s.batch_timeout_ms
            h.batch_timeout_ms,
        env_float-written float getenv nano "LLM_RUNTIME_REQUEST_TIMEOUT_S" "120"
            s.request_timeout_s h.request_timeout_s,
        env_nat-written float getenv "LLM_RUNTIME_MAX_QUEUE_SIZE" "0" s.max_queue_size
            h.max_queue_size,
        env_float-written float getenv nano "LLM_RUNTIME_REQUEST_RATE_LIMIT_PER_S" "0"
            s.request_rate_limit_per_s h.request_rate_limit_per_s,
        env_nat-written float getenv "LLM_RUNTIME_REQUEST_RATE_LIMIT_BURST" "0"
            s.request_rate_limit_burst h.request_rate_limit_burst,
        env_nat-written float getenv "LLM_RUNTIME_NATIVE_BACKEND_CONCURRENCY" "4"
            s.native_backend_concurrency h.native_backend_concurrency,
        env_text-written float getenv "LLM_RUNTIME_MODEL_PATH" default_model s.model_path
            h.model_path,
        env_nat-written float getenv "LLM_RUNTIME_N_CTX" "2048" s.n_ctx h.n_ctx,
        env_int-written float getenv "LLM_RUNTIME_N_GPU_LAYERS" "0" s.n_gpu_layers h.n_gpu_layers,
        env_int-written float getenv "LLM_RUNTIME_VLLM_PORT" "8082" s.vllm_port h.vllm_port,
        env_float-written float getenv millionths "LLM_RUNTIME_VLLM_GPU_MEMORY_UTILIZATION" "0.9"
            s.vllm_gpu_memory_utilization h.vllm_gpu_memory_utilization,
        env_optional-written float getenv "LLM_RUNTIME_VLLM_MAX_MODEL_LEN" s.vllm_max_model_len
            h.vllm_max_model_len,
        env_text-written float getenv "LLM_RUNTIME_VLLM_COMMAND" "vllm" s.vllm_command
            h.vllm_command,
      )
      (rw (ok, validated) refl)

-- In an environment with none of the variables, `get_settings` gives the defaults that the class
-- declares, if `float` reads `0`, `120` and `0.9` as these numbers.
get_settings-default :
    (float : ℕ → String → Option ℤ) (getenv : String → Option String) (default_model : String)
    → ((name : String) → getenv name ≡ none)
    → float nano "0" ≡ some (pos 0)
    → float nano "120" ≡ some (pos 120_000_000_000)
    → float millionths "0.9" ≡ some (pos 900_000)
    → get_settings float getenv default_model ≡ some (default default_model)
unfolding get_settings env_text env_int env_nat env_float env_optional int read_signed read_digits
    at_least_0 is_on text_eq strip strip_start strip_end is_space validated fields_ok
get_settings-default float getenv default_model unset zero_ two_minutes most =
    subst
      (λ (g : String → Option String).
        get_settings float g default_model ≡ some (default default_model))
      (sym (fun_ext unset)) (rw (zero_, two_minutes, most) refl)
