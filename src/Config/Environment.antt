-- ===== src/Config/Environment.antt =====
-- src/llm_runtime/config.py: `get_settings`. The environment is a function, and so is Python's
-- `float`: the number of units, here nano or millionths, that it reads from a text, infinities and
-- NaN aside. In `int`, a digit is one of 0 to 9. An exception is `none`: all are `ValueError`s, and
-- so is pydantic's `ValidationError`.
pub mod Integers
pub mod Readback
pub mod Checked
use llm_serving_runtime.Base.{
  ℕ, ◌+◌, ◌-◌, ◌*◌, Bool, true, false, ◌&&◌, ◌||◌, Option, none, some, List, [], ◌∷◌, map, leb,
  ◌==◌, if◌then◌else◌,
}
use llm_serving_runtime.Base.Text.{String}
use llm_serving_runtime.Base.Int.{ℤ, pos, negsuc, sub_ℕ}
use llm_serving_runtime.Base.Codes.{text_eq}
use llm_serving_runtime.Base.Decimal.{is_digit}
use llm_serving_runtime.Core.Request.{codes}
use llm_serving_runtime.Core.Strip.{strip}
use llm_serving_runtime.Config.{Settings, fields_ok}

infixl 5 ◌>>=◌
abbrev pub ◌>>=◌ : {A B : Type 0} → Option A → (A → Option B) → Option B
none >>= f = none
some a >>= f = f a

-- Digits, with single underscores between them; `inside` tells whether the last one was a digit.
unfoldable pub read_digits : Bool → ℕ → List ℕ → Option ℕ
read_digits inside value [] = if inside then some value else none
read_digits inside value (c ∷ text) =
    let after_digit = read_digits true (value * 10 + (c - 48)) text in
    let after_underscore = read_digits false value text in
    if is_digit c then after_digit else if c == 95 && inside then after_underscore else none

-- A text after its sign.
unfoldable pub read_signed : List ℕ → Option ℤ
unfolding read_digits
read_signed [] = none
read_signed (c ∷ text) =
    if c == 45
    then (read_digits false 0 text >>= λ n. some (sub_ℕ 0 n))
    else if c == 43
    then (read_digits false 0 text >>= λ n. some (pos n))
    else (read_digits false 0 (c ∷ text) >>= λ n. some (pos n))

-- `int(text)`.
unfoldable pub int : String → Option ℤ
unfolding read_signed strip
int text = read_signed (strip (codes text))

-- A field with `ge=0`.
unfoldable pub at_least_0 : ℤ → Option ℕ
at_least_0 (pos n) = some n
at_least_0 (negsuc n) = none

-- `str.lower`, as far as the words that it is compared with need it.
abbrev pub lower : List ℕ → List ℕ
lower = map (λ c. if leb 65 c && leb c 90 then c + 32 else c)

unfoldable pub is_on : List ℕ → Bool
unfolding text_eq
is_on value =
    let word = lower value in
    text_eq word (codes "1")
    || text_eq word (codes "true")
    || text_eq word (codes "yes")
    || text_eq word (codes "on")

abbrev pub nano : ℕ
nano = 1_000_000_000

abbrev pub millionths : ℕ
millionths = 1_000_000

-- What pydantic makes of the fields.
unfoldable pub validated : Settings → Option Settings
unfolding fields_ok
validated s = if fields_ok s then some s else none

module _ (float : ℕ → String → Option ℤ) (getenv : String → Option String) where
  -- `os.getenv(name, default)`.
  unfoldable pub env_text : String → String → String
  env_text name default = elim (getenv name) [ none ↦ default | some value ↦ value ]

  unfoldable pub env_int : String → String → Option ℤ
  unfolding env_text int
  env_int name default = int (env_text name default)

  -- A number with `ge=0`, from a text that `int` or `float` reads.
  unfoldable pub env_nat : String → String → Option ℕ
  unfolding env_int at_least_0
  env_nat name default = env_int name default >>= at_least_0

  unfoldable pub env_float : ℕ → String → String → Option ℕ
  unfolding env_text at_least_0
  env_float unit name default = float unit (env_text name default) >>= at_least_0

  -- `int(v) if v else None`.
  unfoldable pub env_optional : String → Option (Option ℤ)
  unfolding env_text int text_eq
  env_optional name =
      let value = env_text name "" in
      let read = int value >>= λ z. some (some z) in
      if text_eq (codes value) [] then some none else read

  unfoldable pub get_settings : String → Option Settings
  unfolding env_text env_int env_nat env_float env_optional is_on validated
  get_settings default_model = do
    aging ← env_float nano "LLM_RUNTIME_PRIORITY_AGING_BOOST_INTERVAL_S" "0"
    prefill ← env_nat "LLM_RUNTIME_PREFILL_LATENCY_MS" "25"
    decode ← env_nat "LLM_RUNTIME_DECODE_LATENCY_MS" "10"
    batch_size ← env_nat "LLM_RUNTIME_MAX_BATCH_SIZE" "8"
    batch_timeout ← env_nat "LLM_RUNTIME_BATCH_TIMEOUT_MS" "10"
    request_timeout ← env_float nano "LLM_RUNTIME_REQUEST_TIMEOUT_S" "120"
    queue_size ← env_nat "LLM_RUNTIME_MAX_QUEUE_SIZE" "0"
    rate ← env_float nano "LLM_RUNTIME_REQUEST_RATE_LIMIT_PER_S" "0"
    burst ← env_nat "LLM_RUNTIME_REQUEST_RATE_LIMIT_BURST" "0"
    concurrency ← env_nat "LLM_RUNTIME_NATIVE_BACKEND_CONCURRENCY" "4"
    n_ctx ← env_nat "LLM_RUNTIME_N_CTX" "2048"
    n_gpu_layers ← env_int "LLM_RUNTIME_N_GPU_LAYERS" "0"
    port ← env_int "LLM_RUNTIME_VLLM_PORT" "8082"
    utilization ← env_float millionths "LLM_RUNTIME_VLLM_GPU_MEMORY_UTILIZATION" "0.9"
    max_model_len ← env_optional "LLM_RUNTIME_VLLM_MAX_MODEL_LEN"
    validated (record {
      backend = env_text "LLM_RUNTIME_BACKEND" "mock";
      scheduler = env_text "LLM_RUNTIME_SCHEDULER" "fifo";
      priority_aging_boost_interval_s = aging;
      enable_batching = is_on (codes (env_text "LLM_RUNTIME_ENABLE_BATCHING" "true"));
      prefill_latency_ms = prefill;
      decode_latency_ms = decode;
      max_batch_size = batch_size;
      batch_timeout_ms = batch_timeout;
      request_timeout_s = request_timeout;
      max_queue_size = queue_size;
      request_rate_limit_per_s = rate;
      request_rate_limit_burst = burst;
      native_backend_concurrency = concurrency;
      model_path = env_text "LLM_RUNTIME_MODEL_PATH" default_model;
      n_ctx = n_ctx;
      n_gpu_layers = n_gpu_layers;
      vllm_port = port;
      vllm_gpu_memory_utilization = utilization;
      vllm_max_model_len = max_model_len;
      vllm_command = env_text "LLM_RUNTIME_VLLM_COMMAND" "vllm";
    })
