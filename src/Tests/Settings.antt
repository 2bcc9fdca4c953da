-- ===== src/Tests/Settings.antt =====
-- src/llm_runtime/config.py: an environment that holds settings, and one that is empty.
use llm_serving_runtime.Base.{
  ◌≤◌, ◌⊎◌, length, ℕ, ◌*◌, ◌/◌, ◌≡◌, refl, true, Option, none, some, List, [], ◌∷◌, if◌then◌else◌,
}
use llm_serving_runtime.Base.Text.{String, str_eq}
use llm_serving_runtime.Base.Int.{ℤ, pos, negsuc}
use llm_serving_runtime.Base.Decimal.{decimal, digits}
use llm_serving_runtime.Workers.Manager
use llm_serving_runtime.Core.Lifecycle.{create, capabilities}
use llm_serving_runtime.App.Configured.{get_settings-create}
use llm_serving_runtime.Config.{Settings, fields_ok}
use llm_serving_runtime.Config.Environment.{get_settings}
use llm_serving_runtime.Config.Environment.Readback.{HoldsSettings, get_settings-written}

-- `float` on the texts that occur.
abbrev float : ℕ → String → Option ℤ
float unit value =
    if str_eq value "0"
    then some (pos 0)
    else if str_eq value "2"
    then some (pos (2 * unit))
    else if str_eq value "60"
    then some (pos (60 * unit))
    else if str_eq value "120"
    then some (pos (120 * unit))
    else some (pos (9 * unit / 10))

abbrev find : List (String × String) → String → Option String
find [] name = none
find ((key, value) ∷ entries) name = if str_eq key name then some value else find entries name

abbrev environment : String → Option String
environment = find (
    ("LLM_RUNTIME_PREFILL_LATENCY_MS", "30")
    ∷ ("LLM_RUNTIME_DECODE_LATENCY_MS", "12")
    ∷ ("LLM_RUNTIME_MAX_BATCH_SIZE", "16")
    ∷ ("LLM_RUNTIME_BATCH_TIMEOUT_MS", "5")
    ∷ ("LLM_RUNTIME_MAX_QUEUE_SIZE", "100")
    ∷ ("LLM_RUNTIME_REQUEST_RATE_LIMIT_BURST", "7")
    ∷ ("LLM_RUNTIME_NATIVE_BACKEND_CONCURRENCY", "4")
    ∷ ("LLM_RUNTIME_N_CTX", "4096")
    ∷ ("LLM_RUNTIME_N_GPU_LAYERS", "-1")
    ∷ ("LLM_RUNTIME_VLLM_PORT", "8082")
    ∷ ("LLM_RUNTIME_PRIORITY_AGING_BOOST_INTERVAL_S", "2")
    ∷ ("LLM_RUNTIME_REQUEST_TIMEOUT_S", "60")
    ∷ ("LLM_RUNTIME_REQUEST_RATE_LIMIT_PER_S", "0")
    ∷ ("LLM_RUNTIME_VLLM_GPU_MEMORY_UTILIZATION", "0.9")
    ∷ ("LLM_RUNTIME_BACKEND", "vllm")
    ∷ ("LLM_RUNTIME_SCHEDULER", "priority")
    ∷ ("LLM_RUNTIME_MODEL_PATH", "models/qwen")
    ∷ ("LLM_RUNTIME_VLLM_COMMAND", "vllm")
    ∷ ("LLM_RUNTIME_ENABLE_BATCHING", "true")
    ∷ [])

abbrev settings : Settings
settings = record {
  backend = "vllm";
  scheduler = "priority";
  priority_aging_boost_interval_s = 2_000_000_000;
  enable_batching = true;
  prefill_latency_ms = 30;
  decode_latency_ms = 12;
  max_batch_size = 16;
  batch_timeout_ms = 5;
  request_timeout_s = 60_000_000_000;
  max_queue_size = 100;
  request_rate_limit_per_s = 0;
  request_rate_limit_burst = 7;
  native_backend_concurrency = 4;
  model_path = "models/qwen";
  n_ctx = 4096;
  n_gpu_layers = negsuc 0;
  vllm_port = pos 8082;
  vllm_gpu_memory_utilization = 900_000;
  vllm_max_model_len = none;
  vllm_command = "vllm";
}

environment-HoldsSettings : HoldsSettings float environment settings
unfolding decimal digits
environment-HoldsSettings = record {
  backend = refl;
  scheduler = refl;
  priority_aging_boost_interval_s = ("2", refl, refl);
  enable_batching = ("true", refl, refl);
  prefill_latency_ms = ("30", refl, refl);
  decode_latency_ms = ("12", refl, refl);
  max_batch_size = ("16", refl, refl);
  batch_timeout_ms = ("5", refl, refl);
  request_timeout_s = ("60", refl, refl);
  max_queue_size = ("100", refl, refl);
  request_rate_limit_per_s = ("0", refl, refl);
  request_rate_limit_burst = ("7", refl, refl);
  native_backend_concurrency = ("4", refl, refl);
  model_path = refl;
  n_ctx = ("4096", refl, refl);
  n_gpu_layers = ("-1", refl, refl);
  vllm_port = ("8082", refl, refl);
  vllm_gpu_memory_utilization = ("0.9", refl, refl);
  vllm_max_model_len = refl;
  vllm_command = refl;
}

get_settings-written_example : get_settings float environment "models/default" ≡ some settings
unfolding fields_ok
get_settings-written_example =
    get_settings-written float environment "models/default" settings refl environment-HoldsSettings

-- A backend that batches natively.
get_settings-create_example :
    let m = Manager.start (create settings none 0).manager in
    (length m.tasks ≡ m.worker_count)
    × (1 ≤ m.worker_count)
    × (1 ≤ m.max_batch_size)
    × ((m.worker_count ≡ 1)
        ⊎ ((m.max_batch_size ≡ 1)
            × (m.batch_timeout_ms ≡ 0)
            × ((capabilities (create settings none 0).backend).native_batching ≡ true)))
unfolding fields_ok
get_settings-create_example =
    get_settings-create float environment "models/default" settings none 0 (
      get_settings-written float environment "models/default" settings refl
        environment-HoldsSettings)
