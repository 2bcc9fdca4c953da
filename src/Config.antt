-- ===== src/Config.antt =====
-- src/llm_runtime/config.py: the settings and the bounds that their fields declare. Rates are nano-requests per second, times nanoseconds where the source
-- has seconds, and the other floats numbers of millionths.
pub mod Environment
use llm_serving_runtime.Base.{ℕ, Bool, true, ◌&&◌, Option, none, ltb, leb}
use llm_serving_runtime.Base.Text.{String}
use llm_serving_runtime.Base.Int.{ℤ, pos}

pub record Settings : Type 0 where
  pub backend : String
  pub scheduler : String
  pub priority_aging_boost_interval_s : ℕ
  pub enable_batching : Bool
  pub prefill_latency_ms : ℕ
  pub decode_latency_ms : ℕ
  pub max_batch_size : ℕ
  pub batch_timeout_ms : ℕ
  pub request_timeout_s : ℕ
  pub max_queue_size : ℕ
  pub request_rate_limit_per_s : ℕ
  pub request_rate_limit_burst : ℕ
  pub native_backend_concurrency : ℕ
  pub model_path : String
  pub n_ctx : ℕ
  pub n_gpu_layers : ℤ
  pub vllm_port : ℤ
  pub vllm_gpu_memory_utilization : ℕ
  pub vllm_max_model_len : Option ℤ
  pub vllm_command : String

-- The bounds on the fields; those that say `ge=0` hold of every number.
unfoldable pub fields_ok : Settings → Bool
fields_ok s =
    leb 1 s.max_batch_size
    && ltb 0 s.request_timeout_s
    && leb 1 s.native_backend_concurrency
    && leb 128 s.n_ctx
    && leb 100_000 s.vllm_gpu_memory_utilization
    && leb s.vllm_gpu_memory_utilization 1_000_000

-- The defaults, with the path of the default model as an argument.
abbrev pub default : String → Settings
default model_path = record {
  backend = "mock";
  scheduler = "fifo";
  priority_aging_boost_interval_s = 0;
  enable_batching = true;
  prefill_latency_ms = 25;
  decode_latency_ms = 10;
  max_batch_size = 8;
  batch_timeout_ms = 10;
  request_timeout_s = 120_000_000_000;
  max_queue_size = 0;
  request_rate_limit_per_s = 0;
  request_rate_limit_burst = 0;
  native_backend_concurrency = 4;
  model_path = model_path;
  n_ctx = 2048;
  n_gpu_layers = pos 0;
  vllm_port = pos 8082;
  vllm_gpu_memory_utilization = 900_000;
  vllm_max_model_len = none;
  vllm_command = "vllm";
}
