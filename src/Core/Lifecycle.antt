-- ===== src/Core/Lifecycle.antt =====
-- core/lifecycle.py: how the settings choose the parts of the runtime and their parameters.
use llm_serving_runtime.Base.{
  ℕ, zero, suc, ◌≤◌, ◌≡◌, refl, ap, ◌⊎◌, true, false, not, Option, none, some, arith, if◌then◌else◌,
  length,
}
use llm_serving_runtime.Base.Text.{String, str_eq}
use llm_serving_runtime.Base.Int.{ℤ}
use llm_serving_runtime.Config.{Settings, fields_ok}
use llm_serving_runtime.Backends.Base.{Capabilities}
use llm_serving_runtime.Admission.{AdmissionController}
use llm_serving_runtime.Admission
use llm_serving_runtime.Metrics.Collector.{MetricsCollector}
use llm_serving_runtime.Metrics.Collector
use llm_serving_runtime.Workers.Manager.{WorkerManager}
use llm_serving_runtime.Workers.Manager

pub data SchedulerChoice : Type 0 where
  fifo : SchedulerChoice
  priority : (aging_boost_interval_s : ℕ) → SchedulerChoice

unfoldable pub build_scheduler : Settings → SchedulerChoice
build_scheduler s =
    if str_eq s.scheduler "priority" then priority s.priority_aging_boost_interval_s else fifo

pub data BackendChoice : Type 0 where
  llama_cpp : (model_path : String) → (n_ctx : ℕ) → (n_gpu_layers : ℤ) → BackendChoice
  vllm :
      (model_path vllm_command : String)
      → (port : ℤ) → (gpu_memory_utilization : ℕ) → (max_model_len : Option ℤ) → BackendChoice
  mock : (prefill_latency_ms decode_latency_ms : ℕ) → BackendChoice

unfoldable pub build_backend : Settings → BackendChoice
build_backend s =
    if str_eq s.backend "llama.cpp"
    then llama_cpp s.model_path s.n_ctx s.n_gpu_layers
    else if str_eq s.backend "vllm"
    then vllm s.model_path s.vllm_command s.vllm_port s.vllm_gpu_memory_utilization
        s.vllm_max_model_len
    else mock s.prefill_latency_ms s.decode_latency_ms

-- The property `capabilities` of each backend.
unfoldable pub capabilities : BackendChoice → Capabilities
capabilities (llama_cpp model_path n_ctx n_gpu_layers) = record {
  streaming = true;
  native_batching = false;
  gpu_metrics = true;
}
capabilities (vllm model_path command port utilization max_model_len) = record {
  streaming = true;
  native_batching = true;
  gpu_metrics = true;
}
capabilities (mock prefill decode) = record {
  streaming = true;
  native_batching = false;
  gpu_metrics = false;
}

unfoldable pub dispatch_batch_params : Settings → Capabilities → ℕ × ℕ
dispatch_batch_params s caps =
    if not s.enable_batching
    then (1, 0)
    else if caps.native_batching
    then (1, 0)
    else (s.max_batch_size, s.batch_timeout_ms)

unfoldable pub dispatch_worker_count : Settings → Capabilities → ℕ
dispatch_worker_count s caps = if caps.native_batching then s.native_backend_concurrency else 1

pub record RuntimeServices : Type 0 where
  pub metrics : MetricsCollector
  pub scheduler : SchedulerChoice
  pub admission : AdmissionController
  pub manager : WorkerManager
  pub backend : BackendChoice
  pub request_timeout_s : ℕ

-- `backend or _build_backend(configured)`.
unfoldable pub selected_backend : Settings → Option BackendChoice → BackendChoice
selected_backend s none = build_backend s
selected_backend s (some b) = b

-- `backend`: one that the caller selected. `now` is the limiter's first reading.
unfoldable pub create : Settings → Option BackendChoice → ℕ → RuntimeServices
unfolding dispatch_batch_params dispatch_worker_count Manager.init
create s backend now =
    let selected = selected_backend s backend in
    let (batch_size, batch_timeout) = dispatch_batch_params s (capabilities selected) in
    record {
      metrics = Collector.init;
      scheduler = build_scheduler s;
      admission =
          Admission.init s.max_queue_size s.request_rate_limit_per_s s.request_rate_limit_burst now;
      manager =
          Manager.init batch_size batch_timeout (dispatch_worker_count s (capabilities selected));
      backend = selected;
      request_timeout_s = s.request_timeout_s;
    }

length-spawn : (k n : ℕ) → length (Manager.spawn k n) ≡ n
length-spawn k zero = refl
length-spawn k (suc n) = ap suc (length-spawn (suc k) n)

-- Under settings within their bounds, the started runtime has one task for each worker, at least
-- one. Each worker takes at least one request at a time. There is one worker, or the backend
-- batches natively and each worker takes one request at a time with no wait.
pub create-workers :
    (s : Settings) (backend : Option BackendChoice) (now : ℕ)
    → fields_ok s ≡ true
    → let m = Manager.start (create s backend now).manager in
      (length m.tasks ≡ m.worker_count)
      × (1 ≤ m.worker_count)
      × (1 ≤ m.max_batch_size)
      × ((m.worker_count ≡ 1)
          ⊎ ((m.max_batch_size ≡ 1)
              × (m.batch_timeout_ms ≡ 0)
              × ((capabilities (create s backend now).backend).native_batching ≡ true)))
unfolding create fields_ok Manager.start
create-workers s backend now h =
    ground (arith, length-spawn 0 (Manager.start (create s backend now).manager).worker_count)
