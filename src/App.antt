-- ===== src/App.antt =====
-- src/llm_runtime/main.py and the class `RuntimeServices` of core/lifecycle.py: the start and the
-- stop of the process. What the operating system and the model server do is an argument.
pub mod Lifespan
pub mod Configured
pub mod Requests
use llm_serving_runtime.Base.{ℕ, false, Option, none, some, List, [], ◌∷◌}
use llm_serving_runtime.Base.Int.{ℤ}
use llm_serving_runtime.Base.Text.{String, concat}
use llm_serving_runtime.Core.Lifecycle.{BackendChoice, llama_cpp, vllm, mock}
use llm_serving_runtime.Backends.Server.{Health, Outcome, returns, fails, new_server}
use llm_serving_runtime.Backends.Server.Command.{
  LlamaCppBackend, VllmBackend, llama_start, vllm_start, llama_stop, vllm_stop,
}
use llm_serving_runtime.Workers.Manager.{WorkerManager}
use llm_serving_runtime.Workers.Manager

-- A backend with its process. The mock backend has neither `start` nor `stop`.
pub data Backend : Type 0 where
  mock_backend : Backend
  llama_backend : LlamaCppBackend → Backend
  vllm_backend : VllmBackend → Backend

-- The object that `_build_backend` constructs; `show_port` is Python's text of a port.
unfoldable pub new_backend : (ℤ → String) → BackendChoice → Backend
new_backend show_port (mock prefill decode) = mock_backend
new_backend show_port (llama_cpp model_path n_ctx n_gpu_layers) = llama_backend (record {
  model_path = model_path;
  llama_server_path = "llama-server";
  n_ctx = n_ctx;
  n_gpu_layers = n_gpu_layers;
  port = 8081;
  verbose = false;
  base_url = "http://127.0.0.1:8081";
  server = new_server;
})
new_backend show_port (vllm model_path command port utilization max_model_len) =
    vllm_backend (record {
      model_path = model_path;
      vllm_command = command;
      port = port;
      gpu_memory_utilization = utilization;
      max_model_len = max_model_len;
      base_url = concat ("http://127.0.0.1:" ∷ show_port port ∷ []);
      server = new_server;
    })

pub record Runtime : Type 0 where
  pub manager : WorkerManager
  pub backend : Backend

-- What starting a process meets: `spawn`, `exited` and `health` as in the backends, and Python's text of a
-- float.
pub record World : Type 0 where
  pub show_float : ℕ → List ℕ
  pub spawn : List (List ℕ) → Option String
  pub exited : Option ℕ
  pub health : ℕ → Health

unfoldable pub start_backend : World → Backend → Outcome × Backend
unfolding llama_start vllm_start
start_backend w mock_backend = (returns, mock_backend)
start_backend w (llama_backend b) =
    let (outcome, b') = llama_start w.spawn w.exited w.health b in (outcome, llama_backend b')
start_backend w (vllm_backend b) =
    let (outcome, b') = vllm_start w.show_float w.spawn w.exited w.health b in
    (outcome, vllm_backend b')

unfoldable pub stop_backend : Option ℕ → Backend → Backend
unfolding llama_stop vllm_stop
stop_backend exited mock_backend = mock_backend
stop_backend exited (llama_backend b) = llama_backend (llama_stop exited b)
stop_backend exited (vllm_backend b) = vllm_backend (vllm_stop exited b)

-- `RuntimeServices.start`: the workers start once the backend is ready.
unfoldable pub start : World → Runtime → Outcome × Runtime
unfolding start_backend Manager.start
start w r =
    let (outcome, backend) = start_backend w r.backend in
    elim outcome [
      | returns ↦ (returns, record { manager = Manager.start r.manager; backend = backend })
      | fails message ↦ (fails message, record r { backend = backend })
    ]

-- What stopping meets: the message of the exception that `gather` raises from a task, if any, and the
-- code that the backend's process ended with by itself, if it did.
pub record Leftover : Type 0 where
  pub exception : Option String
  pub exited : Option ℕ

-- `RuntimeServices.stop`: an exception from the manager stands before the stop of the backend.
unfoldable pub stop : Leftover → Runtime → Option String × Runtime
unfolding stop_backend Manager.stop
stop l r =
    let (error, manager) = Manager.stop l.exception r.manager in
    elim error [
      | none ↦ (none, record { manager = manager; backend = stop_backend l.exited r.backend })
      | some message ↦ (some message, record r { manager = manager })
    ]

pub data AppEvent : Type 0 where
  runtime_started : AppEvent
  runtime_stopped : AppEvent

-- What a run of the process leaves: the message of the exception that ends it, if any, the log, and
-- the runtime.
pub record Ended : Type 0 where
  pub error : Option String
  pub log : List AppEvent
  pub runtime : Runtime

-- `lifespan`. `serve` is what happens while the application runs; it may end with an exception, and
-- the `finally` clause stops the runtime in any case. An exception of that clause takes the place of
-- the first. A start that fails stands before the `try`.
unfoldable pub lifespan : World → (Runtime → Option String × Runtime) → Leftover → Runtime → Ended
unfolding start stop
lifespan w serve l r =
    let (outcome, started) = start w r in
    elim outcome [
      | returns ↦
          let (error, served) = serve started in
          let (stop_error, stopped) = stop l served in
          elim stop_error [
            | none ↦ record {
              error = error;
              log = runtime_started ∷ runtime_stopped ∷ [];
              runtime = stopped;
            }
            | some message ↦ record {
              error = some message;
              log = runtime_started ∷ [];
              runtime = stopped;
            }
          ]
      | fails message ↦ record { error = some message; log = []; runtime = started }
    ]
