-- ===== src/Backends/Server/Command.antt =====
-- backends/llama_cpp_backend.py and backends/vllm_backend.py: the objects with their parameters, the
-- command line of each server, and `start` and `stop`. The arguments on a command line are lists of
-- code points. Whether the process can be created depends on it. How Python writes a float is an
-- argument.
use llm_serving_runtime.Base.{ℕ, Bool, not, Option, none, some, List, [], ◌∷◌, if◌then◌else◌}
use llm_serving_runtime.Base.Int.{ℤ}
use llm_serving_runtime.Base.Decimal.{decimal, integer}
use llm_serving_runtime.Base.Text.{String, concat}
use llm_serving_runtime.Core.Request.{codes}
use llm_serving_runtime.Backends.Server.{ServerBackend, Health, Outcome}
use llm_serving_runtime.Backends.Server

pub record LlamaCppBackend : Type 0 where
  pub model_path : String
  pub llama_server_path : String
  pub n_ctx : ℕ
  pub n_gpu_layers : ℤ
  pub port : ℕ
  pub verbose : Bool
  pub base_url : String
  pub server : ServerBackend

pub record VllmBackend : Type 0 where
  pub model_path : String
  pub vllm_command : String
  pub port : ℤ
  pub gpu_memory_utilization : ℕ
  pub max_model_len : Option ℤ
  pub base_url : String
  pub server : ServerBackend

unfoldable pub llama_args : LlamaCppBackend → List (List ℕ)
llama_args b =
    codes b.llama_server_path
    ∷ codes "-m"
    ∷ codes b.model_path
    ∷ codes "--port"
    ∷ decimal b.port
    ∷ codes "--host"
    ∷ codes "127.0.0.1"
    ∷ codes "-c"
    ∷ decimal b.n_ctx
    ∷ codes "-ngl"
    ∷ integer b.n_gpu_layers
    ∷ codes "--no-webui"
    ∷ (if not b.verbose then codes "--log-disable" ∷ [] else [])

abbrev optional_arg : List ℕ → Option ℤ → List (List ℕ)
optional_arg name none = []
optional_arg name (some z) = name ∷ integer z ∷ []

unfoldable pub vllm_args : (ℕ → List ℕ) → VllmBackend → List (List ℕ)
vllm_args show_float b =
    codes b.vllm_command
    ∷ codes "serve"
    ∷ codes b.model_path
    ∷ codes "--host"
    ∷ codes "127.0.0.1"
    ∷ codes "--port"
    ∷ integer b.port
    ∷ codes "--gpu-memory-utilization"
    ∷ show_float b.gpu_memory_utilization
    ∷ optional_arg (codes "--max-model-len") b.max_model_len

-- The message of a start that no health check ends.
abbrev pub failure : String → (base_url model_path : String) → String
failure server base_url model_path =
    concat (server ∷ " failed to start on " ∷ base_url ∷ " (model=" ∷ model_path ∷ ")" ∷ [])

-- `spawn` gives the message of the exception of `create_subprocess_exec`, if it raises, and `exited`
-- the code of a process that has ended by itself when the call ends, if it has.
unfoldable pub llama_start :
    (List (List ℕ) → Option String)
    → Option ℕ
    → (ℕ → Health)
    → LlamaCppBackend
    → Outcome × LlamaCppBackend
unfolding llama_args Server.start
llama_start spawn exited health b =
    let (outcome, server) =
      Server.start 120 (spawn (llama_args b)) exited health
        (failure "llama-server" b.base_url b.model_path) b.server in
    (outcome, record b { server = server })

unfoldable pub vllm_start :
    (ℕ → List ℕ)
    → (List (List ℕ) → Option String)
    → Option ℕ
    → (ℕ → Health)
    → VllmBackend
    → Outcome × VllmBackend
unfolding vllm_args Server.start
vllm_start show_float spawn exited health b =
    let (outcome, server) =
      Server.start 600 (spawn (vllm_args show_float b)) exited health
        (failure "vllm serve" b.base_url b.model_path) b.server in
    (outcome, record b { server = server })

unfoldable pub llama_stop : Option ℕ → LlamaCppBackend → LlamaCppBackend
unfolding Server.stop
llama_stop exited b = record b { server = Server.stop exited b.server }

unfoldable pub vllm_stop : Option ℕ → VllmBackend → VllmBackend
unfolding Server.stop
vllm_stop exited b = record b { server = Server.stop exited b.server }
