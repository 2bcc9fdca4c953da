-- ===== src/App/Configured.antt =====
-- src/llm_runtime/core/lifecycle.py, `RuntimeServices.create`, on the settings of the environment.
use llm_serving_runtime.Base.{ℕ, ◌≤◌, ◌≡◌, ◌⊎◌, true, Option, some, length}
use llm_serving_runtime.Base.Text.{String}
use llm_serving_runtime.Base.Int.{ℤ}
use llm_serving_runtime.Config.{Settings}
use llm_serving_runtime.Config.Environment.{get_settings}
use llm_serving_runtime.Config.Environment.Checked.{get_settings-fields_ok}
use llm_serving_runtime.Core.Lifecycle.{BackendChoice, create, create-workers, capabilities}
use llm_serving_runtime.Workers.Manager

-- Whatever the environment holds, if `get_settings` returns settings, the runtime that is created
-- from them and started has one task for each worker, at least one. Each worker takes at least one
-- request at a time. There is one worker, or the backend batches natively and each worker takes one
-- request at a time with no wait.
pub get_settings-create :
    (float : ℕ → String → Option ℤ) (getenv : String → Option String) (default_model : String)
    (s : Settings) (backend : Option BackendChoice) (now : ℕ)
    → get_settings float getenv default_model ≡ some s
    → let m = Manager.start (create s backend now).manager in
      (length m.tasks ≡ m.worker_count)
      × (1 ≤ m.worker_count)
      × (1 ≤ m.max_batch_size)
      × ((m.worker_count ≡ 1)
          ⊎ ((m.max_batch_size ≡ 1)
              × (m.batch_timeout_ms ≡ 0)
              × ((capabilities (create s backend now).backend).native_batching ≡ true)))
get_settings-create float getenv default_model s backend now e =
    create-workers s backend now (get_settings-fields_ok float getenv default_model s e)
