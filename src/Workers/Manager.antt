-- ===== src/Workers/Manager.antt =====
-- workers/manager.py: construction, `start` and `stop` of the manager. A task is its number; the
-- loop that each runs is `next_batch` of the scheduler followed by `execute_batch`.
use llm_serving_runtime.Base.{ℕ, zero, suc, max, Option, none, some, List, [], ◌∷◌}
use llm_serving_runtime.Base.Text.{String}

pub record WorkerManager : Type 0 where
  pub max_batch_size : ℕ
  pub batch_timeout_ms : ℕ
  pub worker_count : ℕ
  pub tasks : List ℕ

unfoldable pub init : ℕ → ℕ → ℕ → WorkerManager
init max_batch_size batch_timeout_ms worker_count = record {
  max_batch_size = max_batch_size;
  batch_timeout_ms = batch_timeout_ms;
  worker_count = max 1 worker_count;
  tasks = [];
}

-- `n` tasks, numbered from `k`.
abbrev pub spawn : ℕ → ℕ → List ℕ
spawn k zero = []
spawn k (suc n) = k ∷ spawn (suc k) n

unfoldable pub start : WorkerManager → WorkerManager
start m = elim m.tasks [ [] ↦ record m { tasks = spawn 0 m.worker_count } | t ∷ ts ↦ m ]

-- The tasks are cancelled and gathered. `gather` raises the exception of a task that ended with one,
-- other than the cancellation, and then the tasks stay; the argument is its message, if any.
unfoldable pub stop : Option String → WorkerManager → Option String × WorkerManager
stop exception m = elim m.tasks [
  | [] ↦ (none, m)
  | t ∷ ts ↦ elim exception [
    | none ↦ (none, record m { tasks = [] })
    | some message ↦ (some message, m)
  ]
]
