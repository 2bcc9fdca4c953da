-- ===== src/App/Requests.antt =====
-- src/llm_runtime/main.py: the middleware that logs each request, and the logger's setup. The handler
-- behind the middleware is an argument, with the exception that it raises or its response.
use llm_serving_runtime.Base.{ℕ, ◌⊎◌, inl, inr, List, [], ◌∷◌}
use llm_serving_runtime.Base.Text.{String}
use llm_serving_runtime.Base.Int.{ℤ, sub_ℕ}

pub record HttpRequest : Type 0 where
  pub method : String
  pub path : String

-- The values in a line of the access log; the elapsed time is a number of nanoseconds.
pub record AccessLine : Type 0 where
  pub method : String
  pub path : String
  pub status_code : ℕ
  pub elapsed : ℤ

module _ {A : Type 0} (status_code : A → ℕ) (call_next : HttpRequest → String ⊎ A) where
  -- `start` and `now` are the readings before and after the call. An exception passes through, with
  -- no line.
  unfoldable pub log_requests : ℕ → ℕ → HttpRequest → (String ⊎ A) × List AccessLine
  log_requests start now request = elim (call_next request) [
    | inl message ↦ (inl message, [])
    | inr response ↦ (
      inr response,
      record {
        method = request.method;
        path = request.path;
        status_code = status_code response;
        elapsed = sub_ℕ now start;
      }
          ∷ [],
    )
  ]

-- What a logger writes with.
pub data LogHandler : Type 0 where
  json_handler : LogHandler
  other_handler : (name : String) → LogHandler

pub record Logger : Type 0 where
  pub handlers : List LogHandler
  pub level : String

-- `root.handlers.clear()`, and the handler with a `JSONFormatter`.
unfoldable pub setup_logging : Logger → Logger
setup_logging root = record { handlers = json_handler ∷ []; level = "INFO" }
