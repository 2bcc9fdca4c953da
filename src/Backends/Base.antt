-- ===== src/Backends/Base.antt =====
-- backends/base.py: capabilities, the events of a batch, and the compatibility mode that serves a
-- batch one request after the other. What a backend generates for a request is an argument.
pub mod Served
use llm_serving_runtime.Base.{Bool, List, [], ◌∷◌, ◌++◌, map}
use llm_serving_runtime.Base.Text.{String}
use llm_serving_runtime.Core.Request.{RuntimeRequest}

-- The flags of `BackendCapability`.
pub record Capabilities : Type 0 where
  pub streaming : Bool
  pub native_batching : Bool
  pub gpu_metrics : Bool

pub data BatchEvent : Type 0 where
  batch_token : (request_id : String) → (token : String) → BatchEvent
  batch_completed : (request_id : String) → BatchEvent

abbrev pub event_id : BatchEvent → String
event_id (batch_token id token) = id
event_id (batch_completed id) = id

unfoldable pub generate_batch :
    (RuntimeRequest → List String) → List RuntimeRequest → List BatchEvent
generate_batch generate [] = []
generate_batch generate (r ∷ requests) =
    map (batch_token r.request_id) (generate r)
    ++ (batch_completed r.request_id ∷ generate_batch generate requests)
