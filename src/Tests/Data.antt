-- ===== src/Tests/Data.antt =====
-- Concrete requests, handles and services for the tests.
use llm_serving_runtime.Base.{ℕ, Bool, false, none, [], ◌∷◌}
use llm_serving_runtime.Base.Text.{String}
use llm_serving_runtime.Core.Request.{
  codes, user, ChatMessage, ChatCompletionRequest, RuntimeRequest,
}
use llm_serving_runtime.Core.Response.{
  ScheduledRequest, completion, streaming, new_completion, new_streaming,
}

abbrev pub hello : ChatMessage
hello = record { role = user; content = codes "hello there" }

abbrev pub body : Bool → ChatCompletionRequest
body stream = record {
  model = "qwen";
  messages = hello ∷ [];
  max_tokens = 16;
  temperature = 700_000;
  top_p = 1_000_000;
  stream = stream;
  priority = 1;
}

abbrev pub request : String → ℕ → RuntimeRequest
request id priority = record {
  request_id = id;
  messages = hello ∷ [];
  priority = priority;
  stream = false;
  sampling = record { max_tokens = 16; temperature = 700_000; top_p = 1_000_000 };
  created_at = 5;
  enqueued_at = none;
  started_at = none;
  first_token_at = none;
  completed_at = none;
  failed_at = none;
}

abbrev pub completion_item : String → ScheduledRequest
completion_item id = record { request = request id 1; handle = completion new_completion }

abbrev pub streaming_item : String → ScheduledRequest
streaming_item id = record { request = request id 1; handle = streaming new_streaming }
