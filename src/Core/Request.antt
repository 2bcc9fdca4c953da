-- ===== src/Core/Request.antt =====
-- core/request.py and the request side of api/schemas.py. Texts that the code walks are lists of
-- code points; a clock reading is a number of nanoseconds; the sampling floats, which are only
-- passed on, are numbers of millionths. `new_request_id` is outside: the id is an argument.
use llm_serving_runtime.Base.{ℕ, Bool, ◌&&◌, Option, none, some, List, [], ◌∷◌, leb}
use Prim.Native.Char.{code}
use llm_serving_runtime.Base.Text.{String}

abbrev pub codes : String → List ℕ
codes String.[] = []
codes (String.◌∷◌ c s) = code c ∷ codes s

pub data Role : Type 0 where
  system user assistant tool : Role

abbrev pub role_name : Role → String
role_name system = "system"
role_name user = "user"
role_name assistant = "assistant"
role_name tool = "tool"

pub record ChatMessage : Type 0 where
  pub role : Role
  pub content : List ℕ

pub record ChatCompletionRequest : Type 0 where
  pub model : String
  pub messages : List ChatMessage
  pub max_tokens : ℕ
  pub temperature : ℕ
  pub top_p : ℕ
  pub stream : Bool
  pub priority : ℕ

-- The bounds that the schema's fields declare; a body outside them never reaches the handler.
abbrev pub millionths : ℕ
millionths = 1_000_000

unfoldable pub fields_ok : ChatCompletionRequest → Bool
fields_ok body = leb 1 body.max_tokens && leb body.max_tokens 4096 && leb body.top_p millionths

pub record SamplingParams : Type 0 where
  pub max_tokens : ℕ
  pub temperature : ℕ
  pub top_p : ℕ

pub record RuntimeRequest : Type 0 where
  pub request_id : String
  pub messages : List ChatMessage
  pub priority : ℕ
  pub stream : Bool
  pub sampling : SamplingParams
  pub created_at : ℕ
  pub enqueued_at : Option ℕ
  pub started_at : Option ℕ
  pub first_token_at : Option ℕ
  pub completed_at : Option ℕ
  pub failed_at : Option ℕ

unfoldable pub from_chat_request : String → ℕ → ChatCompletionRequest → RuntimeRequest
from_chat_request id now body = record {
  request_id = id;
  messages = body.messages;
  priority = body.priority;
  stream = body.stream;
  sampling = record {
    max_tokens = body.max_tokens;
    temperature = body.temperature;
    top_p = body.top_p;
  };
  created_at = now;
  enqueued_at = none;
  started_at = none;
  first_token_at = none;
  completed_at = none;
  failed_at = none;
}

abbrev pub mark_enqueued : ℕ → RuntimeRequest → RuntimeRequest
mark_enqueued now r = record r { enqueued_at = some now }

abbrev pub mark_started : ℕ → RuntimeRequest → RuntimeRequest
mark_started now r = record r { started_at = some now }

-- Only the first call counts.
abbrev pub mark_first_token : ℕ → RuntimeRequest → RuntimeRequest
mark_first_token now r = record r {
  first_token_at = elim r.first_token_at [ none ↦ some now | some t ↦ some t ];
}

abbrev pub mark_completed : ℕ → RuntimeRequest → RuntimeRequest
mark_completed now r = record r { completed_at = some now }

abbrev pub mark_failed : ℕ → RuntimeRequest → RuntimeRequest
mark_failed now r = record r { failed_at = some now }
