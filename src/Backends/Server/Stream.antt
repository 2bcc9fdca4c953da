-- ===== src/Backends/Server/Stream.antt =====
-- backends/llama_cpp_backend.py and backends/vllm_backend.py: `generate`, which reads the tokens off
-- the server's event stream, and its request. Lines are lists of code points. What `httpx` gives is
-- an argument, and so is `json.loads`. An exception is its message, or the name of its type.
use llm_serving_runtime.Base.{
  ℕ, ◌⊎◌, inl, inr, Bool, true, false, not, ◌||◌, Option, none, some, List, [], ◌∷◌, ◌++◌, map,
  if◌then◌else◌, drop,
}
use llm_serving_runtime.Base.Text.{String, str_eq}
use llm_serving_runtime.Base.Codes.{text_eq, starts_with}
use llm_serving_runtime.Core.Request.{codes, role_name, ChatMessage, RuntimeRequest}
use llm_serving_runtime.Core.Strip.{strip}
use llm_serving_runtime.Backends.Server.{ServerBackend, can_generate}

-- What `json.loads` returns. The keys of an object differ.
mutual
  pub data Json : Type 0 where
    null : Json
    boolean : Bool → Json
    number : (is_zero : Bool) → Json
    text : String → Json
    array : Items → Json
    object : Fields → Json

  pub data Items : Type 0 where
    nil : Items
    cons : Json → Items → Items

  pub data Fields : Type 0 where
    end : Fields
    field : String → Json → Fields → Fields

abbrev pub attribute_error : String
attribute_error = "AttributeError"

abbrev pub type_error : String
type_error = "TypeError"

abbrev pub lookup : String → Json → Fields → Json
lookup key default end = default
lookup key default (field k value fields) =
    if str_eq k key then value else lookup key default fields

-- `value.get(key, default)`: only a dictionary has it.
unfoldable pub get : String → Json → Json → String ⊎ Json
get key default (object fields) = inr (lookup key default fields)
get key default null = inl attribute_error
get key default (boolean b) = inl attribute_error
get key default (number z) = inl attribute_error
get key default (text s) = inl attribute_error
get key default (array items) = inl attribute_error

abbrev to_list : Items → List Json
to_list nil = []
to_list (cons value items) = value ∷ to_list items

abbrev keys : Fields → List Json
keys end = []
keys (field k value fields) = text k ∷ keys fields

abbrev characters : String → List Json
characters String.[] = []
characters (String.◌∷◌ c s) = text (String.◌∷◌ c String.[]) ∷ characters s

-- What a `for` loop over the value goes through.
unfoldable pub elements : Json → String ⊎ List Json
elements (array items) = inr (to_list items)
elements (object fields) = inr (keys fields)
elements (text s) = inr (characters s)
elements null = inl type_error
elements (boolean b) = inl type_error
elements (number z) = inl type_error

-- `if token`.
unfoldable pub is_true : Json → Bool
is_true null = false
is_true (boolean b) = b
is_true (number is_zero) = not is_zero
is_true (text s) = not (str_eq s "")
is_true (array nil) = false
is_true (array (cons value items)) = true
is_true (object end) = false
is_true (object (field k value fields)) = true

-- What a generator yields, and the exception that ends it, if any.
abbrev pub Yields : Type 0
Yields = List Json × Option String

-- A generator, and the one after it where the first raises nothing.
abbrev pub and_then : Yields → Yields → Yields
and_then (tokens, none) (more, error) = (tokens ++ more, error)
and_then (tokens, some message) next = (tokens, some message)

-- `choice.get("delta", {}).get("content", "")`.
unfoldable pub choice_content : Json → String ⊎ Json
unfolding get
choice_content choice = elim (get "delta" (object end) choice) [
  | inl message ↦ inl message
  | inr delta ↦ get "content" (text "") delta
]

unfoldable pub read_choices : List Json → Yields
unfolding choice_content is_true
read_choices [] = ([], none)
read_choices (choice ∷ choices) =
    let rest = read_choices choices in
    elim (choice_content choice) [
      | inl message ↦ ([], some message)
      | inr token ↦ and_then (if is_true token then token ∷ [] else [], none) rest
    ]

unfoldable pub read_data : Json → Yields
unfolding get elements read_choices
read_data value = elim (get "choices" (array nil) value) [
  | inl message ↦ ([], some message)
  | inr choices ↦ elim (elements choices) [
    | inl message ↦ ([], some message)
    | inr list ↦ read_choices list
  ]
]

-- What the line of an event starts with, and the line that ends the events.
abbrev pub data_prefix : List ℕ
data_prefix = codes "data: "

abbrev pub done_line : List ℕ
done_line = codes "data: [DONE]"

-- What the stream gives: the message of the exception of `client.stream` or `raise_for_status`, or
-- the lines, and the exception that breaks the stream off after them.
pub data Response : Type 0 where
  refused : (message : String) → Response
  answered : (lines : List (List ℕ)) → (broken : Option String) → Response

-- `loads` gives the message of a `JSONDecodeError`, or the value.
module _ (loads : List ℕ → String ⊎ Json) where
  unfoldable pub read_line : List ℕ → Yields
  unfolding strip text_eq read_data
  read_line raw_line =
      let line = strip raw_line in
      if text_eq line [] || starts_with (codes ":") line || text_eq line done_line
      then ([], none)
      else if starts_with data_prefix line
      then elim (loads (drop 6 line)) [
        | inl message ↦ ([], some message)
        | inr value ↦ read_data value
      ]
      else ([], none)

  unfoldable pub read_lines : List (List ℕ) → Option String → Yields
  unfolding read_line
  read_lines [] broken = ([], broken)
  read_lines (line ∷ lines) broken = and_then (read_line line) (read_lines lines broken)

  abbrev pub read_response : Response → Yields
  read_response (refused message) = ([], some message)
  read_response (answered lines broken) = read_lines lines broken

  -- `generate` of either class: without a client it raises before it asks.
  unfoldable pub llama_generate : ServerBackend → Response → Yields
  unfolding can_generate read_lines
  llama_generate s response =
      if not (can_generate s)
      then ([], some "llama-server not started; call start() first")
      else read_response response

  unfoldable pub vllm_generate : ServerBackend → Response → Yields
  unfolding can_generate read_lines
  vllm_generate s response =
      if not (can_generate s)
      then ([], some "vllm serve not started; call start() first")
      else read_response response

-- The request's body. The sampling parameters are numbers as in the request.
pub record ChatPayload : Type 0 where
  pub model : String
  pub messages : List (String × List ℕ)
  pub max_tokens : ℕ
  pub temperature : ℕ
  pub top_p : ℕ
  pub stream : Bool

unfoldable pub chat_payload : String → RuntimeRequest → ChatPayload
chat_payload model_path request = record {
  model = model_path;
  messages = map (λ (m : ChatMessage). (role_name m.role, m.content)) request.messages;
  max_tokens = request.sampling.max_tokens;
  temperature = request.sampling.temperature;
  top_p = request.sampling.top_p;
  stream = true;
}
