-- ===== src/Api/Streaming/Loopback.antt =====
-- api/streaming.py with backends/llama_cpp_backend.py and backends/vllm_backend.py: the runtime's own
-- stream, read by a backend.
use llm_serving_runtime.Base.{
  ℕ, ◌≤◌, ◌≡◌, refl, sym, ap, ◌∙◌, ◌⊎◌, inl, inr, true, Option, none, List, [], ◌∷◌, ◌++◌, map,
  append_assoc, arith, if◌then◌else◌, Bool-cases, All, All-append,
}
use llm_serving_runtime.Base.Text.{String, str_eq}
use llm_serving_runtime.Core.Prompt.{is_space}
use llm_serving_runtime.Core.Response.{StreamEvent, token_event, StreamingHandle}
use llm_serving_runtime.Backends.Server.{ServerBackend, can_generate}
use llm_serving_runtime.Backends.Server.Stream.{
  Json, text, object, Fields, Yields, get, elements, is_true, choice_content, read_choices,
  read_data, data_prefix, done_line, answered, read_line, read_lines, llama_generate, vllm_generate,
}
use llm_serving_runtime.Backends.Server.Frames.{
  object_text, read_line-data, read_line-done, read_line-blank, read_lines-skip,
}
use llm_serving_runtime.Api.Streaming.{
  Frame, chunk, error_frame, done_frame, chat_completion_stream,
}
use llm_serving_runtime.Api.Streaming.Delivery.{
  IsLast, completes, fails, chat_completion_stream_complete,
}
use llm_serving_runtime.Api.Streaming.Text.{
  chunk_fields, error_fields, blank_line, sse_event, frame_text, stream_text,
}

-- Each line ends with a line feed.
abbrev pub unlines : List (List ℕ) → List ℕ
unlines [] = []
unlines (line ∷ lines) = line ++ (10 ∷ unlines lines)

-- A character that no reader of lines takes for the end of one.
abbrev pub IsPlain : ℕ → Type 0
IsPlain c = (32 ≤ c) × (c ≤ 126)

-- What the backend yields for a token: nothing for an empty one.
abbrev pub yielded : String → List Json
yielded token = if str_eq token "" then [] else text token ∷ []

-- For a list of tokens.
unfoldable pub yielded_all : List String → List Json
yielded_all [] = []
yielded_all (token ∷ tokens) = yielded token ++ yielded_all tokens

abbrev yielded_frame : Frame → List Json
yielded_frame (chunk request_id model content) = yielded content
yielded_frame (error_frame message) = []
yielded_frame done_frame = []

unfoldable yielded_frames : List Frame → List Json
yielded_frames [] = []
yielded_frames (frame ∷ frames) = yielded_frame frame ++ yielded_frames frames

read_data-chunk_fields :
    (request_id model content : String)
    → read_data (object (chunk_fields request_id model content)) ≡ (yielded content, none)
unfolding read_data get elements read_choices choice_content is_true
read_data-chunk_fields request_id model content = elim (Bool-cases (str_eq content "")) [
  | inl empty ↦ rw empty refl
  | inr full ↦ rw full refl
]

read_data-error_fields : (message : String) → read_data (object (error_fields message)) ≡ ([], none)
unfolding read_data get elements read_choices
read_data-error_fields message = refl

module _ (dumps : Json → List ℕ) where
  abbrev frame_line : Frame → List ℕ
  frame_line (chunk request_id model content) =
      data_prefix ++ dumps (object (chunk_fields request_id model content))
  frame_line (error_frame message) = data_prefix ++ dumps (object (error_fields message))
  frame_line done_frame = done_line

  abbrev lines_of_frames : List Frame → List (List ℕ)
  lines_of_frames [] = []
  lines_of_frames (frame ∷ frames) = frame_line frame ∷ [] ∷ lines_of_frames frames

  frame_text-frame_line : (frame : Frame) → frame_text dumps frame ≡ frame_line frame ++ blank_line
  unfolding frame_text sse_event
  frame_text-frame_line (chunk request_id model content) = refl
  frame_text-frame_line (error_frame message) = refl
  frame_text-frame_line done_frame = refl

  stream_text-unlines :
      (frames : List Frame) → stream_text dumps frames ≡ unlines (lines_of_frames frames)
  unfolding stream_text
  stream_text-unlines [] = refl
  stream_text-unlines (frame ∷ frames) = cc (
    frame_text-frame_line frame,
    stream_text-unlines frames,
    append_assoc (frame_line frame) blank_line (unlines (lines_of_frames frames)),
  )

  module _ (plain : (value : Json) → All IsPlain (dumps value)) where
    data-IsPlain : (value : Json) → All IsPlain (data_prefix ++ dumps value)
    data-IsPlain value = All-append IsPlain data_prefix (dumps value) (omega arith) (plain value)

    frame_line-IsPlain : (frame : Frame) → All IsPlain (frame_line frame)
    frame_line-IsPlain (chunk request_id model content) =
        data-IsPlain (object (chunk_fields request_id model content))
    frame_line-IsPlain (error_frame message) = data-IsPlain (object (error_fields message))
    frame_line-IsPlain done_frame = omega arith

    lines-IsPlain : (frames : List Frame) → All (All IsPlain) (lines_of_frames frames)
    lines-IsPlain [] = tt
    lines-IsPlain (frame ∷ frames) = (frame_line-IsPlain frame, (tt, lines-IsPlain frames))

module _ (dumps : Json → List ℕ) (loads : List ℕ → String ⊎ Json) where
  -- `json.loads` reads the text of a frame's object.
  abbrev pub ReadsFrame : Frame → Type 0
  ReadsFrame (chunk request_id model content) =
      loads (dumps (object (chunk_fields request_id model content)))
      ≡ inr (object (chunk_fields request_id model content))
  ReadsFrame (error_frame message) =
      loads (dumps (object (error_fields message))) ≡ inr (object (error_fields message))
  ReadsFrame done_frame = Unit

  module _ (inner : Fields → List ℕ)
      (brackets : (fields : Fields) → dumps (object fields) ≡ object_text (inner fields)) where
    read_line-object :
        (fields : Fields) (read : Yields)
        → loads (dumps (object fields)) ≡ inr (object fields)
        → read_data (object fields) ≡ read
        → read_line loads (data_prefix ++ dumps (object fields)) ≡ read
    unfolding is_space
    read_line-object fields read law reads =
        let law' : loads (object_text (inner fields)) ≡ inr (object fields) =
          ap loads (sym (brackets fields)) ∙ law in
        ap (λ t. read_line loads (data_prefix ++ t)) (brackets fields)
        ∙ read_line-data loads (inner fields) 125 refl
        ∙ rw law' reads

    read_line-frame_line :
        (frame : Frame)
        → ReadsFrame frame
        → read_line loads (frame_line dumps frame) ≡ (yielded_frame frame, none)
    read_line-frame_line (chunk request_id model content) law =
        read_line-object (chunk_fields request_id model content) _ law
          (read_data-chunk_fields request_id model content)
    read_line-frame_line (error_frame message) law =
        read_line-object (error_fields message) _ law (read_data-error_fields message)
    read_line-frame_line done_frame law = read_line-done loads

    read_lines-frames :
        (frames : List Frame) (broken : Option String)
        → All ReadsFrame frames
        → read_lines loads (lines_of_frames dumps frames) broken ≡ (yielded_frames frames, broken)
    unfolding read_lines yielded_frames
    read_lines-frames [] broken law = refl
    read_lines-frames (frame ∷ frames) broken law =
        let rest =
          read_lines-skip loads [] (lines_of_frames dumps frames) broken (read_line-blank loads)
          ∙ read_lines-frames frames broken law.1 in
        cc (read_line-frame_line frame law.0, rest)

yielded_frames-chunks :
    (request_id model : String) (tokens : List String) {last : StreamEvent} {frame : Frame}
    → IsLast last frame
    → yielded_frames (map (chunk request_id model) tokens ++ (frame ∷ [])) ≡ yielded_all tokens
unfolding yielded_frames yielded_all
yielded_frames-chunks request_id model [] (completes reason) = refl
yielded_frames-chunks request_id model [] (fails message) = refl
yielded_frames-chunks request_id model (token ∷ tokens) l =
    ap (λ rest. yielded token ++ rest) (yielded_frames-chunks request_id model tokens l)

module _ (dumps : Json → List ℕ) (loads : List ℕ → String ⊎ Json) (inner : Fields → List ℕ)
    (lines_of : List ℕ → List (List ℕ)) where
  -- The text of a stream that the worker has ended, read by a started backend: the tokens come back
  -- in order, without the empty ones, and then what breaks the response off, if anything does. An
  -- error at the end of the stream gives the backend neither a token nor an exception. The assumptions
  -- are that `json.dumps` writes printable ASCII, and an object between its brackets; that
  -- `json.loads` reads back the texts of the frames; and that the HTTP client gives the lines of a
  -- text whose lines are printable and end in line feeds.
  pub generate-chat_completion_stream :
      ((value : Json) → All IsPlain (dumps value))
      → ((fields : Fields) → dumps (object fields) ≡ object_text (inner fields))
      → ((lines : List (List ℕ)) → All (All IsPlain) lines → lines_of (unlines lines) ≡ lines)
      → (s : ServerBackend) (request_id model : String) (tokens : List String) {last : StreamEvent}
        {frame : Frame} (more : List StreamEvent) (h : StreamingHandle) (broken : Option String)
      → s.has_client ≡ true
      → IsLast last frame
      → All (ReadsFrame dumps loads) (map (chunk request_id model) tokens ++ (frame ∷ []))
      → let (frames, _, _) =
          chat_completion_stream request_id model (map token_event tokens ++ (last ∷ more)) h in
        let response = answered (lines_of (stream_text dumps frames)) broken in
        (llama_generate loads s response ≡ (yielded_all tokens, broken))
        × (vllm_generate loads s response ≡ (yielded_all tokens, broken))
  unfolding llama_generate vllm_generate can_generate
  generate-chat_completion_stream plain brackets splits s request_id model tokens {frame = frame}
        more h broken open_ l law =
      let frames = map (chunk request_id model) tokens ++ (frame ∷ []) in
      let all : read_lines loads (lines_of (stream_text dumps frames)) broken
          ≡ (yielded_all tokens, broken) =
        ap (λ t. read_lines loads (lines_of t) broken) (stream_text-unlines dumps frames)
        ∙ ap (λ ls. read_lines loads ls broken)
            (splits (lines_of_frames dumps frames) (lines-IsPlain dumps plain frames))
        ∙ read_lines-frames dumps loads inner brackets frames broken law
        ∙ ap (λ ts. (ts, broken)) (yielded_frames-chunks request_id model tokens l) in
      rw (chat_completion_stream_complete request_id model tokens more h l)
        (rw open_ all, rw open_ all)
