-- ===== src/Api/Streaming/Text.antt =====
-- api/streaming.py: the text of the frames. `json.dumps` is an argument. The number 0 is the one number
-- in a frame.
use llm_serving_runtime.Base.{ℕ, true, List, [], ◌∷◌, ◌++◌}
use llm_serving_runtime.Base.Text.{String}
use llm_serving_runtime.Backends.Server.Stream.{
  Json, null, number, text, array, object, Fields, nil, cons, end, field, data_prefix, done_line,
}
use llm_serving_runtime.Api.Streaming.{Frame, chunk, error_frame, done_frame}

-- What `json.dumps` gets for a token, and for an error.
abbrev pub chunk_fields : String → String → String → Fields
chunk_fields request_id model content = field "id" (text request_id) (
    field "object" (text "chat.completion.chunk") (
      field "model" (text model) (
        field "choices"
          (array (
            cons
              (object (
                field "index" (number true) (
                  field "delta" (object (field "content" (text content) end))
                    (field "finish_reason" null end))))
              nil))
          end)))

abbrev pub error_fields : String → Fields
error_fields message = field "error" (object (field "message" (text message) end)) end

-- Two line feeds end a frame.
abbrev pub blank_line : List ℕ
blank_line = 10 ∷ 10 ∷ []

module _ (dumps : Json → List ℕ) where
  unfoldable pub sse_event : Json → List ℕ
  sse_event payload = data_prefix ++ dumps payload ++ blank_line

  unfoldable pub frame_text : Frame → List ℕ
  unfolding sse_event
  frame_text (chunk request_id model content) =
      sse_event (object (chunk_fields request_id model content))
  frame_text (error_frame message) = sse_event (object (error_fields message))
  frame_text done_frame = done_line ++ blank_line

  -- What the generator yields, one after another.
  unfoldable pub stream_text : List Frame → List ℕ
  unfolding frame_text
  stream_text [] = []
  stream_text (frame ∷ frames) = frame_text frame ++ stream_text frames
