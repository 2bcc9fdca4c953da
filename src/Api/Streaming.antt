-- ===== src/Api/Streaming.antt =====
-- api/streaming.py: a stream's events become frames. A frame is what `json.dumps` gets; its text is in
-- Text. The events are those that the generator reads from the handle's queue before it ends or
-- is closed: a list with no last event is a client that went away, whose generator is closed.
pub mod Delivery
pub mod Text
pub mod Loopback
use llm_serving_runtime.Base.{Bool, List, [], ◌∷◌}
use llm_serving_runtime.Base.Text.{String}
use llm_serving_runtime.Core.Response.{
  StreamEvent, token_event, completed_event, error_event, StreamingHandle, mark_completed,
  cancel_streaming,
}

pub data Frame : Type 0 where
  chunk : (request_id model content : String) → Frame
  error_frame : (message : String) → Frame
  done_frame : Frame

-- The body of the `try`: the frames that it yields, and the handle at its end.
unfoldable pub stream_body :
    String → String → List StreamEvent → StreamingHandle → List Frame × StreamingHandle
stream_body id model [] h = ([], h)
stream_body id model (token_event token ∷ events) h =
    let (frames, h') = stream_body id model events h in (chunk id model token ∷ frames, h')
stream_body id model (completed_event reason ∷ events) h = (done_frame ∷ [], mark_completed h)
stream_body id model (error_event message ∷ events) h = (error_frame message ∷ [], mark_completed h)

-- With the `finally` clause: the last part tells whether `on_cancel` runs.
unfoldable pub chat_completion_stream :
    String → String → List StreamEvent → StreamingHandle → List Frame × StreamingHandle × Bool
unfolding stream_body cancel_streaming
chat_completion_stream id model events h =
    let (frames, h') = stream_body id model events h in
    let (first, h'') = cancel_streaming h' in (frames, h'', first)
