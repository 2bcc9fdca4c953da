-- ===== src/Api/Streaming/Delivery.antt =====
-- api/streaming.py: what the client receives, and when the stream counts as cancelled.
use llm_serving_runtime.Base.{◌≡◌, refl, true, false, not, List, [], ◌∷◌, ◌++◌, map, arith}
use llm_serving_runtime.Base.Text.{String}
use llm_serving_runtime.Core.Response.{
  StreamEvent, token_event, completed_event, error_event, StreamingHandle, mark_completed,
}
use llm_serving_runtime.Api.Streaming.{
  Frame, chunk, error_frame, done_frame, stream_body, chat_completion_stream,
}

-- The last event of a stream, and the frame that it becomes.
pub data IsLast : StreamEvent → Frame → Type 0 where
  completes : (reason : String) → IsLast (completed_event reason) done_frame
  fails : (message : String) → IsLast (error_event message) (error_frame message)

stream_body_tokens :
    (id model : String) (tokens : List String) (h : StreamingHandle)
    → stream_body id model (map token_event tokens) h ≡ (map (chunk id model) tokens, h)
unfolding stream_body
stream_body_tokens id model [] h = refl
stream_body_tokens id model (t ∷ tokens) h = rw (stream_body_tokens id model tokens h)

stream_body_complete :
    (id model : String) (tokens : List String) {last : StreamEvent} {frame : Frame}
    (more : List StreamEvent) (h : StreamingHandle)
    → IsLast last frame
    → stream_body id model (map token_event tokens ++ (last ∷ more)) h
      ≡ (map (chunk id model) tokens ++ (frame ∷ []), mark_completed h)
unfolding stream_body
stream_body_complete id model [] more h (completes reason) = refl
stream_body_complete id model [] more h (fails message) = refl
stream_body_complete id model (t ∷ tokens) more h l =
    rw (stream_body_complete id model tokens more h l)

-- A stream that the worker has ended, read to its end: each token is one chunk, in order, then
-- comes the frame of the last event and nothing more. The handle is completed, and the stream does
-- not count as cancelled.
pub chat_completion_stream_complete :
    (id model : String) (tokens : List String) {last : StreamEvent} {frame : Frame}
    (more : List StreamEvent) (h : StreamingHandle)
    → IsLast last frame
    → chat_completion_stream id model (map token_event tokens ++ (last ∷ more)) h
      ≡ (map (chunk id model) tokens ++ (frame ∷ []), mark_completed h, false)
unfolding chat_completion_stream
chat_completion_stream_complete id model tokens more h l =
    rw (stream_body_complete id model tokens more h l) (ground arith)

-- A client that goes away from a stream that is not completed, before the last event, has the
-- tokens so far, and cancels the request: the handle is cancelled, and `on_cancel` runs exactly if
-- it was not cancelled before.
pub chat_completion_stream_abandoned :
    (id model : String) (tokens : List String) (h : StreamingHandle)
    → h.completed ≡ false
    → let (frames, h', cancelled) = chat_completion_stream id model (map token_event tokens) h in
      (frames ≡ map (chunk id model) tokens)
      × (h' ≡ record h { cancelled = true })
      × (cancelled ≡ not h.cancelled)
unfolding chat_completion_stream
chat_completion_stream_abandoned id model tokens h c =
    rw (stream_body_tokens id model tokens h) (ground arith)
