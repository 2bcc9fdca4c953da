-- ===== src/Api/Answers.antt =====
-- api/routes.py, api/streaming.py and workers/manager.py together: what a client is answered once its
-- request's batch has ended.
use llm_serving_runtime.Base.{ℕ, ◌≡◌, ◌⊎◌, true, Option, none, some, List, [], ◌∷◌, ◌++◌, map}
use llm_serving_runtime.Base.Text.{String}
use llm_serving_runtime.Core.Request.{RuntimeRequest}
use llm_serving_runtime.Core.Response.{
  Future, pending, finished, raised, ResponseHandle, completion, streaming, CompletionHandle,
  mark_completed, handle_cancelled,
}
use llm_serving_runtime.Api.Streaming.{chunk, error_frame, done_frame}
use llm_serving_runtime.Api.Routes.{
  Response, ok, http_error, Waited, resolved, failed, Services, respond, finish_chat, serve_stream,
}
use llm_serving_runtime.Scheduler.Interface.{Scheduler}
use llm_serving_runtime.Workers.Batch.{Entry, entry_id, Ending, Happening, result}
use llm_serving_runtime.Workers.Batch.Received.{tokens_for}
use llm_serving_runtime.Workers.Batch.Resolution.{message}
use llm_serving_runtime.Scheduler.Source.{Source}
use llm_serving_runtime.Workers.Pool.{Pool}
use llm_serving_runtime.Workers.Pool.Delivered.{Left}

-- `asyncio.wait_for(asyncio.shield(future), timeout)`, when the caller's time is not up: `none` goes
-- on waiting.
abbrev pub wait_for : Future → Option Waited
wait_for pending = none
wait_for (finished r) = some (resolved r)
wait_for (raised m) = some (failed m)
wait_for Future.cancelled = some Waited.cancelled

-- The answer to a caller that waits, once there is one. The clock's reading before the wait and the one
-- after it stand in the log only.
abbrev answer_chat :
    {sch : Scheduler}
    → String
    → String
    → ℕ
    → ℕ
    → RuntimeRequest
    → CompletionHandle
    → Services sch
    → Option Response
answer_chat model timeout t0 now request h s = elim (wait_for h.future) [
  | none ↦ none
  | some w ↦ some (finish_chat model timeout t0 now request h w s).0
]

module _ (sch : Scheduler) where
  -- What a client gets from a channel that has its outcome. One that waits gets the response with the
  -- joined tokens and their number, or the status 500 with the exception. One that reads the stream to
  -- its end gets a chunk for each token, in order, and then the end mark or the exception; the handle
  -- is completed, and the services stay as they are.
  abbrev pub Answers : Option String → RuntimeRequest → List String → ResponseHandle → Type 0
  Answers exception request tokens (completion h) =
      (model timeout : String) (t0 now : ℕ) (s : Services sch)
      → let r = respond model request (result request.request_id tokens) in
        (answer_chat model timeout t0 now request h s ≡ some (ok r))
        ⊎ ((m : String) × (exception ≡ some m)
            × (answer_chat model timeout t0 now request h s ≡ some (http_error 500 m)))
  Answers exception request tokens (streaming h) =
      (model : String) (now : ℕ) (s : Services sch)
      → let chunks = map (chunk request.request_id model) tokens in
        (serve_stream now model request h.queue h s
          ≡ (chunks ++ (done_frame ∷ []), mark_completed h, s))
        ⊎ ((m : String) × (exception ≡ some m)
            × (serve_stream now model request h.queue h s
                ≡ (chunks ++ (error_frame m ∷ []), mark_completed h, s)))

  -- An entry of a batch that ended: its request was cancelled, or the client is answered, with the
  -- tokens that the backend emitted for its id.
  abbrev pub IsAnswered : Ending → List Happening → Entry → Type 0
  IsAnswered ending happenings e =
      (handle_cancelled e.item.handle ≡ true)
      ⊎ Answers (message ending) e.item.request (tokens_for (entry_id e) happenings) e.item.handle
