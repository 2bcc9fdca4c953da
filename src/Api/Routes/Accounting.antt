-- ===== src/Api/Routes/Accounting.antt =====
-- api/routes.py and workers/manager.py together: how often a request counts as completed or failed.
-- The API and the worker share one `MetricsCollector`.
use llm_serving_runtime.Base.{
  ℕ, ◌+◌, ◌≡◌, refl, ap, ◌∙◌, true, false, none, List, map, arith, length,
}
use llm_serving_runtime.Base.Text.{String, concat}
use llm_serving_runtime.Core.Request.{RuntimeRequest, mark_completed, mark_failed}
use llm_serving_runtime.Core.Prompt.{prompt_token_estimate}
use llm_serving_runtime.Core.Response.{
  CompletionHandle, StreamingHandle, completion, streaming, finished, raised, ScheduledRequest,
  item_cancelled, token_event, IsOpen, cancel_completion, put, completed_event,
}
use llm_serving_runtime.Metrics.Collector.{record_failure}
use llm_serving_runtime.Metrics.Collector.Accounts.{
  counters, one_completed, one_failed, counters-record_success, counters-record_failure,
}
use llm_serving_runtime.Scheduler.Interface.{Scheduler}
use llm_serving_runtime.Workers.Batch.{
  Shared, LogEvent, result, count_success, complete_handle, complete_item, fail_handle, fail_item,
}
use llm_serving_runtime.Workers.Batch
use llm_serving_runtime.Api.Streaming.Delivery.{chat_completion_stream_abandoned}
use llm_serving_runtime.Api.Routes.{
  Services, Response, ok, http_error, client_gone, Waited, resolved, timed_out, cancelled, failed,
  finish_chat, serve_stream, count_failure, cancel_stream,
}

-- The request of a caller that waits for a completion, on the worker's side.
abbrev pub waits_for : RuntimeRequest → CompletionHandle → ScheduledRequest
waits_for request h = record { request = request; handle = completion h }

abbrev pub streams_to : RuntimeRequest → StreamingHandle → ScheduledRequest
streams_to request h = record { request = request; handle = streaming h }

complete_item_cancelled :
    (now batch_start : ℕ) (tokens : List String) (item : ScheduledRequest) (sh : Shared)
    → item_cancelled item ≡ true
    → complete_item now batch_start tokens item sh ≡ (none, item, sh)
unfolding complete_item
complete_item_cancelled now batch_start tokens item sh c = rw c refl

fail_item_cancelled :
    (now : ℕ) (exc : String) (item : ScheduledRequest) (sh : Shared)
    → item_cancelled item ≡ true
    → fail_item now exc item sh ≡ (none, item, sh)
unfolding fail_item
fail_item_cancelled now exc item sh c = rw c refl

cancel_completion_cancelled : (h : CompletionHandle) → (cancel_completion h).1.cancelled ≡ true
unfolding cancel_completion
cancel_completion_cancelled h = ground arith

complete_item_open :
    (now batch_start : ℕ) (tokens : List String) (request : RuntimeRequest) (sh : Shared)
    (h : CompletionHandle)
    → IsOpen (completion h)
    → let (error, item, sh') = complete_item now batch_start tokens (waits_for request h) sh in
      (error ≡ none)
      × (item
          ≡ waits_for
              (mark_completed now request)
              (record h { future = finished (result request.request_id tokens) }))
      × (counters sh'.metrics ≡ one_completed (counters sh.metrics))
unfolding complete_item complete_handle count_success
complete_item_open now batch_start tokens request sh h (f, c) =
    rw (f, c) (refl, refl, counters-record_success _ _ _)

fail_item_open :
    (now : ℕ) (exc : String) (request : RuntimeRequest) (sh : Shared) (h : CompletionHandle)
    → IsOpen (completion h)
    → let (error, item, sh') = fail_item now exc (waits_for request h) sh in
      (error ≡ none)
      × (item ≡ waits_for (mark_failed now request) (record h { future = raised exc }))
      × (counters sh'.metrics ≡ one_failed (counters sh.metrics))
unfolding fail_item fail_handle Batch.count_failure record_failure
fail_item_open now exc request sh h (f, c) =
    rw (f, c) (refl, refl, counters-record_failure now request sh.metrics)

stream_complete_item_open :
    (now batch_start : ℕ) (tokens : List String) (request : RuntimeRequest) (sh : Shared)
    (h : StreamingHandle)
    → h.cancelled ≡ false
    → let (error, item, sh') = complete_item now batch_start tokens (streams_to request h) sh in
      (error ≡ none)
      × (item ≡ streams_to (mark_completed now request) (put (completed_event "stop") h))
      × (counters sh'.metrics ≡ one_completed (counters sh.metrics))
unfolding complete_item complete_handle count_success
stream_complete_item_open now batch_start tokens request sh h c =
    rw c (refl, refl, counters-record_success _ _ _)

-- The collector as the worker has it, and the services with the collector that it leaves.
abbrev pub seen_by_worker : {sch : Scheduler} → Services sch → List LogEvent → Shared
seen_by_worker s log = record { metrics = s.metrics; log = log }

abbrev pub after_worker : {sch : Scheduler} → Services sch → Shared → Services sch
after_worker s sh = record s { metrics = sh.metrics }

-- The wait ends without an outcome: the caller's time is up, or the caller went away.
pub data GivesUp : Waited → Response → Type 0 where
  times_out : GivesUp timed_out (http_error 504 "request timed out")
  goes_away : GivesUp cancelled client_gone

module _ {sch : Scheduler} where
  -- The worker completes a request whose caller waits on an open channel: its future gets the
  -- tokens, the response has them joined, with their number and the estimate for the prompt, and
  -- from before the worker to after the response the request counts once, as completed.
  finish_chat-complete_item :
      (model timeout : String) (t0 now now' batch_start : ℕ) (tokens : List String)
      (request : RuntimeRequest) (h : CompletionHandle) (s : Services sch) (log : List LogEvent)
      → IsOpen (completion h)
      → let r = result request.request_id tokens in
        let (error, item, sh) =
          complete_item now batch_start tokens (waits_for request h) (seen_by_worker s log) in
        let h' = record h { future = finished r } in
        let (response, h'', t) =
          finish_chat model timeout t0 now' item.request h' (resolved r) (after_worker s sh) in
        (error ≡ none)
        × (item.handle ≡ completion h')
        × (response
            ≡ ok (record {
              id = request.request_id;
              model = model;
              content = concat tokens;
              finish_reason = "stop";
              usage = record {
                prompt_tokens = prompt_token_estimate request;
                completion_tokens = length tokens;
                total_tokens = prompt_token_estimate request + length tokens;
              };
            }))
        × (counters t.metrics ≡ one_completed (counters s.metrics))
  unfolding finish_chat prompt_token_estimate
  finish_chat-complete_item model timeout t0 now now' batch_start tokens request h s log o =
      let (fine, item, counted) =
        complete_item_open now batch_start tokens request (seen_by_worker s log) h o in
      (fine, ap (λ i. i.handle) item, rw item refl, counted)

  -- The worker fails a request whose caller waits on an open channel: the response is a 500 with
  -- the exception's message, and the request counts once, as failed.
  pub finish_chat-fail_item :
      (model timeout : String) (t0 now now' : ℕ) (exc : String) (request : RuntimeRequest)
      (h : CompletionHandle) (s : Services sch) (log : List LogEvent)
      → IsOpen (completion h)
      → let (error, item, sh) = fail_item now exc (waits_for request h) (seen_by_worker s log) in
        let h' = record h { future = raised exc } in
        let (response, h'', t) =
          finish_chat model timeout t0 now' item.request h' (failed exc) (after_worker s sh) in
        (error ≡ none)
        × (item.handle ≡ completion h')
        × (response ≡ http_error 500 exc)
        × (counters t.metrics ≡ one_failed (counters s.metrics))
  unfolding finish_chat
  finish_chat-fail_item model timeout t0 now now' exc request h s log o =
      let (fine, item, counted) = fail_item_open now exc request (seen_by_worker s log) h o in
      (fine, ap (λ i. i.handle) item, refl, counted)

  -- The caller's time is up, or the caller goes away, before the worker has finished: the response
  -- is a 504, or none, and the request counts once, as failed. If the worker then completes or
  -- fails it, the item, the collector and the log stay as they are.
  pub finish_chat-GivesUp :
      (model timeout : String) (t0 now now' batch_start : ℕ) (tokens : List String) (exc : String)
      (request : RuntimeRequest) (h : CompletionHandle) (s : Services sch) (sh : Shared)
      {w : Waited} {answer : Response}
      → GivesUp w answer
      → let (response, h', t) = finish_chat model timeout t0 now request h w s in
        (response ≡ answer)
        × (counters t.metrics ≡ one_failed (counters s.metrics))
        × (complete_item now' batch_start tokens (waits_for request h') sh
            ≡ (none, waits_for request h', sh))
        × (fail_item now' exc (waits_for request h') sh ≡ (none, waits_for request h', sh))
  unfolding finish_chat count_failure
  finish_chat-GivesUp model timeout t0 now now' batch_start tokens exc request h s sh times_out = (
    refl,
    counters-record_failure now request s.metrics,
    complete_item_cancelled _ _ _ _ _ (cancel_completion_cancelled h),
    fail_item_cancelled _ _ _ _ (cancel_completion_cancelled h),
  )
  finish_chat-GivesUp model timeout t0 now now' batch_start tokens exc request h s sh goes_away = (
    refl,
    counters-record_failure now request s.metrics,
    complete_item_cancelled _ _ _ _ _ (cancel_completion_cancelled h),
    fail_item_cancelled _ _ _ _ (cancel_completion_cancelled h),
  )

  serve_stream_abandoned :
      (now : ℕ) (model : String) (request : RuntimeRequest) (read : List String)
      (h : StreamingHandle) (s : Services sch)
      → IsOpen (streaming h)
      → counters (serve_stream now model request (map token_event read) h s).2.metrics
        ≡ one_failed (counters s.metrics)
  unfolding serve_stream cancel_stream count_failure
  serve_stream_abandoned now model request read h s (f, c) =
      rw ((chat_completion_stream_abandoned request.request_id model read h f).2, c)
        (counters-record_failure now request s.metrics)

  -- A client that leaves a stream on an open channel after the worker has completed it, and before
  -- it reads the last event, makes the request count twice: as completed by the worker and as
  -- failed by the API.
  pub serve_stream-complete_item :
      (model : String) (now now' batch_start : ℕ) (tokens read : List String)
      (request : RuntimeRequest) (h : StreamingHandle) (s : Services sch) (log : List LogEvent)
      → IsOpen (streaming h)
      → let (error, item, sh) =
          complete_item now batch_start tokens (streams_to request h) (seen_by_worker s log) in
        let h' = put (completed_event "stop") h in
        let (frames, h'', t) =
          serve_stream now' model item.request (map token_event read) h' (after_worker s sh) in
        (item.handle ≡ streaming h')
        × (counters t.metrics ≡ one_failed (one_completed (counters s.metrics)))
  serve_stream-complete_item model now now' batch_start tokens read request h s log o =
      let sh = seen_by_worker s log in
      let (fine, item, counted) =
        stream_complete_item_open now batch_start tokens request sh h o.1 in
      (
        ap (λ i. i.handle) item,
        serve_stream_abandoned now' model _ read (put (completed_event "stop") h) _ o
            ∙ ap one_failed counted,
      )
