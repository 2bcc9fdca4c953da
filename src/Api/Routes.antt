-- ===== src/Api/Routes.antt =====
-- api/routes.py: the handler of chat completions, in the parts between its waits, over any scheduler
-- that meets the interface. The outcome of `asyncio.wait_for` is an argument, and so are the
-- readings of the clock and the new request's id. HTTP and the log's text are left out: a response
-- is a value, and a log line is an event.
pub mod Admitting
pub mod Queueing
pub mod Accounting
use llm_serving_runtime.Base.{ℕ, ◌+◌, Bool, List, [], ◌∷◌, ◌++◌, if◌then◌else◌, length}
use llm_serving_runtime.Base.Text.{String, concat}
use llm_serving_runtime.Base.Int.{ℤ, sub_ℕ}
use llm_serving_runtime.Core.Request.{ChatCompletionRequest, RuntimeRequest, from_chat_request}
use llm_serving_runtime.Core.Prompt.{prompt_token_estimate}
use llm_serving_runtime.Core.Response.{
  GenerationResult, CompletionHandle, StreamingHandle, completion, streaming, new_completion,
  new_streaming, cancel_completion, StreamEvent, ScheduledRequest,
}
use llm_serving_runtime.Api.Streaming.{Frame, chat_completion_stream}
use llm_serving_runtime.Admission.{AdmissionController, AdmissionDecision, admit}
use llm_serving_runtime.Metrics.Collector.{
  MetricsCollector, record_request, record_rejection, record_failure,
}
use llm_serving_runtime.Scheduler.Interface.{Scheduler}

pub data ApiEvent : Type 0 where
  request_received : (request_id model : String) → (stream : Bool) → ApiEvent
  request_rejected : (request_id reason : String) → (status_code : ℕ) → ApiEvent
  request_enqueued : (request_id : String) → ApiEvent
  request_completed : (request_id : String) → (tokens : ℕ) → (elapsed : ℤ) → ApiEvent
  request_failed : (request_id error : String) → ApiEvent

-- What the handlers share, and change.
pub record Services (sch : Scheduler) : Type 0 where
  pub metrics : MetricsCollector
  pub admission : AdmissionController
  pub scheduler : sch.State
  pub log : List ApiEvent

pub record Usage : Type 0 where
  pub prompt_tokens : ℕ
  pub completion_tokens : ℕ
  pub total_tokens : ℕ

-- The response has one choice, with the index 0, the role `assistant` and this content.
pub record ChatCompletionResponse : Type 0 where
  pub id : String
  pub model : String
  pub content : String
  pub finish_reason : String
  pub usage : Usage

pub data Response : Type 0 where
  ok : ChatCompletionResponse → Response
  http_error : (status_code : ℕ) → (detail : String) → Response
  client_gone : Response

-- What the first part of the handler leaves: a refusal, or an item for the scheduler.
pub data Accepted : Type 0 where
  refused : Response → Accepted
  admitted : ScheduledRequest → Accepted

module _ {sch : Scheduler} where
  abbrev pub log_event : ApiEvent → Services sch → Services sch
  log_event e s = record s { log = s.log ++ (e ∷ []) }

  -- The branch of a request that admission control refuses.
  unfoldable pub reject_chat :
      RuntimeRequest → AdmissionDecision → Services sch → Accepted × Services sch
  reject_chat request d s = (
    refused (http_error d.status_code d.detail),
    log_event (request_rejected request.request_id d.reason d.status_code)
        (record s { metrics = record_rejection request.priority d.reason s.metrics }),
  )

  -- The branch of an accepted request, up to the wait for `scheduler.submit`.
  unfoldable pub accept_chat : RuntimeRequest → Bool → Services sch → Accepted × Services sch
  accept_chat request stream s =
      let handle = if stream then streaming new_streaming else completion new_completion in
      (
        admitted (record { request = request; handle = handle }),
        record s { metrics = record_request s.metrics },
      )

  -- `create_chat_completion` up to its first wait.
  unfoldable pub admit_chat :
      String → ℕ → ChatCompletionRequest → Services sch → Accepted × Services sch
  unfolding reject_chat accept_chat
  admit_chat id now body s =
      let request = from_chat_request id now body in
      let (d, admission) = admit now (sch.size s.scheduler) s.admission in
      let s' =
        log_event (request_received id body.model body.stream)
          (record s { admission = admission }) in
      if d.accepted then accept_chat request body.stream s' else reject_chat request d s'

  -- `await scheduler.submit`, from when it has the scheduler, and the log line after it. Other tasks
  -- run between `admit_chat` and this step while `submit` waits for the scheduler's lock.
  unfoldable pub put_chat : ℕ → ScheduledRequest → Services sch → Services sch
  put_chat now item s =
      log_event (request_enqueued item.request.request_id)
        (record s { scheduler = sch.submit now item s.scheduler })

  -- A failure that the API counts itself.
  unfoldable pub count_failure : ℕ → String → RuntimeRequest → Services sch → Services sch
  count_failure now error request s =
      log_event (request_failed request.request_id error)
        (record s { metrics = (record_failure now request s.metrics).1 })

  -- `cancel_stream`.
  unfoldable pub cancel_stream : ℕ → RuntimeRequest → Services sch → Services sch
  unfolding count_failure
  cancel_stream now request s = count_failure now "stream disconnected" request s

module _ {sch : Scheduler} where
  -- The body of a `StreamingResponse`, with the events that it reads; the frames are its text.
  unfoldable pub serve_stream :
      ℕ
      → String
      → RuntimeRequest
      → List StreamEvent
      → StreamingHandle
      → Services sch
      → List Frame × StreamingHandle × Services sch
  unfolding chat_completion_stream cancel_stream
  serve_stream now model request events h s =
      let (frames, h', cancelled) = chat_completion_stream request.request_id model events h in
      (frames, h', if cancelled then cancel_stream now request s else s)

-- How the wait for a completion ends.
pub data Waited : Type 0 where
  resolved : GenerationResult → Waited
  timed_out : Waited
  cancelled : Waited
  failed : (message : String) → Waited

unfoldable pub respond : String → RuntimeRequest → GenerationResult → ChatCompletionResponse
respond model request r =
    let prompt_tokens = prompt_token_estimate request in
    record {
      id = r.request_id;
      model = model;
      content = concat r.tokens;
      finish_reason = "stop";
      usage = record {
        prompt_tokens = prompt_tokens;
        completion_tokens = length r.tokens;
        total_tokens = prompt_tokens + length r.tokens;
      };
    }

module _ {sch : Scheduler} where
  -- The rest of `create_chat_completion` for a request that is not streamed, from its wait on. `t0`
  -- is the reading before the wait, and `timeout` the text of `request_timeout_s`.
  unfoldable pub finish_chat :
      String
      → String
      → ℕ
      → ℕ
      → RuntimeRequest
      → CompletionHandle
      → Waited
      → Services sch
      → Response × CompletionHandle × Services sch
  unfolding respond
  finish_chat model timeout t0 now request h (resolved r) s = (
    ok (respond model request r),
    h,
    log_event (request_completed request.request_id (length r.tokens) (sub_ℕ now t0)) s,
  )
  finish_chat model timeout t0 now request h timed_out s = (
    http_error 504 "request timed out",
    (cancel_completion h).1,
    count_failure now (concat ("request timed out after " ∷ timeout ∷ "s" ∷ [])) request s,
  )
  finish_chat model timeout t0 now request h cancelled s =
      (client_gone, (cancel_completion h).1, count_failure now "client disconnected" request s)
  finish_chat model timeout t0 now request h (failed message) s =
      (http_error 500 message, h, log_event (request_failed request.request_id message) s)
