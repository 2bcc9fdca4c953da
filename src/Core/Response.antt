-- ===== src/Core/Response.antt =====
-- core/response.py: results, stream events, and the response channel of each request. An exception
-- is its message, as `str(exc)` gives it. `asyncio.Future` is modelled as far as the code uses it:
-- a future that is done takes no second outcome, and raises `InvalidStateError`.
use llm_serving_runtime.Base.{
  ◌≡◌, Bool, true, false, not, ◌||◌, Option, none, some, List, [], ◌∷◌, ◌++◌, arith, if◌then◌else◌,
}
use llm_serving_runtime.Base.Text.{String}
use llm_serving_runtime.Core.Request.{RuntimeRequest}

pub record GenerationResult : Type 0 where
  pub request_id : String
  pub tokens : List String
  pub finish_reason : String

pub data StreamEvent : Type 0 where
  token_event : (token : String) → StreamEvent
  completed_event : (finish_reason : String) → StreamEvent
  error_event : (message : String) → StreamEvent

pub data Future : Type 0 where
  pending : Future
  finished : GenerationResult → Future
  raised : (message : String) → Future
  cancelled : Future

abbrev pub is_done : Future → Bool
is_done pending = false
is_done _ = true

abbrev pub is_cancelled : Future → Bool
is_cancelled cancelled = true
is_cancelled _ = false

-- `none` is `InvalidStateError`.
abbrev pub set_outcome : Future → Future → Option Future
set_outcome outcome pending = some outcome
set_outcome outcome _ = none

pub record CompletionHandle : Type 0 where
  pub future : Future
  pub cancelled : Bool

pub record StreamingHandle : Type 0 where
  pub queue : List StreamEvent
  pub cancelled : Bool
  pub completed : Bool

abbrev pub new_completion : CompletionHandle
new_completion = record { future = pending; cancelled = false }

abbrev pub new_streaming : StreamingHandle
new_streaming = record { queue = []; cancelled = false; completed = false }

unfoldable pub cancel_completion : CompletionHandle → Bool × CompletionHandle
cancel_completion h = if h.cancelled then (false, h) else (
  true,
  record h {
    cancelled = true;
    future = if not (is_done h.future) then Future.cancelled else h.future;
  },
)

unfoldable pub cancel_streaming : StreamingHandle → Bool × StreamingHandle
cancel_streaming h =
    if h.cancelled || h.completed then (false, h) else (true, record h { cancelled = true })

abbrev pub mark_completed : StreamingHandle → StreamingHandle
mark_completed h = record h { completed = true }

abbrev pub put : StreamEvent → StreamingHandle → StreamingHandle
put e h = record h { queue = h.queue ++ (e ∷ []) }

pub data ResponseHandle : Type 0 where
  completion : CompletionHandle → ResponseHandle
  streaming : StreamingHandle → ResponseHandle

abbrev pub handle_cancelled : ResponseHandle → Bool
handle_cancelled (completion h) = h.cancelled
handle_cancelled (streaming h) = h.cancelled

unfoldable pub cancel : ResponseHandle → Bool × ResponseHandle
unfolding cancel_completion cancel_streaming
cancel (completion h) = let (first, h') = cancel_completion h in (first, completion h')
cancel (streaming h) = let (first, h') = cancel_streaming h in (first, streaming h')

pub record ScheduledRequest : Type 0 where
  pub request : RuntimeRequest
  pub handle : ResponseHandle

abbrev pub item_cancelled : ScheduledRequest → Bool
item_cancelled item = handle_cancelled item.handle

abbrev pub on_request : (RuntimeRequest → RuntimeRequest) → ScheduledRequest → ScheduledRequest
on_request f item = record item { request = f item.request }

-- A channel can still deliver an outcome to its caller.
abbrev pub IsOpen : ResponseHandle → Type 0
IsOpen (completion h) = (h.future ≡ pending) × (h.cancelled ≡ false)
IsOpen (streaming h) = (h.completed ≡ false) × (h.cancelled ≡ false)

-- `cancel` reports true at most once: a second call finds the channel closed and changes nothing.
pub cancel-cancel : (h : ResponseHandle) → cancel (cancel h).1 ≡ (false, (cancel h).1)
unfolding cancel
cancel-cancel (completion h) = ground arith
cancel-cancel (streaming h) = ground arith

-- An outcome that arrived before the cancellation stays readable.
pub cancel-keeps_outcome :
    (h : CompletionHandle) → is_done h.future ≡ true → (cancel_completion h).1.future ≡ h.future
unfolding cancel_completion
cancel-keeps_outcome h d = ground arith
