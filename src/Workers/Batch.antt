-- ===== src/Workers/Batch.antt =====
-- workers/manager.py: `_execute_batch`, `_complete_item` and `_fail_item`. The dictionaries `items`
-- and `tokens` and the set `pending` have the same keys and are one list of entries, in order of
-- insertion; the set is walked in that order. A stream's queue keeps all that was put on it. What
-- the backend emits, and the cancellations by the API between two events, are a list of happenings
-- with the clock's readings.
pub mod Outcomes
pub mod Counted
pub mod Resolution
pub mod Received
pub mod Totals
pub mod Contract
use llm_serving_runtime.Base.{
  ℕ, suc, ◌+◌, Bool, true, false, not, ◌&&◌, Option, none, some, List, [], ◌∷◌, ◌++◌, if◌then◌else◌,
  length, keep,
}
use llm_serving_runtime.Base.Text.{String, str_eq}
use llm_serving_runtime.Base.Int.{ℤ, sub_ℕ}
use llm_serving_runtime.Core.Request.{mark_first_token, mark_completed}
use llm_serving_runtime.Core.Response.{
  ScheduledRequest, ResponseHandle, completion, streaming, CompletionHandle, token_event,
  completed_event, error_event, Future, finished, raised, is_cancelled, set_outcome, item_cancelled,
  on_request, put, cancel, GenerationResult,
}
use llm_serving_runtime.Metrics.Collector.{MetricsCollector, record_success, record_failure}
use llm_serving_runtime.Backends.Base.{BatchEvent, batch_token, batch_completed, event_id}

-- The log lines that the worker writes.
pub data LogEvent : Type 0 where
  batch_formed : (batch_size : ℕ) → (request_ids : List String) → LogEvent
  request_completed : (request_id : String) → (tokens : ℕ) → (elapsed : ℤ) → LogEvent
  request_failed : (request_id : String) → (error : String) → LogEvent

pub record Shared : Type 0 where
  pub metrics : MetricsCollector
  pub log : List LogEvent

pub record Entry : Type 0 where
  pub item : ScheduledRequest
  pub tokens : List String
  pub is_pending : Bool

abbrev pub entry_id : Entry → String
entry_id e = e.item.request.request_id

-- What a step on one item leaves: the message of the exception that it raised, if any.
abbrev pub Step : Type 0 → Type 0
Step A = Option String × A × Shared

-- `InvalidStateError`, of a second outcome for a future.
abbrev pub invalid_state : String
invalid_state = "invalid state"

abbrev pub result : String → List String → GenerationResult
result id tokens = record { request_id = id; tokens = tokens; finish_reason = "stop" }

abbrev pub with_handle : ResponseHandle → ScheduledRequest → ScheduledRequest
with_handle handle item = record item { handle = handle }

-- `future.set_result` or `future.set_exception`, on a future that was not cancelled.
abbrev pub settle :
    Future → CompletionHandle → ScheduledRequest → Shared → Shared → Step ScheduledRequest
settle outcome h item before after =
    if is_cancelled h.future then (none, item, after) else elim (set_outcome outcome h.future) [
      | none ↦ (some invalid_state, item, before)
      | some future ↦ (none, with_handle (completion (record h { future = future })) item, after)
    ]

-- The end of `_complete_item`: the metrics and the log line.
unfoldable pub count_success : ℕ → ℕ → List String → ScheduledRequest → Shared → Shared
count_success now batch_start tokens item sh = record {
  metrics = record_success item.request (length tokens) sh.metrics;
  log =
      sh.log
      ++ (request_completed item.request.request_id (length tokens) (sub_ℕ now batch_start) ∷ []);
}

unfoldable pub complete_handle :
    ResponseHandle → ℕ → ℕ → List String → ScheduledRequest → Shared → Step ScheduledRequest
complete_handle (completion h) now batch_start tokens item sh =
    settle (finished (result item.request.request_id tokens)) h item sh
      (count_success now batch_start tokens item sh)
complete_handle (streaming h) now batch_start tokens item sh =
    if h.cancelled then (none, item, sh) else (
      none,
      with_handle (streaming (put (completed_event "stop") h)) item,
      count_success now batch_start tokens item sh,
    )

unfoldable pub complete_item :
    ℕ → ℕ → List String → ScheduledRequest → Shared → Step ScheduledRequest
unfolding complete_handle
complete_item now batch_start tokens item sh =
    if item_cancelled item
    then (none, item, sh)
    else complete_handle item.handle now batch_start tokens (on_request (mark_completed now) item)
        sh

unfoldable pub count_failure : ℕ → String → ScheduledRequest → Shared → ScheduledRequest × Shared
count_failure now exc item sh =
    let (request, metrics) = record_failure now item.request sh.metrics in
    (
      record item { request = request },
      record {
        metrics = metrics;
        log = sh.log ++ (request_failed item.request.request_id exc ∷ []);
      },
    )

unfoldable pub fail_handle :
    ResponseHandle → String → ScheduledRequest → Shared → Step ScheduledRequest
fail_handle (completion h) exc item sh = settle (raised exc) h item sh sh
fail_handle (streaming h) exc item sh =
    (none, with_handle (streaming (put (error_event exc) h)) item, sh)

unfoldable pub fail_item : ℕ → String → ScheduledRequest → Shared → Step ScheduledRequest
unfolding fail_handle count_failure
fail_item now exc item sh =
    if item_cancelled item
    then (none, item, sh)
    else let (item', sh') = count_failure now exc item sh in fail_handle item.handle exc item' sh'

-- `isinstance(item.handle, StreamingHandle)`.
abbrev pub put_token : String → ResponseHandle → ResponseHandle
put_token token (completion h) = completion h
put_token token (streaming h) = streaming (put (token_event token) h)

-- What the loop does with an event for an entry that is pending and not cancelled.
unfoldable pub on_event : ℕ → ℕ → BatchEvent → Entry → Shared → Step Entry
unfolding complete_item
on_event now batch_start (batch_token id token) e sh = (
  none,
  record e {
    item = with_handle (put_token token e.item.handle) (on_request (mark_first_token now) e.item);
    tokens = e.tokens ++ (token ∷ []);
  },
  sh,
)
on_event now batch_start (batch_completed id) e sh =
    let (error, item, sh') = complete_item now batch_start e.tokens e.item sh in
    elim error [
      | none ↦ (none, record e { item = item; is_pending = false }, sh')
      | some message ↦ (some message, record e { item = item }, sh')
    ]

unfoldable pub on_entry : ℕ → ℕ → BatchEvent → Entry → Shared → Step Entry
unfolding on_event
on_entry now batch_start event e sh =
    if not e.is_pending
    then (none, e, sh)
    else if item_cancelled e.item
    then (none, record e { is_pending = false }, sh)
    else on_event now batch_start event e sh

-- The event goes to the entry with its id; an id that no entry has is passed over.
unfoldable pub deliver : ℕ → ℕ → BatchEvent → List Entry → Shared → Step (List Entry)
deliver now batch_start event [] sh = (none, [], sh)
deliver now batch_start event (e ∷ entries) sh =
    let (error', rest, sh') = deliver now batch_start event entries sh in
    let (error, e', sh'') = on_entry now batch_start event e sh in
    if str_eq (entry_id e) (event_id event)
    then (error, e' ∷ entries, sh'')
    else (error', e ∷ rest, sh')

-- The API cancels a handle.
unfoldable pub cancel_entry : String → List Entry → List Entry
cancel_entry id [] = []
cancel_entry id (e ∷ entries) =
    let rest = cancel_entry id entries in
    if str_eq (entry_id e) id
    then record e { item = with_handle (cancel e.item.handle).1 e.item } ∷ entries
    else e ∷ rest

-- `for request_id in pending: if not item.cancelled: …`; an exception ends the loop. The body is
-- given the place of the entry, from `k` on, which is also that of its reading of the clock.
unfoldable pub each_pending :
    (ℕ → Entry → Shared → Step ScheduledRequest) → ℕ → List Entry → Shared → Step (List Entry)
each_pending f k [] sh = (none, [], sh)
each_pending f k (e ∷ entries) sh =
    let (error, item, sh') = f k e sh in
    let skipped = each_pending f (suc k) entries sh in
    let next = each_pending f (suc k) entries sh' in
    if e.is_pending && not (item_cancelled e.item)
    then elim error [
      | none ↦ (next.0, record e { item = item } ∷ next.1, next.2)
      | some message ↦ (some message, record e { item = item } ∷ entries, sh')
    ]
    else (skipped.0, e ∷ skipped.1, skipped.2)

unfoldable pub complete_pending : (ℕ → ℕ) → ℕ → List Entry → Shared → Step (List Entry)
unfolding each_pending
complete_pending clock batch_start =
    each_pending (λ k e sh. complete_item (clock k) batch_start e.tokens e.item sh) 0

-- The `except` clause. Its own exception would leave `_execute_batch` and end the worker.
unfoldable pub fail_pending : (ℕ → ℕ) → String → List Entry → Shared → Step (List Entry)
unfolding each_pending
fail_pending clock exc = each_pending (λ k e sh. fail_item (clock k) exc e.item sh) 0

pub data Happening : Type 0 where
  emits : (now : ℕ) → BatchEvent → Happening
  cancels : (request_id : String) → Happening

-- How the backend's generator ends, with the readings of the clock from then on: it is exhausted, or
-- it raises.
pub data Ending : Type 0 where
  exhausted : (clock : ℕ → ℕ) → Ending
  raises : (clock : ℕ → ℕ) → (message : String) → Ending

abbrev pub end_clock : Ending → ℕ → ℕ
end_clock (exhausted clock) = clock
end_clock (raises clock message) = clock

-- The body of the `try`.
unfoldable pub try_body : ℕ → List Happening → Ending → List Entry → Shared → Step (List Entry)
unfolding deliver cancel_entry complete_pending
try_body batch_start [] (exhausted clock) entries sh = complete_pending clock batch_start entries sh
try_body batch_start [] (raises clock message) entries sh = (some message, entries, sh)
try_body batch_start (emits now event ∷ rest) ending entries sh =
    let (error, entries', sh') = deliver now batch_start event entries sh in
    let next = try_body batch_start rest ending entries' sh' in
    elim error [ none ↦ next | some message ↦ (some message, entries', sh') ]
try_body batch_start (cancels id ∷ rest) ending entries sh =
    try_body batch_start rest ending (cancel_entry id entries) sh

-- `_execute_batch` once the dictionaries are built. The readings of the `except` clause follow those
-- of the loop before it. The error, if any, leaves the worker.
unfoldable pub run_batch : ℕ → List Happening → Ending → List Entry → Shared → Step (List Entry)
unfolding try_body fail_pending
run_batch batch_start happenings ending entries sh =
    let (error, entries', sh') = try_body batch_start happenings ending entries sh in
    elim error [
      | none ↦ (none, entries', sh')
      | some message ↦
          fail_pending (λ k. end_clock ending (length entries' + k)) message entries' sh'
    ]

-- The dictionaries, built from the items that are not cancelled. A later item with the same id
-- takes the place of an earlier one.
unfoldable pub enter : ScheduledRequest → List Entry → List Entry
enter item [] = record { item = item; tokens = []; is_pending = true } ∷ []
enter item (e ∷ entries) =
    let rest = enter item entries in
    if str_eq (entry_id e) item.request.request_id
    then record e { item = item } ∷ entries
    else e ∷ rest

unfoldable pub enter_all : List ScheduledRequest → List Entry → List Entry
unfolding enter
enter_all [] entries = entries
enter_all (item ∷ items) entries = enter_all items (enter item entries)

-- `if not active_items: return`.
unfoldable pub run_active :
    ℕ → List Happening → Ending → List ScheduledRequest → Shared → Step (List Entry)
unfolding enter_all run_batch
run_active batch_start happenings ending [] sh = (none, [], sh)
run_active batch_start happenings ending (item ∷ items) sh =
    run_batch batch_start happenings ending (enter_all (item ∷ items) []) sh

unfoldable pub execute_batch :
    ℕ → List Happening → Ending → List ScheduledRequest → Shared → Step (List Entry)
unfolding run_active
execute_batch batch_start happenings ending items sh =
    run_active batch_start happenings ending (keep (λ item. not (item_cancelled item)) items) sh
