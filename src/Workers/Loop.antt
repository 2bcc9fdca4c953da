-- ===== src/Workers/Loop.antt =====
-- workers/manager.py, `_worker_loop`, on the FIFO scheduler, one worker. A turn of the loop is one
-- batch. What the other tasks do is an argument of the turn: what they put on the queue before and
-- while the batch is collected, the requests that they cancel up to its start, and what happens
-- while it is executed. The scheduler looks at no handle, and a batch under execution not at the
-- queue, so a cancellation may be moved to the next start of a batch.
pub mod Waiting
pub mod Ready
pub mod Served
pub mod Progress
use llm_serving_runtime.Base.{
  ℕ, Option, none, some, List, [], ◌∷◌, ◌++◌, map, if◌then◌else◌, length,
}
use llm_serving_runtime.Base.Text.{String, str_eq}
use llm_serving_runtime.Core.Response.{ScheduledRequest, cancel}
use llm_serving_runtime.Metrics.Collector.{record_batch}
use llm_serving_runtime.Scheduler.Batching
use llm_serving_runtime.Scheduler.Fifo.{FifoScheduler, Round, next_batch}
use llm_serving_runtime.Scheduler.Fifo.Order.{arrived, rounds_used}
use llm_serving_runtime.Workers.Batch.{
  Shared, batch_formed, Entry, entry_id, Happening, Ending, execute_batch, with_handle,
}
use llm_serving_runtime.Workers.Batch.Contract.{item_id}

pub record Turn : Type 0 where
  pub arrivals : List ScheduledRequest
  pub rounds : ℕ → Round
  pub now : ℕ
  pub clock : ℕ → ℕ
  pub cancels : List String
  pub batch_start : ℕ
  pub happenings : List Happening
  pub ending : Ending

-- The API cancels the request with an id.
abbrev pub cancel_if : String → ScheduledRequest → ScheduledRequest
cancel_if id item =
    if str_eq (item_id item) id then with_handle (cancel item.handle).1 item else item

abbrev pub cancel_ids : List String → ScheduledRequest → ScheduledRequest
cancel_ids [] item = item
cancel_ids (id ∷ ids) item = cancel_ids ids (cancel_if id item)

-- What a turn finds on the queue.
abbrev pub arrive : Turn → FifoScheduler → FifoScheduler
arrive t s = record { queue = s.queue ++ t.arrivals }

abbrev pub after_cancels : Turn → FifoScheduler → FifoScheduler
after_cancels t s = record { queue = map (cancel_ids t.cancels) s.queue }

-- The start of a batch: its size is counted and logged.
unfoldable pub form_batch : List ScheduledRequest → Shared → Shared
form_batch items sh = record {
  metrics = record_batch (length items) sh.metrics;
  log = sh.log ++ (batch_formed (length items) (map item_id items) ∷ []);
}

-- What the loop leaves: the message of an exception that ended it, if any; the requests that its
-- batches took, as they stood at the batch's start; the entries of those that were not cancelled
-- then; all that was put on the queue; the queue, and the rest of the state.
pub record Run : Type 0 where
  pub error : Option String
  pub taken : List ScheduledRequest
  pub entries : List (Ending × Entry)
  pub put_on : List ScheduledRequest
  pub scheduler : FifoScheduler
  pub shared : Shared

abbrev pub served_id : Ending × Entry → String
served_id e = entry_id e.1

abbrev pub idle : FifoScheduler → Shared → Run
idle s sh = record {
  error = none;
  taken = [];
  entries = [];
  put_on = [];
  scheduler = s;
  shared = sh;
}

-- A turn that takes nothing, or a batch, and the turns after it.
abbrev pub wait_then : Turn → Run → Run
wait_then t rest = record rest { put_on = t.arrivals ++ rest.put_on }

abbrev pub batch_then :
    List ScheduledRequest → List (Ending × Entry) → List ScheduledRequest → Run → Run
batch_then items entries put_on rest = record rest {
  taken = items ++ rest.taken;
  entries = entries ++ rest.entries;
  put_on = put_on ++ rest.put_on;
}

module _ (max_batch_size batch_timeout_ms : ℕ) where
  -- What is put on the queue while a turn's batch is collected.
  unfoldable pub collected_arrivals : Turn → FifoScheduler → List ScheduledRequest
  unfolding arrived rounds_used
  collected_arrivals t s =
      arrived t.rounds 0 (rounds_used t.rounds t.now max_batch_size batch_timeout_ms s.queue)

  -- With an empty queue, `next_batch` waits and the turn takes nothing. An exception of
  -- `_execute_batch` ends the loop.
  unfoldable pub worker_loop : List Turn → FifoScheduler → Shared → Run
  unfolding next_batch form_batch execute_batch collected_arrivals
  worker_loop [] s sh = idle s sh
  worker_loop (t ∷ turns) s sh =
      let s1 = arrive t s in
      elim (next_batch t.rounds t.now t.clock max_batch_size batch_timeout_ms s1) [
        | none ↦ wait_then t (worker_loop turns s1 sh)
        | some (b, s2) ↦
            let items = map (cancel_ids t.cancels) b.items in
            let s3 = after_cancels t s2 in
            let (error, entries, sh') =
              execute_batch t.batch_start t.happenings t.ending items (form_batch items sh) in
            let rest = worker_loop turns s3 sh' in
            batch_then items (map (λ e. (t.ending, e)) entries)
              (t.arrivals ++ collected_arrivals t s1)
              (elim error [
                | none ↦ rest
                | some message ↦ record (idle s3 sh') { error = some message }
              ])
      ]
