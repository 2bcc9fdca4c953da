-- ===== src/Scheduler/Fifo.antt =====
-- scheduler/fifo.py. `asyncio.Queue` is a list, oldest first. What other tasks do while a call waits
-- is an argument: the requests that they put on the queue, and the clock's readings.
pub mod Order
use llm_serving_runtime.Base.{
  ℕ, zero, suc, ◌+◌, ◌-◌, ◌*◌, not, ◌&&◌, Option, none, some, List, [], ◌∷◌, ◌++◌, leb, ◌==◌,
  if◌then◌else◌, length,
}
use llm_serving_runtime.Core.Request.{mark_enqueued, mark_started}
use llm_serving_runtime.Core.Response.{ScheduledRequest, on_request}
use llm_serving_runtime.Scheduler.Batching.{Batch, start_all}

pub record FifoScheduler : Type 0 where
  pub queue : List ScheduledRequest

abbrev pub empty : FifoScheduler
empty = record { queue = [] }

unfoldable pub submit : ℕ → ScheduledRequest → FifoScheduler → FifoScheduler
submit now item s = record { queue = s.queue ++ (on_request (mark_enqueued now) item ∷ []) }

unfoldable pub size : FifoScheduler → ℕ
size s = length s.queue

-- `queue.get()` on a queue that is not empty; on an empty one, `none`, it waits.
abbrev pub get : List ScheduledRequest → Option (ScheduledRequest × List ScheduledRequest)
get [] = none
get (item ∷ queue) = some (item, queue)

unfoldable pub next_request : ℕ → FifoScheduler → Option (ScheduledRequest × FifoScheduler)
next_request now s = elim (get s.queue) [
  | none ↦ none
  | some (item, queue) ↦ some (on_request (mark_started now) item, record { queue = queue })
]

-- One round of the loop in `next_batch`: the requests that other tasks put on the queue until the
-- round's `get` has an item or gives up, and the reading in `deadline - perf_counter()`.
pub record Round : Type 0 where
  pub arrivals : List ScheduledRequest
  pub now : ℕ

-- The round takes the head of the queue, unless the deadline has passed. With the timeout 0 it
-- reads no clock. An empty queue ends the loop in both ways: `QueueEmpty` and `TimeoutError`.
unfoldable pub take_one :
    ℕ → ℕ → Round → List ScheduledRequest → Option ScheduledRequest × List ScheduledRequest
take_one timeout deadline r queue =
    let waiting = queue ++ r.arrivals in
    if not (timeout == 0) && leb deadline r.now
    then (none, waiting)
    else elim (get waiting) [ none ↦ (none, []) | some (item, rest) ↦ (some item, rest) ]

-- `todo` is `max_batch_size - len(items)`: a round adds one item or ends the loop. The result is
-- what the loop adds, the queue it leaves, and the number of rounds.
unfoldable pub collect :
    (ℕ → Round)
    → ℕ
    → ℕ
    → ℕ
    → ℕ
    → List ScheduledRequest
    → List ScheduledRequest × List ScheduledRequest × ℕ
collect rounds timeout deadline k zero queue = ([], queue, 0)
collect rounds timeout deadline k (suc todo) queue =
    let (taken, rest) = take_one timeout deadline (rounds k) queue in
    elim taken [
      | none ↦ ([], rest, 1)
      | some item ↦
          let (items, last, used) = collect rounds timeout deadline (suc k) todo rest in
          (item ∷ items, last, suc used)
    ]

abbrev pub ns_per_ms : ℕ
ns_per_ms = 1_000_000

-- `none`: the first `get` waits. `now` is read for the deadline; `clock` gives the readings of
-- `mark_started`, and the batch's own.
unfoldable pub next_batch :
    (ℕ → Round) → ℕ → (ℕ → ℕ) → ℕ → ℕ → FifoScheduler → Option (Batch × FifoScheduler)
next_batch rounds now clock max_batch_size batch_timeout_ms s = elim (get s.queue) [
  | none ↦ none
  | some (first, queue) ↦
      let timeout = batch_timeout_ms * ns_per_ms in
      let (items, rest, _) = collect rounds timeout (now + timeout) 0 (max_batch_size - 1) queue in
      let started = start_all clock 0 (first ∷ items) in
      some
        (record { items = started; created_at = clock (length started) }, record { queue = rest })
]
