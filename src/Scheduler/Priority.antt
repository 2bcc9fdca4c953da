-- ===== src/Scheduler/Priority.antt =====
-- scheduler/priority.py. The condition's lock makes each method atomic between its waits, so a
-- method is a function of the scheduler; what other tasks submit during a wait is an argument, and
-- so are the readings of `time_fn`. `-` stops at 0, as `max(0, …)` does.
pub mod Select
pub mod Aging
pub mod Batches
use llm_serving_runtime.Base.{
  ℕ, zero, suc, ◌+◌, ◌-◌, ◌*◌, ◌/◌, Bool, ◌&&◌, ◌||◌, Option, none, some, List, [], ◌∷◌, ◌++◌, map,
  ltb, leb, ◌==◌, if◌then◌else◌, length, get_elem?, erase_idx,
}
use llm_serving_runtime.Core.Request.{mark_enqueued, mark_started}
use llm_serving_runtime.Core.Response.{ScheduledRequest, on_request}
use llm_serving_runtime.Scheduler.Batching.{Batch, start_all}

pub record QueuedRequest : Type 0 where
  pub priority : ℕ
  pub sequence : ℕ
  pub queued_at : ℕ
  pub item : ScheduledRequest

pub record PriorityScheduler : Type 0 where
  pub aging_boost_interval_s : ℕ
  pub items : List QueuedRequest
  pub counter : ℕ

abbrev pub new : ℕ → PriorityScheduler
new interval = record { aging_boost_interval_s = interval; items = []; counter = 0 }

-- `enqueued` is the reading of `mark_enqueued`, `now` that of `time_fn`.
unfoldable pub submit : ℕ → ℕ → ScheduledRequest → PriorityScheduler → PriorityScheduler
submit enqueued now item s = record s { counter = s.counter + 1; items = s.items ++ (queued ∷ []) }
  where
    queued : QueuedRequest
    queued = record {
      priority = item.request.priority;
      sequence = s.counter + 1;
      queued_at = now;
      item = on_request (mark_enqueued enqueued) item;
    }

unfoldable pub size : PriorityScheduler → ℕ
size s = length s.items

unfoldable pub effective_priority : ℕ → QueuedRequest → ℕ → ℕ
effective_priority interval queued now =
    if leb interval 0
    then queued.priority
    else queued.priority - (now - queued.queued_at) / interval

-- The order of the keys `(effective_priority, sequence)`.
unfoldable pub key_lt : ℕ → ℕ → QueuedRequest → QueuedRequest → Bool
key_lt interval now a b =
    let p = effective_priority interval a now in
    let q = effective_priority interval b now in ltb p q || (p == q && ltb a.sequence b.sequence)

-- `min(range(n), key=…)`: the index of the first least key. `best` stands at index `best_index`, and
-- the scan goes on at index `i`.
unfoldable pub scan : ℕ → ℕ → ℕ → QueuedRequest → ℕ → List QueuedRequest → ℕ
scan interval now best_index best i [] = best_index
scan interval now best_index best i (x ∷ xs) =
    let better = key_lt interval now x best in
    scan interval now (if better then i else best_index) (if better then x else best) (suc i) xs

-- `self._items.pop(index)`.
unfoldable pub pop_at : ℕ → PriorityScheduler → Option (QueuedRequest × PriorityScheduler)
pop_at index s = elim (get_elem? s.items index) [
  | none ↦ none
  | some queued ↦ some (queued, record s { items = erase_idx s.items index })
]

-- The entry that `_pop_next_locked` takes, and the scheduler without it; `none` is the `ValueError`
-- of `min` on an empty range.
unfoldable pub select : ℕ → PriorityScheduler → Option (QueuedRequest × PriorityScheduler)
select now s = elim s.items [
  | [] ↦ none
  | x ∷ xs ↦ pop_at (scan s.aging_boost_interval_s now 0 x 1 xs) s
]

unfoldable pub pop_next_locked :
    ℕ → PriorityScheduler → Option (ScheduledRequest × PriorityScheduler)
pop_next_locked now s = elim (select now s) [
  | none ↦ none
  | some (queued, s') ↦ some (queued.item, s')
]

-- `none`: the queue is empty, and the call waits on the condition.
unfoldable pub next_request :
    ℕ → ℕ → PriorityScheduler → Option (ScheduledRequest × PriorityScheduler)
next_request now started s = elim (pop_next_locked now s) [
  | none ↦ none
  | some (item, s') ↦ some (on_request (mark_started started) item, s')
]

-- What another task passes to `submit`.
pub record Submission : Type 0 where
  pub enqueued : ℕ
  pub now : ℕ
  pub item : ScheduledRequest

unfoldable pub submit_all : List Submission → PriorityScheduler → PriorityScheduler
submit_all [] s = s
submit_all (x ∷ xs) s = submit_all xs (submit x.enqueued x.now x.item s)

-- A wait on the condition inside `next_batch` that a notification ends: the reading before it, and
-- what was submitted during it.
pub record Wait : Type 0 where
  pub now : ℕ
  pub submissions : List Submission

-- The loop of `next_batch`, with `todo` items still to take. After the listed waits the next one
-- times out. `clock` gives the readings of the pops.
unfoldable pub collect :
    (ℕ → ℕ) → ℕ → ℕ → ℕ → List Wait → PriorityScheduler → List QueuedRequest × PriorityScheduler
collect clock timeout deadline zero waits s = ([], s)
collect clock timeout deadline (suc todo) [] s = elim (select (clock todo) s) [
  | none ↦ ([], s)
  | some (queued, s') ↦
      let (items, last) = collect clock timeout deadline todo [] s' in (queued ∷ items, last)
]
collect clock timeout deadline (suc todo) (w ∷ waits) s = elim (select (clock todo) s) [
  | none ↦
      let woken = collect clock timeout deadline (suc todo) waits (submit_all w.submissions s) in
      if timeout == 0 || leb deadline w.now then ([], s) else woken
  | some (queued, s') ↦
      let (items, last) = collect clock timeout deadline todo (w ∷ waits) s' in
      (queued ∷ items, last)
]

abbrev pub ns_per_ms : ℕ
ns_per_ms = 1_000_000

unfoldable pub next_batch :
    (ℕ → ℕ)
    → List Wait
    → ℕ
    → (ℕ → ℕ)
    → ℕ
    → ℕ
    → PriorityScheduler
    → Option (Batch × PriorityScheduler)
next_batch clock waits now started max_batch_size batch_timeout_ms s =
    elim (select (clock max_batch_size) s) [
      | none ↦ none
      | some (first, s') ↦
          let timeout = batch_timeout_ms * ns_per_ms in
          let (rest, last) = collect clock timeout (now + timeout) (max_batch_size - 1) waits s' in
          let items = start_all started 0 (map (λ q. q.item) (first ∷ rest)) in
          some (record { items = items; created_at = started (length items) }, last)
    ]
