-- ===== src/Workers/Pool.antt =====
-- workers/manager.py: the tasks of `start`, any number of loops over one scheduler, interleaved in any
-- order with the API. Between two awaits that wait a task runs alone: from `next_batch` to the first
-- event, on each event, and from the end of the events to the next `next_batch`. An `await queue.put`
-- does not wait, since the queue of a stream has no bound. A call of `next_batch` is one step, with
-- what is submitted during its waits: the runtime starts several workers only with batches of one
-- request, and such a call does not wait any more once it has one.
pub mod Members
pub mod Tickets
pub mod Turns
pub mod Sound
pub mod Taken
pub mod Safety
pub mod Load
pub mod Advance
pub mod Drain
pub mod Settled
pub mod Heard
pub mod Delivered
pub mod Left
pub mod Conserved
use llm_serving_runtime.Base.{
  All, ℕ, zero, suc, ◌≡◌, not, none, some, List, [], ◌∷◌, ◌++◌, map, get_elem?, replicate, keep,
}
use llm_serving_runtime.Base.Text.{String}
use llm_serving_runtime.Core.Response.{
  ScheduledRequest, ResponseHandle, completion, streaming, new_completion, new_streaming,
  item_cancelled,
}
use llm_serving_runtime.Backends.Base.{BatchEvent}
use llm_serving_runtime.Scheduler.Batching.{Batch}
use llm_serving_runtime.Scheduler.Source.{Source}
use llm_serving_runtime.Workers.Batch.{
  Shared, Entry, Step, Ending, raises, deliver, cancel_entry, fail_pending, run_batch, enter_all,
}
use llm_serving_runtime.Workers.Batch.Contract.{item_id}
use llm_serving_runtime.Workers.Loop.{cancel_if, form_batch}

-- A task waits for a request, is at an event of its batch, or ended with an exception.
pub data Worker : Type 0 where
  waits : Worker
  busy : (batch_start : ℕ) → (entries : List Entry) → Worker
  died : (message : String) → Worker

abbrev pub set_at {ℓ} : {A : Type ℓ} → ℕ → A → List A → List A
set_at i y [] = []
set_at zero y (x ∷ xs) = y ∷ xs
set_at (suc i) y (x ∷ xs) = x ∷ set_at i y xs

-- What a turn leaves of a worker: its state, and the entries of a batch that ended.
pub record Turned : Type 0 where
  pub worker : Worker
  pub served : List (Ending × Entry)
  pub shared : Shared

-- The loop after `next_batch`, up to the first event. A batch with no active request is left at once.
abbrev pub work_on : ℕ → List ScheduledRequest → Worker
work_on batch_start [] = waits
work_on batch_start (item ∷ items) = busy batch_start (enter_all (item ∷ items) [])

unfoldable pub begin_batch : ℕ → List ScheduledRequest → Shared → Turned
unfolding form_batch
begin_batch batch_start items sh = record {
  worker = work_on batch_start (keep (λ item. not (item_cancelled item)) items);
  served = [];
  shared = form_batch items sh;
}

-- The batch ended: the loop goes on, or an exception ends it.
abbrev pub settle_batch : Ending → Step (List Entry) → Turned
settle_batch ending (error, entries, sh) = record {
  worker = elim error [ none ↦ waits | some message ↦ died message ];
  served = map (λ e. (ending, e)) entries;
  shared = sh;
}

-- An event of the backend, at the clock's first reading; an exception that it raises is handled as
-- one of the backend's, at the later readings.
unfoldable pub hear : (ℕ → ℕ) → BatchEvent → ℕ → List Entry → Shared → Turned
unfolding deliver fail_pending
hear clock event batch_start entries sh =
    let (error, entries', sh') = deliver (clock 0) batch_start event entries sh in
    elim error [
      | none ↦ record { worker = busy batch_start entries'; served = []; shared = sh' }
      | some message ↦
          let later_clock : ℕ → ℕ = λ k. clock (suc k) in
          settle_batch (raises later_clock message) (fail_pending later_clock message entries' sh')
    ]

-- The end of the backend's events.
unfoldable pub end_batch : Ending → ℕ → List Entry → Shared → Turned
unfolding run_batch
end_batch ending batch_start entries sh =
    settle_batch ending (run_batch batch_start [] ending entries sh)

abbrev pub cancel_worker : String → Worker → Worker
cancel_worker id waits = waits
cancel_worker id (busy batch_start entries) = busy batch_start (cancel_entry id entries)
cancel_worker id (died message) = died message

-- The last three are the history: the ids that were put on the scheduler, those that were cancelled
-- before their batch began, and the entries of the batches that ended.
pub record Pool (src : Source) : Type 0 where
  pub scheduler : src.State
  pub workers : List Worker
  pub shared : Shared
  pub put_on : List String
  pub skipped : List String
  pub served : List (Ending × Entry)

abbrev pub start_pool : (src : Source) → ℕ → src.State → Shared → Pool src
start_pool src n s sh = record {
  scheduler = s;
  workers = replicate n waits;
  shared = sh;
  put_on = map item_id (src.waiting s);
  skipped = [];
  served = [];
}

module _ (src : Source) where
  unfoldable pub submit : ℕ → ScheduledRequest → Pool src → Pool src
  submit now item p = record p {
    scheduler = src.submit now item p.scheduler;
    put_on = p.put_on ++ (item_id item ∷ []);
  }

  -- The API cancels the handle of a request.
  unfoldable pub cancel_request : String → Pool src → Pool src
  cancel_request id p = record p {
    scheduler = src.on_items (cancel_if id) p.scheduler;
    workers = map (cancel_worker id) p.workers;
  }

  -- The worker with an index takes what `next_batch` gave; some requests were submitted meanwhile.
  unfoldable pub take_batch :
      ℕ → ℕ → List ScheduledRequest → List ScheduledRequest → src.State → Pool src → Pool src
  unfolding begin_batch
  take_batch w batch_start submitted items left p =
      let turned = begin_batch batch_start items p.shared in
      record p {
        scheduler = left;
        workers = set_at w turned.worker p.workers;
        shared = turned.shared;
        put_on = p.put_on ++ map item_id submitted;
        skipped = p.skipped ++ map item_id (keep item_cancelled items);
      }

  -- The worker with an index has had its turn.
  unfoldable pub has_turned : ℕ → Turned → Pool src → Pool src
  has_turned w turned p = record p {
    workers = set_at w turned.worker p.workers;
    shared = turned.shared;
    served = p.served ++ turned.served;
  }

-- A handle as the API creates it.
abbrev pub IsNew : ResponseHandle → Type 0
IsNew (completion h) = h ≡ new_completion
IsNew (streaming h) = h ≡ new_streaming

-- The turns of the workers.
pub data WorkerTurn (src : Source) (p : Pool src) : Pool src → Type 0 where
  takes :
      (w batch_start : ℕ) (clock : src.Clock) (b : Batch) (left : src.State)
      → get_elem? p.workers w ≡ some waits
      → src.next_batch clock p.scheduler ≡ some (b, left)
      → All (λ item. IsNew item.handle) (src.submitted clock p.scheduler)
      → WorkerTurn src p
          (take_batch src w batch_start (src.submitted clock p.scheduler) b.items left p)
  hears :
      (w : ℕ) (clock : ℕ → ℕ) (batch_start : ℕ) (event : BatchEvent) (entries : List Entry)
      → get_elem? p.workers w ≡ some (busy batch_start entries)
      → WorkerTurn src p (has_turned src w (hear clock event batch_start entries p.shared) p)
  ends :
      (w batch_start : ℕ) (ending : Ending) (entries : List Entry)
      → get_elem? p.workers w ≡ some (busy batch_start entries)
      → WorkerTurn src p (has_turned src w (end_batch ending batch_start entries p.shared) p)

-- The API puts a request with a new handle on the scheduler, or cancels one.
pub data PoolStep (src : Source) (p : Pool src) : Pool src → Type 0 where
  submits :
      (now : ℕ) (item : ScheduledRequest)
      → IsNew item.handle
      → PoolStep src p (submit src now item p)
  cancels : (id : String) → PoolStep src p (cancel_request src id p)
  turns : {q : Pool src} → WorkerTurn src p q → PoolStep src p q

-- Any number of steps.
pub data Steps {A : Type 0} (R : A → A → Type 0) (x : A) : A → Type 0 where
  here : Steps R x x
  later : {y z : A} → Steps R x y → R y z → Steps R x z
