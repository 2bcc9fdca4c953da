-- ===== src/Scheduler/Source.antt =====
-- scheduler/base.py: the schedulers as workers use them.
pub mod FifoSource
pub mod PrioritySource
use llm_serving_runtime.Base.{ℕ, ◌≤◌, ◌≡◌, Option, none, some, List, [], ◌∷◌, ◌++◌, map, length}
use mathlib.Core.List.{Perm}
use llm_serving_runtime.Base.Text.{String}
use llm_serving_runtime.Core.Response.{ScheduledRequest, ResponseHandle}
use llm_serving_runtime.Scheduler.Batching.{Batch}

-- What no scheduler changes in a request: its id and its handle.
abbrev pub ticket : ScheduledRequest → String × ResponseHandle
ticket item = (item.request.request_id, item.handle)

-- A batch with a request at least: it and what it leaves hold each request that waited, and each one
-- that was submitted meanwhile, exactly once.
pub record TakesBatch (waiting submitted items left : List ScheduledRequest) : Type 0 where
  pub some_item : 1 ≤ length items
  pub kept : Perm (map ticket (waiting ++ submitted)) (map ticket (items ++ left))

-- `Clock` is what a call of `next_batch` reads and meets, and `submitted` what is submitted during it.
-- `on_items` changes the requests in place, as a cancellation of their handles does.
pub record Source : Type 1 where
  pub State : Type 0
  pub Clock : Type 0
  pub waiting : State → List ScheduledRequest
  pub submit : ℕ → ScheduledRequest → State → State
  pub on_items : (ScheduledRequest → ScheduledRequest) → State → State
  pub next_batch : Clock → State → Option (Batch × State)
  pub submitted : Clock → State → List ScheduledRequest
  pub waiting-submit :
      (now : ℕ) (item : ScheduledRequest) (s : State)
      → (put : ScheduledRequest) × (waiting (submit now item s) ≡ waiting s ++ (put ∷ []))
        × (ticket put ≡ ticket item)
  pub waiting-on_items :
      (f : ScheduledRequest → ScheduledRequest) (s : State)
      → waiting (on_items f s) ≡ map f (waiting s)
  pub next_batch-TakesBatch :
      (c : Clock) (s : State) (b : Batch) (s' : State)
      → next_batch c s ≡ some (b, s')
      → TakesBatch (waiting s) (submitted c s) b.items (waiting s')
  pub next_batch-none : (c : Clock) (s : State) → next_batch c s ≡ none → waiting s ≡ []
