-- ===== src/Workers/Pool/Load.antt =====
-- workers/manager.py: how much the workers still have to do.
use llm_serving_runtime.Base.{
  ℕ, ◌+◌, ◌*◌, ◌≤◌, ◌≡◌, refl, ap, List, [], ◌∷◌, map, arith, length, All, length-append,
  length-map, sum,
}
use llm_serving_runtime.Base.Text.{String}
use llm_serving_runtime.Scheduler.Source.{Source}
use llm_serving_runtime.Workers.Batch.{Shared, Entry, Ending}
use llm_serving_runtime.Workers.Batch.Contract.{item_id}
use llm_serving_runtime.Workers.Loop.{cancel_if}
use llm_serving_runtime.Workers.Pool.{
  Worker, waits, busy, died, begin_batch, hear, end_batch, cancel_worker, Pool, start_pool, submit,
  cancel_request, take_batch, has_turned, WorkerTurn, PoolStep, Steps, takes, hears, ends, submits,
  cancels, turns, here, later,
}
use llm_serving_runtime.Workers.Pool.Members.{sum-set_at, sum-map_same, sum-replicate}
use llm_serving_runtime.Workers.Pool.Tickets.{length-TakesBatch}

abbrev pub Idles : Worker → Type 0
Idles waits = Unit
Idles (busy batch_start entries) = ⊥
Idles (died message) = ⊥

abbrev pub load : Worker → ℕ
load waits = 0
load (busy batch_start entries) = 1
load (died message) = 0

load-end_batch :
    (ending : Ending) (batch_start : ℕ) (entries : List Entry) (sh : Shared)
    → load (end_batch ending batch_start entries sh).worker ≡ 0
unfolding end_batch
load-end_batch ending batch_start entries sh = ground arith

load_le : (w : Worker) → load w ≤ 1
load_le waits = omega arith
load_le (busy batch_start entries) = omega arith
load_le (died message) = omega arith

load-cancel_worker : (id : String) (w : Worker) → load (cancel_worker id w) ≡ load w
load-cancel_worker id waits = refl
load-cancel_worker id (busy batch_start entries) = refl
load-cancel_worker id (died message) = refl

module _ (src : Source) where
  -- What is left to do: two turns for each request that waits, and one for each batch.
  abbrev pub left_to_do : Pool src → ℕ
  left_to_do p = sum (map load p.workers) + 2 * length (src.waiting p.scheduler)

  abbrev pub IsDrained : Pool src → Type 0
  IsDrained p = (src.waiting p.scheduler ≡ []) × All Idles p.workers

  -- Taking a batch and ending one count, an event does not.
  abbrev pub turn_weight : (p q : Pool src) → WorkerTurn src p q → ℕ
  turn_weight p q (takes w batch_start clock b left free given fresh) = 1
  turn_weight p q (hears w clock batch_start event entries at) = 0
  turn_weight p q (ends w batch_start ending entries at) = 1

  abbrev pub weight : (p q : Pool src) → PoolStep src p q → ℕ
  weight p q (submits now item fresh) = 0
  weight p q (cancels id) = 0
  weight p q (turns turn) = turn_weight p q turn

  abbrev pub turns_taken : (p q : Pool src) → Steps (PoolStep src) p q → ℕ
  turns_taken p q here = 0
  turns_taken p q (later {y = m} steps step) = turns_taken p m steps + weight m q step

  pub turn_weight-left_to_do :
      (p q : Pool src) (turn : WorkerTurn src p q)
      → turn_weight p q turn + left_to_do q + 2 * length p.put_on
        ≤ left_to_do p + 2 * length q.put_on
  unfolding has_turned take_batch
  turn_weight-left_to_do p q (takes w batch_start clock b left free given fresh) =
      let submitted = src.submitted clock p.scheduler in
      let taken = src.next_batch-TakesBatch clock p.scheduler b left given in
      let worker = (begin_batch batch_start b.items p.shared).worker in
      omega (
        arith,
        sum-set_at load w waits worker p.workers free,
        load_le worker,
        taken.some_item,
        length-TakesBatch (src.waiting p.scheduler) submitted b.items (src.waiting left) taken,
        length-append p.put_on (map item_id submitted),
        length-map item_id submitted,
      )
  turn_weight-left_to_do p q (hears w clock batch_start event entries at) =
      let worker = (hear clock event batch_start entries p.shared).worker in
      omega
        (arith, sum-set_at load w (busy batch_start entries) worker p.workers at, load_le worker)
  turn_weight-left_to_do p q (ends w batch_start ending entries at) =
      let worker = (end_batch ending batch_start entries p.shared).worker in
      omega (
        arith,
        sum-set_at load w (busy batch_start entries) worker p.workers at,
        load-end_batch ending batch_start entries p.shared,
      )

  weight-left_to_do :
      (p q : Pool src) (step : PoolStep src p q)
      → weight p q step + left_to_do q + 2 * length p.put_on ≤ left_to_do p + 2 * length q.put_on
  unfolding submit cancel_request
  weight-left_to_do p q (submits now item fresh) =
      let (put, stands, _) = src.waiting-submit now item p.scheduler in
      omega (
        arith,
        ap length stands,
        length-append (src.waiting p.scheduler) (put ∷ []),
        length-append p.put_on (item_id item ∷ []),
      )
  weight-left_to_do p q (cancels id) = omega (
    arith,
    ap length (src.waiting-on_items (cancel_if id) p.scheduler),
    length-map (cancel_if id) (src.waiting p.scheduler),
    sum-map_same load (cancel_worker id) p.workers (load-cancel_worker id),
  )
  weight-left_to_do p q (turns turn) = turn_weight-left_to_do p q turn

  turns_taken-left_to_do :
      (p q : Pool src) (steps : Steps (PoolStep src) p q)
      → turns_taken p q steps + left_to_do q + 2 * length p.put_on
        ≤ left_to_do p + 2 * length q.put_on
  turns_taken-left_to_do p q here = omega arith
  turns_taken-left_to_do p q (later {y = m} steps step) =
      omega (arith, turns_taken-left_to_do p m steps, weight-left_to_do m q step)

  -- In whatever order the API and any number of workers take their steps, whatever the backend emits
  -- and however the batches end: together the workers take batches and end them at most twice for each
  -- request that was put on the scheduler, less two for each request that still waits and one for each
  -- batch that is open.
  pub turns_taken-put_on :
      (n : ℕ) (s : src.State) (sh : Shared) (q : Pool src)
      (steps : Steps (PoolStep src) (start_pool src n s sh) q)
      → turns_taken (start_pool src n s sh) q steps + left_to_do q ≤ 2 * length q.put_on
  turns_taken-put_on n s sh q steps = omega (
    arith,
    turns_taken-left_to_do (start_pool src n s sh) q steps,
    sum-replicate load n waits refl,
    length-map item_id (src.waiting s),
  )
