-- ===== src/Workers/Pool/Safety.antt =====
-- workers/manager.py: what holds of the workers after any steps.
use llm_serving_runtime.Base.{ℕ, ◌≤◌, [], ◌∷◌, map, arith, All}
use llm_serving_runtime.Scheduler.Source.{Source}
use llm_serving_runtime.Workers.Batch.{Shared}
use llm_serving_runtime.Workers.Loop.Waiting.{IsWaiting}
use llm_serving_runtime.Workers.Pool.{
  take_batch, has_turned, submit, cancel_request, busy, Pool, start_pool, WorkerTurn, PoolStep,
  Steps, submits, cancels, turns, takes, hears, ends, here, later,
}
use llm_serving_runtime.Workers.Pool.Tickets.{times, times-append, IsOnce}
use llm_serving_runtime.Workers.Pool.Members.{All-get_elem?}
use llm_serving_runtime.Workers.Pool.Turns.{IsAlive, end_batch-IsSoundTurn, hear-IsSoundTurn}
use llm_serving_runtime.Workers.Pool.Taken.{take_batch-IsSound}
use llm_serving_runtime.Workers.Pool.Sound.{
  IsSound, start_pool-IsSound, submit-IsSound, cancel_request-IsSound, has_turned-IsSound,
}
use llm_serving_runtime.Base.Text.{String}
use llm_serving_runtime.Workers.Batch.Contract.{item_id}

module _ (src : Source) where
  -- What was put on stays there.
  WorkerTurn-put_on :
      (p q : Pool src) → WorkerTurn src p q → (id : String) → times id p.put_on ≤ times id q.put_on
  unfolding take_batch has_turned
  WorkerTurn-put_on p q (takes w batch_start clock b left free given fresh) id =
      omega (arith, times-append id p.put_on (map item_id (src.submitted clock p.scheduler)))
  WorkerTurn-put_on p q (hears w clock batch_start event entries at) id = omega arith
  WorkerTurn-put_on p q (ends w batch_start ending entries at) id = omega arith

  PoolStep-put_on :
      (p q : Pool src) → PoolStep src p q → (id : String) → times id p.put_on ≤ times id q.put_on
  unfolding submit cancel_request
  PoolStep-put_on p q (submits now item fresh) id =
      omega (arith, times-append id p.put_on (item_id item ∷ []))
  PoolStep-put_on p q (cancels x) id = omega arith
  PoolStep-put_on p q (turns turn) id = WorkerTurn-put_on p q turn id

  pub IsOnce-before : (p q : Pool src) → PoolStep src p q → IsOnce q.put_on → IsOnce p.put_on
  IsOnce-before p q step once = λ id. omega (arith, PoolStep-put_on p q step id, once id)

  pub IsOnce-before_turn : (p q : Pool src) → WorkerTurn src p q → IsOnce q.put_on → IsOnce p.put_on
  IsOnce-before_turn p q turn = IsOnce-before p q (turns turn)

module _ (src : Source) (n : ℕ) where
  pub WorkerTurn-IsSound :
      (p q : Pool src) → WorkerTurn src p q → IsOnce q.put_on → IsSound src n p → IsSound src n q
  WorkerTurn-IsSound p q (takes w batch_start clock b left free given fresh) once s =
      take_batch-IsSound src n w batch_start (src.submitted clock p.scheduler) b.items left p free
        (src.next_batch-TakesBatch clock p.scheduler b left given) fresh once s
  WorkerTurn-IsSound p q (hears w clock batch_start event entries at) once s =
      has_turned-IsSound src n w batch_start entries _ p at
        (hear-IsSoundTurn clock event batch_start entries p.shared
          (All-get_elem? IsAlive w (busy batch_start entries) p.workers at s.alive))
        s
  WorkerTurn-IsSound p q (ends w batch_start ending entries at) once s =
      has_turned-IsSound src n w batch_start entries _ p at
        (end_batch-IsSoundTurn ending batch_start entries p.shared
          (All-get_elem? IsAlive w (busy batch_start entries) p.workers at s.alive))
        s

  PoolStep-IsSound :
      (p q : Pool src) → PoolStep src p q → IsOnce q.put_on → IsSound src n p → IsSound src n q
  PoolStep-IsSound p q (submits now item fresh) once s = submit-IsSound src n now item p fresh s
  PoolStep-IsSound p q (cancels id) once s = cancel_request-IsSound src n id p s
  PoolStep-IsSound p q (turns turn) once s = WorkerTurn-IsSound p q turn once s

  pub Steps-IsSound :
      (p q : Pool src)
      → Steps (PoolStep src) p q
      → IsOnce q.put_on
      → IsSound src n p
      → IsSound src n q
  Steps-IsSound p q here once s = s
  Steps-IsSound p q (later {y = m} steps step) once s =
      PoolStep-IsSound m q step once (Steps-IsSound p m steps (IsOnce-before src m q step once) s)

  -- When `n` workers start on a scheduler and nothing was delivered yet to a request that waits there
  -- unless it was cancelled, and no id is put on twice, then after any steps, whatever requests with
  -- new handles the API submits and whatever it cancels, whatever the backend emits for each batch,
  -- however a batch ends, and in whatever order the workers take their turns: no worker was ended by
  -- an exception. Each request whose batch ended has its one outcome or was cancelled. Each request
  -- that was put on the scheduler waits, is in one worker's batch, was left out of its batch since it
  -- was cancelled before, or had a batch that ended, exactly once.
  pub pool-IsSound :
      (s : src.State) (sh : Shared) (q : Pool src)
      → All IsWaiting (src.waiting s)
      → IsOnce q.put_on
      → Steps (PoolStep src) (start_pool src n s sh) q
      → IsSound src n q
  pool-IsSound s sh q w once steps =
      Steps-IsSound (start_pool src n s sh) q steps once (start_pool-IsSound src n s sh w)
