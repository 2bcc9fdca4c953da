-- ===== src/Workers/Pool/Taken.antt =====
-- workers/manager.py: a batch that a worker takes.
use llm_serving_runtime.Base.{ℕ, ◌+◌, ◌≤◌, ◌≡◌, ◌∙◌, some, List, ◌++◌, map, arith, get_elem?, All}
use llm_serving_runtime.Base.Text.{String}
use llm_serving_runtime.Core.Response.{ScheduledRequest}
use llm_serving_runtime.Scheduler.Source.{TakesBatch, Source}
use llm_serving_runtime.Workers.Batch.Contract.{item_id}
use llm_serving_runtime.Workers.Loop.Waiting.{IsDistinctIds}
use llm_serving_runtime.Workers.Pool.{IsNew, waits, begin_batch, Pool, take_batch}
use llm_serving_runtime.Workers.Pool.Members.{length-set_at, All-set_at, sum-set_at}
use llm_serving_runtime.Workers.Pool.Tickets.{
  times, queued, times-append, queued-TakesBatch, TakesBatch-IsWaiting, IsOnce,
  IsOnce-IsDistinctIds,
}
use llm_serving_runtime.Workers.Pool.Turns.{IsAlive, held, left_out, begin_batch-IsAlive}
use llm_serving_runtime.Workers.Pool.Sound.{IsSound, All-IsNew}

-- Requests that stand among those that were put on, no id twice, have different ids.
queued-IsDistinctIds :
    (items : List ScheduledRequest) (put_on : List String) (submitted : List ScheduledRequest)
    → ((id : String) → queued id items ≤ times id put_on + queued id submitted)
    → IsOnce (put_on ++ map item_id submitted)
    → IsDistinctIds (map item_id items)
queued-IsDistinctIds items put_on submitted le once =
    IsOnce-IsDistinctIds (map item_id items)
      (λ id. omega (arith, le id, once id, times-append id put_on (map item_id submitted)))

module _ (src : Source) (n : ℕ) where
  -- The requests that a batch takes have different ids.
  pub taken-IsDistinctIds :
      (submitted items : List ScheduledRequest) (left : src.State) (p : Pool src)
      → TakesBatch (src.waiting p.scheduler) submitted items (src.waiting left)
      → IsOnce (p.put_on ++ map item_id submitted)
      → IsSound src n p
      → IsDistinctIds (map item_id items)
  taken-IsDistinctIds submitted items left p taken once s =
      queued-IsDistinctIds items p.put_on submitted
        (λ id. omega (
          arith,
          s.counted id,
          queued-TakesBatch id (src.waiting p.scheduler) submitted items (src.waiting left) taken,
        ))
        once

  pub take_batch-IsSound :
      (w batch_start : ℕ) (submitted items : List ScheduledRequest) (left : src.State)
      (p : Pool src)
      → get_elem? p.workers w ≡ some waits
      → TakesBatch (src.waiting p.scheduler) submitted items (src.waiting left)
      → All (λ item. IsNew item.handle) submitted
      → IsOnce (take_batch src w batch_start submitted items left p).put_on
      → IsSound src n p
      → IsSound src n (take_batch src w batch_start submitted items left p)
  unfolding take_batch
  take_batch-IsSound w batch_start submitted items left p free taken fresh once s =
      let (items_wait, left_wait) =
        TakesBatch-IsWaiting (src.waiting p.scheduler) submitted items (src.waiting left) taken
          s.waiting (All-IsNew submitted fresh) in
      let ids = taken-IsDistinctIds submitted items left p taken once s in
      let (alive, kept) = begin_batch-IsAlive batch_start items p.shared items_wait ids in
      record {
        waiting = left_wait;
        alive = All-set_at IsAlive w _ p.workers alive s.alive;
        served = s.served;
        counted = λ id. omega (
          arith,
          s.counted id,
          kept id,
          queued-TakesBatch id (src.waiting p.scheduler) submitted items (src.waiting left) taken,
          times-append id p.skipped (left_out items),
          times-append id p.put_on (map item_id submitted),
          sum-set_at (held id) w waits (begin_batch batch_start items p.shared).worker p.workers
              free,
        );
        sized = length-set_at w _ p.workers ∙ s.sized;
      }
