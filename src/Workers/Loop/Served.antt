-- ===== src/Workers/Loop/Served.antt =====
-- workers/manager.py: what the turns of the loop add to what it promises.
use llm_serving_runtime.Base.{
  ◌≤◌, min, ◌≡◌, sym, ap, ◌∙◌, not, none, List, [], ◌∷◌, ◌++◌, map, append_assoc, arith, length,
  All, length-append, length-map, All-append,
}
use mathlib.Core.List.{map-append}
use llm_serving_runtime.Core.Response.{ScheduledRequest, item_cancelled}
use llm_serving_runtime.Scheduler.Fifo.{FifoScheduler}
use llm_serving_runtime.Workers.Batch.{Entry, Ending}
use llm_serving_runtime.Backends.Base.Served.{keep-append}
use llm_serving_runtime.Workers.Batch.Contract.{item_id, active}
use llm_serving_runtime.Workers.Batch.Resolution.{IsResolved}
use llm_serving_runtime.Workers.Loop.{Turn, Run, served_id, wait_then, batch_then, arrive}
use llm_serving_runtime.Workers.Loop.Waiting.{All-map}

abbrev pub IsServed : Ending × Entry → Type 0
IsServed e = IsResolved e.0 e.1

-- The loop ended with no exception. It took the requests in their order of arrival, and the queue
-- holds the others. Every turn took one at least, as long as those lasted that waited at the start.
-- Each request that was not cancelled when its batch began has its one outcome or was cancelled.
abbrev pub Serves : List Turn → FifoScheduler → Run → Type 0
Serves turns s run =
    (run.error ≡ none)
    × (map item_id (run.taken ++ run.scheduler.queue) ≡ map item_id (s.queue ++ run.put_on))
    × (min (length turns) (length s.queue) ≤ length run.taken)
    × (map served_id run.entries ≡ map item_id (active run.taken))
    × All IsServed run.entries

pub Serves-wait_then :
    (t : Turn) (turns : List Turn) (s : FifoScheduler) (rest : Run)
    → (arrive t s).queue ≡ []
    → Serves turns (arrive t s) rest
    → Serves (t ∷ turns) s (wait_then t rest)
Serves-wait_then t turns s rest empty (ok, order, taken, same, settled) = (
  ok,
  order ∙ ap (map item_id) (append_assoc s.queue t.arrivals rest.put_on),
  (let none_waits : length (s.queue ++ t.arrivals) ≡ 0 = ap length empty in
      omega (arith, none_waits, length-append s.queue t.arrivals)),
  same,
  settled,
)

pub Serves-batch_then :
    (t : Turn) (turns : List Turn) (s s3 : FifoScheduler) (items coll : List ScheduledRequest)
    (entries : List (Ending × Entry)) (rest : Run)
    → 1 ≤ length items
    → map item_id (items ++ s3.queue) ≡ map item_id ((s.queue ++ t.arrivals) ++ coll)
    → map served_id entries ≡ map item_id (active items)
    → All IsServed entries
    → Serves turns s3 rest
    → Serves (t ∷ turns) s (batch_then items entries (t.arrivals ++ coll) rest)
Serves-batch_then t turns s s3 items coll entries rest some_item ids same settled
      (ok, order', taken, same', settled') =
    (
      ok,
      cc (
        map-append item_id items s3.queue,
        map-append item_id (items ++ rest.taken) rest.scheduler.queue,
        map-append item_id items rest.taken,
        map-append item_id rest.taken rest.scheduler.queue,
        map-append item_id s3.queue rest.put_on,
        map-append item_id ((s.queue ++ t.arrivals) ++ coll) rest.put_on,
        append_assoc (map item_id items) (map item_id rest.taken)
            (map item_id rest.scheduler.queue),
        append_assoc (map item_id items) (map item_id s3.queue) (map item_id rest.put_on),
        append_assoc s.queue t.arrivals coll,
        append_assoc s.queue (t.arrivals ++ coll) rest.put_on,
      ),
      (let counted : length (items ++ s3.queue) ≡ length ((s.queue ++ t.arrivals) ++ coll) =
            sym (length-map item_id (items ++ s3.queue))
            ∙ ap length ids
            ∙ length-map item_id ((s.queue ++ t.arrivals) ++ coll) in
          omega (
            arith,
            counted,
            length-append items s3.queue,
            length-append (s.queue ++ t.arrivals) coll,
            length-append s.queue t.arrivals,
            length-append items rest.taken,
          )),
      cc (
        map-append served_id entries rest.entries,
        map-append item_id (active items) (active rest.taken),
        keep-append (λ item. not (item_cancelled item)) items rest.taken,
      ),
      All-append IsServed entries rest.entries settled settled',
    )

pub All-with_ending :
    (ending : Ending) (entries : List Entry)
    → All (IsResolved ending) entries
    → All IsServed (map (λ e. (ending, e)) entries)
All-with_ending ending entries h = All-map (λ e. (ending, e)) IsServed entries h
