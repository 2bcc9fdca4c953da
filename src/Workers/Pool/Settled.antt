-- ===== src/Workers/Pool/Settled.antt =====
-- workers/manager.py: what one turn of a worker counts, while nothing is cancelled.
use llm_serving_runtime.Workers.Pool.Tickets.{IsUncancelled}
use llm_serving_runtime.Base.{
  ℕ, ◌+◌, ◌≡◌, refl, sym, ap, subst, ◌∙◌, false, none, List, [], ◌∷◌, map, arith, length, All,
}
use llm_serving_runtime.Core.Response.{
  ScheduledRequest, ResponseHandle, completion, streaming, handle_cancelled,
}
use llm_serving_runtime.Metrics.Collector.{record_batch}
use llm_serving_runtime.Backends.Base.{BatchEvent}
use llm_serving_runtime.Workers.Batch.{Shared, Entry, Step, Ending, run_batch}
use llm_serving_runtime.Workers.Batch.Contract.{
  item_id, IsDistinct, active, entry_of, enter_all_distinct,
}
use llm_serving_runtime.Workers.Batch.Counted.{
  settled, IsOpenEntry, unsettled, deliver-Counts, run_batch-settled,
}
use llm_serving_runtime.Workers.Batch.Outcomes.{IsCurrent, deliver-Current}
use llm_serving_runtime.Workers.Batch.Resolution.{run_batch-Resolved}
use llm_serving_runtime.Workers.Loop.{form_batch}
use llm_serving_runtime.Workers.Loop.Waiting.{IsDistinctIds, active-IsDistinct}
use llm_serving_runtime.Workers.Pool.{
  IsNew, Worker, waits, busy, died, Turned, work_on, begin_batch, settle_batch, hear, end_batch,
}
use llm_serving_runtime.Workers.Pool.Turns.{hear_busy}

-- No request of the worker's batch was cancelled.
abbrev pub IsOpenWorker : Worker → Type 0
IsOpenWorker waits = Unit
IsOpenWorker (busy batch_start entries) = All IsOpenEntry entries
IsOpenWorker (died message) = Unit

-- The requests of its batch that have no outcome yet.
abbrev pub unsettled_of : Worker → ℕ
unsettled_of waits = 0
unsettled_of (busy batch_start entries) = unsettled entries
unsettled_of (died message) = 0

-- A turn of a worker counts as many requests as it settles.
abbrev pub IsCountedTurn : List Entry → Shared → Turned → Type 0
IsCountedTurn entries sh t =
    IsOpenWorker t.worker
    × (settled t.shared + unsettled_of t.worker ≡ settled sh + unsettled entries)

pub hear-IsCountedTurn :
    (clock : ℕ → ℕ) (event : BatchEvent) (batch_start : ℕ) (entries : List Entry) (sh : Shared)
    → All IsOpenEntry entries
    → All IsCurrent entries
    → IsCountedTurn entries sh (hear clock event batch_start entries sh)
hear-IsCountedTurn clock event batch_start entries sh o c =
    let (ok, _, _) = deliver-Current (clock 0) batch_start event entries sh c in
    subst (IsCountedTurn entries sh) (sym (hear_busy clock event batch_start entries sh ok))
      (deliver-Counts (clock 0) batch_start event entries sh o c)

settle_batch-IsCountedTurn :
    (ending : Ending) (entries : List Entry) (sh : Shared) (step : Step (List Entry))
    → step.0 ≡ none
    → settled step.2 ≡ settled sh + unsettled entries
    → IsCountedTurn entries sh (settle_batch ending step)
settle_batch-IsCountedTurn ending entries sh step ok counted = rw ok (tt, omega (arith, counted))

pub end_batch-IsCountedTurn :
    (ending : Ending) (batch_start : ℕ) (entries : List Entry) (sh : Shared)
    → All IsOpenEntry entries
    → All IsCurrent entries
    → IsCountedTurn entries sh (end_batch ending batch_start entries sh)
unfolding end_batch
end_batch-IsCountedTurn ending batch_start entries sh o c =
    settle_batch-IsCountedTurn ending entries sh (run_batch batch_start [] ending entries sh)
      (run_batch-Resolved batch_start [] ending entries sh c).0
      (run_batch-settled batch_start ending entries sh o c)

active_all : (items : List ScheduledRequest) → All IsUncancelled items → active items ≡ items
active_all [] o = refl
active_all (x ∷ items) o = rw o.0 (ap (◌∷◌ x) (active_all items o.1))

entries-unsettled :
    (items : List ScheduledRequest)
    → All IsUncancelled items
    → All IsOpenEntry (map entry_of items) × (unsettled (map entry_of items) ≡ length items)
entries-unsettled [] o = (tt, refl)
entries-unsettled (x ∷ items) o =
    let (opened, counted) = entries-unsettled items o.1 in ((o.0, opened), omega (arith, counted))

work_on-unsettled :
    (batch_start : ℕ) (items : List ScheduledRequest)
    → IsDistinct items
    → All IsUncancelled items
    → IsOpenWorker (work_on batch_start items)
      × (unsettled_of (work_on batch_start items) ≡ length items)
work_on-unsettled batch_start [] d o = (tt, refl)
work_on-unsettled batch_start (x ∷ items) d o =
    subst (λ entries. All IsOpenEntry entries × (unsettled entries ≡ length (x ∷ items)))
      (sym (enter_all_distinct (x ∷ items) d)) (entries-unsettled (x ∷ items) o)

pub begin_batch-unsettled :
    (batch_start : ℕ) (items : List ScheduledRequest) (sh : Shared)
    → IsDistinctIds (map item_id items)
    → All IsUncancelled items
    → let t = begin_batch batch_start items sh in
      IsOpenWorker t.worker
      × (unsettled_of t.worker ≡ length items)
      × (settled t.shared ≡ settled sh)
unfolding begin_batch form_batch record_batch
begin_batch-unsettled batch_start items sh d o =
    let all = active_all items o in
    let (opened, counted) =
      work_on-unsettled batch_start items (subst IsDistinct all (active-IsDistinct items d)) o in
    (
      subst (λ l. IsOpenWorker (work_on batch_start l)) (sym all) opened,
      ap (λ l. unsettled_of (work_on batch_start l)) all ∙ counted,
      refl,
    )

pub IsNew-handle_cancelled : (h : ResponseHandle) → IsNew h → handle_cancelled h ≡ false
IsNew-handle_cancelled (completion h) e = ap (λ x. x.cancelled) e
IsNew-handle_cancelled (streaming h) e = ap (λ x. x.cancelled) e

pub All-IsNew-IsUncancelled :
    (items : List ScheduledRequest)
    → All (λ item. IsNew item.handle) items
    → All IsUncancelled items
All-IsNew-IsUncancelled [] n = tt
All-IsNew-IsUncancelled (x ∷ items) n =
    (IsNew-handle_cancelled x.handle n.0, All-IsNew-IsUncancelled items n.1)
