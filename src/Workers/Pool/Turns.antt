-- ===== src/Workers/Pool/Turns.antt =====
-- workers/manager.py: what one turn of a worker keeps.
use llm_serving_runtime.Base.{
  ℕ, ◌+◌, ◌≡◌, refl, sym, ap, subst, ◌∙◌, inl, inr, none, List, [], ◌∷◌, map, arith, Bool-cases,
  keep, All,
}
use llm_serving_runtime.Base.Text.{String, str_eq}
use llm_serving_runtime.Core.Response.{ScheduledRequest, item_cancelled}
use llm_serving_runtime.Backends.Base.{BatchEvent}
use llm_serving_runtime.Workers.Batch.{
  Shared, Entry, entry_id, Step, Ending, deliver, cancel_entry, run_batch,
}
use llm_serving_runtime.Workers.Batch.Contract.{
  item_id, IsFresh, IsDistinct, active, enter_all-IsCurrent, enter_all_ids,
}
use llm_serving_runtime.Workers.Batch.Outcomes.{IsCurrent, deliver-Current, cancel_entry-Current}
use llm_serving_runtime.Workers.Batch.Resolution.{IsResolved, run_batch-Resolved}
use llm_serving_runtime.Workers.Loop.{served_id}
use llm_serving_runtime.Workers.Loop.Ready.{ids-with_ending}
use llm_serving_runtime.Workers.Loop.Served.{IsServed, All-with_ending}
use llm_serving_runtime.Workers.Loop.Waiting.{
  IsWaiting, IsDistinctIds, active-IsDistinct, active-IsFresh,
}
use llm_serving_runtime.Workers.Pool.Tickets.{times, queued}
use llm_serving_runtime.Workers.Pool.{
  work_on, Worker, waits, busy, died, Turned, begin_batch, settle_batch, hear, end_batch,
  cancel_worker,
}

-- No exception ended the worker, and the channels of its batch are as they should be.
abbrev pub IsAlive : Worker → Type 0
IsAlive waits = Unit
IsAlive (busy batch_start entries) = All IsCurrent entries
IsAlive (died message) = ⊥

-- How often an id stands in a worker's batch.
abbrev pub held : String → Worker → ℕ
held id waits = 0
held id (busy batch_start entries) = times id (map entry_id entries)
held id (died message) = 0

-- A turn of a worker that has these ids: no exception ends it, each entry that leaves it is settled,
-- and each id stays with it or leaves it.
abbrev pub IsSoundTurn : List String → Turned → Type 0
IsSoundTurn ids t =
    IsAlive t.worker
    × All IsServed t.served
    × ((id : String) → held id t.worker + times id (map served_id t.served) ≡ times id ids)

settle_batch-IsSoundTurn :
    (ending : Ending) (entries : List Entry) (step : Step (List Entry))
    → step.0 ≡ none
    → map entry_id step.1 ≡ map entry_id entries
    → All (IsResolved ending) step.1
    → IsSoundTurn (map entry_id entries) (settle_batch ending step)
settle_batch-IsSoundTurn ending entries step ok same settled = rw ok (
  tt,
  All-with_ending ending step.1 settled,
  λ id. omega (arith, ap (times id) (ids-with_ending ending step.1 ∙ same)),
)

pub end_batch-IsSoundTurn :
    (ending : Ending) (batch_start : ℕ) (entries : List Entry) (sh : Shared)
    → All IsCurrent entries
    → IsSoundTurn (map entry_id entries) (end_batch ending batch_start entries sh)
unfolding end_batch
end_batch-IsSoundTurn ending batch_start entries sh c =
    let (ok, same, settled) = run_batch-Resolved batch_start [] ending entries sh c in
    settle_batch-IsSoundTurn ending entries (run_batch batch_start [] ending entries sh) ok same
      settled

-- An event leaves the worker at its batch.
pub hear_busy :
    (clock : ℕ → ℕ) (event : BatchEvent) (batch_start : ℕ) (entries : List Entry) (sh : Shared)
    → let (error, entries', sh') = deliver (clock 0) batch_start event entries sh in
      error ≡ none
      → hear clock event batch_start entries sh
        ≡ record { worker = busy batch_start entries'; served = []; shared = sh' }
unfolding hear
hear_busy clock event batch_start entries sh ok = rw (ok, hear) refl

pub hear-IsSoundTurn :
    (clock : ℕ → ℕ) (event : BatchEvent) (batch_start : ℕ) (entries : List Entry) (sh : Shared)
    → All IsCurrent entries
    → IsSoundTurn (map entry_id entries) (hear clock event batch_start entries sh)
hear-IsSoundTurn clock event batch_start entries sh c =
    let (ok, same, current) = deliver-Current (clock 0) batch_start event entries sh c in
    subst (IsSoundTurn (map entry_id entries))
      (sym (hear_busy clock event batch_start entries sh ok))
      (current, tt, λ id. omega (arith, ap (times id) same))

pub cancel_worker-IsAlive : (id : String) (w : Worker) → IsAlive w → IsAlive (cancel_worker id w)
cancel_worker-IsAlive id waits h = tt
cancel_worker-IsAlive id (busy batch_start entries) h = (cancel_entry-Current id entries h).1
cancel_worker-IsAlive id (died message) h = h

cancel_entry_ids :
    (id : String) (entries : List Entry)
    → map entry_id (cancel_entry id entries) ≡ map entry_id entries
unfolding cancel_entry
cancel_entry_ids id [] = refl
cancel_entry_ids id (e ∷ entries) =
    let rest = ap (◌∷◌ (entry_id e)) (cancel_entry_ids id entries) in
    elim (Bool-cases (str_eq (entry_id e) id)) [ inl at ↦ rw at refl | inr later ↦ rw later rest ]

pub held-cancel_worker : (id x : String) (w : Worker) → held id (cancel_worker x w) ≡ held id w
held-cancel_worker id x waits = refl
held-cancel_worker id x (busy batch_start entries) = ap (times id) (cancel_entry_ids x entries)
held-cancel_worker id x (died message) = refl

-- The ids that a batch leaves out, since their requests were cancelled before.
abbrev pub left_out : List ScheduledRequest → List String
left_out items = map item_id (keep item_cancelled items)

keep-split :
    (id : String) (items : List ScheduledRequest)
    → queued id (active items) + times id (left_out items) ≡ queued id items
keep-split id [] = refl
keep-split id (x ∷ items) = elim (Bool-cases (item_cancelled x)) [
  | inl gone ↦ rw gone (omega (arith, keep-split id items))
  | inr open_ ↦ rw open_ (omega (arith, keep-split id items))
]

work_on-IsAlive :
    (batch_start : ℕ) (items : List ScheduledRequest)
    → IsDistinct items
    → All (λ i. IsFresh i.handle) items
    → IsAlive (work_on batch_start items)
      × ((id : String) → held id (work_on batch_start items) ≡ queued id items)
work_on-IsAlive batch_start [] d f = (tt, λ id. refl)
work_on-IsAlive batch_start (x ∷ items) d f =
    (enter_all-IsCurrent (x ∷ items) d f, λ id. ap (times id) (enter_all_ids (x ∷ items) d))

-- A worker that takes requests that wait, with different ids, holds each of them or leaves it out.
pub begin_batch-IsAlive :
    (batch_start : ℕ) (items : List ScheduledRequest) (sh : Shared)
    → All IsWaiting items
    → IsDistinctIds (map item_id items)
    → let t = begin_batch batch_start items sh in
      IsAlive t.worker
      × ((id : String) → held id t.worker + times id (left_out items) ≡ queued id items)
unfolding begin_batch
begin_batch-IsAlive batch_start items sh w d =
    let (alive, holds) =
      work_on-IsAlive batch_start (active items) (active-IsDistinct items d)
        (active-IsFresh items w) in
    (alive, λ id. omega (arith, holds id, keep-split id items))
