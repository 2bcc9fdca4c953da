-- ===== src/Workers/Pool/Delivered.antt =====
-- workers/manager.py: what the requests of the workers' batches get, beside all that the backend
-- emitted for the batches.
use llm_serving_runtime.Base.{
  ℕ, ◌≤◌, ◌≡◌, refl, ap, subst, some, List, [], ◌∷◌, ◌++◌, map, append-nil, arith, ◌==◌,
  if◌then◌else◌, get_elem?, All, All-append,
}
use mathlib.Core.List.{map-append}
use llm_serving_runtime.Base.Text.{String}
use llm_serving_runtime.Scheduler.Source.{Source}
use llm_serving_runtime.Workers.Batch.{Shared, Entry, entry_id, Ending, Happening, emits, run_batch}
use llm_serving_runtime.Workers.Batch.Outcomes.{IsCurrent}
use llm_serving_runtime.Workers.Batch.Resolution.{run_batch-Resolved}
use llm_serving_runtime.Workers.Batch.Received.{tokens_for, AreDistinct, IsDue}
use llm_serving_runtime.Workers.Batch.Totals.{run_batch-HasTotal}
use llm_serving_runtime.Workers.Batch.Contract.{IsDelivered, HasTotal-IsDelivered}
use llm_serving_runtime.Workers.Loop.Waiting.{IsDistinctIds}
use llm_serving_runtime.Workers.Pool.{
  Worker, waits, busy, hear, end_batch, Pool, PoolStep, Steps, submits, cancels, turns, takes,
  hears, ends, here, later,
}
use llm_serving_runtime.Workers.Pool.Members.{sum-set_at}
use llm_serving_runtime.Workers.Pool.Turns.{held}
use llm_serving_runtime.Workers.Pool.Tickets.{IsOnce, IsOnce-IsDistinctIds}
use llm_serving_runtime.Workers.Pool.Sound.{IsSound, held_by}
use llm_serving_runtime.Workers.Pool.Heard.{IsExpecting}

-- An entry of a batch that ended, with all that the backend emitted for the batch.
abbrev pub Left : Type 0
Left = List Happening × Ending × Entry

abbrev pub with_heard : List Happening → List (Ending × Entry) → List Left
with_heard heard served = map (λ e. (heard, e.0, e.1)) served

module _ {src : Source} where
  -- What the worker with an index has heard in its batch.
  abbrev pub heard_by : {p q : Pool src} → Steps (PoolStep src) p q → ℕ → List Happening
  heard_by here w = []
  heard_by (later steps (submits now item fresh)) w = heard_by steps w
  heard_by (later steps (cancels id)) w = heard_by steps w
  heard_by (later steps (turns (takes v batch_start clock b left free given fresh))) w =
      if v == w then [] else heard_by steps w
  heard_by (later steps (turns (hears v clock batch_start event entries at))) w =
      if v == w then heard_by steps v ++ (emits (clock 0) event ∷ []) else heard_by steps w
  heard_by (later steps (turns (ends v batch_start ending entries at))) w =
      if v == w then [] else heard_by steps w

  -- The entries of the batches that ended, in order.
  abbrev pub left_by : {p q : Pool src} → Steps (PoolStep src) p q → List Left
  left_by here = []
  left_by (later steps (submits now item fresh)) = left_by steps
  left_by (later steps (cancels id)) = left_by steps
  left_by (later steps (turns (takes v batch_start clock b left free given fresh))) = left_by steps
  left_by (later {y = m} steps (turns (hears v clock batch_start event entries at))) =
      left_by steps
      ++ with_heard (heard_by steps v ++ (emits (clock 0) event ∷ []))
          (hear clock event batch_start entries m.shared).served
  left_by (later {y = m} steps (turns (ends v batch_start ending entries at))) =
      left_by steps
      ++ with_heard (heard_by steps v) (end_batch ending batch_start entries m.shared).served

AreDistinct-IsDistinctIds : (ids : List String) → IsDistinctIds ids → AreDistinct ids
AreDistinct-IsDistinctIds [] d = tt
AreDistinct-IsDistinctIds (x ∷ ids) d = (d.0, AreDistinct-IsDistinctIds ids d.1)

held-held_by :
    (id : String) (w : ℕ) (x : Worker) (workers : List Worker)
    → get_elem? workers w ≡ some x
    → held id x ≤ held_by id workers
held-held_by id w x workers e = omega (arith, sum-set_at (held id) w x waits workers e)

-- The ids of a worker's batch differ.
pub held-AreDistinct :
    (src : Source) (n : ℕ) (p : Pool src) (w batch_start : ℕ) (entries : List Entry)
    → IsOnce p.put_on
    → IsSound src n p
    → get_elem? p.workers w ≡ some (busy batch_start entries)
    → AreDistinct (map entry_id entries)
held-AreDistinct src n p w batch_start entries once s at = AreDistinct-IsDistinctIds _ (
    IsOnce-IsDistinctIds (map entry_id entries) (λ id.
      omega
        (arith, once id, s.counted id, held-held_by id w (busy batch_start entries) p.workers at)))

-- The batch's end delivers what the worker has heard.
end_batch-IsDelivered :
    (ending : Ending) (batch_start : ℕ) (entries : List Entry) (sh : Shared)
    (heard : List Happening)
    → AreDistinct (map entry_id entries)
    → All IsCurrent entries
    → IsExpecting heard (busy batch_start entries)
    → All (IsDelivered ending heard) (run_batch batch_start [] ending entries sh).1
end_batch-IsDelivered ending batch_start entries sh heard distinct c h =
    let (_, _, settled) = run_batch-Resolved batch_start [] ending entries sh c in
    let all =
      subst (λ happenings. All (IsDue (λ id. tokens_for id happenings) []) entries)
        (append-nil heard) (h []) in
    HasTotal-IsDelivered ending heard _ settled (
      run_batch-HasTotal (λ id. tokens_for id heard) batch_start [] ending entries sh distinct c
        all)

abbrev pub served_of : Left → Ending × Entry
served_of a = (a.1, a.2)

-- The request was cancelled, or has its outcome with the tokens that were emitted for it.
abbrev pub IsLeft : Left → Type 0
IsLeft a = IsDelivered a.1 a.0 a.2

All-IsLeft :
    (ending : Ending) (heard : List Happening) (entries : List Entry)
    → All (IsDelivered ending heard) entries
    → All IsLeft (with_heard heard (map (λ e. (ending, e)) entries))
All-IsLeft ending heard [] h = tt
All-IsLeft ending heard (e ∷ entries) h = (h.0, All-IsLeft ending heard entries h.1)

pub end_batch-IsLeft :
    (ending : Ending) (batch_start : ℕ) (entries : List Entry) (sh : Shared)
    (heard : List Happening)
    → AreDistinct (map entry_id entries)
    → All IsCurrent entries
    → IsExpecting heard (busy batch_start entries)
    → All IsLeft (with_heard heard (end_batch ending batch_start entries sh).served)
unfolding end_batch
end_batch-IsLeft ending batch_start entries sh heard distinct c h =
    All-IsLeft ending heard _
      (end_batch-IsDelivered ending batch_start entries sh heard distinct c h)

pub end_batch-IsExpecting :
    (ending : Ending) (batch_start : ℕ) (entries : List Entry) (sh : Shared)
    → All IsCurrent entries
    → IsExpecting [] (end_batch ending batch_start entries sh).worker
unfolding end_batch
end_batch-IsExpecting ending batch_start entries sh c =
    let (ok, _, _) = run_batch-Resolved batch_start [] ending entries sh c in
    rw (ok, IsExpecting) tt

served_of-with_heard :
    (heard : List Happening) (served : List (Ending × Entry))
    → map served_of (with_heard heard served) ≡ served
served_of-with_heard heard [] = refl
served_of-with_heard heard (e ∷ served) = ap (◌∷◌ e) (served_of-with_heard heard served)

pub left-append :
    (served more : List (Ending × Entry)) (heard : List Happening) (left : List Left)
    → map served_of left ≡ served
    → All IsLeft left
    → All IsLeft (with_heard heard more)
    → (map served_of (left ++ with_heard heard more) ≡ served ++ more)
      × All IsLeft (left ++ with_heard heard more)
left-append served more heard left same all new = (
  cc (map-append served_of left (with_heard heard more), same, served_of-with_heard heard more),
  All-append IsLeft left (with_heard heard more) all new,
)
