-- ===== src/Tests/Scheduler.antt =====
-- The schedulers at concrete inputs.
use llm_serving_runtime.Base.{
  ℕ, zero, suc, ◌+◌, ◌≤◌, ◌<◌, max, ◌≡◌, refl, ◌≢◌, some, List, [], ◌∷◌, ◌++◌, map, arith, length,
  take, All,
}
use mathlib.Core.List.{Mem, Perm, mem-cons_self, mem-cons_of_mem, mem-cons, not-mem-nil}
use mathlib.Core.Logic.Or
use native.Mathlib.Bridge.{le_prop}
use llm_serving_runtime.Scheduler.Batching.{Batch, identity, HasStarted}
use llm_serving_runtime.Scheduler.Fifo.{FifoScheduler, Round}
use llm_serving_runtime.Scheduler.Fifo
use llm_serving_runtime.Scheduler.Fifo.Order.{arrived, rounds_used, next_batch-order}
use llm_serving_runtime.Scheduler.Priority.{
  PriorityScheduler, QueuedRequest, Submission, Wait, submit, submit_all, select,
}
use llm_serving_runtime.Scheduler.Priority
use llm_serving_runtime.Scheduler.Priority.Select.{Selects, select-least}
use llm_serving_runtime.Scheduler.Priority.Aging.{
  Op, submits, pops, run, IsNumbered, select-no_overtaking, run-serves_aged,
}
use llm_serving_runtime.Scheduler.Priority.Batches.{
  strip, contents, submitted, waits_made, next_batch-perm,
}
use llm_serving_runtime.Tests.Data.{completion_item, streaming_item}

abbrev waiting : FifoScheduler
waiting = record { queue = completion_item "r1" ∷ streaming_item "r2" ∷ [] }

-- One request arrives in the second round, before the deadline; the third is too late.
abbrev rounds : ℕ → Round
rounds zero = record { arrivals = []; now = 20 }
rounds (suc zero) = record { arrivals = completion_item "r3" ∷ []; now = 30 }
rounds (suc (suc k)) = record { arrivals = []; now = 9_000_000 }

abbrev quiet : ℕ → Round
quiet k = record { arrivals = []; now = 20 }

next_batch-order_example :
    let used = rounds_used rounds 10 4 5 waiting.queue in
    (b : Batch) × (s' : FifoScheduler) × (Fifo.next_batch rounds 10 (λ k. 40 + k) 4 5 waiting
      ≡ some (b, s'))
    × (map identity b.items ++ map identity s'.queue
        ≡ map identity (waiting.queue ++ arrived rounds 0 used))
    × (1 ≤ length b.items)
    × (length b.items ≤ max 1 4)
    × All HasStarted b.items
    × (used < max 1 4)
next_batch-order_example =
    next_batch-order rounds 10 (λ k. 40 + k) 4 5 waiting (completion_item "r1")
      (streaming_item "r2" ∷ []) refl

abbrev low : QueuedRequest
low = record { priority = 2; sequence = 1; queued_at = 100; item = completion_item "r1" }

abbrev urgent : QueuedRequest
urgent = record { priority = 0; sequence = 2; queued_at = 115; item = streaming_item "r2" }

-- A request that waited two boost intervals stands before a fresh urgent one.
abbrev aging : PriorityScheduler
aging = record { aging_boost_interval_s = 10; items = low ∷ urgent ∷ []; counter = 2 }

aged_first : select 120 aging ≡ some (low, record aging { items = urgent ∷ [] })
unfolding select Priority.scan Priority.key_lt Priority.effective_priority Priority.pop_at
aged_first = refl

urgent_first : select 118 aging ≡ some (urgent, record aging { items = low ∷ [] })
unfolding select Priority.scan Priority.key_lt Priority.effective_priority Priority.pop_at
urgent_first = refl

not_empty : aging.items ≢ []
not_empty e = absurd (cc)

select-least_example : (q : QueuedRequest) × (s' : PriorityScheduler) × Selects 118 aging q s'
select-least_example = select-least 118 aging not_empty

abbrev waits : List Wait
waits =
    record {
      now = 130;
      submissions = record { enqueued = 131; now = 131; item = completion_item "r3" } ∷ [];
    }
    ∷ []

next_batch-perm_example :
    (b : Batch) × (s' : PriorityScheduler) × (Priority.next_batch
        (λ k. 120)
        waits
        120
        (λ k. 140 + k)
        4
        5
        aging
      ≡ some (b, s'))
    × Perm
        (map strip b.items ++ contents s')
        (contents aging ++ submitted (take (waits_made (λ k. 120) waits 120 4 5 aging) waits))
    × (1 ≤ length b.items)
    × (length b.items ≤ max 1 4)
    × All HasStarted b.items
next_batch-perm_example = next_batch-perm (λ k. 120) waits 120 (λ k. 140 + k) 4 5 aging not_empty

-- Of two requests of one priority the first one submitted goes first.
abbrev peer : QueuedRequest
peer = record { priority = 2; sequence = 2; queued_at = 100; item = streaming_item "r2" }

abbrev equals : PriorityScheduler
equals = record { aging_boost_interval_s = 10; items = low ∷ peer ∷ []; counter = 2 }

low_taken : select 105 equals ≡ some (low, record equals { items = peer ∷ [] })
unfolding select Priority.scan Priority.key_lt Priority.effective_priority Priority.pop_at
low_taken = refl

select-no_overtaking_example : low.sequence ≤ peer.sequence
select-no_overtaking_example =
    select-no_overtaking 105 equals (record equals { items = peer ∷ [] }) low peer low_taken
      (mem-cons_of_mem low mem-cons_self) (omega arith) (omega arith)

equals-IsNumbered : IsNumbered equals
equals-IsNumbered q m =
    Or.elim le_prop (mem-cons.0 m) (λ e. rw e (omega arith))
      (λ rest.
        Or.elim le_prop (mem-cons.0 rest) (λ e. rw e (omega arith)) (λ n. absurd (not-mem-nil n)))

-- An urgent request comes in between, and does not pass an entry that has aged.
abbrev ops : List Op
ops =
    pops 120
    ∷ submits (record { enqueued = 121; now = 121; item = completion_item "r3" })
    ∷ pops 125
    ∷ []

run-serves_aged_example : Mem peer (run ops equals).0
run-serves_aged_example =
    run-serves_aged ops equals peer equals-IsNumbered (mem-cons_of_mem low mem-cons_self)
      (
        record { ages = omega arith; waited = omega arith },
        (record { ages = omega arith; waited = omega arith }, tt),
      )
      (omega arith)
