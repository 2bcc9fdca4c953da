-- ===== src/Tests/Pool.antt =====
-- workers/manager.py: two workers. Both take a request; one is cancelled in its batch, and the other
-- has an event.
use llm_serving_runtime.Scheduler.Source.{Source}
use llm_serving_runtime.Base.{
  ℕ, zero, suc, ◌+◌, ◌*◌, ◌≤◌, ◌≡◌, refl, sym, subst, inl, inr, none, some, List, [], ◌∷◌, map,
  arith, Bool-cases, length, get_elem?, take, All,
}
use llm_serving_runtime.Base.Text.{String, str_eq, eq_iff}
use llm_serving_runtime.Scheduler.Priority.{PriorityScheduler}
use llm_serving_runtime.Scheduler.Priority.Batches.{submitted, waits_made}
use llm_serving_runtime.Backends.Base.{batch_token}
use llm_serving_runtime.Core.Response.{cancel}
use llm_serving_runtime.Metrics.Collector
use llm_serving_runtime.Scheduler.Batching.{start_all}
use llm_serving_runtime.Scheduler.Fifo.{FifoScheduler, Round}
use llm_serving_runtime.Scheduler.Fifo
use llm_serving_runtime.Scheduler.Source.FifoSource.{fifo_submitted, fifo_source, fifo_next}
use llm_serving_runtime.Scheduler.Source.PrioritySource.{
  PriorityClock, priority_source, priority_submitted,
}
use llm_serving_runtime.Scheduler.Priority
use llm_serving_runtime.Workers.Batch.{
  deliver, on_entry, emits, Shared, Entry, exhausted, enter_all, enter, cancel_entry,
}
use llm_serving_runtime.Workers.Loop.{served_id}
use llm_serving_runtime.Workers.Loop.Served.{IsServed}
use llm_serving_runtime.Workers.Pool.{
  end_batch, ends, Worker, waits, busy, Pool, start_pool, submit, cancel_request, take_batch,
  has_turned, begin_batch, hear, WorkerTurn, PoolStep, Steps, takes, hears, submits, cancels, turns,
  here, later,
}
use llm_serving_runtime.Workers.Pool.Tickets.{times, IsOnce}
use llm_serving_runtime.Workers.Pool.Sound.{IsSound}
use llm_serving_runtime.Workers.Pool.Safety.{pool-IsSound}
use llm_serving_runtime.Workers.Pool.Load.{IsDrained, left_to_do, turns_taken, turns_taken-put_on}
use llm_serving_runtime.Workers.Pool.Delivered.{left_by}
use llm_serving_runtime.Workers.Pool.Drain.{pool-drains}
use llm_serving_runtime.Tests.Data.{completion_item, streaming_item}

abbrev pub log_and_metrics : Shared
log_and_metrics = record { metrics = Collector.init; log = [] }

-- Batches of one request.
abbrev pub fifo_one : Source
fifo_one = fifo_source 1 0

abbrev pub nobody : Pool fifo_one
nobody = start_pool fifo_one 2 (record { queue = [] }) log_and_metrics

abbrev pub clock : (ℕ → Round) × ℕ × (ℕ → ℕ)
clock = (λ k. record { arrivals = []; now = 20 }, 10, λ k. 11 + k)

pub r1_r2-IsOnce : IsOnce ("r1" ∷ "r2" ∷ [])
r1_r2-IsOnce id = elim (Bool-cases (str_eq id "r1")) [
  | inl first ↦
      subst (λ x. times x ("r1" ∷ "r2" ∷ []) ≤ 1) (sym ((eq_iff id "r1").0 first)) (omega arith)
  | inr other ↦ ground arith
]

abbrev pub two_wait : Pool fifo_one
two_wait = submit fifo_one 2 (streaming_item "r2") (submit fifo_one 1 (completion_item "r1") nobody)

abbrev pub two_wait_steps : Steps (PoolStep fifo_one) nobody two_wait
two_wait_steps =
    later (later here (submits 1 (completion_item "r1") refl))
      (submits 2 (streaming_item "r2") refl)

abbrev next_taken : ℕ → Pool fifo_one → Pool fifo_one
next_taken w p = elim (fifo_next 1 0 clock p.scheduler) [
  | none ↦ p
  | some (b, left) ↦ take_batch fifo_one w 30 [] b.items left p
]

-- Worker 1 takes first.
abbrev pub both_work : Pool fifo_one
both_work = next_taken 0 (next_taken 1 two_wait)

abbrev cancelled_one : Pool fifo_one
cancelled_one = cancel_request fifo_one "r2" both_work

abbrev pub batch_of : ℕ → Pool fifo_one → List Entry
batch_of w p = elim (get_elem? p.workers w) [
  | none ↦ []
  | some waits ↦ []
  | some (busy batch_start entries) ↦ entries
  | some (Worker.died message) ↦ []
]

abbrev heard_one : Pool fifo_one
heard_one =
    has_turned fifo_one 0
      (hear (λ k. 31 + k) (batch_token "r1" "a") 30 (batch_of 0 cancelled_one) cancelled_one.shared)
      cancelled_one

unfoldable heard_one_steps : Steps (PoolStep fifo_one) nobody heard_one
unfolding submit fifo_next Fifo.next_batch Fifo.submit Fifo.collect start_all take_batch begin_batch
    cancel_request cancel_entry enter_all enter fifo_submitted
heard_one_steps =
    let working =
      later (later two_wait_steps (turns (takes 1 30 clock _ _ refl refl tt)))
        (turns (takes 0 30 clock _ _ refl refl tt)) in
    later (later working (cancels "r2"))
      (turns (hears 0 (λ k. 31 + k) 30 (batch_token "r1" "a") (batch_of 0 cancelled_one) refl))

pool-IsSound_example : IsSound fifo_one 2 heard_one
unfolding has_turned cancel_request fifo_next submit Fifo.submit take_batch Fifo.collect
pool-IsSound_example =
    pool-IsSound fifo_one 2 (record { queue = [] }) log_and_metrics heard_one tt r1_r2-IsOnce
      heard_one_steps

abbrev ended_one : Pool fifo_one
ended_one =
    has_turned fifo_one 0
      (end_batch (exhausted (λ k. 33 + k)) 30 (batch_of 0 heard_one) heard_one.shared) heard_one

unfoldable ended_one_steps : Steps (PoolStep fifo_one) nobody ended_one
unfolding submit fifo_next Fifo.next_batch Fifo.submit Fifo.collect start_all take_batch begin_batch
    cancel_request cancel_entry enter_all enter has_turned hear deliver on_entry
ended_one_steps =
    later heard_one_steps (turns (ends 0 30 (exhausted (λ k. 33 + k)) (batch_of 0 heard_one) refl))

-- What the worker has heard of its batch stands beside the entry that leaves it.
ended_one-heard :
    map (λ a. a.0) (left_by ended_one_steps) ≡ (emits 31 (batch_token "r1" "a") ∷ []) ∷ []
unfolding ended_one_steps heard_one_steps end_batch cancel
ended_one-heard = refl

-- One worker on the priority scheduler, with batches of up to two.
abbrev priority_two : Source
priority_two = priority_source 2 5

abbrev by_priority : Pool priority_two
by_priority = start_pool priority_two 1 (Priority.new 1000) log_and_metrics

abbrev one_waits : Pool priority_two
one_waits = submit priority_two 1 (completion_item "r1") by_priority

abbrev priority_clock : PriorityClock
priority_clock = (λ k. 12, [], 10, λ k. 13 + k)

take_nil : (n : ℕ) → submitted (take n []) ≡ []
take_nil zero = refl
take_nil (suc n) = refl

one_waits-IsOnce : IsOnce one_waits.put_on
unfolding submit
one_waits-IsOnce id = ground arith

priority_quiet : (s : PriorityScheduler) → priority_two.submitted priority_clock s ≡ []
unfolding priority_submitted
priority_quiet s = take_nil (waits_made (priority_clock.0) [] 10 2 5 s)

pool-drains_example :
    (q : Pool priority_two) × Steps (WorkerTurn priority_two) one_waits q
    × IsDrained priority_two q
    × (q.put_on ≡ one_waits.put_on)
    × All IsServed q.served
    × ((id : String)
        → times id q.skipped + times id (map served_id q.served) ≡ times id one_waits.put_on)
pool-drains_example =
    pool-drains priority_two 1 (Priority.new 1000) log_and_metrics priority_clock one_waits
      priority_quiet (omega arith) tt one_waits-IsOnce
      (later here (submits 1 (completion_item "r1") refl))

turns_taken-put_on_example :
    turns_taken fifo_one nobody heard_one heard_one_steps + left_to_do fifo_one heard_one
    ≤ 2 * length heard_one.put_on
turns_taken-put_on_example =
    turns_taken-put_on fifo_one 2 (record { queue = [] }) log_and_metrics heard_one heard_one_steps
