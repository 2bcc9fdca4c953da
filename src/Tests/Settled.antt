-- ===== src/Tests/Settled.antt =====
-- workers/manager.py: two workers and no cancellation. One batch ends with an exception.
use llm_serving_runtime.Base.{◌+◌, ◌≡◌, refl, [], length}
use llm_serving_runtime.Metrics.Collector
use llm_serving_runtime.Scheduler.Batching.{start_all}
use llm_serving_runtime.Scheduler.Fifo
use llm_serving_runtime.Scheduler.Source.FifoSource.{fifo_next, fifo_submitted}
use llm_serving_runtime.Workers.Batch.{raises, enter_all, enter}
use llm_serving_runtime.Workers.Batch.Counted.{settled}
use llm_serving_runtime.Workers.Pool.{
  Pool, submit, take_batch, begin_batch, has_turned, end_batch, PoolStep, Steps, takes, ends, turns,
  later,
}
use llm_serving_runtime.Workers.Pool.Conserved.{outstanding, settled-outstanding}
use llm_serving_runtime.Tests.Pool.{
  fifo_one, log_and_metrics, nobody, clock, two_wait_steps, both_work, batch_of, r1_r2-IsOnce,
}

abbrev failed_one : Pool fifo_one
failed_one =
    has_turned fifo_one 0
      (end_batch (raises (λ k. 33 + k) "out of memory") 30 (batch_of 0 both_work) both_work.shared)
      both_work

abbrev failed_one_steps : Steps (PoolStep fifo_one) nobody failed_one
unfolding submit fifo_next Fifo.next_batch Fifo.submit Fifo.collect start_all take_batch begin_batch
    enter_all enter fifo_submitted
failed_one_steps =
    later
      (later (later two_wait_steps (turns (takes 1 30 clock _ _ refl refl tt)))
        (turns (takes 0 30 clock _ _ refl refl tt)))
      (turns (ends 0 30 (raises (λ k. 33 + k) "out of memory") (batch_of 0 both_work) refl))

settled-outstanding_example :
    settled failed_one.shared + outstanding fifo_one failed_one ≡ length failed_one.put_on
unfolding has_turned fifo_next submit Fifo.submit take_batch Fifo.collect Collector.init
    failed_one_steps
settled-outstanding_example =
    settled-outstanding fifo_one 2 (record { queue = [] }) log_and_metrics failed_one
      failed_one_steps tt tt refl tt r1_r2-IsOnce
