-- ===== src/Scheduler/Interface.antt =====
-- scheduler/base.py: the part of the scheduler that the API uses, as operations with the law that it
-- relies on, and the two schedulers behind it.
use llm_serving_runtime.Base.{ℕ, suc, ◌≡◌, ◌∙◌, arith, length-append}
use llm_serving_runtime.Core.Response.{ScheduledRequest}
use llm_serving_runtime.Scheduler.Fifo.{FifoScheduler}
use llm_serving_runtime.Scheduler.Fifo
use llm_serving_runtime.Scheduler.Priority.{PriorityScheduler}
use llm_serving_runtime.Scheduler.Priority

-- `submit` takes the readings of the clock that it makes.
pub record Scheduler : Type 1 where
  pub State : Type 0
  pub submit : ℕ → ScheduledRequest → State → State
  pub size : State → ℕ
  pub size-submit :
      (now : ℕ) (item : ScheduledRequest) (s : State) → size (submit now item s) ≡ suc (size s)

pub fifo_size-submit :
    (now : ℕ) (item : ScheduledRequest) (s : FifoScheduler)
    → Fifo.size (Fifo.submit now item s) ≡ suc (Fifo.size s)
unfolding Fifo.size Fifo.submit
fifo_size-submit now item s = length-append s.queue _ ∙ omega arith

pub priority_size-submit :
    (now : ℕ) (item : ScheduledRequest) (s : PriorityScheduler)
    → Priority.size (Priority.submit now now item s) ≡ suc (Priority.size s)
unfolding Priority.size Priority.submit
priority_size-submit now item s = length-append s.items _ ∙ omega arith

abbrev pub fifo : Scheduler
fifo = record {
  State = FifoScheduler;
  submit = Fifo.submit;
  size = Fifo.size;
  size-submit = fifo_size-submit;
}

abbrev pub priority : Scheduler
priority = record {
  State = PriorityScheduler;
  submit = λ now. Priority.submit now now;
  size = Priority.size;
  size-submit = priority_size-submit;
}
