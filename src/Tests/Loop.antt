-- ===== src/Tests/Loop.antt =====
-- workers/manager.py: two turns of the worker's loop. The first takes a cancelled request and a
-- stream, on which the backend raises; the second a request that comes meanwhile.
use llm_serving_runtime.Base.{ℕ, ◌+◌, refl, inl, [], ◌∷◌}
use llm_serving_runtime.Backends.Base.{batch_token, batch_completed}
use llm_serving_runtime.Metrics.Collector
use llm_serving_runtime.Scheduler.Fifo.{FifoScheduler, Round, next_batch, take_one, collect}
use llm_serving_runtime.Scheduler.Fifo.Order.{arrived, rounds_used}
use llm_serving_runtime.Scheduler.Batching.{start_all}
use llm_serving_runtime.Core.Response.{cancel}
use llm_serving_runtime.Workers.Batch.{Shared, on_entry, fail_item, emits, raises, exhausted}
use llm_serving_runtime.Workers.Loop.{Turn, worker_loop}
use llm_serving_runtime.Workers.Loop.Served.{Serves}
use llm_serving_runtime.Workers.Loop.Progress.{worker_loop-Serves}
use llm_serving_runtime.Tests.Data.{completion_item, streaming_item}

abbrev idle : Shared
idle = record { metrics = Collector.init; log = [] }

abbrev quiet : ℕ → Round
quiet k = record { arrivals = []; now = 20 }

abbrev first_turn : Turn
first_turn = record {
  arrivals = streaming_item "r2" ∷ [];
  rounds = quiet;
  now = 10;
  clock = λ k. 11 + k;
  cancels = "r1" ∷ [];
  batch_start = 30;
  happenings = emits 31 (batch_token "r2" "a") ∷ [];
  ending = raises (λ k. 32 + k) "out of memory";
}

abbrev second_turn : Turn
second_turn = record {
  arrivals = completion_item "r3" ∷ [];
  rounds = quiet;
  now = 40;
  clock = λ k. 41 + k;
  cancels = [];
  batch_start = 50;
  happenings = emits 51 (batch_token "r3" "b") ∷ emits 52 (batch_completed "r3") ∷ [];
  ending = exhausted (λ k. 53 + k);
}

abbrev waiting : FifoScheduler
waiting = record { queue = completion_item "r1" ∷ [] }

worker_loop-Serves_example :
    Serves
      (first_turn ∷ second_turn ∷ [])
      waiting
      (worker_loop 2 0 (first_turn ∷ second_turn ∷ []) waiting idle)
unfolding worker_loop next_batch take_one collect arrived rounds_used start_all cancel on_entry
    fail_item
worker_loop-Serves_example =
    worker_loop-Serves 2 0 (first_turn ∷ second_turn ∷ []) waiting idle
      (inl refl, (inl refl, (inl refl, tt))) ((refl, (refl, tt)), ((refl, tt), (tt, tt)))
