-- ===== src/Tests/Workers.antt =====
-- workers/manager.py at concrete inputs.
use llm_serving_runtime.Base.{◌+◌, ◌≡◌, refl, none, List, [], ◌∷◌, map, All}
use llm_serving_runtime.Core.Response.{ScheduledRequest}
use llm_serving_runtime.Backends.Base.{batch_token, batch_completed}
use llm_serving_runtime.Metrics.Collector
use llm_serving_runtime.Workers.Batch.{
  Shared, Happening, emits, cancels, Ending, raises, entry_id, execute_batch,
}
use llm_serving_runtime.Workers.Batch.Contract.{
  item_id, active, IsDelivered, execute_batch-IsResolved,
}
use llm_serving_runtime.Tests.Data.{completion_item, streaming_item}

abbrev idle : Shared
idle = record { metrics = Collector.init; log = [] }

-- A completion, a stream and a request that is cancelled under way; then the backend raises.
abbrev items : List ScheduledRequest
items = completion_item "r1" ∷ streaming_item "r2" ∷ completion_item "r3" ∷ []

abbrev happenings : List Happening
happenings =
    emits 10 (batch_token "r1" "a")
    ∷ emits 11 (batch_token "r2" "b")
    ∷ cancels "r3"
    ∷ emits 12 (batch_completed "r1")
    ∷ emits 13 (batch_token "r9" "c")
    ∷ []

-- The backend raises, and the clock reads 14, 15, …
abbrev out_of_memory : Ending
out_of_memory = raises (λ k. 14 + k) "out of memory"

execute_batch-IsResolved_example :
    let (error, entries, _) = execute_batch 9 happenings out_of_memory items idle in
    (error ≡ none)
    × (map entry_id entries ≡ map item_id (active items))
    × All (IsDelivered out_of_memory happenings) entries
execute_batch-IsResolved_example =
    execute_batch-IsResolved 9 happenings out_of_memory items idle
      ((refl, (refl, tt)), ((refl, tt), (tt, tt))) (refl, (refl, (refl, tt)))
