-- ===== src/Tests/App.antt =====
-- src/llm_runtime/main.py: a run with a llama.cpp backend whose second health check answers 200, and
-- the response of `/metrics`.
use llm_serving_runtime.Base.{zero, suc, ◌≡◌, ◌⊎◌, Option, none, some, []}
use llm_serving_runtime.Base.Text.{String}
use llm_serving_runtime.Core.Lifecycle.{create, llama_cpp}
use llm_serving_runtime.Config.{default}
use llm_serving_runtime.Base.Int.{pos}
use llm_serving_runtime.Core.Request.{codes}
use llm_serving_runtime.Backends.Server.{status, connect_error, returns, fails}
use llm_serving_runtime.App.{Runtime, World, new_backend, Leftover, start, lifespan}
use llm_serving_runtime.App.Lifespan.{IsEnded, lifespan-IsStopped}

abbrev world : World
world = record {
  show_float = λ n. codes "0.9";
  spawn = λ args. none;
  exited = none;
  health = λ i. elim i [ zero ↦ connect_error | suc n ↦ status 200 ];
}

abbrev runtime : Runtime
runtime = record {
  manager = (create (default "models/qwen") none 0).manager;
  backend = new_backend (λ port. "8082") (llama_cpp "models/qwen" 2048 (pos 0));
}

abbrev serve : Runtime → Option String × Runtime
serve r = (some "cancelled", r)

abbrev leftover : Leftover
leftover = record { exception = none; exited = none }

lifespan-IsStopped_example :
    let ended = lifespan world serve leftover runtime in
    let (error, served) = serve (start world runtime).1 in
    (((start world runtime).0 ≡ returns) × IsEnded leftover error served ended)
    ⊎ ((message : String) × ((start world runtime).0 ≡ fails message)
        × (ended.error ≡ some message)
        × (ended.log ≡ [])
        × (ended.runtime.manager ≡ runtime.manager))
lifespan-IsStopped_example = lifespan-IsStopped world serve leftover runtime
