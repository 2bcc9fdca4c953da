-- ===== src/App/Lifespan.antt =====
-- src/llm_runtime/main.py: what the process leaves behind when it ends.
use llm_serving_runtime.Base.{
  ℕ, ◌<◌, ◌≡◌, ◌≢◌, refl, sym, ap, subst, ◌∙◌, List, ◌⊎◌, inl, inr, false, Option, none, some, [],
  ◌∷◌,
}
use llm_serving_runtime.Base.Text.{String}
use llm_serving_runtime.Backends.Server.{Outcome, returns, fails}
use llm_serving_runtime.Backends.Server.Command.{
  failure, LlamaCppBackend, llama_args, llama_start, llama_stop, vllm_stop,
}
use llm_serving_runtime.Backends.Server.Readiness.{
  IsReleased, IsRetried, stop-IsReleased, start-start_failed,
}
use llm_serving_runtime.Workers.Manager
use llm_serving_runtime.Workers.Manager.{WorkerManager}
use llm_serving_runtime.App.{
  Backend, mock_backend, llama_backend, vllm_backend, Runtime, World, Leftover, Ended,
  runtime_started, runtime_stopped, start_backend, stop_backend, start, stop, lifespan,
}

-- The backend holds no client, and its process does not run.
abbrev pub IsStopped : Backend → Type 0
IsStopped mock_backend = Unit
IsStopped (llama_backend b) = IsReleased b.server
IsStopped (vllm_backend b) = IsReleased b.server

stop_backend-IsStopped : (exited : Option ℕ) (b : Backend) → IsStopped (stop_backend exited b)
unfolding stop_backend llama_stop vllm_stop
stop_backend-IsStopped exited mock_backend = tt
stop_backend-IsStopped exited (llama_backend b) = (stop-IsReleased exited exited b.server).0
stop_backend-IsStopped exited (vllm_backend b) = (stop-IsReleased exited exited b.server).0

start_fails_manager :
    (w : World) (r : Runtime) (message : String)
    → (start w r).0 ≡ fails message
    → (start w r).1.manager ≡ r.manager
unfolding start
start_fails_manager w r message e = by_outcome (start_backend w r.backend).0 refl
  where
    by_outcome :
        (o : Outcome) → (start_backend w r.backend).0 ≡ o → (start w r).1.manager ≡ r.manager
    by_outcome returns f = absurd (let g : returns ≡ fails message = rw (f, start) at e in cc)
    by_outcome (fails m) f = rw (f, start) refl

lifespan_fails :
    (w : World) (serve : Runtime → Option String × Runtime) (l : Leftover) (r : Runtime)
    (message : String)
    → (start w r).0 ≡ fails message
    → lifespan w serve l r ≡ record { error = some message; log = []; runtime = (start w r).1 }
unfolding lifespan
lifespan_fails w serve l r message e = rw (e, lifespan) refl

-- A failed start of a backend that is a llama.cpp server.
start_fails_llama :
    (w : World) (r : Runtime) (b : LlamaCppBackend) (message : String)
    → r.backend ≡ llama_backend b
    → (llama_start w.spawn w.exited w.health b).0 ≡ fails message
    → ((start w r).0 ≡ fails message)
      × ((start w r).1.backend ≡ llama_backend (llama_start w.spawn w.exited w.health b).1)
unfolding start start_backend
start_fails_llama w r b message backend e =
    let first : (start_backend w r.backend).0 ≡ fails message =
      ap (λ x. (start_backend w x).0) backend ∙ e in
    let left : (start_backend w r.backend).1
        ≡ llama_backend (llama_start w.spawn w.exited w.health b).1 =
      ap (λ x. (start_backend w x).1) backend in
    (rw (first, start) refl, rw (first, start) left)

-- How a run ends once its start has succeeded: everything is stopped, or a task had ended with an
-- exception, which goes on.
abbrev pub IsEnded : Leftover → Option String → Runtime → Ended → Type 0
IsEnded l error served ended =
    (((l.exception ≡ none) ⊎ (served.manager.tasks ≡ []))
      × (ended.error ≡ error)
      × (ended.log ≡ runtime_started ∷ runtime_stopped ∷ [])
      × (ended.runtime.manager.tasks ≡ [])
      × IsStopped ended.runtime.backend)
    ⊎ ((message : String) × (l.exception ≡ some message)
        × (served.manager.tasks ≢ [])
        × (ended.error ≡ some message)
        × (ended.log ≡ runtime_started ∷ [])
        × (ended.runtime ≡ served))

manager_stop_idle :
    (exception : Option String) (m : WorkerManager)
    → m.tasks ≡ []
    → Manager.stop exception m ≡ (none, m)
unfolding Manager.stop
manager_stop_idle exception m e = simp (e, Manager.stop)

manager_stop_quiet :
    (exception : Option String) (m : WorkerManager) (task : ℕ) (tasks : List ℕ)
    → m.tasks ≡ task ∷ tasks
    → exception ≡ none
    → Manager.stop exception m ≡ (none, record m { tasks = [] })
unfolding Manager.stop
manager_stop_quiet exception m task tasks e f = simp (e, f, Manager.stop)

manager_stop_raises :
    (exception : Option String) (m : WorkerManager) (task : ℕ) (tasks : List ℕ) (message : String)
    → m.tasks ≡ task ∷ tasks
    → exception ≡ some message
    → Manager.stop exception m ≡ (some message, m)
unfolding Manager.stop
manager_stop_raises exception m task tasks message e f = simp (e, f, Manager.stop)

stop_cases :
    (l : Leftover) (s : Runtime)
    → (((l.exception ≡ none) ⊎ (s.manager.tasks ≡ []))
        × ((stop l s).0 ≡ none)
        × ((stop l s).1.manager.tasks ≡ [])
        × IsStopped (stop l s).1.backend)
      ⊎ ((message : String) × (l.exception ≡ some message)
          × (s.manager.tasks ≢ [])
          × (stop l s ≡ (some message, s)))
unfolding stop Manager.stop
stop_cases l s = by_tasks s.manager.tasks refl l.exception refl
  where
    by_tasks :
        (tasks : List ℕ)
        → s.manager.tasks ≡ tasks
        → (exception : Option String) → l.exception ≡ exception
        → (((l.exception ≡ none) ⊎ (s.manager.tasks ≡ []))
            × ((stop l s).0 ≡ none)
            × ((stop l s).1.manager.tasks ≡ [])
            × IsStopped (stop l s).1.backend)
          ⊎ ((message : String) × (l.exception ≡ some message)
              × (s.manager.tasks ≢ [])
              × (stop l s ≡ (some message, s)))
    by_tasks [] e exception f =
        let idle = manager_stop_idle l.exception s.manager e in
        let ok = ap (λ x. x.0) idle in
        let cleared : (Manager.stop l.exception s.manager).1.tasks ≡ [] =
          subst (λ (x : Option String × WorkerManager). x.1.tasks ≡ []) (sym idle) e in
        inl (
          inr e,
          rw (ok, stop) refl,
          rw (ok, stop) cleared,
          rw (ok, stop) (stop_backend-IsStopped l.exited s.backend),
        )
    by_tasks (t ∷ ts) e none f =
        let quiet = manager_stop_quiet l.exception s.manager t ts e f in
        let ok = ap (λ x. x.0) quiet in
        inl (
          inl f,
          rw (ok, stop) refl,
          rw (ok, stop) (ap (λ x. x.1.tasks) quiet),
          rw (ok, stop) (stop_backend-IsStopped l.exited s.backend),
        )
    by_tasks (t ∷ ts) e (some message) f =
        let raised = manager_stop_raises l.exception s.manager t ts message e f in
        let error = ap (λ x. x.0) raised in
        inr (
          message,
          f,
          (λ none_left. absurd (let g : t ∷ ts ≡ [] = sym e ∙ none_left in cc)),
          rw (error, stop)
              (ap (λ x. (some message, record { manager = x.1; backend = s.backend })) raised),
        )

-- A run of the process whose start succeeds hands the started runtime to the application. Whatever
-- that does, an exception included: if no task of a worker had ended with an exception, or none is
-- there, no task, client or backend process is left at the end. Otherwise that exception ends the
-- run, and the runtime stays as it was, the backend's process included. A start that fails ends the
-- run with its exception, and starts no worker.
pub lifespan-IsStopped :
    (w : World) (serve : Runtime → Option String × Runtime) (l : Leftover) (r : Runtime)
    → let ended = lifespan w serve l r in
      (((start w r).0 ≡ returns) × IsEnded l (serve (start w r).1).0 (serve (start w r).1).1 ended)
      ⊎ ((message : String) × ((start w r).0 ≡ fails message)
          × (ended.error ≡ some message)
          × (ended.log ≡ [])
          × (ended.runtime.manager ≡ r.manager))
unfolding lifespan
lifespan-IsStopped w serve l r = by_outcome (start w r).0 refl
  where
    by_outcome :
        (o : Outcome)
        → (start w r).0 ≡ o
        → let ended = lifespan w serve l r in
          (((start w r).0 ≡ returns)
            × IsEnded l (serve (start w r).1).0 (serve (start w r).1).1 ended)
          ⊎ ((message : String) × ((start w r).0 ≡ fails message)
              × (ended.error ≡ some message)
              × (ended.log ≡ [])
              × (ended.runtime.manager ≡ r.manager))
    by_outcome returns e = elim (stop_cases l (serve (start w r).1).1) [
      | inl (quiet, ok, cleared, stopped) ↦
          rw (e, ok, lifespan) (inl (refl, inl (quiet, refl, refl, cleared, stopped)))
      | inr (message, left, some_task, failed) ↦
          let error = ap (λ x. x.0) failed in
          rw (e, error, lifespan)
            (inl (refl, inr (message, left, some_task, refl, refl, ap (λ x. x.1) failed)))
    ]
    by_outcome (fails message) e =
        rw (e, lifespan) (inr (message, refl, refl, refl, start_fails_manager w r message e))

-- When the 120 health checks of a llama.cpp backend, started for the first time with a process that
-- can be created, are all refused or answer another status than 200, the run ends with an exception
-- and does not stop the process of the server, which runs on unless it ended by itself.
pub lifespan-never_healthy :
    (w : World) (serve : Runtime → Option String × Runtime) (l : Leftover) (r : Runtime)
    (b : LlamaCppBackend)
    → r.backend ≡ llama_backend b
    → b.server.has_client ≡ false
    → w.spawn (llama_args b) ≡ none
    → ((i : ℕ) → i < 120 → IsRetried (w.health i))
    → (b' : LlamaCppBackend) × ((lifespan w serve l r).runtime.backend ≡ llama_backend b')
      × (b'.server.process ≡ some (record { returncode = w.exited }))
      × ((lifespan w serve l r).error ≡ some (failure "llama-server" b.base_url b.model_path))
unfolding llama_start
lifespan-never_healthy w serve l r b backend stopped spawned never =
    let (failed, running, _) =
      start-start_failed 120 120 w.health w.health (failure "llama-server" b.base_url b.model_path)
        (failure "llama-server" b.base_url b.model_path) none w.exited w.exited b.server stopped
        never in
    let fails_ : (llama_start w.spawn w.exited w.health b).0
        ≡ fails (failure "llama-server" b.base_url b.model_path) =
      rw spawned failed in
    let (ended, left) =
      start_fails_llama w r b (failure "llama-server" b.base_url b.model_path) backend fails_ in
    let all = lifespan_fails w serve l r (failure "llama-server" b.base_url b.model_path) ended in
    ((llama_start w.spawn w.exited w.health b).1, rw all left, rw spawned running, rw all refl)
