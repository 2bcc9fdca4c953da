-- ===== src/Workers/Pool/Heard.antt =====
-- workers/manager.py: what each worker has heard from the backend in its batch, beside its entries.
use llm_serving_runtime.Base.{
  ℕ, ◌≡◌, refl, sym, subst, inl, inr, true, List, [], ◌∷◌, ◌++◌, map, append_assoc, Bool-cases, All,
}
use llm_serving_runtime.Base.Text.{String, str_eq}
use llm_serving_runtime.Core.Response.{ScheduledRequest}
use llm_serving_runtime.Backends.Base.{BatchEvent}
use llm_serving_runtime.Workers.Batch.{Shared, Entry, entry_id, Happening, emits, enter, enter_all}
use llm_serving_runtime.Workers.Batch.Outcomes.{IsCurrent, deliver-Current}
use llm_serving_runtime.Workers.Batch.Received.{
  tokens_for, AreDistinct, IsDue, deliver-IsDue, cancel-IsDue,
}
use llm_serving_runtime.Workers.Pool.{Worker, waits, busy, died, cancel_worker, work_on, hear}
use llm_serving_runtime.Workers.Pool.Turns.{hear_busy}

-- Each entry of the worker's batch has what was emitted for it, and will have what comes.
abbrev pub IsExpecting : List Happening → Worker → Type 0
IsExpecting heard waits = Unit
IsExpecting heard (busy batch_start entries) =
    (rest : List Happening) → All (IsDue (λ id. tokens_for id (heard ++ rest)) rest) entries
IsExpecting heard (died message) = Unit

abbrev IsEmpty : Entry → Type 0
IsEmpty e = (e.tokens ≡ []) × (e.is_pending ≡ true)

enter-IsEmpty :
    (item : ScheduledRequest) (entries : List Entry)
    → All IsEmpty entries
    → All IsEmpty (enter item entries)
unfolding enter
enter-IsEmpty item [] h = ((refl, refl), tt)
enter-IsEmpty item (e ∷ entries) h =
    elim (Bool-cases (str_eq (entry_id e) item.request.request_id)) [
      | inl here ↦ rw here h
      | inr later ↦ rw later (h.0, enter-IsEmpty item entries h.1)
    ]

enter_all-IsEmpty :
    (items : List ScheduledRequest) (entries : List Entry)
    → All IsEmpty entries
    → All IsEmpty (enter_all items entries)
unfolding enter_all
enter_all-IsEmpty [] entries h = h
enter_all-IsEmpty (x ∷ items) entries h = enter_all-IsEmpty items _ (enter-IsEmpty x entries h)

IsEmpty-IsDue :
    (rest : List Happening) (entries : List Entry)
    → All IsEmpty entries
    → All (IsDue (λ id. tokens_for id rest) rest) entries
IsEmpty-IsDue rest [] h = tt
IsEmpty-IsDue rest (e ∷ entries) h = (inr (rw (h.0.0, h.0.1) refl), IsEmpty-IsDue rest entries h.1)

pub work_on-IsExpecting :
    (batch_start : ℕ) (items : List ScheduledRequest) → IsExpecting [] (work_on batch_start items)
work_on-IsExpecting batch_start [] = tt
work_on-IsExpecting batch_start (x ∷ items) =
    λ rest. IsEmpty-IsDue rest _ (enter_all-IsEmpty (x ∷ items) [] tt)

pub cancel_worker-IsExpecting :
    (id : String) (heard : List Happening) (w : Worker)
    → IsExpecting heard w
    → IsExpecting heard (cancel_worker id w)
cancel_worker-IsExpecting id heard waits h = tt
cancel_worker-IsExpecting id heard (busy batch_start entries) h =
    λ rest. cancel-IsDue (λ x. tokens_for x (heard ++ rest)) id rest entries (h rest)
cancel_worker-IsExpecting id heard (died message) h = tt

pub hear-IsExpecting :
    (clock : ℕ → ℕ) (event : BatchEvent) (batch_start : ℕ) (entries : List Entry) (sh : Shared)
    (heard : List Happening)
    → AreDistinct (map entry_id entries)
    → All IsCurrent entries
    → IsExpecting heard (busy batch_start entries)
    → IsExpecting
        (heard ++ (emits (clock 0) event ∷ []))
        (hear clock event batch_start entries sh).worker
hear-IsExpecting clock event batch_start entries sh heard distinct c h =
    let (ok, _, _) = deliver-Current (clock 0) batch_start event entries sh c in
    let now = emits (clock 0) event in
    subst (λ t. IsExpecting (heard ++ (now ∷ [])) t.worker)
      (sym (hear_busy clock event batch_start entries sh ok))
      (λ rest.
        deliver-IsDue (λ x. tokens_for x ((heard ++ (now ∷ [])) ++ rest)) (clock 0) batch_start
          event rest entries sh distinct c
          (subst (λ all. All (IsDue (λ x. tokens_for x all) (now ∷ rest)) entries)
            (sym (append_assoc heard (now ∷ []) rest)) (h (now ∷ rest))))
