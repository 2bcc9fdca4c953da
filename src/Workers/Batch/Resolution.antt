-- ===== src/Workers/Batch/Resolution.antt =====
-- workers/manager.py: how a batch ends for each of its requests.
use llm_serving_runtime.Base.{
  ℕ, suc, ◌≡◌, refl, sym, ap, subst, ◌∙◌, ◌⊎◌, inl, inr, true, false, not, ◌&&◌, Option, none, some,
  List, [], ◌∷◌, ◌++◌, map, append-nil, arith, Bool-cases, All,
}
use mathlib.Core.Path.{ap₂}
use llm_serving_runtime.Base.Text.{String}
use llm_serving_runtime.Core.Response.{
  ScheduledRequest, ResponseHandle, completion, streaming, token_event, completed_event,
  error_event, finished, raised, item_cancelled, handle_cancelled,
}
use llm_serving_runtime.Metrics.Collector.{record_failure}
use llm_serving_runtime.Workers.Batch.{
  Entry, entry_id, Shared, Step, Happening, emits, cancels, Ending, exhausted, raises, result,
  complete_item, fail_handle, fail_item, count_failure, deliver, cancel_entry, each_pending,
  complete_pending, fail_pending, try_body, run_batch,
}
use llm_serving_runtime.Workers.Batch.Outcomes.{
  Current, IsCurrent, complete_item-Current, deliver-Current, cancel_entry-Current,
}

abbrev pub message : Ending → Option String
message (exhausted clock) = none
message (raises clock m) = some m

-- How a channel stands after its batch. It was cancelled; or it has its outcome: a future has the
-- result or the backend's exception; a stream has its tokens, in order, and then one last event, the
-- completion or that exception. Only a backend that raised leaves exceptions.
abbrev pub Resolved : Ending → String → List String → ResponseHandle → Type 0
Resolved ending id tokens (completion h) =
    (h.cancelled ≡ true)
    ⊎ (h.future ≡ finished (result id tokens))
    ⊎ ((m : String) × (message ending ≡ some m) × (h.future ≡ raised m))
Resolved ending id tokens (streaming h) =
    (h.cancelled ≡ true)
    ⊎ (h.queue ≡ map token_event tokens ++ (completed_event "stop" ∷ []))
    ⊎ ((m : String) × (message ending ≡ some m)
        × (h.queue ≡ map token_event tokens ++ (error_event m ∷ [])))

abbrev pub IsResolved : Ending → Entry → Type 0
IsResolved ending e = Resolved ending (entry_id e) e.tokens e.item.handle

pub Resolved-of_cancelled :
    (ending : Ending) (id : String) (tokens : List String) (h : ResponseHandle)
    → handle_cancelled h ≡ true
    → Resolved ending id tokens h
Resolved-of_cancelled ending id tokens (completion h) e = inl e
Resolved-of_cancelled ending id tokens (streaming h) e = inl e

Resolved-of_open :
    (ending : Ending) (id : String) (tokens : List String) (h : ResponseHandle)
    → Current false id tokens h
    → handle_cancelled h ≡ false
    → Resolved ending id tokens h
Resolved-of_open ending id tokens (completion h) c open_ = inr (inl (c open_))
Resolved-of_open ending id tokens (streaming h) c open_ = inr (inl (c open_))

Resolved-of_Current :
    (ending : Ending) (id : String) (tokens : List String) (h : ResponseHandle)
    → Current false id tokens h
    → Resolved ending id tokens h
Resolved-of_Current ending id tokens h c = elim (Bool-cases (handle_cancelled h)) [
  | inl gone ↦ Resolved-of_cancelled ending id tokens h gone
  | inr open_ ↦ Resolved-of_open ending id tokens h c open_
]

fail_handle-Resolved :
    (ending : Ending) (exc : String) (item : ScheduledRequest) (sh : Shared) (tokens : List String)
    (h : ResponseHandle)
    → message ending ≡ some exc
    → Current true item.request.request_id tokens h
    → handle_cancelled h ≡ false
    → let (error, item', _) = fail_handle h exc item sh in
      (error ≡ none)
      × (item'.request.request_id ≡ item.request.request_id)
      × Resolved ending item.request.request_id tokens item'.handle
unfolding fail_handle
fail_handle-Resolved ending exc item sh tokens (completion h) m c open_ =
    rw (c open_) (refl, refl, inr (inr (exc, m, refl)))
fail_handle-Resolved ending exc item sh tokens (streaming h) m c open_ =
    (refl, refl, inr (inr (exc, m, rw (c open_) (rw append-nil))))

-- What a step of a final loop does for an entry that it works on.
abbrev pub Resolves : Ending → (ℕ → Entry → Shared → Step ScheduledRequest) → Type 0
Resolves ending f =
    (k : ℕ) (e : Entry) (sh : Shared)
    → Current true (entry_id e) e.tokens e.item.handle
    → item_cancelled e.item ≡ false
    → let (error, item, _) = f k e sh in
      (error ≡ none)
      × (item.request.request_id ≡ entry_id e)
      × Resolved ending (entry_id e) e.tokens item.handle

pub complete-Resolves :
    (ending : Ending) (clock : ℕ → ℕ) (batch_start : ℕ)
    → Resolves ending (λ k e sh. complete_item (clock k) batch_start e.tokens e.item sh)
complete-Resolves ending clock batch_start k e sh c open_ =
    let (ok, same, current) =
      complete_item-Current (clock k) batch_start e.tokens e.item sh c open_ in
    (ok, same, Resolved-of_Current ending (entry_id e) e.tokens _ current)

pub fail-Resolves :
    (ending : Ending) (clock : ℕ → ℕ) (exc : String)
    → message ending ≡ some exc
    → Resolves ending (λ k e sh. fail_item (clock k) exc e.item sh)
unfolding fail_item count_failure record_failure
fail-Resolves ending clock exc m k e sh c open_ = rw open_ (
    fail_handle-Resolved ending exc (count_failure (clock k) exc e.item sh).0
      (count_failure (clock k) exc e.item sh).1 e.tokens e.item.handle m c open_)

pub Current-of :
    (e : Entry)
    → IsCurrent e
    → (e.is_pending && not (item_cancelled e.item)) ≡ true
    → Current true (entry_id e) e.tokens e.item.handle
Current-of e c works =
    let p : e.is_pending ≡ true = ground arith in
    subst (λ b. Current b (entry_id e) e.tokens e.item.handle) p c

pub open_of :
    (e : Entry)
    → (e.is_pending && not (item_cancelled e.item)) ≡ true
    → item_cancelled e.item ≡ false
open_of e works = ground arith

IsResolved-idle :
    (ending : Ending) (e : Entry)
    → IsCurrent e
    → (e.is_pending && not (item_cancelled e.item)) ≡ false
    → IsResolved ending e
IsResolved-idle ending e c idle = elim (Bool-cases (item_cancelled e.item)) [
  | inl gone ↦ Resolved-of_cancelled ending (entry_id e) e.tokens e.item.handle gone
  | inr open_ ↦
      let p : e.is_pending ≡ false = ground arith in
      Resolved-of_Current ending (entry_id e) e.tokens e.item.handle
        (subst (λ b. Current b (entry_id e) e.tokens e.item.handle) p c)
]

-- The loop over `pending`: it raises nothing, and settles each entry that still waits.
each_pending-Resolved :
    (ending : Ending) (f : ℕ → Entry → Shared → Step ScheduledRequest)
    → Resolves ending f
    → (k : ℕ) (entries : List Entry) (sh : Shared) → All IsCurrent entries
    → let (error, entries', _) = each_pending f k entries sh in
      (error ≡ none)
      × (map entry_id entries' ≡ map entry_id entries)
      × All (IsResolved ending) entries'
unfolding each_pending
each_pending-Resolved ending f g k [] sh c = (refl, refl, tt)
each_pending-Resolved ending f g k (e ∷ entries) sh c =
    elim (Bool-cases (e.is_pending && not (item_cancelled e.item))) [
      | inl works ↦
          let (ok, same, settled) = g k e sh (Current-of e c.0 works) (open_of e works) in
          let (ok', same', settled') =
            each_pending-Resolved ending f g (suc k) entries (f k e sh).2 c.1 in
          rw (works, ok, each_pending)
            (
              ok',
              ap₂ ◌∷◌ same same',
              (
                subst (λ i. Resolved ending i e.tokens (f k e sh).1.handle) (sym same) settled,
                settled',
              ),
            )
      | inr idle ↦
          let (ok', same', settled') = each_pending-Resolved ending f g (suc k) entries sh c.1 in
          rw (idle, each_pending)
            (ok', ap (◌∷◌ (entry_id e)) same', (IsResolved-idle ending e c.0 idle, settled'))
    ]

-- The whole body of the `try`: an error is the backend's exception.
pub try_body-Current :
    (batch_start : ℕ) (happenings : List Happening) (ending : Ending) (entries : List Entry)
    (sh : Shared)
    → All IsCurrent entries
    → let (error, entries', _) = try_body batch_start happenings ending entries sh in
      (map entry_id entries' ≡ map entry_id entries)
      × (((error ≡ none) × All (IsResolved ending) entries')
          ⊎ ((m : String) × (error ≡ some m) × (message ending ≡ some m) × All IsCurrent entries'))
unfolding try_body complete_pending
try_body-Current batch_start [] (exhausted clock) entries sh c =
    let (ok, same, settled) =
      each_pending-Resolved (exhausted clock) _
        (complete-Resolves (exhausted clock) clock batch_start) 0 entries sh c in
    (same, inl (ok, settled))
try_body-Current batch_start [] (raises clock m) entries sh c = (refl, inr (m, refl, refl, c))
try_body-Current batch_start (emits now event ∷ rest) ending entries sh c =
    let (ok, same, current) = deliver-Current now batch_start event entries sh c in
    let (_, entries', sh') = deliver now batch_start event entries sh in
    let (same', outcome) = try_body-Current batch_start rest ending entries' sh' current in
    rw (ok, try_body) (same' ∙ same, outcome)
try_body-Current batch_start (cancels id ∷ rest) ending entries sh c =
    let (same, current) = cancel_entry-Current id entries c in
    let (same', outcome) =
      try_body-Current batch_start rest ending (cancel_entry id entries) sh current in
    (same' ∙ same, outcome)

pub run_batch-Resolved :
    (batch_start : ℕ) (happenings : List Happening) (ending : Ending) (entries : List Entry)
    (sh : Shared)
    → All IsCurrent entries
    → let (error, entries', _) = run_batch batch_start happenings ending entries sh in
      (error ≡ none)
      × (map entry_id entries' ≡ map entry_id entries)
      × All (IsResolved ending) entries'
unfolding run_batch fail_pending
run_batch-Resolved batch_start happenings ending entries sh c =
    let (_, entries', sh') = try_body batch_start happenings ending entries sh in
    let (same, outcome) = try_body-Current batch_start happenings ending entries sh c in
    elim outcome [
      | inl (ok, settled) ↦ rw (ok, run_batch) (refl, same, settled)
      | inr (m, failed, from_backend, current) ↦
          let (ok, same', settled) =
            each_pending-Resolved ending _ (fail-Resolves ending _ m from_backend) 0 entries' sh'
              current in
          rw (failed, run_batch) (ok, same' ∙ same, settled)
    ]
