-- ===== src/Workers/Batch/Outcomes.antt =====
-- workers/manager.py: what each request's channel holds while a batch runs, and after it.
use mathlib.Core.List.{map-append}
use llm_serving_runtime.Base.{
  ℕ, ◌≡◌, refl, sym, ap, subst, inl, inr, Bool, true, false, none, List, [], ◌∷◌, ◌++◌, map,
  append-nil, arith, if◌then◌else◌, Bool-cases, All,
}
use llm_serving_runtime.Base.Text.{String, str_eq}
use llm_serving_runtime.Core.Response.{
  ScheduledRequest, ResponseHandle, completion, streaming, token_event, completed_event, pending,
  finished, item_cancelled, handle_cancelled, cancel,
}
use llm_serving_runtime.Backends.Base.{BatchEvent, batch_token, batch_completed, event_id}
use llm_serving_runtime.Workers.Batch.{
  Entry, entry_id, Shared, result, put_token, complete_handle, complete_item, on_event, on_entry,
  deliver, cancel_entry,
}

-- What a channel holds while its batch runs, unless it was cancelled: a stream has the tokens so
-- far, in order, and at the end the completion; a future is pending, and then has the result.
abbrev pub Current : Bool → String → List String → ResponseHandle → Type 0
Current is_pending id tokens (completion h) =
    h.cancelled ≡ false → h.future ≡ (if is_pending then pending else finished (result id tokens))
Current is_pending id tokens (streaming h) =
    h.cancelled ≡ false
    → h.queue ≡ map token_event tokens ++ (if is_pending then [] else completed_event "stop" ∷ [])

abbrev pub IsCurrent : Entry → Type 0
IsCurrent e = Current e.is_pending (entry_id e) e.tokens e.item.handle

put_token-Current :
    (id token : String) (tokens : List String) (h : ResponseHandle)
    → Current true id tokens h
    → Current true id (tokens ++ (token ∷ [])) (put_token token h)
put_token-Current id token tokens (completion h) c = c
put_token-Current id token tokens (streaming h) c = λ open_. rw (c open_) (
    cc (
      append-nil (map token_event tokens),
      map-append token_event tokens (token ∷ []),
      append-nil (map token_event (tokens ++ (token ∷ []))),
    ))

complete_handle-Current :
    (now batch_start : ℕ) (tokens : List String) (item : ScheduledRequest) (sh : Shared)
    (h : ResponseHandle)
    → Current true item.request.request_id tokens h
    → handle_cancelled h ≡ false
    → let (error, item', _) = complete_handle h now batch_start tokens item sh in
      (error ≡ none)
      × (item'.request.request_id ≡ item.request.request_id)
      × Current false item.request.request_id tokens item'.handle
unfolding complete_handle
complete_handle-Current now batch_start tokens item sh (completion h) c open_ =
    rw (c open_) (refl, refl, λ _. refl)
complete_handle-Current now batch_start tokens item sh (streaming h) c open_ =
    rw open_ (refl, refl, λ _. rw (c open_) (rw append-nil))

pub complete_item-Current :
    (now batch_start : ℕ) (tokens : List String) (item : ScheduledRequest) (sh : Shared)
    → Current true item.request.request_id tokens item.handle
    → item_cancelled item ≡ false
    → let (error, item', _) = complete_item now batch_start tokens item sh in
      (error ≡ none)
      × (item'.request.request_id ≡ item.request.request_id)
      × Current false item.request.request_id tokens item'.handle
unfolding complete_item
complete_item-Current now batch_start tokens item sh c open_ =
    rw open_ (complete_handle-Current now batch_start tokens _ sh item.handle c open_)

Current-cancelled :
    (p : Bool) (id : String) (tokens : List String) (h : ResponseHandle)
    → handle_cancelled h ≡ true
    → Current p id tokens h
Current-cancelled p id tokens (completion h) e = λ f. cc
Current-cancelled p id tokens (streaming h) e = λ f. cc

on_event-Current :
    (now batch_start : ℕ) (event : BatchEvent) (e : Entry) (sh : Shared)
    → e.is_pending ≡ true
    → item_cancelled e.item ≡ false
    → IsCurrent e
    → let (error, e', _) = on_event now batch_start event e sh in
      (error ≡ none) × (entry_id e' ≡ entry_id e) × IsCurrent e'
unfolding on_event
on_event-Current now batch_start (batch_token id token) e sh p open_ c = (
  refl,
  refl,
  subst (λ b. Current b (entry_id e) (e.tokens ++ (token ∷ [])) (put_token token e.item.handle))
      (sym p)
      (put_token-Current (entry_id e) token e.tokens e.item.handle
        (subst (λ b. Current b (entry_id e) e.tokens e.item.handle) p c)),
)
on_event-Current now batch_start (batch_completed id) e sh p open_ c =
    let (ok, same, current) =
      complete_item-Current now batch_start e.tokens e.item sh
        (subst (λ b. Current b (entry_id e) e.tokens e.item.handle) p c) open_ in
    rw (ok, on_event)
      (
        refl,
        same,
        subst
            (λ i.
              Current false i e.tokens (complete_item now batch_start e.tokens e.item sh).1.handle)
            (sym same) current,
      )

pub on_entry_settled :
    (now batch_start : ℕ) (event : BatchEvent) (e : Entry) (sh : Shared)
    → e.is_pending ≡ false
    → on_entry now batch_start event e sh ≡ (none, e, sh)
unfolding on_entry
on_entry_settled now batch_start event e sh p = ground arith

pub on_entry_gone :
    (now batch_start : ℕ) (event : BatchEvent) (e : Entry) (sh : Shared)
    → e.is_pending ≡ true
    → item_cancelled e.item ≡ true
    → on_entry now batch_start event e sh ≡ (none, record e { is_pending = false }, sh)
unfolding on_entry
on_entry_gone now batch_start event e sh p gone = ground arith

pub on_entry_open :
    (now batch_start : ℕ) (event : BatchEvent) (e : Entry) (sh : Shared)
    → e.is_pending ≡ true
    → item_cancelled e.item ≡ false
    → on_entry now batch_start event e sh ≡ on_event now batch_start event e sh
unfolding on_entry
on_entry_open now batch_start event e sh p open_ = ground arith

-- A step on an entry raises nothing, keeps the entry's id, and keeps its channel current.
on_entry-Current :
    (now batch_start : ℕ) (event : BatchEvent) (e : Entry) (sh : Shared)
    → IsCurrent e
    → let (error, e', _) = on_entry now batch_start event e sh in
      (error ≡ none) × (entry_id e' ≡ entry_id e) × IsCurrent e'
on_entry-Current now batch_start event e sh c = elim (Bool-cases e.is_pending) [
  | inl p ↦ elim (Bool-cases (item_cancelled e.item)) [
    | inl gone ↦
        rw (on_entry_gone now batch_start event e sh p gone)
          (refl, refl, Current-cancelled false (entry_id e) e.tokens e.item.handle gone)
    | inr open_ ↦
        rw (on_entry_open now batch_start event e sh p open_)
          (on_event-Current now batch_start event e sh p open_ c)
  ]
  | inr settled ↦ rw (on_entry_settled now batch_start event e sh settled) (refl, refl, c)
]

-- So does the delivery of an event.
pub deliver-Current :
    (now batch_start : ℕ) (event : BatchEvent) (entries : List Entry) (sh : Shared)
    → All IsCurrent entries
    → let (error, entries', _) = deliver now batch_start event entries sh in
      (error ≡ none) × (map entry_id entries' ≡ map entry_id entries) × All IsCurrent entries'
unfolding deliver
deliver-Current now batch_start event [] sh c = (refl, refl, tt)
deliver-Current now batch_start event (e ∷ entries) sh c =
    let (ok, same, current) = on_entry-Current now batch_start event e sh c.0 in
    let (ok', same', current') = deliver-Current now batch_start event entries sh c.1 in
    elim (Bool-cases (str_eq (entry_id e) (event_id event))) [
      | inl here ↦ rw here (ok, ap (λ i. i ∷ map entry_id entries) same, (current, c.1))
      | inr later ↦ rw later (ok', ap (◌∷◌ (entry_id e)) same', (c.0, current'))
    ]

cancel-cancelled :
    (h : ResponseHandle) (p : Bool) (id : String) (tokens : List String)
    → Current p id tokens h
    → Current p id tokens (cancel h).1
unfolding cancel
cancel-cancelled (completion h) p id tokens c = ground arith
cancel-cancelled (streaming h) p id tokens c = ground arith

pub cancel_entry-Current :
    (id : String) (entries : List Entry)
    → All IsCurrent entries
    → (map entry_id (cancel_entry id entries) ≡ map entry_id entries)
      × All IsCurrent (cancel_entry id entries)
unfolding cancel_entry
cancel_entry-Current id [] c = (refl, tt)
cancel_entry-Current id (e ∷ entries) c =
    let (same, current) = cancel_entry-Current id entries c.1 in
    elim (Bool-cases (str_eq (entry_id e) id)) [
      | inl here ↦
          rw here
            (refl, (cancel-cancelled e.item.handle e.is_pending (entry_id e) e.tokens c.0, c.1))
      | inr later ↦ rw later (ap (◌∷◌ (entry_id e)) same, (c.0, current))
    ]
