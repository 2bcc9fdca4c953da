-- ===== src/Workers/Batch/Contract.antt =====
-- workers/manager.py: what `_execute_batch` promises for the batch that it is given.
use llm_serving_runtime.Base.{
  ℕ, ◌≡◌, refl, sym, ap, subst, ◌∙◌, inl, inr, true, false, not, none, List, [], ◌∷◌, ◌++◌, map,
  append-nil, append_assoc, keep, All, All-append,
}
use llm_serving_runtime.Base.Text.{String, str_eq}
use llm_serving_runtime.Core.Response.{
  ScheduledRequest, ResponseHandle, completion, streaming, pending, item_cancelled,
}
use llm_serving_runtime.Workers.Batch.{
  Entry, entry_id, Shared, Happening, Ending, run_active, execute_batch, enter, enter_all,
}
use llm_serving_runtime.Workers.Batch.Outcomes.{Current, IsCurrent}
use llm_serving_runtime.Workers.Batch.Received.{tokens_for, AreDistinct, IsDue}
use llm_serving_runtime.Workers.Batch.Totals.{HasTotal, run_batch-HasTotal}
use llm_serving_runtime.Workers.Batch.Resolution.{
  Resolved, IsResolved, Resolved-of_cancelled, run_batch-Resolved,
}

abbrev pub item_id : ScheduledRequest → String
item_id item = item.request.request_id

-- Nothing was delivered on the channel yet.
abbrev pub IsFresh : ResponseHandle → Type 0
IsFresh (completion h) = h.future ≡ pending
IsFresh (streaming h) = h.queue ≡ []

-- No id stands twice.
abbrev pub IsDistinct : List ScheduledRequest → Type 0
IsDistinct [] = Unit
IsDistinct (x ∷ xs) = All (λ y. str_eq (item_id x) (item_id y) ≡ false) xs × IsDistinct xs

abbrev pub entry_of : ScheduledRequest → Entry
entry_of item = record { item = item; tokens = []; is_pending = true }

abbrev NotIn : List Entry → ScheduledRequest → Type 0
NotIn entries item = All (λ e. str_eq (entry_id e) (item_id item) ≡ false) entries

enter-append :
    (item : ScheduledRequest) (entries : List Entry)
    → NotIn entries item
    → enter item entries ≡ entries ++ (entry_of item ∷ [])
unfolding enter
enter-append item [] h = refl
enter-append item (e ∷ entries) h = rw (h.0, enter-append item entries h.1)

NotIn-append :
    (x : ScheduledRequest) (entries : List Entry) (items : List ScheduledRequest)
    → All (NotIn entries) items
    → All (λ y. str_eq (item_id x) (item_id y) ≡ false) items
    → All (NotIn (entries ++ (entry_of x ∷ []))) items
NotIn-append x entries [] h d = tt
NotIn-append x entries (y ∷ items) h d = (
  All-append (λ e. str_eq (entry_id e) (item_id y) ≡ false) entries (entry_of x ∷ []) h.0 (d.0, tt),
  NotIn-append x entries items h.1 d.1,
)

enter_all-map :
    (items : List ScheduledRequest) (entries : List Entry)
    → All (NotIn entries) items
    → IsDistinct items
    → enter_all items entries ≡ entries ++ map entry_of items
unfolding enter_all
enter_all-map [] entries h d = sym (append-nil entries)
enter_all-map (x ∷ items) entries h d = rw (enter-append x entries h.0) (
    enter_all-map items (entries ++ (entry_of x ∷ [])) (NotIn-append x entries items h.1 d.0) d.1
    ∙ append_assoc entries (entry_of x ∷ []) (map entry_of items))

NotIn-nil : (items : List ScheduledRequest) → All (NotIn []) items
NotIn-nil [] = tt
NotIn-nil (x ∷ items) = (tt, NotIn-nil items)

IsFresh-Current : (item : ScheduledRequest) → IsFresh item.handle → IsCurrent (entry_of item)
IsFresh-Current item f = by_handle item.handle f
  where
    by_handle : (h : ResponseHandle) → IsFresh h → Current true (item_id item) [] h
    by_handle (completion h) f = λ _. f
    by_handle (streaming h) f = λ _. f

All-Current :
    (items : List ScheduledRequest)
    → All (λ i. IsFresh i.handle) items
    → All IsCurrent (map entry_of items)
All-Current [] f = tt
All-Current (x ∷ items) f = (IsFresh-Current x f.0, All-Current items f.1)

pub enter_all_distinct :
    (items : List ScheduledRequest) → IsDistinct items → enter_all items [] ≡ map entry_of items
enter_all_distinct items d = enter_all-map items [] (NotIn-nil items) d

pub enter_all-IsCurrent :
    (items : List ScheduledRequest)
    → IsDistinct items
    → All (λ i. IsFresh i.handle) items
    → All IsCurrent (enter_all items [])
enter_all-IsCurrent items d f =
    rw (enter_all-map items [] (NotIn-nil items) d) (All-Current items f)

ids-entries :
    (items : List ScheduledRequest) → map entry_id (map entry_of items) ≡ map item_id items
ids-entries [] = refl
ids-entries (x ∷ items) = ap (◌∷◌ (item_id x)) (ids-entries items)

pub enter_all_ids :
    (items : List ScheduledRequest)
    → IsDistinct items
    → map entry_id (enter_all items []) ≡ map item_id items
enter_all_ids items d = rw (enter_all-map items [] (NotIn-nil items) d) (ids-entries items)

abbrev pub active : List ScheduledRequest → List ScheduledRequest
active = keep (λ item. not (item_cancelled item))

-- The entry's channel has its outcome, with the tokens that the backend emitted for its id.
abbrev pub IsDelivered : Ending → List Happening → Entry → Type 0
IsDelivered ending happenings e =
    Resolved ending (entry_id e) (tokens_for (entry_id e) happenings) e.item.handle

pub HasTotal-IsDelivered :
    (ending : Ending) (happenings : List Happening) (entries : List Entry)
    → All (IsResolved ending) entries
    → All (HasTotal (λ id. tokens_for id happenings)) entries
    → All (IsDelivered ending happenings) entries
HasTotal-IsDelivered ending happenings [] r t = tt
HasTotal-IsDelivered ending happenings (e ∷ entries) r t = (
  elim t.0 [
    | inl gone ↦ Resolved-of_cancelled ending (entry_id e) _ e.item.handle gone
    | inr all ↦ subst (λ tokens. Resolved ending (entry_id e) tokens e.item.handle) all r.0
  ],
  HasTotal-IsDelivered ending happenings entries r.1 t.1,
)

AreDistinct-ids :
    (items : List ScheduledRequest) → IsDistinct items → AreDistinct (map item_id items)
AreDistinct-ids [] d = tt
AreDistinct-ids (x ∷ items) d = (others items d.0, AreDistinct-ids items d.1)
  where
    others :
        (ys : List ScheduledRequest)
        → All (λ y. str_eq (item_id x) (item_id y) ≡ false) ys
        → All (λ y. str_eq (item_id x) y ≡ false) (map item_id ys)
    others [] h = tt
    others (y ∷ ys) h = (h.0, others ys h.1)

entry_of-IsDue :
    (happenings : List Happening) (items : List ScheduledRequest)
    → All (IsDue (λ id. tokens_for id happenings) happenings) (map entry_of items)
entry_of-IsDue happenings [] = tt
entry_of-IsDue happenings (x ∷ items) = (inr refl, entry_of-IsDue happenings items)

run_active-IsDelivered :
    (batch_start : ℕ) (happenings : List Happening) (ending : Ending)
    (items : List ScheduledRequest) (sh : Shared)
    → IsDistinct items
    → All (λ i. IsFresh i.handle) items
    → let (error, entries, _) = run_active batch_start happenings ending items sh in
      (error ≡ none)
      × (map entry_id entries ≡ map item_id items)
      × All (IsResolved ending) entries
      × All (IsDelivered ending happenings) entries
unfolding run_active
run_active-IsDelivered batch_start happenings ending [] sh d f = (refl, refl, tt, tt)
run_active-IsDelivered batch_start happenings ending (x ∷ items) sh d f =
    let entries = enter_all (x ∷ items) [] in
    let entered = enter_all_distinct (x ∷ items) d in
    let ids = enter_all_ids (x ∷ items) d in
    let current = enter_all-IsCurrent (x ∷ items) d f in
    let (ok, same, settled) = run_batch-Resolved batch_start happenings ending entries sh current in
    let distinct : AreDistinct (map entry_id entries) =
      subst AreDistinct (sym ids) (AreDistinct-ids (x ∷ items) d) in
    let empty : All (IsDue (λ id. tokens_for id happenings) happenings) entries =
      subst (All (IsDue (λ id. tokens_for id happenings) happenings)) (sym entered)
        (entry_of-IsDue happenings (x ∷ items)) in
    (
      ok,
      same ∙ ids,
      settled,
      HasTotal-IsDelivered ending happenings _ settled (
          run_batch-HasTotal (λ id. tokens_for id happenings) batch_start happenings ending entries
            sh distinct current empty),
    )

-- A batch, with each channel beside the tokens of its own entry.
pub execute_batch_entries :
    (batch_start : ℕ) (happenings : List Happening) (ending : Ending)
    (items : List ScheduledRequest) (sh : Shared)
    → IsDistinct (active items)
    → All (λ i. IsFresh i.handle) (active items)
    → let (error, entries, _) = execute_batch batch_start happenings ending items sh in
      (error ≡ none)
      × (map entry_id entries ≡ map item_id (active items))
      × All (IsResolved ending) entries
unfolding execute_batch
execute_batch_entries batch_start happenings ending items sh d f =
    let (ok, ids, settled, _) =
      run_active-IsDelivered batch_start happenings ending (active items) sh d f in
    (ok, ids, settled)

-- For items whose ids differ and on whose channels nothing was delivered yet, a batch raises
-- nothing, whatever the backend emits, however it ends, and whoever cancels in between. It works on
-- exactly the requests that were not cancelled at its start, and at its end each of them was
-- cancelled or has its one outcome. That is the result with the tokens that the backend emitted for
-- the request's id, in order, up to its first completion, which a stream has one by one before the
-- completion; or the exception that the backend raised, which a stream has behind those tokens.
pub execute_batch-IsResolved :
    (batch_start : ℕ) (happenings : List Happening) (ending : Ending)
    (items : List ScheduledRequest) (sh : Shared)
    → IsDistinct (active items)
    → All (λ i. IsFresh i.handle) (active items)
    → let (error, entries, _) = execute_batch batch_start happenings ending items sh in
      (error ≡ none)
      × (map entry_id entries ≡ map item_id (active items))
      × All (IsDelivered ending happenings) entries
unfolding execute_batch
execute_batch-IsResolved batch_start happenings ending items sh d f =
    let (ok, ids, _, delivered) =
      run_active-IsDelivered batch_start happenings ending (active items) sh d f in
    (ok, ids, delivered)
