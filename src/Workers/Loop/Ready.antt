-- ===== src/Workers/Loop/Ready.antt =====
-- workers/manager.py: requests that are ready for the worker stay so while batches are taken.
use llm_serving_runtime.Base.{
  ℕ, ◌≡◌, refl, sym, ap, subst, ◌∙◌, none, List, [], ◌∷◌, ◌++◌, map, append_assoc, All, All-append,
}
use mathlib.Core.List.{map-append}
use llm_serving_runtime.Base.Text.{String}
use llm_serving_runtime.Core.Response.{ScheduledRequest}
use llm_serving_runtime.Scheduler.Batching.{identity}
use llm_serving_runtime.Workers.Batch.{Shared, Entry, entry_id, Ending, Happening, execute_batch}
use llm_serving_runtime.Workers.Batch.Contract.{item_id, active, execute_batch_entries}
use llm_serving_runtime.Workers.Batch.Resolution.{IsResolved}
use llm_serving_runtime.Workers.Loop.{served_id, cancel_ids}
use llm_serving_runtime.Workers.Loop.Waiting.{
  IsWaiting, IsDistinctIds, All-split, IsDistinctIds-split, active-IsDistinct, active-IsFresh,
  map-cancel_ids-item_id, map-cancel_ids-IsWaiting, map-identity-item_id, All-map, All-unmap,
}

-- The requests wait, and their ids differ.
abbrev pub AreReady : List ScheduledRequest → Type 0
AreReady items = All IsWaiting items × IsDistinctIds (map item_id items)

pub AreReady-split :
    (xs ys : List ScheduledRequest) → AreReady (xs ++ ys) → AreReady xs × AreReady ys
AreReady-split xs ys (w, d) =
    let (wx, wy) = All-split IsWaiting xs ys w in
    let (dx, dy) =
      IsDistinctIds-split (map item_id xs) (map item_id ys)
        (subst IsDistinctIds (map-append item_id xs ys) d) in
    ((wx, dx), (wy, dy))

same_ids :
    (xs ys : List ScheduledRequest)
    → map identity xs ≡ map identity ys
    → map item_id xs ≡ map item_id ys
same_ids xs ys e = sym (map-identity-item_id xs) ∙ ap (map item_id) e ∙ map-identity-item_id ys

AreReady-ids :
    (xs ys : List ScheduledRequest) → map identity xs ≡ map identity ys → AreReady ys → AreReady xs
AreReady-ids xs ys e (w, d) = (
  All-unmap identity IsWaiting xs (subst (All IsWaiting) (sym e) (All-map identity IsWaiting ys w)),
  subst IsDistinctIds (sym (same_ids xs ys e)) d,
)

AreReady-cancel_ids :
    (ids : List String) (xs : List ScheduledRequest)
    → AreReady xs
    → AreReady (map (cancel_ids ids) xs)
AreReady-cancel_ids ids xs (w, d) =
    (map-cancel_ids-IsWaiting ids xs w, rw (map-cancel_ids-item_id ids xs) d)

AreReady-append :
    (xs xs' ys : List ScheduledRequest)
    → map item_id xs ≡ map item_id xs'
    → AreReady xs
    → AreReady (xs' ++ ys)
    → AreReady (xs ++ ys)
AreReady-append xs xs' ys e (wx, dx) (w, d) = (
  All-append IsWaiting xs ys wx (All-split IsWaiting xs' ys w).1,
  subst IsDistinctIds
      ((map-append item_id xs' ys
        ∙ ap (λ l. l ++ map item_id ys) (sym e)
        ∙ sym (map-append item_id xs ys)))
      d,
)

-- What a batch leaves on the queue, and what is put there after it, is ready as well.
pub AreReady-after :
    (items queue waiting put_on : List ScheduledRequest)
    → map item_id (items ++ queue) ≡ map item_id waiting
    → AreReady (items ++ queue)
    → AreReady (waiting ++ put_on)
    → AreReady (queue ++ put_on)
AreReady-after items queue waiting put_on e first all =
    (AreReady-split items (queue ++ put_on) (
      subst AreReady (append_assoc items queue put_on)
        (AreReady-append (items ++ queue) waiting put_on e first all))).1

pub AreReady-cancelled :
    (ids : List String) (items queue waiting : List ScheduledRequest)
    → map identity (items ++ queue) ≡ map identity waiting
    → AreReady waiting
    → AreReady (map (cancel_ids ids) items ++ map (cancel_ids ids) queue)
AreReady-cancelled ids items queue waiting e w =
    subst AreReady (map-append (cancel_ids ids) items queue)
      (AreReady-cancel_ids ids (items ++ queue) (AreReady-ids (items ++ queue) waiting e w))

pub cancelled-ids :
    (ids : List String) (items queue waiting : List ScheduledRequest)
    → map identity (items ++ queue) ≡ map identity waiting
    → map item_id (map (cancel_ids ids) items ++ map (cancel_ids ids) queue) ≡ map item_id waiting
cancelled-ids ids items queue waiting e =
    ap (map item_id) (sym (map-append (cancel_ids ids) items queue))
    ∙ map-cancel_ids-item_id ids (items ++ queue)
    ∙ same_ids (items ++ queue) waiting e

-- A batch of requests that wait.
pub execute_batch-AreReady :
    (batch_start : ℕ) (happenings : List Happening) (ending : Ending)
    (items : List ScheduledRequest) (sh : Shared)
    → AreReady items
    → let (error, entries, _) = execute_batch batch_start happenings ending items sh in
      (error ≡ none)
      × (map entry_id entries ≡ map item_id (active items))
      × All (IsResolved ending) entries
execute_batch-AreReady batch_start happenings ending items sh (w, d) =
    execute_batch_entries batch_start happenings ending items sh (active-IsDistinct items d)
      (active-IsFresh items w)

pub ids-with_ending :
    (ending : Ending) (entries : List Entry)
    → map served_id (map (λ e. (ending, e)) entries) ≡ map entry_id entries
ids-with_ending ending [] = refl
ids-with_ending ending (e ∷ entries) = ap (◌∷◌ (entry_id e)) (ids-with_ending ending entries)

pub AreReady-append_assoc :
    (xs ys zs rest : List ScheduledRequest)
    → AreReady (xs ++ ((ys ++ zs) ++ rest))
    → AreReady (((xs ++ ys) ++ zs) ++ rest)
AreReady-append_assoc xs ys zs rest =
    subst AreReady (cc (append_assoc xs ys zs, append_assoc xs (ys ++ zs) rest))
