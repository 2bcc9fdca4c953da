-- ===== src/Workers/Pool/Tickets.antt =====
-- workers/manager.py: what a batch takes, in numbers.
use llm_serving_runtime.Base.{
  ℕ, ◌+◌, ◌≤◌, ◌≡◌, refl, sym, ap, ◌∙◌, inl, inr, Bool, true, false, not, ◌||◌, List, [], ◌∷◌, ◌++◌,
  map, arith, ◌==◌, Bool-cases, length, All, length-append, All-append, count_p, count_p-append,
  count_p-perm,
}
use mathlib.Core.List.{map-append}
use llm_serving_runtime.Base.Text.{String, str_eq, eq_iff}
use llm_serving_runtime.Core.Response.{
  ScheduledRequest, ResponseHandle, Future, pending, finished, raised, completion, streaming,
  handle_cancelled, item_cancelled, is_done,
}
use llm_serving_runtime.Scheduler.Source.{ticket, TakesBatch}
use llm_serving_runtime.Workers.Batch.Contract.{item_id, IsFresh}
use llm_serving_runtime.Workers.Loop.Waiting.{IsWaiting, IsDistinctIds, All-split}

-- How often an id stands in a list.
abbrev pub times : String → List String → ℕ
times id = count_p (str_eq id)

-- How often an id stands among the requests that wait.
abbrev pub queued : String → List ScheduledRequest → ℕ
queued id items = times id (map item_id items)

pub times-append :
    (id : String) (xs ys : List String) → times id (xs ++ ys) ≡ times id xs + times id ys
times-append id xs ys = count_p-append (str_eq id) xs ys

pub queued-append :
    (id : String) (xs ys : List ScheduledRequest)
    → queued id (xs ++ ys) ≡ queued id xs + queued id ys
queued-append id xs ys = ap (times id) (map-append item_id xs ys) ∙ times-append id _ _

-- A test of a request that looks at its ticket only.
module _ (test : String × ResponseHandle → Bool) where
  abbrev count_tickets : List ScheduledRequest → ℕ
  count_tickets items = count_p test (map ticket items)

  count_tickets-TakesBatch :
      (waiting submitted items left : List ScheduledRequest)
      → TakesBatch waiting submitted items left
      → count_tickets (waiting ++ submitted) ≡ count_tickets (items ++ left)
  count_tickets-TakesBatch waiting submitted items left t =
      count_p-perm test (map ticket (waiting ++ submitted)) (map ticket (items ++ left)) t.kept

queued-count_tickets :
    (id : String) (items : List ScheduledRequest)
    → queued id items ≡ count_tickets (λ t. str_eq id t.0) items
queued-count_tickets id [] = refl
queued-count_tickets id (x ∷ items) = omega (arith, queued-count_tickets id items)

pub queued-TakesBatch :
    (id : String) (waiting submitted items left : List ScheduledRequest)
    → TakesBatch waiting submitted items left
    → queued id waiting + queued id submitted ≡ queued id items + queued id left
queued-TakesBatch id waiting submitted items left t = omega (
  arith,
  queued-append id waiting submitted,
  queued-append id items left,
  queued-count_tickets id (waiting ++ submitted),
  queued-count_tickets id (items ++ left),
  count_tickets-TakesBatch (λ s. str_eq id s.0) waiting submitted items left t,
)

length-count_tickets :
    (items : List ScheduledRequest) → length items ≡ count_tickets (λ t. true) items
length-count_tickets [] = refl
length-count_tickets (x ∷ items) = omega (arith, length-count_tickets items)

pub length-TakesBatch :
    (waiting submitted items left : List ScheduledRequest)
    → TakesBatch waiting submitted items left
    → length waiting + length submitted ≡ length items + length left
length-TakesBatch waiting submitted items left t = omega (
  arith,
  length-append waiting submitted,
  length-append items left,
  length-count_tickets (waiting ++ submitted),
  length-count_tickets (items ++ left),
  count_tickets-TakesBatch (λ s. true) waiting submitted items left t,
)

abbrev is_fresh : ResponseHandle → Bool
is_fresh (completion h) = not (is_done h.future)
is_fresh (streaming h) = length h.queue == 0

abbrev has_outcome : String × ResponseHandle → Bool
has_outcome (id, h) = not (handle_cancelled h || is_fresh h)

pending_of : (f : Future) → is_done f ≡ false → f ≡ pending
pending_of pending e = refl
pending_of (finished r) e = absurd (cc)
pending_of (raised m) e = absurd (cc)
pending_of Future.cancelled e = absurd (cc)

nil_of : {A : Type 0} (l : List A) → (length l == 0) ≡ true → l ≡ []
nil_of [] e = refl
nil_of (x ∷ l) e = absurd (ground arith)

is_fresh-IsFresh : (h : ResponseHandle) → is_fresh h ≡ true → IsFresh h
is_fresh-IsFresh (completion h) e = pending_of h.future (ground arith)
is_fresh-IsFresh (streaming h) e = nil_of h.queue e

ticket-IsWaiting : (item : ScheduledRequest) → has_outcome (ticket item) ≡ false → IsWaiting item
ticket-IsWaiting item e = elim (Bool-cases (handle_cancelled item.handle)) [
  | inl gone ↦ inr gone
  | inr open_ ↦ inl (is_fresh-IsFresh item.handle (ground arith))
]

IsFresh-is_fresh : (h : ResponseHandle) → IsFresh h → is_fresh h ≡ true
IsFresh-is_fresh (completion h) e = rw e refl
IsFresh-is_fresh (streaming h) e = rw e refl

has_outcome-IsWaiting :
    (item : ScheduledRequest) → IsWaiting item → has_outcome (ticket item) ≡ false
has_outcome-IsWaiting item (inl fresh) = ground (arith, IsFresh-is_fresh item.handle fresh)
has_outcome-IsWaiting item (inr gone) = ground arith

count_tickets-IsWaiting :
    (items : List ScheduledRequest) → count_tickets has_outcome items ≡ 0 → All IsWaiting items
count_tickets-IsWaiting [] e = tt
count_tickets-IsWaiting (x ∷ items) e =
    (ticket-IsWaiting x (ground arith), count_tickets-IsWaiting items (omega (arith, e)))

count_tickets-has_outcome :
    (items : List ScheduledRequest) → All IsWaiting items → count_tickets has_outcome items ≡ 0
count_tickets-has_outcome [] w = refl
count_tickets-has_outcome (x ∷ items) w =
    rw (has_outcome-IsWaiting x w.0) (omega (arith, count_tickets-has_outcome items w.1))

-- Where all requests wait, those of a batch and those that it leaves do.
pub TakesBatch-IsWaiting :
    (waiting submitted items left : List ScheduledRequest)
    → TakesBatch waiting submitted items left
    → All IsWaiting waiting
    → All IsWaiting submitted
    → All IsWaiting items × All IsWaiting left
TakesBatch-IsWaiting waiting submitted items left t w v =
    let none_done =
      count_tickets-has_outcome (waiting ++ submitted)
        (All-append IsWaiting waiting submitted w v) in
    All-split IsWaiting items left (
      count_tickets-IsWaiting (items ++ left)
        (sym (count_tickets-TakesBatch has_outcome waiting submitted items left t) ∙ none_done))

abbrev pub IsUncancelled : ScheduledRequest → Type 0
IsUncancelled item = item_cancelled item ≡ false

abbrev ticket_cancelled : String × ResponseHandle → Bool
ticket_cancelled (id, h) = handle_cancelled h

count_tickets-cancelled :
    (items : List ScheduledRequest)
    → All IsUncancelled items
    → count_tickets ticket_cancelled items ≡ 0
count_tickets-cancelled [] o = refl
count_tickets-cancelled (x ∷ items) o = rw o.0 (omega (arith, count_tickets-cancelled items o.1))

count_tickets-IsUncancelled :
    (items : List ScheduledRequest)
    → count_tickets ticket_cancelled items ≡ 0
    → All IsUncancelled items
count_tickets-IsUncancelled [] e = tt
count_tickets-IsUncancelled (x ∷ items) e =
    (ground arith, count_tickets-IsUncancelled items (omega (arith, e)))

-- Where no request was cancelled, none of a batch was, and none of those that it leaves.
pub TakesBatch-IsUncancelled :
    (waiting submitted items left : List ScheduledRequest)
    → TakesBatch waiting submitted items left
    → All IsUncancelled waiting
    → All IsUncancelled submitted
    → All IsUncancelled items × All IsUncancelled left
TakesBatch-IsUncancelled waiting submitted items left t w v =
    let none_cancelled =
      count_tickets-cancelled (waiting ++ submitted)
        (All-append IsUncancelled waiting submitted w v) in
    All-split IsUncancelled items left (
      count_tickets-IsUncancelled (items ++ left) (
        sym (count_tickets-TakesBatch ticket_cancelled waiting submitted items left t)
        ∙ none_cancelled))

-- No id was put on twice.
abbrev pub IsOnce : List String → Type 0
IsOnce ids = (id : String) → times id ids ≤ 1

All-differs : (x : String) (ids : List String) → times x ids ≡ 0 → All (λ y. str_eq x y ≡ false) ids
All-differs x [] e = tt
All-differs x (y ∷ ids) e = (ground arith, All-differs x ids (omega (arith, e)))

pub IsOnce-IsDistinctIds : (ids : List String) → IsOnce ids → IsDistinctIds ids
IsOnce-IsDistinctIds [] h = tt
IsOnce-IsDistinctIds (x ∷ ids) h =
    let same : str_eq x x ≡ true = (eq_iff x x).1 refl in
    (
      All-differs x ids (ground (arith, h x, same)),
      IsOnce-IsDistinctIds ids (λ id. omega (arith, h id)),
    )
