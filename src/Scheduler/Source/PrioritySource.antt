-- ===== src/Scheduler/Source/PrioritySource.antt =====
-- scheduler/priority.py behind `Source`.
use llm_serving_runtime.Base.{
  ℕ, ◌≡◌, refl, sym, ap, subst, ◌∙◌, ◌≢◌, ◌⊎◌, inl, inr, Option, none, some, List, [], ◌∷◌, ◌++◌,
  map, take,
}
use mathlib.Core.List.{Perm, map-append, map-map}
use mathlib.Core.List.Perm
use llm_serving_runtime.Core.Request.{mark_enqueued}
use llm_serving_runtime.Core.Response.{ScheduledRequest, on_request}
use llm_serving_runtime.Scheduler.Batching.{Batch}
use llm_serving_runtime.Scheduler.Priority.{QueuedRequest, PriorityScheduler, Wait, select}
use llm_serving_runtime.Scheduler.Priority
use llm_serving_runtime.Scheduler.Priority.Batches.{
  strip, contents, submitted, waits_made, next_batch-perm,
}
use llm_serving_runtime.Scheduler.Source.{ticket, TakesBatch, Source}

-- The clock of the pops, the waits of a batch, the readings of `now` and of `mark_started`.
abbrev pub PriorityClock : Type 0
PriorityClock = (ℕ → ℕ) × List Wait × ℕ × (ℕ → ℕ)

abbrev pub queued_items : PriorityScheduler → List ScheduledRequest
queued_items s = map (λ q. q.item) s.items

contents_tickets : (s : PriorityScheduler) → map ticket (contents s) ≡ map ticket (queued_items s)
contents_tickets s =
    map-map ticket (λ (q : QueuedRequest). strip q.item) s.items
    ∙ sym (map-map ticket (λ (q : QueuedRequest). q.item) s.items)

module _ (max_batch_size batch_timeout_ms : ℕ) where
  unfoldable pub priority_next :
      PriorityClock → PriorityScheduler → Option (Batch × PriorityScheduler)
  unfolding Priority.next_batch
  priority_next (clock, waits, now, started) s =
      Priority.next_batch clock waits now started max_batch_size batch_timeout_ms s

  -- What the other tasks submit during the batch's waits, without the marks.
  unfoldable pub priority_submitted : PriorityClock → PriorityScheduler → List ScheduledRequest
  unfolding waits_made
  priority_submitted (clock, waits, now, started) s =
      submitted (take (waits_made clock waits now max_batch_size batch_timeout_ms s) waits)

  priority_next_nil :
      (c : PriorityClock) (s : PriorityScheduler) → s.items ≡ [] → priority_next c s ≡ none
  unfolding priority_next Priority.next_batch select
  priority_next_nil (clock, waits, now, started) s e =
      rw (e, priority_next, Priority.next_batch, select) refl

  kept_tickets :
      (s s' : PriorityScheduler) (items more : List ScheduledRequest)
      → Perm (map strip items ++ contents s') (contents s ++ more)
      → Perm (map ticket (queued_items s ++ more)) (map ticket (items ++ queued_items s'))
  kept_tickets s s' items more kept =
      let left : map ticket (contents s ++ more) ≡ map ticket (queued_items s ++ more) = cc (
        map-append ticket (contents s) more,
        map-append ticket (queued_items s) more,
        contents_tickets s,
      ) in
      let right : map ticket (map strip items ++ contents s')
          ≡ map ticket (items ++ queued_items s') =
        cc (
          map-append ticket (map strip items) (contents s'),
          map-append ticket items (queued_items s'),
          map-map ticket strip items,
          contents_tickets s',
        ) in
      subst (λ l. Perm l (map ticket (items ++ queued_items s'))) left
        (subst (Perm (map ticket (contents s ++ more))) right (Perm.map ticket (Perm.symm kept)))

  priority_next_cases :
      (c : PriorityClock) (s : PriorityScheduler)
      → ((s.items ≡ []) × (priority_next c s ≡ none))
        ⊎ ((b : Batch) × (s' : PriorityScheduler) × (priority_next c s ≡ some (b, s'))
            × TakesBatch (queued_items s) (priority_submitted c s) b.items (queued_items s'))
  unfolding priority_next priority_submitted
  priority_next_cases (clock, waits, now, started) s = by_items s.items refl
    where
      by_items :
          (l : List QueuedRequest)
          → s.items ≡ l
          → ((s.items ≡ []) × (priority_next (clock, waits, now, started) s ≡ none))
            ⊎ ((b : Batch) × (s' : PriorityScheduler) × (priority_next
                    (clock, waits, now, started)
                    s
                  ≡ some (b, s'))
                × TakesBatch
                    (queued_items s)
                    (priority_submitted (clock, waits, now, started) s)
                    b.items
                    (queued_items s'))
      by_items [] e = inl (e, priority_next_nil (clock, waits, now, started) s e)
      by_items (x ∷ xs) e =
          let some_waits : s.items ≢ [] = λ empty. absurd (cc (e, empty)) in
          let (b, s', given, kept, some_item, _, _) =
            next_batch-perm clock waits now started max_batch_size batch_timeout_ms s some_waits in
          inr (
            b,
            s',
            given,
            record { some_item = some_item; kept = kept_tickets s s' b.items _ kept },
          )

  pub priority_next-TakesBatch :
      (c : PriorityClock) (s : PriorityScheduler) (b : Batch) (s' : PriorityScheduler)
      → priority_next c s ≡ some (b, s')
      → TakesBatch (queued_items s) (priority_submitted c s) b.items (queued_items s')
  priority_next-TakesBatch c s b s' e = elim (priority_next_cases c s) [
    | inl (_, nothing) ↦ absurd (cc)
    | inr (b', left, given, takes) ↦
        let same_batch : b'.items ≡ b.items = cc in
        let same_left : queued_items left ≡ queued_items s' = cc in
        subst
          (λ items. TakesBatch (queued_items s) (priority_submitted c s) items (queued_items s'))
          same_batch
          (subst (TakesBatch (queued_items s) (priority_submitted c s) b'.items) same_left takes)
  ]

  pub priority_next-none :
      (c : PriorityClock) (s : PriorityScheduler) → priority_next c s ≡ none → queued_items s ≡ []
  priority_next-none c s e = elim (priority_next_cases c s) [
    | inl (empty, _) ↦ ap (map (λ q. q.item)) empty
    | inr (b, left, given, _) ↦ absurd (cc)
  ]

pub priority_waiting-submit :
    (now : ℕ) (item : ScheduledRequest) (s : PriorityScheduler)
    → (put : ScheduledRequest) × (queued_items (Priority.submit now now item s)
        ≡ queued_items s ++ (put ∷ []))
      × (ticket put ≡ ticket item)
unfolding Priority.submit
priority_waiting-submit now item s =
    (on_request (mark_enqueued now) item, map-append (λ q. q.item) s.items _, refl)

abbrev pub on_queued : (ScheduledRequest → ScheduledRequest) → QueuedRequest → QueuedRequest
on_queued f q = record q { item = f q.item }

map-on_queued :
    (f : ScheduledRequest → ScheduledRequest) (l : List QueuedRequest)
    → map (λ q. q.item) (map (on_queued f) l) ≡ map f (map (λ q. q.item) l)
map-on_queued f [] = refl
map-on_queued f (q ∷ l) = ap (◌∷◌ (f q.item)) (map-on_queued f l)

pub priority_waiting-on_items :
    (f : ScheduledRequest → ScheduledRequest) (s : PriorityScheduler)
    → queued_items (record s { items = map (on_queued f) s.items }) ≡ map f (queued_items s)
priority_waiting-on_items f s = map-on_queued f s.items

abbrev pub priority_source : ℕ → ℕ → Source
priority_source max_batch_size batch_timeout_ms = record {
  State = PriorityScheduler;
  Clock = PriorityClock;
  waiting = queued_items;
  submit = λ now. Priority.submit now now;
  on_items = λ f s. record s { items = map (on_queued f) s.items };
  next_batch = priority_next max_batch_size batch_timeout_ms;
  submitted = priority_submitted max_batch_size batch_timeout_ms;
  waiting-submit = priority_waiting-submit;
  waiting-on_items = priority_waiting-on_items;
  next_batch-TakesBatch = priority_next-TakesBatch max_batch_size batch_timeout_ms;
  next_batch-none = priority_next-none max_batch_size batch_timeout_ms;
}
