-- ===== src/Scheduler/Source/FifoSource.antt =====
-- scheduler/fifo.py behind `Source`.
use llm_serving_runtime.Base.{
  ℕ, ◌≡◌, refl, sym, ap, subst, ◌∙◌, ◌⊎◌, inl, inr, Option, none, some, List, [], ◌∷◌, ◌++◌, map,
}
use mathlib.Core.List.{Perm, map-append, map-map}
use mathlib.Core.List.Perm
use llm_serving_runtime.Core.Request.{mark_enqueued}
use llm_serving_runtime.Core.Response.{ScheduledRequest, on_request}
use llm_serving_runtime.Scheduler.Batching.{Batch, identity}
use llm_serving_runtime.Scheduler.Fifo.{FifoScheduler, Round}
use llm_serving_runtime.Scheduler.Fifo
use llm_serving_runtime.Scheduler.Fifo.Order.{arrived, rounds_used, next_batch-order}
use llm_serving_runtime.Scheduler.Source.{ticket, TakesBatch, Source}

-- The rounds of a batch, the reading of `now` and those of `mark_started`.
abbrev pub FifoClock : Type 0
FifoClock = (ℕ → Round) × ℕ × (ℕ → ℕ)

-- Requests that differ in their marks only have the same tickets.
same_tickets :
    (xs ys : List ScheduledRequest)
    → map identity xs ≡ map identity ys
    → map ticket xs ≡ map ticket ys
same_tickets xs ys e =
    sym (map-map ticket identity xs) ∙ ap (map ticket) e ∙ map-map ticket identity ys

module _ (max_batch_size batch_timeout_ms : ℕ) where
  unfoldable pub fifo_next : FifoClock → FifoScheduler → Option (Batch × FifoScheduler)
  unfolding Fifo.next_batch
  fifo_next (rounds, now, clock) s =
      Fifo.next_batch rounds now clock max_batch_size batch_timeout_ms s

  unfoldable pub fifo_submitted : FifoClock → FifoScheduler → List ScheduledRequest
  unfolding arrived rounds_used
  fifo_submitted (rounds, now, clock) s =
      arrived rounds 0 (rounds_used rounds now max_batch_size batch_timeout_ms s.queue)

  fifo_next_nil : (c : FifoClock) (s : FifoScheduler) → s.queue ≡ [] → fifo_next c s ≡ none
  unfolding fifo_next Fifo.next_batch
  fifo_next_nil (rounds, now, clock) s e = rw (e, fifo_next, Fifo.next_batch) refl

  fifo_next_cons :
      (c : FifoClock) (s : FifoScheduler) (first : ScheduledRequest) (rest : List ScheduledRequest)
      → s.queue ≡ first ∷ rest
      → (b : Batch) × (s' : FifoScheduler) × (fifo_next c s ≡ some (b, s'))
        × TakesBatch s.queue (fifo_submitted c s) b.items s'.queue
  unfolding fifo_next fifo_submitted
  fifo_next_cons (rounds, now, clock) s first rest e =
      let (b, s', given, order, some_item, _, _, _) =
        next_batch-order rounds now clock max_batch_size batch_timeout_ms s first rest e in
      let tickets =
        same_tickets (b.items ++ s'.queue) (s.queue ++ fifo_submitted (rounds, now, clock) s)
          (map-append identity b.items s'.queue ∙ order) in
      (
        b,
        s',
        given,
        record {
          some_item = some_item;
          kept = subst (λ l. Perm l (map ticket (b.items ++ s'.queue))) tickets Perm.rfl;
        },
      )

  fifo_next_cases :
      (c : FifoClock) (s : FifoScheduler)
      → ((s.queue ≡ []) × (fifo_next c s ≡ none))
        ⊎ ((b : Batch) × (s' : FifoScheduler) × (fifo_next c s ≡ some (b, s'))
            × TakesBatch s.queue (fifo_submitted c s) b.items s'.queue)
  fifo_next_cases c s = by_queue s.queue refl
    where
      by_queue :
          (queue : List ScheduledRequest)
          → s.queue ≡ queue
          → ((s.queue ≡ []) × (fifo_next c s ≡ none))
            ⊎ ((b : Batch) × (s' : FifoScheduler) × (fifo_next c s ≡ some (b, s'))
                × TakesBatch s.queue (fifo_submitted c s) b.items s'.queue)
      by_queue [] e = inl (e, fifo_next_nil c s e)
      by_queue (first ∷ rest) e = inr (fifo_next_cons c s first rest e)

  pub fifo_next-TakesBatch :
      (c : FifoClock) (s : FifoScheduler) (b : Batch) (s' : FifoScheduler)
      → fifo_next c s ≡ some (b, s')
      → TakesBatch s.queue (fifo_submitted c s) b.items s'.queue
  fifo_next-TakesBatch c s b s' e = elim (fifo_next_cases c s) [
    | inl (_, nothing) ↦ absurd (cc)
    | inr (b', left, given, takes) ↦
        let same_batch : b'.items ≡ b.items = cc in
        let same_left : left.queue ≡ s'.queue = cc in
        subst (λ items. TakesBatch s.queue (fifo_submitted c s) items s'.queue) same_batch
          (subst (TakesBatch s.queue (fifo_submitted c s) b'.items) same_left takes)
  ]

  pub fifo_next-none : (c : FifoClock) (s : FifoScheduler) → fifo_next c s ≡ none → s.queue ≡ []
  fifo_next-none c s e = elim (fifo_next_cases c s) [
    | inl (empty, _) ↦ empty
    | inr (b, left, given, _) ↦ absurd (cc)
  ]

pub fifo_waiting-submit :
    (now : ℕ) (item : ScheduledRequest) (s : FifoScheduler)
    → (put : ScheduledRequest) × ((Fifo.submit now item s).queue ≡ s.queue ++ (put ∷ []))
      × (ticket put ≡ ticket item)
unfolding Fifo.submit
fifo_waiting-submit now item s = (on_request (mark_enqueued now) item, refl, refl)

abbrev pub fifo_source : ℕ → ℕ → Source
fifo_source max_batch_size batch_timeout_ms = record {
  State = FifoScheduler;
  Clock = FifoClock;
  waiting = λ s. s.queue;
  submit = Fifo.submit;
  on_items = λ f s. record { queue = map f s.queue };
  next_batch = fifo_next max_batch_size batch_timeout_ms;
  submitted = fifo_submitted max_batch_size batch_timeout_ms;
  waiting-submit = fifo_waiting-submit;
  waiting-on_items = λ f s. refl;
  next_batch-TakesBatch = fifo_next-TakesBatch max_batch_size batch_timeout_ms;
  next_batch-none = fifo_next-none max_batch_size batch_timeout_ms;
}
