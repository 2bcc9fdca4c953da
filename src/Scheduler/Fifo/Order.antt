-- ===== src/Scheduler/Fifo/Order.antt =====
-- scheduler/fifo.py: batches take the requests in their order of arrival, and lose none.
use llm_serving_runtime.Base.{
  ℕ, zero, suc, ◌+◌, ◌-◌, ◌*◌, ◌≤◌, ◌<◌, max, ◌≡◌, refl, ap, Option, none, some, List, [], ◌∷◌,
  ◌++◌, map, append-nil, append_assoc, arith, length, take, drop, All,
}
use mathlib.Core.List.{map-append}
use llm_serving_runtime.Core.Response.{ScheduledRequest}
use llm_serving_runtime.Scheduler.Batching.{
  Batch, identity, HasStarted, start_all, map-identity-start_all, start_all-HasStarted,
  length-start_all, build_batch,
}
use llm_serving_runtime.Scheduler.Fifo.{
  FifoScheduler, Round, take_one, collect, next_batch, ns_per_ms,
}

-- All that other tasks put on the queue in `n` rounds from round `k` on.
unfoldable pub arrived : (ℕ → Round) → ℕ → ℕ → List ScheduledRequest
arrived rounds k zero = []
arrived rounds k (suc n) = (rounds k).arrivals ++ arrived rounds (suc k) n

abbrev taken_with : Option ScheduledRequest × List ScheduledRequest → List ScheduledRequest
taken_with (none, rest) = rest
taken_with (some item, rest) = item ∷ rest

take_one-order :
    (timeout deadline : ℕ) (r : Round) (queue : List ScheduledRequest)
    → taken_with (take_one timeout deadline r queue) ≡ queue ++ r.arrivals
unfolding take_one
take_one-order timeout deadline r queue = ground arith

module _ (rounds : ℕ → Round) (timeout deadline : ℕ) where
  collect-order :
      (k todo : ℕ) (queue : List ScheduledRequest)
      → let (items, rest, used) = collect rounds timeout deadline k todo queue in
        items ++ rest ≡ queue ++ arrived rounds k used
  unfolding collect arrived
  collect-order k zero queue = cc (append-nil queue)
  collect-order k (suc todo) queue =
      let r = rounds k in
      let rest = (take_one timeout deadline r queue).1 in
      ground (
        arith,
        take_one-order timeout deadline r queue,
        collect-order (suc k) todo rest,
        append-nil r.arrivals,
        append_assoc queue r.arrivals
            (arrived rounds (suc k) (collect rounds timeout deadline (suc k) todo rest).2),
      )

  collect-used :
      (k todo : ℕ) (queue : List ScheduledRequest)
      → (collect rounds timeout deadline k todo queue).2 ≤ todo
  unfolding collect
  collect-used k zero queue = omega arith
  collect-used k (suc todo) queue =
      ground (arith, collect-used (suc k) todo (take_one timeout deadline (rounds k) queue).1)

  collect-length :
      (k todo : ℕ) (queue : List ScheduledRequest)
      → length (collect rounds timeout deadline k todo queue).0 ≤ todo
  unfolding collect
  collect-length k zero queue = omega arith
  collect-length k (suc todo) queue =
      ground (arith, collect-length (suc k) todo (take_one timeout deadline (rounds k) queue).1)

-- The rounds that a batch takes.
unfoldable pub rounds_used : (ℕ → Round) → ℕ → ℕ → ℕ → List ScheduledRequest → ℕ
rounds_used rounds now max_batch_size batch_timeout_ms [] = 0
rounds_used rounds now max_batch_size batch_timeout_ms (first ∷ queue) =
    let timeout = batch_timeout_ms * ns_per_ms in
    (collect rounds timeout (now + timeout) 0 (max_batch_size - 1) queue).2

-- A batch begins when a request waits. The batch and what it leaves on the queue are the queue and
-- all that arrives in the rounds that the batch uses, in their order: none is lost, doubled or
-- overtaken. The batch holds between one request and the limit, each marked as started, and uses
-- fewer rounds than the limit, or none.
pub next_batch-order :
    (rounds : ℕ → Round) (now : ℕ) (clock : ℕ → ℕ) (max_batch_size batch_timeout_ms : ℕ)
    (s : FifoScheduler) (first : ScheduledRequest) (queue : List ScheduledRequest)
    → s.queue ≡ first ∷ queue
    → let used = rounds_used rounds now max_batch_size batch_timeout_ms s.queue in
      (b : Batch) × (s' : FifoScheduler) × (next_batch rounds now clock max_batch_size
          batch_timeout_ms s
        ≡ some (b, s'))
      × (map identity b.items ++ map identity s'.queue
          ≡ map identity (s.queue ++ arrived rounds 0 used))
      × (1 ≤ length b.items)
      × (length b.items ≤ max 1 max_batch_size)
      × All HasStarted b.items
      × (used < max 1 max_batch_size)
unfolding next_batch rounds_used
next_batch-order rounds now clock max_batch_size batch_timeout_ms s first queue e = (
  record { items = started; created_at = clock (length started) },
  record { queue = rest },
  rw (e, next_batch),
  rw (map-identity-start_all clock 0 (first ∷ items), e)
      (cc (map-append identity items rest, ap (map identity) ordered)),
  omega (arith, counted),
  omega (arith, counted, collect-length rounds timeout deadline 0 todo queue),
  start_all-HasStarted clock 0 (first ∷ items),
  rw (e, rounds_used) (omega (arith, collect-used rounds timeout deadline 0 todo queue)),
)
  where
    timeout : ℕ
    timeout = batch_timeout_ms * ns_per_ms

    deadline : ℕ
    deadline = now + timeout

    todo : ℕ
    todo = max_batch_size - 1

    items : List ScheduledRequest
    items = (collect rounds timeout deadline 0 todo queue).0

    rest : List ScheduledRequest
    rest = (collect rounds timeout deadline 0 todo queue).1

    used : ℕ
    used = (collect rounds timeout deadline 0 todo queue).2

    started : List ScheduledRequest
    started = start_all clock 0 (first ∷ items)

    counted : length started ≡ suc (length items)
    counted = length-start_all clock 0 (first ∷ items)

    ordered : items ++ rest ≡ queue ++ arrived rounds 0 used
    ordered = collect-order rounds timeout deadline 0 todo queue

-- The loop with the timeout 0, while no other task runs.
collect-take :
    (rounds : ℕ → Round) (deadline k todo : ℕ) (queue : List ScheduledRequest)
    → ((i : ℕ) → (rounds i).arrivals ≡ [])
    → ((collect rounds 0 deadline k todo queue).0 ≡ take todo queue)
      × ((collect rounds 0 deadline k todo queue).1 ≡ drop todo queue)
unfolding collect take_one
collect-take rounds deadline k zero queue quiet = (refl, refl)
collect-take rounds deadline k (suc todo) [] quiet = ground (arith, quiet k)
collect-take rounds deadline k (suc todo) (x ∷ queue) quiet =
    ground (arith, quiet k, append-nil queue, collect-take rounds deadline (suc k) todo queue quiet)

take-cons :
    (n : ℕ) (x : ScheduledRequest) (xs : List ScheduledRequest)
    → 1 ≤ n
    → (take n (x ∷ xs) ≡ x ∷ take (n - 1) xs) × (drop n (x ∷ xs) ≡ drop (n - 1) xs)
take-cons zero x xs h = absurd (omega arith)
take-cons (suc n) x xs h = let e : suc n - 1 ≡ n = omega arith in (rw e, rw e)

-- With the timeout 0 the scheduler batches exactly what waits, up to the limit: the batch is the
-- one that `build_batch` selects from the queue, and the rest stays.
next_batch-build_batch :
    (rounds : ℕ → Round) (now : ℕ) (clock : ℕ → ℕ) (max_batch_size : ℕ) (s : FifoScheduler)
    (first : ScheduledRequest) (queue : List ScheduledRequest)
    → ((i : ℕ) → (rounds i).arrivals ≡ [])
    → 1 ≤ max_batch_size
    → s.queue ≡ first ∷ queue
    → (b : Batch) × (s' : FifoScheduler) × (next_batch rounds now clock max_batch_size 0 s
        ≡ some (b, s'))
      × (map identity b.items ≡ map identity (build_batch now s.queue max_batch_size).items)
      × (s'.queue ≡ drop max_batch_size s.queue)
unfolding next_batch build_batch
next_batch-build_batch rounds now clock max_batch_size s first queue quiet pos e = (
  record { items = started; created_at = clock (length started) },
  record { queue = drop (max_batch_size - 1) queue },
  rw (e, next_batch) (rw (selected.0, selected.1)),
  rw (map-identity-start_all clock 0 (first ∷ take (max_batch_size - 1) queue), e, cut.0),
  rw (e, cut.1),
)
  where
    started : List ScheduledRequest
    started = start_all clock 0 (first ∷ take (max_batch_size - 1) queue)

    selected :
        ((collect rounds 0 (now + 0) 0 (max_batch_size - 1) queue).0
          ≡ take (max_batch_size - 1) queue)
        × ((collect rounds 0 (now + 0) 0 (max_batch_size - 1) queue).1
            ≡ drop (max_batch_size - 1) queue)
    selected = collect-take rounds (now + 0) 0 (max_batch_size - 1) queue quiet

    cut :
        (take max_batch_size (first ∷ queue) ≡ first ∷ take (max_batch_size - 1) queue)
        × (drop max_batch_size (first ∷ queue) ≡ drop (max_batch_size - 1) queue)
    cut = take-cons max_batch_size first queue pos
