-- ===== src/Workers/Pool/Advance.antt =====
-- workers/manager.py: the next turn of the workers while there is work.
use llm_serving_runtime.Base.{
  ℕ, suc, ◌≤◌, ◌<◌, ◌≡◌, refl, ap, ◌⊎◌, inl, inr, Option, none, some, List, [], ◌∷◌, ◌++◌, map,
  append-nil, arith, length, get_elem?, All,
}
use llm_serving_runtime.Scheduler.Batching.{Batch}
use llm_serving_runtime.Scheduler.Source.{Source}
use llm_serving_runtime.Workers.Batch.{Entry, exhausted}
use llm_serving_runtime.Workers.Batch.Contract.{item_id}
use llm_serving_runtime.Workers.Pool.{
  IsNew, Worker, waits, busy, died, end_batch, Pool, take_batch, has_turned, WorkerTurn, takes,
  ends,
}
use llm_serving_runtime.Workers.Pool.Turns.{IsAlive}
use llm_serving_runtime.Workers.Pool.Sound.{IsSound}
use llm_serving_runtime.Workers.Pool.Load.{Idles, IsDrained, left_to_do, turn_weight-left_to_do}

-- A worker is at a batch, or all of them wait for a request.
find_busy :
    (workers : List Worker)
    → All IsAlive workers
    → All Idles workers
      ⊎ ((w : ℕ) × (batch_start : ℕ) × (entries : List Entry) × (get_elem? workers w
            ≡ some (busy batch_start entries)))
find_busy [] a = inl tt
find_busy (waits ∷ workers) a = elim (find_busy workers a.1) [
  | inl idle ↦ inl (tt, idle)
  | inr (w, batch_start, entries, at) ↦ inr (suc w, batch_start, entries, at)
]
find_busy (busy batch_start entries ∷ workers) a = inr (0, batch_start, entries, refl)
find_busy (died message ∷ workers) a = absurd a.0

first_waits :
    (workers : List Worker)
    → All Idles workers
    → 1 ≤ length workers
    → get_elem? workers 0 ≡ some waits
first_waits [] idle some_worker = absurd (omega arith)
first_waits (waits ∷ workers) idle some_worker = refl
first_waits (busy batch_start entries ∷ workers) idle some_worker = absurd idle.0
first_waits (died message ∷ workers) idle some_worker = absurd idle.0

module _ (src : Source) where
  -- A step that leaves less to do, and puts nothing on the scheduler.
  abbrev pub Advances : Pool src → Type 0
  Advances p =
      (q : Pool src) × WorkerTurn src p q
      × (left_to_do src q < left_to_do src p)
      × (q.put_on ≡ p.put_on)

  advance_busy :
      (p : Pool src) (w batch_start : ℕ) (entries : List Entry)
      → get_elem? p.workers w ≡ some (busy batch_start entries)
      → Advances p
  unfolding has_turned
  advance_busy p w batch_start entries at =
      let turn = ends w batch_start (exhausted (λ k. 0)) entries at in
      (
        has_turned src w (end_batch (exhausted (λ k. 0)) batch_start entries p.shared) p,
        turn,
        omega (arith, turn_weight-left_to_do src p _ turn),
        refl,
      )

  advance_waiting :
      (p : Pool src) (clock : src.Clock) (b : Batch) (left : src.State)
      → get_elem? p.workers 0 ≡ some waits
      → src.next_batch clock p.scheduler ≡ some (b, left)
      → src.submitted clock p.scheduler ≡ []
      → Advances p
  unfolding take_batch
  advance_waiting p clock b left free given quiet =
      let fresh : All (λ item. IsNew item.handle) (src.submitted clock p.scheduler) = rw quiet tt in
      let turn = takes 0 0 clock b left free given fresh in
      let same : p.put_on ++ map item_id (src.submitted clock p.scheduler) ≡ p.put_on =
        rw quiet (append-nil p.put_on) in
      (
        take_batch src 0 0 (src.submitted clock p.scheduler) b.items left p,
        turn,
        omega (arith, turn_weight-left_to_do src p _ turn, ap length same),
        same,
      )

  next_batch_cases :
      (clock : src.Clock) (s : src.State)
      → (src.next_batch clock s ≡ none)
        ⊎ ((b : Batch) × (left : src.State) × (src.next_batch clock s ≡ some (b, left)))
  next_batch_cases clock s = by_answer (src.next_batch clock s) refl
    where
      by_answer :
          (answer : Option (Batch × src.State))
          → src.next_batch clock s ≡ answer
          → (src.next_batch clock s ≡ none)
            ⊎ ((b : Batch) × (left : src.State) × (src.next_batch clock s ≡ some (b, left)))
      by_answer none e = inl e
      by_answer (some (b, left)) e = inr (b, left, e)

  pub advance :
      (n : ℕ) (p : Pool src) (clock : src.Clock)
      → src.submitted clock p.scheduler ≡ []
      → 1 ≤ n
      → IsSound src n p
      → IsDrained src p ⊎ Advances p
  advance n p clock quiet some_worker s = elim (find_busy p.workers s.alive) [
    | inr (w, batch_start, entries, at) ↦ inr (advance_busy p w batch_start entries at)
    | inl idle ↦ elim (next_batch_cases clock p.scheduler) [
      | inl nothing ↦ inl (src.next_batch-none clock p.scheduler nothing, idle)
      | inr (b, left, given) ↦ inr (
          advance_waiting p clock b left
            (first_waits p.workers idle (omega (arith, s.sized, some_worker))) given quiet)
    ]
  ]
