-- ===== src/Workers/Pool/Drain.antt =====
-- workers/manager.py: from any state of the workers to the end of their work.
use llm_serving_runtime.Base.{
  ℕ, zero, suc, ◌+◌, ◌≤◌, ◌≡◌, refl, sym, ap, subst, ◌∙◌, inl, inr, List, [], ◌∷◌, map, arith, All,
}
use llm_serving_runtime.Base.Text.{String}
use llm_serving_runtime.Scheduler.Source.{Source}
use llm_serving_runtime.Workers.Batch.{Shared}
use llm_serving_runtime.Workers.Batch.Contract.{item_id}
use llm_serving_runtime.Workers.Loop.{served_id}
use llm_serving_runtime.Workers.Loop.Served.{IsServed}
use llm_serving_runtime.Workers.Loop.Waiting.{IsWaiting}
use llm_serving_runtime.Workers.Pool.{
  Worker, waits, busy, died, Pool, start_pool, WorkerTurn, PoolStep, Steps, here, later,
}
use llm_serving_runtime.Workers.Pool.Safety.{IsOnce-before_turn, WorkerTurn-IsSound, pool-IsSound}
use llm_serving_runtime.Workers.Pool.Sound.{IsSound, held_by}
use llm_serving_runtime.Workers.Pool.Load.{Idles, IsDrained, left_to_do}
use llm_serving_runtime.Workers.Pool.Advance.{advance}
use llm_serving_runtime.Workers.Pool.Tickets.{times, IsOnce}

held_by_idle : (id : String) (workers : List Worker) → All Idles workers → held_by id workers ≡ 0
held_by_idle id [] idle = refl
held_by_idle id (waits ∷ workers) idle = omega (arith, held_by_idle id workers idle.1)
held_by_idle id (busy batch_start entries ∷ workers) idle = absurd idle.0
held_by_idle id (died message ∷ workers) idle = absurd idle.0

module _ (src : Source) (n : ℕ) where
  -- The steps in the order in which they are taken, the first one first.
  Steps-first :
      (p q r : Pool src)
      → WorkerTurn src p q
      → Steps (WorkerTurn src) q r
      → Steps (WorkerTurn src) p r
  Steps-first p q r step here = later here step
  Steps-first p q r step (later {y = m} steps last) = later (Steps-first p q m step steps) last

  drain_within :
      (todo : ℕ) (p : Pool src) (clock : src.Clock)
      → ((s : src.State) → src.submitted clock s ≡ [])
      → 1 ≤ n
      → IsOnce p.put_on
      → IsSound src n p
      → left_to_do src p ≤ todo
      → (q : Pool src) × Steps (WorkerTurn src) p q × IsDrained src q × (q.put_on ≡ p.put_on)
  drain_within zero p clock quiet some_worker once s bound =
      elim (advance src n p clock (quiet p.scheduler) some_worker s) [
        | inl drained ↦ (p, here, drained, refl)
        | inr (q, step, less, same) ↦ absurd (omega (arith, less, bound))
      ]
  drain_within (suc todo) p clock quiet some_worker once s bound =
      elim (advance src n p clock (quiet p.scheduler) some_worker s) [
        | inl drained ↦ (p, here, drained, refl)
        | inr (q, step, less, same) ↦
            let (r, steps, drained, same') =
              let once' : IsOnce q.put_on = subst IsOnce (sym same) once in
              drain_within todo q clock quiet some_worker once'
                (WorkerTurn-IsSound src n p q step once' s) (omega (arith, less, bound)) in
            (r, Steps-first p q r step steps, drained, same' ∙ same)
      ]

  Turns-IsSound :
      (p q : Pool src)
      → Steps (WorkerTurn src) p q
      → IsOnce q.put_on
      → IsSound src n p
      → IsSound src n q
  Turns-IsSound p q here once s = s
  Turns-IsSound p q (later {y = m} steps turn) once s =
      WorkerTurn-IsSound src n m q turn once
        (Turns-IsSound p m steps (IsOnce-before_turn src m q turn once) s)

  -- From every state that one or more workers can come to with no id put on twice, turns of theirs
  -- alone lead to one in which nothing waits and each worker waits for a request, if nothing is
  -- submitted meanwhile. Each request that was put on was then left out, since it was cancelled before
  -- its batch, or has its outcome or was cancelled in its batch, exactly once.
  pub pool-drains :
      (s : src.State) (sh : Shared) (clock : src.Clock) (p : Pool src)
      → ((s : src.State) → src.submitted clock s ≡ [])
      → 1 ≤ n
      → All IsWaiting (src.waiting s)
      → IsOnce p.put_on
      → Steps (PoolStep src) (start_pool src n s sh) p
      → (q : Pool src) × Steps (WorkerTurn src) p q
        × IsDrained src q
        × (q.put_on ≡ p.put_on)
        × All IsServed q.served
        × ((id : String)
            → times id q.skipped + times id (map served_id q.served) ≡ times id p.put_on)
  pool-drains s sh clock p quiet some_worker w once steps =
      let sound = pool-IsSound src n s sh p w once steps in
      let (q, more, (empty, idle), same) =
        drain_within (left_to_do src p) p clock quiet some_worker once sound (omega arith) in
      let sound' = Turns-IsSound p q more (subst IsOnce (sym same) once) sound in
      (
        q,
        more,
        (empty, idle),
        same,
        sound'.served,
        λ id. omega (
          arith,
          sound'.counted id,
          held_by_idle id q.workers idle,
          ap (λ l. times id (map item_id l)) empty,
          ap (times id) same,
        ),
      )
