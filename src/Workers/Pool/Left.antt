-- ===== src/Workers/Pool/Left.antt =====
-- workers/manager.py: what the requests of the workers' batches have got after any steps.
use llm_serving_runtime.Base.{
  ℕ, ◌≡◌, refl, sym, ap, subst, ◌∙◌, inl, inr, some, List, [], ◌∷◌, ◌++◌, map, arith, ◌==◌,
  if◌then◌else◌, Bool-cases, get_elem?, All,
}
use llm_serving_runtime.Scheduler.Source.{Source}
use llm_serving_runtime.Workers.Batch.{Shared, Happening, emits}
use llm_serving_runtime.Workers.Batch.Outcomes.{deliver-Current}
use llm_serving_runtime.Workers.Loop.Waiting.{IsWaiting}
use llm_serving_runtime.Workers.Pool.{
  Worker, waits, busy, cancel_worker, set_at, begin_batch, Pool, start_pool, submit, cancel_request,
  take_batch, has_turned, PoolStep, Steps, submits, cancels, turns, takes, hears, ends, here, later,
}
use llm_serving_runtime.Workers.Pool.Members.{
  All-get_elem?, get_elem?-set_at, get_elem?-set_at_other, get_elem?-map, All-replicate,
}
use llm_serving_runtime.Workers.Pool.Turns.{IsAlive, hear_busy}
use llm_serving_runtime.Workers.Pool.Tickets.{IsOnce}
use llm_serving_runtime.Workers.Pool.Sound.{IsSound, start_pool-IsSound}
use llm_serving_runtime.Workers.Pool.Safety.{IsOnce-before, Steps-IsSound}
use llm_serving_runtime.Workers.Pool.Heard.{
  IsExpecting, work_on-IsExpecting, cancel_worker-IsExpecting, hear-IsExpecting,
}
use llm_serving_runtime.Workers.Pool.Delivered.{
  heard_by, left_by, served_of, IsLeft, held-AreDistinct, end_batch-IsLeft, end_batch-IsExpecting,
  left-append,
}

module _ (src : Source) (n : ℕ) where
  -- All workers of a state expect what is still to come, after what each has heard.
  abbrev Expects : (ℕ → List Happening) → Pool src → Type 0
  Expects heard p = (w : ℕ) (x : Worker) → get_elem? p.workers w ≡ some x → IsExpecting (heard w) x

  set_at-IsExpecting :
      (heard : ℕ → List Happening) (now : List Happening) (v w : ℕ) (x y : Worker)
      (workers : List Worker)
      → ((u : ℕ) (z : Worker) → get_elem? workers u ≡ some z → IsExpecting (heard u) z)
      → IsExpecting now y
      → get_elem? (set_at v y workers) w ≡ some x
      → IsExpecting (if v == w then now else heard w) x
  set_at-IsExpecting heard now v w x y workers old new e = elim (Bool-cases (v == w)) [
    | inl same ↦
        let index : w ≡ v = ground arith in
        let at : get_elem? (set_at v y workers) v ≡ some x =
          ap (get_elem? (set_at v y workers)) (sym index) ∙ e in
        rw same (subst (IsExpecting now) (sym (get_elem?-set_at v y x workers at)) new)
    | inr other ↦ rw other (old w x (sym (get_elem?-set_at_other v w y workers other) ∙ e))
  ]

  Steps-Expects :
      (p q : Pool src) (steps : Steps (PoolStep src) p q)
      → IsOnce q.put_on
      → IsSound src n p
      → Expects (λ w. []) p
      → Expects (heard_by steps) q
  unfolding submit cancel_request take_batch has_turned begin_batch
  Steps-Expects p q here once s x = x
  Steps-Expects p q (later {y = m} steps (submits now item fresh)) once s x =
      Steps-Expects p m steps (IsOnce-before src m q (submits now item fresh) once) s x
  Steps-Expects p q (later {y = m} steps (cancels id)) once s x = λ w y e.
      let old = Steps-Expects p m steps (IsOnce-before src m q (cancels id) once) s x in
      let (z, at, same) = get_elem?-map (cancel_worker id) w y m.workers e in
      subst (IsExpecting (heard_by steps w)) same
        (cancel_worker-IsExpecting id (heard_by steps w) z (old w z at))
  Steps-Expects p q
        (later {y = m} steps (turns (takes v batch_start clock b left free given fresh))) once s x =
      λ w y e.
        let old =
          Steps-Expects p m steps
            (IsOnce-before src m q (turns (takes v batch_start clock b left free given fresh)) once)
            s x in
        set_at-IsExpecting (heard_by steps) [] v w y _ m.workers old
          (work_on-IsExpecting batch_start _) e
  Steps-Expects p q (later {y = m} steps (turns (hears v clock batch_start event entries at))) once
        s x =
      λ w y e.
        let before =
          IsOnce-before src m q (turns (hears v clock batch_start event entries at)) once in
        let old = Steps-Expects p m steps before s x in
        let sound = Steps-IsSound src n p m steps before s in
        set_at-IsExpecting (heard_by steps) (heard_by steps v ++ (emits (clock 0) event ∷ [])) v w y
          _ m.workers old
          (hear-IsExpecting clock event batch_start entries m.shared (heard_by steps v)
            (held-AreDistinct src n m v batch_start entries before sound at)
            (All-get_elem? IsAlive v (busy batch_start entries) m.workers at sound.alive)
            (old v (busy batch_start entries) at))
          e
  Steps-Expects p q (later {y = m} steps (turns (ends v batch_start ending entries at))) once s x =
      λ w y e.
        let before = IsOnce-before src m q (turns (ends v batch_start ending entries at)) once in
        let old = Steps-Expects p m steps before s x in
        let sound = Steps-IsSound src n p m steps before s in
        set_at-IsExpecting (heard_by steps) [] v w y _ m.workers old
          (end_batch-IsExpecting ending batch_start entries m.shared
            (All-get_elem? IsAlive v (busy batch_start entries) m.workers at sound.alive))
          e

  -- The entries that leave are the pool's history of outcomes, and each has what was heard for it.
  Steps-IsLeft :
      (p q : Pool src) (steps : Steps (PoolStep src) p q)
      → IsOnce q.put_on
      → IsSound src n p
      → Expects (λ w. []) p
      → p.served ≡ []
      → (map served_of (left_by steps) ≡ q.served) × All IsLeft (left_by steps)
  unfolding submit cancel_request take_batch has_turned begin_batch
  Steps-IsLeft p q here once s x none_yet = (sym none_yet, tt)
  Steps-IsLeft p q (later {y = m} steps (submits now item fresh)) once s x none_yet =
      Steps-IsLeft p m steps (IsOnce-before src m q (submits now item fresh) once) s x none_yet
  Steps-IsLeft p q (later {y = m} steps (cancels id)) once s x none_yet =
      Steps-IsLeft p m steps (IsOnce-before src m q (cancels id) once) s x none_yet
  Steps-IsLeft p q (later {y = m} steps (turns (takes v batch_start clock b left free given fresh)))
        once s x none_yet =
      Steps-IsLeft p m steps
        (IsOnce-before src m q (turns (takes v batch_start clock b left free given fresh)) once) s x
        none_yet
  Steps-IsLeft p q (later {y = m} steps (turns (hears v clock batch_start event entries at))) once s
        x none_yet =
      let before =
        IsOnce-before src m q (turns (hears v clock batch_start event entries at)) once in
      let (same, all) = Steps-IsLeft p m steps before s x none_yet in
      let sound = Steps-IsSound src n p m steps before s in
      let current = All-get_elem? IsAlive v (busy batch_start entries) m.workers at sound.alive in
      let (ok, _, _) = deliver-Current (clock 0) batch_start event entries m.shared current in
      let quiet = ap (λ t. t.served) (hear_busy clock event batch_start entries m.shared ok) in
      rw quiet (left-append m.served [] [] (left_by steps) same all tt)
  Steps-IsLeft p q (later {y = m} steps (turns (ends v batch_start ending entries at))) once s x
        none_yet =
      let before = IsOnce-before src m q (turns (ends v batch_start ending entries at)) once in
      let (same, all) = Steps-IsLeft p m steps before s x none_yet in
      let sound = Steps-IsSound src n p m steps before s in
      let current = All-get_elem? IsAlive v (busy batch_start entries) m.workers at sound.alive in
      left-append m.served _ (heard_by steps v) (left_by steps) same all (
        end_batch-IsLeft ending batch_start entries m.shared (heard_by steps v)
          (held-AreDistinct src n m v batch_start entries before sound at) current
          (Steps-Expects p m steps before s x v (busy batch_start entries) at))

  -- From the start of any number of workers, on a scheduler where nothing was delivered yet to a
  -- request that waits unless it was cancelled, with no id put on twice, whatever the API and the
  -- backend do and in whatever order the workers take their turns: each request whose batch has ended
  -- was cancelled or has its one outcome, with the tokens that the backend emitted for the request's
  -- id to the worker during that batch, in order, up to the first completion.
  pub pool-IsLeft :
      (s : src.State) (sh : Shared) (q : Pool src)
      → All IsWaiting (src.waiting s)
      → IsOnce q.put_on
      → (steps : Steps (PoolStep src) (start_pool src n s sh) q)
      → (map served_of (left_by steps) ≡ q.served) × All IsLeft (left_by steps)
  pool-IsLeft s sh q w once steps =
      Steps-IsLeft (start_pool src n s sh) q steps once (start_pool-IsSound src n s sh w)
        (λ v x e.
          All-get_elem? (IsExpecting []) v x _ e (All-replicate (IsExpecting []) n waits tt))
        refl
