-- ===== src/Workers/Pool/Conserved.antt =====
-- workers/manager.py: what the workers count while nothing is cancelled.
use llm_serving_runtime.Base.{
  ℕ, ◌+◌, ◌≡◌, refl, sym, ap, subst, ◌∙◌, false, some, List, [], ◌∷◌, ◌++◌, map, arith, length,
  get_elem?, All, length-append, length-map, All-append, sum,
}
use llm_serving_runtime.Core.Response.{ScheduledRequest, item_cancelled, handle_cancelled}
use llm_serving_runtime.Scheduler.Source.{TakesBatch, Source}
use llm_serving_runtime.Workers.Batch.{Shared, Entry}
use llm_serving_runtime.Workers.Batch.Contract.{item_id}
use llm_serving_runtime.Workers.Batch.Counted.{settled}
use llm_serving_runtime.Workers.Loop.Waiting.{IsWaiting}
use llm_serving_runtime.Workers.Pool.{
  IsNew, waits, busy, Turned, begin_batch, Pool, start_pool, submit, take_batch, has_turned,
  WorkerTurn, PoolStep, Steps, takes, hears, ends, submits, cancels, turns, here, later,
}
use llm_serving_runtime.Workers.Pool.Members.{
  All-set_at, All-get_elem?, sum-set_at, sum-replicate, All-replicate,
}
use llm_serving_runtime.Workers.Pool.Tickets.{
  IsUncancelled, length-TakesBatch, TakesBatch-IsUncancelled, IsOnce,
}
use llm_serving_runtime.Workers.Pool.Turns.{IsAlive}
use llm_serving_runtime.Workers.Pool.Taken.{taken-IsDistinctIds}
use llm_serving_runtime.Workers.Pool.Sound.{IsSound, start_pool-IsSound}
use llm_serving_runtime.Workers.Pool.Safety.{IsOnce-before, Steps-IsSound}
use llm_serving_runtime.Workers.Pool.Settled.{
  IsOpenWorker, unsettled_of, IsCountedTurn, hear-IsCountedTurn, end_batch-IsCountedTurn,
  begin_batch-unsettled, IsNew-handle_cancelled, All-IsNew-IsUncancelled,
}

module _ (src : Source) where
  -- The API cancels nothing.
  abbrev pub NoCancels : (p q : Pool src) → Steps (PoolStep src) p q → Type 0
  NoCancels p q here = Unit
  NoCancels p q (later {y = m} steps (submits now item fresh)) = NoCancels p m steps
  NoCancels p q (later {y = m} steps (cancels id)) = ⊥
  NoCancels p q (later {y = m} steps (turns turn)) = NoCancels p m steps

  -- The requests that have no outcome yet: those that wait, and those in the batches.
  abbrev pub outstanding : Pool src → ℕ
  outstanding p = length (src.waiting p.scheduler) + sum (map unsettled_of p.workers)

  record IsConserved (p : Pool src) : Type 0 where
    open_waiting : All IsUncancelled (src.waiting p.scheduler)
    open_batches : All IsOpenWorker p.workers
    conserved : settled p.shared + outstanding p ≡ length p.put_on

  start_pool-IsConserved :
      (n : ℕ) (s : src.State) (sh : Shared)
      → All IsUncancelled (src.waiting s)
      → settled sh ≡ 0
      → IsConserved (start_pool src n s sh)
  start_pool-IsConserved n s sh o none_yet = record {
    open_waiting = o;
    open_batches = All-replicate IsOpenWorker n waits tt;
    conserved = omega (
      arith,
      none_yet,
      sum-replicate unsettled_of n waits refl,
      length-map item_id (src.waiting s),
    );
  }

  submit-IsConserved :
      (now : ℕ) (item : ScheduledRequest) (p : Pool src)
      → IsNew item.handle
      → IsConserved p
      → IsConserved (submit src now item p)
  unfolding submit
  submit-IsConserved now item p fresh s =
      let (put, stands, same) = src.waiting-submit now item p.scheduler in
      let same_handle : put.handle ≡ item.handle = ap (λ t. t.1) same in
      let put_open : item_cancelled put ≡ false =
        ap handle_cancelled same_handle ∙ IsNew-handle_cancelled item.handle fresh in
      record {
        open_waiting = subst (All IsUncancelled) (sym stands) (
            All-append IsUncancelled (src.waiting p.scheduler) (put ∷ []) s.open_waiting
              (put_open, tt));
        open_batches = s.open_batches;
        conserved = omega (
          arith,
          s.conserved,
          ap length stands,
          length-append (src.waiting p.scheduler) (put ∷ []),
          length-append p.put_on (item_id item ∷ []),
        );
      }

  take_batch-IsConserved :
      (n w batch_start : ℕ) (submitted items : List ScheduledRequest) (left : src.State)
      (p : Pool src)
      → get_elem? p.workers w ≡ some waits
      → TakesBatch (src.waiting p.scheduler) submitted items (src.waiting left)
      → All (λ item. IsNew item.handle) submitted
      → IsOnce (p.put_on ++ map item_id submitted)
      → IsSound src n p
      → IsConserved p
      → IsConserved (take_batch src w batch_start submitted items left p)
  unfolding take_batch
  take_batch-IsConserved n w batch_start submitted items left p free taken fresh once sound s =
      let (items_open, left_open) =
        TakesBatch-IsUncancelled (src.waiting p.scheduler) submitted items (src.waiting left) taken
          s.open_waiting (All-IsNew-IsUncancelled submitted fresh) in
      let ids = taken-IsDistinctIds src n submitted items left p taken once sound in
      let (opened, counted, same) =
        begin_batch-unsettled batch_start items p.shared ids items_open in
      record {
        open_waiting = left_open;
        open_batches = All-set_at IsOpenWorker w _ p.workers opened s.open_batches;
        conserved = omega (
          arith,
          s.conserved,
          counted,
          same,
          length-TakesBatch (src.waiting p.scheduler) submitted items (src.waiting left) taken,
          length-append p.put_on (map item_id submitted),
          length-map item_id submitted,
          sum-set_at unsettled_of w waits (begin_batch batch_start items p.shared).worker p.workers
              free,
        );
      }

  has_turned-IsConserved :
      (w batch_start : ℕ) (entries : List Entry) (t : Turned) (p : Pool src)
      → get_elem? p.workers w ≡ some (busy batch_start entries)
      → IsCountedTurn entries p.shared t
      → IsConserved p
      → IsConserved (has_turned src w t p)
  unfolding has_turned
  has_turned-IsConserved w batch_start entries t p at (opened, counted) s = record {
    open_waiting = s.open_waiting;
    open_batches = All-set_at IsOpenWorker w t.worker p.workers opened s.open_batches;
    conserved = omega (
      arith,
      s.conserved,
      counted,
      sum-set_at unsettled_of w (busy batch_start entries) t.worker p.workers at,
    );
  }

  WorkerTurn-IsConserved :
      (n : ℕ) (p q : Pool src)
      → WorkerTurn src p q
      → IsOnce q.put_on
      → IsSound src n p
      → IsConserved p
      → IsConserved q
  unfolding take_batch
  WorkerTurn-IsConserved n p q (takes w batch_start clock b left free given fresh) once sound s =
      take_batch-IsConserved n w batch_start (src.submitted clock p.scheduler) b.items left p free
        (src.next_batch-TakesBatch clock p.scheduler b left given) fresh once sound s
  WorkerTurn-IsConserved n p q (hears w clock batch_start event entries at) once sound s =
      has_turned-IsConserved w batch_start entries _ p at
        (hear-IsCountedTurn clock event batch_start entries p.shared
          (All-get_elem? IsOpenWorker w (busy batch_start entries) p.workers at s.open_batches)
          (All-get_elem? IsAlive w (busy batch_start entries) p.workers at sound.alive))
        s
  WorkerTurn-IsConserved n p q (ends w batch_start ending entries at) once sound s =
      has_turned-IsConserved w batch_start entries _ p at
        (end_batch-IsCountedTurn ending batch_start entries p.shared
          (All-get_elem? IsOpenWorker w (busy batch_start entries) p.workers at s.open_batches)
          (All-get_elem? IsAlive w (busy batch_start entries) p.workers at sound.alive))
        s

  Steps-IsConserved :
      (n : ℕ) (p q : Pool src) (steps : Steps (PoolStep src) p q)
      → NoCancels p q steps
      → IsOnce q.put_on
      → IsSound src n p
      → IsConserved p
      → IsConserved q
  Steps-IsConserved n p q here free once sound s = s
  Steps-IsConserved n p q (later {y = m} steps (submits now item fresh)) free once sound s =
      submit-IsConserved now item m fresh (
        Steps-IsConserved n p m steps free (IsOnce-before src m q (submits now item fresh) once)
          sound s)
  Steps-IsConserved n p q (later {y = m} steps (cancels id)) free once sound s = absurd free
  Steps-IsConserved n p q (later {y = m} steps (turns turn)) free once sound s =
      let once' = IsOnce-before src m q (turns turn) once in
      WorkerTurn-IsConserved n m q turn once (Steps-IsSound src n p m steps once' sound)
        (Steps-IsConserved n p m steps free once' sound s)

  -- From the start of any number of workers with nothing counted, on a scheduler where nothing was
  -- delivered or cancelled yet, after any steps in which the API cancels nothing, with no id put on
  -- twice: the requests counted as completed or failed, those that wait and those in a batch that have
  -- no outcome yet are together as many as were put on. So a request is counted once when it has its
  -- outcome, and none is counted before.
  pub settled-outstanding :
      (n : ℕ) (s : src.State) (sh : Shared) (q : Pool src)
      (steps : Steps (PoolStep src) (start_pool src n s sh) q)
      → All IsWaiting (src.waiting s)
      → All IsUncancelled (src.waiting s)
      → settled sh ≡ 0
      → NoCancels (start_pool src n s sh) q steps
      → IsOnce q.put_on
      → settled q.shared + outstanding q ≡ length q.put_on
  settled-outstanding n s sh q steps w o none_yet free once =
      let last =
        Steps-IsConserved n (start_pool src n s sh) q steps free once
          (start_pool-IsSound src n s sh w) (start_pool-IsConserved n s sh o none_yet) in
      last.conserved
