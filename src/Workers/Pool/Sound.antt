-- ===== src/Workers/Pool/Sound.antt =====
-- workers/manager.py: what holds of the workers at every moment, change by change.
use llm_serving_runtime.Base.{
  ℕ, ◌+◌, ◌≡◌, refl, sym, ap, subst, ◌∙◌, inl, some, List, [], ◌∷◌, map, arith, length, get_elem?,
  All, length-map, All-append, sum,
}
use mathlib.Core.List.{map-append}
use llm_serving_runtime.Base.Text.{String}
use llm_serving_runtime.Core.Response.{ResponseHandle, completion, streaming, ScheduledRequest}
use llm_serving_runtime.Scheduler.Source.{Source}
use llm_serving_runtime.Workers.Batch.{Shared, Entry, entry_id}
use llm_serving_runtime.Workers.Batch.Contract.{item_id, IsFresh}
use llm_serving_runtime.Workers.Loop.{served_id, cancel_if}
use llm_serving_runtime.Workers.Loop.Served.{IsServed}
use llm_serving_runtime.Workers.Loop.Waiting.{IsWaiting, cancel_if-IsWaiting, cancel_if-item_id}
use llm_serving_runtime.Workers.Pool.{
  IsNew, Worker, waits, busy, Turned, cancel_worker, Pool, start_pool, submit, cancel_request,
  has_turned,
}
use llm_serving_runtime.Workers.Pool.Members.{
  length-set_at, All-set_at, sum-set_at, sum-map_same, sum-replicate, All-replicate,
  length-replicate,
}
use llm_serving_runtime.Workers.Pool.Tickets.{times, queued, times-append, queued-append}
use llm_serving_runtime.Workers.Pool.Turns.{
  IsAlive, held, IsSoundTurn, cancel_worker-IsAlive, held-cancel_worker,
}

-- How often an id stands in the batches of the workers.
abbrev pub held_by : String → List Worker → ℕ
held_by id workers = sum (map (held id) workers)

-- None of the `n` workers ended. The channels of the requests that wait and of those in a batch are
-- as they should be, and each request whose batch ended has its one outcome or was cancelled. Each
-- request that was put on the scheduler waits, is in one batch, was left out of its batch since it
-- was cancelled before, or had a batch that ended: once for each time that it was put on.
pub record IsSound (src : Source) (n : ℕ) (p : Pool src) : Type 0 where
  pub waiting : All IsWaiting (src.waiting p.scheduler)
  pub alive : All IsAlive p.workers
  pub served : All IsServed p.served
  pub counted :
      (id : String)
      → queued id (src.waiting p.scheduler)
          + held_by id p.workers
          + times id p.skipped
          + times id (map served_id p.served)
        ≡ times id p.put_on
  pub sized : length p.workers ≡ n

IsNew-IsFresh : (h : ResponseHandle) → IsNew h → IsFresh h
IsNew-IsFresh (completion h) e = ap (λ x. x.future) e
IsNew-IsFresh (streaming h) e = ap (λ x. x.queue) e

pub All-IsNew :
    (items : List ScheduledRequest) → All (λ item. IsNew item.handle) items → All IsWaiting items
All-IsNew [] f = tt
All-IsNew (x ∷ items) f = (inl (IsNew-IsFresh x.handle f.0), All-IsNew items f.1)

map-cancel_if-IsWaiting :
    (x : String) (items : List ScheduledRequest)
    → All IsWaiting items
    → All IsWaiting (map (cancel_if x) items)
map-cancel_if-IsWaiting x [] w = tt
map-cancel_if-IsWaiting x (item ∷ items) w =
    (cancel_if-IsWaiting x item w.0, map-cancel_if-IsWaiting x items w.1)

map-cancel_if-item_id :
    (x : String) (items : List ScheduledRequest)
    → map item_id (map (cancel_if x) items) ≡ map item_id items
map-cancel_if-item_id x [] = refl
map-cancel_if-item_id x (item ∷ items) =
    cc (cancel_if-item_id x item, map-cancel_if-item_id x items)

All-cancel_worker :
    (x : String) (workers : List Worker)
    → All IsAlive workers
    → All IsAlive (map (cancel_worker x) workers)
All-cancel_worker x [] a = tt
All-cancel_worker x (w ∷ workers) a =
    (cancel_worker-IsAlive x w a.0, All-cancel_worker x workers a.1)

module _ (src : Source) (n : ℕ) where
  pub start_pool-IsSound :
      (s : src.State) (sh : Shared)
      → All IsWaiting (src.waiting s)
      → IsSound src n (start_pool src n s sh)
  start_pool-IsSound s sh w = record {
    waiting = w;
    alive = All-replicate IsAlive n waits tt;
    served = tt;
    counted = λ id. omega (arith, sum-replicate (held id) n waits refl);
    sized = length-replicate n waits;
  }

  pub submit-IsSound :
      (now : ℕ) (item : ScheduledRequest) (p : Pool src)
      → IsNew item.handle
      → IsSound src n p
      → IsSound src n (submit src now item p)
  unfolding submit
  submit-IsSound now item p fresh s =
      let (put, stands, same) = src.waiting-submit now item p.scheduler in
      let same_handle : put.handle ≡ item.handle = ap (λ t. t.1) same in
      let same_id : item_id put ≡ item_id item = ap (λ t. t.0) same in
      let put_IsWaiting : IsWaiting put =
        inl (subst IsFresh (sym same_handle) (IsNew-IsFresh item.handle fresh)) in
      record {
        waiting = subst (All IsWaiting) (sym stands) (
            All-append IsWaiting (src.waiting p.scheduler) (put ∷ []) s.waiting
              (put_IsWaiting, tt));
        alive = s.alive;
        served = s.served;
        counted = λ id. omega (
          arith,
          s.counted id,
          ap (queued id) stands,
          queued-append id (src.waiting p.scheduler) (put ∷ []),
          times-append id p.put_on (item_id item ∷ []),
          ap (λ x. times id (x ∷ [])) same_id,
        );
        sized = s.sized;
      }

  pub cancel_request-IsSound :
      (x : String) (p : Pool src) → IsSound src n p → IsSound src n (cancel_request src x p)
  unfolding cancel_request
  cancel_request-IsSound x p s =
      let stands = src.waiting-on_items (cancel_if x) p.scheduler in
      record {
        waiting =
            subst (All IsWaiting) (sym stands)
              (map-cancel_if-IsWaiting x (src.waiting p.scheduler) s.waiting);
        alive = All-cancel_worker x p.workers s.alive;
        served = s.served;
        counted = λ id. omega (
          arith,
          s.counted id,
          ap (queued id) stands,
          ap (times id) (map-cancel_if-item_id x (src.waiting p.scheduler)),
          sum-map_same (held id) (cancel_worker x) p.workers (held-cancel_worker id x),
        );
        sized = length-map (cancel_worker x) p.workers ∙ s.sized;
      }

  pub has_turned-IsSound :
      (w batch_start : ℕ) (entries : List Entry) (t : Turned) (p : Pool src)
      → get_elem? p.workers w ≡ some (busy batch_start entries)
      → IsSoundTurn (map entry_id entries) t
      → IsSound src n p
      → IsSound src n (has_turned src w t p)
  unfolding has_turned
  has_turned-IsSound w batch_start entries t p at (alive, served, kept) s = record {
    waiting = s.waiting;
    alive = All-set_at IsAlive w t.worker p.workers alive s.alive;
    served = All-append IsServed p.served t.served s.served served;
    counted = λ id. omega (
      arith,
      s.counted id,
      kept id,
      sum-set_at (held id) w (busy batch_start entries) t.worker p.workers at,
      ap (times id) (map-append served_id p.served t.served),
      times-append id (map served_id p.served) (map served_id t.served),
    );
    sized = length-set_at w t.worker p.workers ∙ s.sized;
  }
