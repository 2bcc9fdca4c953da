-- ===== src/Workers/Loop/Progress.antt =====
-- workers/manager.py: what `_worker_loop` promises for the requests that are put on the queue.
use llm_serving_runtime.Base.{
  ℕ, ◌≤◌, ◌≡◌, refl, sym, ap, subst, ◌∙◌, ◌⊎◌, inl, inr, none, some, List, [], ◌∷◌, ◌++◌, map,
  append-nil, append_assoc, arith, length, All, length-map,
}
use mathlib.Core.List.{map-append}
use llm_serving_runtime.Core.Response.{ScheduledRequest}
use llm_serving_runtime.Scheduler.Batching.{Batch, identity}
use llm_serving_runtime.Scheduler.Fifo.{FifoScheduler, next_batch}
use llm_serving_runtime.Scheduler.Fifo.Order.{next_batch-order}
use llm_serving_runtime.Workers.Batch.{Shared, entry_id, execute_batch}
use llm_serving_runtime.Workers.Batch.Contract.{item_id, active}
use llm_serving_runtime.Workers.Batch.Resolution.{IsResolved}
use llm_serving_runtime.Workers.Loop.{
  Turn, Run, wait_then, batch_then, cancel_ids, arrive, after_cancels, form_batch,
  collected_arrivals, idle, worker_loop,
}
use llm_serving_runtime.Workers.Loop.Waiting.{IsWaiting, IsDistinctIds}
use llm_serving_runtime.Workers.Loop.Ready.{
  AreReady, AreReady-append_assoc, AreReady-split, AreReady-after, AreReady-cancelled,
  cancelled-ids, execute_batch-AreReady, ids-with_ending,
}
use llm_serving_runtime.Workers.Loop.Served.{
  Serves, Serves-wait_then, Serves-batch_then, All-with_ending,
}

module _ (max_batch_size batch_timeout_ms : ℕ) where
  turn-next_batch :
      (t : Turn) (s : FifoScheduler)
      → ((s.queue ≡ [])
          × (next_batch t.rounds t.now t.clock max_batch_size batch_timeout_ms s ≡ none))
        ⊎ ((b : Batch) × (s' : FifoScheduler) × (next_batch t.rounds t.now t.clock max_batch_size
                batch_timeout_ms s
              ≡ some (b, s'))
            × (1 ≤ length b.items)
            × (map identity (b.items ++ s'.queue)
                ≡ map identity (s.queue ++ collected_arrivals max_batch_size batch_timeout_ms t s)))
  unfolding next_batch collected_arrivals
  turn-next_batch t s = by_queue s.queue refl
    where
      by_queue :
          (queue : List ScheduledRequest)
          → s.queue ≡ queue
          → ((s.queue ≡ [])
              × (next_batch t.rounds t.now t.clock max_batch_size batch_timeout_ms s ≡ none))
            ⊎ ((b : Batch) × (s' : FifoScheduler) × (next_batch t.rounds t.now t.clock
                    max_batch_size batch_timeout_ms s
                  ≡ some (b, s'))
                × (1 ≤ length b.items)
                × (map identity (b.items ++ s'.queue)
                    ≡ map identity
                        (s.queue ++ collected_arrivals max_batch_size batch_timeout_ms t s)))
      by_queue [] e = inl (e, rw (e, next_batch) refl)
      by_queue (first ∷ queue) e =
          let (b, s', given, order, some_item, _, _, _) =
            next_batch-order t.rounds t.now t.clock max_batch_size batch_timeout_ms s first queue
              e in
          inr (b, s', given, some_item, map-append identity b.items s'.queue ∙ order)

  loop-wait_then :
      (t : Turn) (turns : List Turn) (s : FifoScheduler) (sh : Shared)
      → next_batch t.rounds t.now t.clock max_batch_size batch_timeout_ms (arrive t s) ≡ none
      → worker_loop max_batch_size batch_timeout_ms (t ∷ turns) s sh
        ≡ wait_then t (worker_loop max_batch_size batch_timeout_ms turns (arrive t s) sh)
  unfolding worker_loop
  loop-wait_then t turns s sh waits = rw (waits, worker_loop) refl

  loop-batch_then :
      (t : Turn) (turns : List Turn) (s s2 : FifoScheduler) (sh : Shared) (b : Batch)
      → next_batch t.rounds t.now t.clock max_batch_size batch_timeout_ms (arrive t s)
        ≡ some (b, s2)
      → let items = map (cancel_ids t.cancels) b.items in
        let s3 = after_cancels t s2 in
        let (error, entries, sh') =
          execute_batch t.batch_start t.happenings t.ending items (form_batch items sh) in
        worker_loop max_batch_size batch_timeout_ms (t ∷ turns) s sh
        ≡ batch_then items
            (map (λ e. (t.ending, e)) entries)
            (t.arrivals ++ collected_arrivals max_batch_size batch_timeout_ms t (arrive t s))
            (elim error [
              | none ↦ worker_loop max_batch_size batch_timeout_ms turns s3 sh'
              | some message ↦ record (idle s3 sh') { error = some message }
            ])
  unfolding worker_loop
  loop-batch_then t turns s s2 sh b given = rw (given, worker_loop) refl

  -- A batch of requests that are ready raises nothing, so that the loop goes on with what it leaves.
  loop-goes_on :
      (t : Turn) (turns : List Turn) (s s2 : FifoScheduler) (sh : Shared) (b : Batch)
      → next_batch t.rounds t.now t.clock max_batch_size batch_timeout_ms (arrive t s)
        ≡ some (b, s2)
      → let arrivals = collected_arrivals max_batch_size batch_timeout_ms t (arrive t s) in
        let waiting = (s.queue ++ t.arrivals) ++ arrivals in
        let items = map (cancel_ids t.cancels) b.items in
        let s3 = after_cancels t s2 in
        let (_, entries, sh') =
          execute_batch t.batch_start t.happenings t.ending items (form_batch items sh) in
        let run = worker_loop max_batch_size batch_timeout_ms (t ∷ turns) s sh in
        let rest = worker_loop max_batch_size batch_timeout_ms turns s3 sh' in
        map identity (b.items ++ s2.queue) ≡ map identity waiting
        → AreReady (s.queue ++ run.put_on)
        → (run ≡ batch_then items (map (λ e. (t.ending, e)) entries) (t.arrivals ++ arrivals) rest)
          × AreReady (s3.queue ++ rest.put_on)
          × (map entry_id entries ≡ map item_id (active items))
          × All (IsResolved t.ending) entries
  loop-goes_on t turns s s2 sh b given order w =
      let same = loop-batch_then t turns s s2 sh b given in
      let arrivals = collected_arrivals max_batch_size batch_timeout_ms t (arrive t s) in
      let waiting = (s.queue ++ t.arrivals) ++ arrivals in
      let items = map (cancel_ids t.cancels) b.items in
      let s3 = after_cancels t s2 in
      let (error, entries, sh') =
        execute_batch t.batch_start t.happenings t.ending items (form_batch items sh) in
      let rest = worker_loop max_batch_size batch_timeout_ms turns s3 sh' in
      let tail : Run = elim error [
        | none ↦ rest
        | some message ↦ record (idle s3 sh') { error = some message }
      ] in
      let ready =
        AreReady-append_assoc s.queue t.arrivals arrivals tail.put_on
          (subst (λ (r : Run). AreReady (s.queue ++ r.put_on)) same w) in
      let first =
        AreReady-cancelled t.cancels b.items s2.queue waiting order
          (AreReady-split waiting tail.put_on ready).0 in
      let (ok, worked, settled) =
        execute_batch-AreReady t.batch_start t.happenings t.ending items (form_batch items sh)
          (AreReady-split items s3.queue first).0 in
      let goes_on : tail ≡ rest = rw ok refl in
      (
        same
            ∙ ap (batch_then items (map (λ e. (t.ending, e)) entries) (t.arrivals ++ arrivals))
                goes_on,
        AreReady-after items s3.queue waiting rest.put_on
            (cancelled-ids t.cancels b.items s2.queue waiting order) first
            (subst (λ (r : Run). AreReady (waiting ++ r.put_on)) goes_on ready),
        worked,
        settled,
      )

  loop-Serves :
      (turns : List Turn) (s : FifoScheduler) (sh : Shared)
      → let run = worker_loop max_batch_size batch_timeout_ms turns s sh in
        AreReady (s.queue ++ run.put_on) → Serves turns s run
  unfolding worker_loop
  loop-Serves [] s sh w = (refl, ap (map item_id) (sym (append-nil s.queue)), omega arith, refl, tt)
  loop-Serves (t ∷ turns) s sh w = elim (turn-next_batch t (arrive t s)) [
    | inl (empty, waits) ↦
        let same = loop-wait_then t turns s sh waits in
        let ready = subst (λ (r : Run). AreReady (s.queue ++ r.put_on)) same w in
        let rest = worker_loop max_batch_size batch_timeout_ms turns (arrive t s) sh in
        subst (Serves (t ∷ turns) s) (sym same) (
          Serves-wait_then t turns s rest empty (
            loop-Serves turns (arrive t s) sh
              (subst AreReady (sym (append_assoc s.queue t.arrivals rest.put_on)) ready)))
    | inr (b, s2, given, some_item, order) ↦
        let arrivals = collected_arrivals max_batch_size batch_timeout_ms t (arrive t s) in
        let items = map (cancel_ids t.cancels) b.items in
        let s3 = after_cancels t s2 in
        let (_, entries, sh') =
          execute_batch t.batch_start t.happenings t.ending items (form_batch items sh) in
        let rest = worker_loop max_batch_size batch_timeout_ms turns s3 sh' in
        let (same, ready, worked, settled) = loop-goes_on t turns s s2 sh b given order w in
        subst (Serves (t ∷ turns) s) (sym same) (
          Serves-batch_then t turns s s3 items arrivals (map (λ e. (t.ending, e)) entries) rest
            (subst (◌≤◌ 1) (sym (length-map (cancel_ids t.cancels) b.items)) some_item)
            (cancelled-ids t.cancels b.items s2.queue ((s.queue ++ t.arrivals) ++ arrivals) order)
            (ids-with_ending t.ending entries ∙ worked) (All-with_ending t.ending entries settled)
            (loop-Serves turns s3 sh' ready))
  ]

  -- When the requests that wait at the start or are put on the queue have different ids, and nothing
  -- was delivered to one of them unless it was cancelled, the worker's loop never ends with an
  -- exception, whatever the backend emits, however it ends, and whoever cancels. It takes the
  -- requests in their order of arrival and the queue keeps the others; each turn takes one at least,
  -- until those are taken that waited at the start. Each request taken that was not cancelled when
  -- its batch began was cancelled later or has its one outcome.
  pub worker_loop-Serves :
      (turns : List Turn) (s : FifoScheduler) (sh : Shared)
      → All IsWaiting (s.queue ++ (worker_loop max_batch_size batch_timeout_ms turns s sh).put_on)
      → IsDistinctIds
          (map item_id (s.queue ++ (worker_loop max_batch_size batch_timeout_ms turns s sh).put_on))
      → Serves turns s (worker_loop max_batch_size batch_timeout_ms turns s sh)
  worker_loop-Serves turns s sh w d = loop-Serves turns s sh (w, d)
