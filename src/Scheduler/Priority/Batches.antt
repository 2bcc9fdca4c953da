-- ===== src/Scheduler/Priority/Batches.antt =====
-- scheduler/priority.py: a batch neither loses nor doubles a request, and stays within its bound.
use mathlib.Core.List.{Perm, map-append, map-map}
use mathlib.Core.List.Perm
use llm_serving_runtime.Base.{
  ℕ, zero, suc, ◌+◌, ◌-◌, ◌*◌, ◌≤◌, max, ◌≡◌, refl, sym, ap, ◌∙◌, ◌≢◌, inl, inr, ◌||◌, none, some,
  List, [], ◌∷◌, ◌++◌, map, append-nil, append_assoc, arith, leb, ◌==◌, if◌then◌else◌, Bool-cases,
  length, take, All, length-map,
}
use llm_serving_runtime.Core.Response.{ScheduledRequest, on_request}
use llm_serving_runtime.Scheduler.Batching.{
  Batch, HasStarted, start_all, start_all-HasStarted, length-start_all,
}
use llm_serving_runtime.Scheduler.Priority.{
  QueuedRequest, PriorityScheduler, Submission, Wait, submit, submit_all, collect, next_batch,
  ns_per_ms, select,
}
use llm_serving_runtime.Scheduler.Priority.Select.{Selects, select-least, select_cases}

-- A request without the marks that a scheduler sets on it.
abbrev pub strip : ScheduledRequest → ScheduledRequest
strip item = on_request (λ r. record r { enqueued_at = none; started_at = none }) item

abbrev pub contents : PriorityScheduler → List ScheduledRequest
contents s = map (λ q. strip q.item) s.items

-- What was submitted during some waits.
abbrev pub submitted : List Wait → List ScheduledRequest
submitted [] = []
submitted (w ∷ waits) = map (λ x. strip x.item) w.submissions ++ submitted waits

map-strip-start_all :
    (clock : ℕ → ℕ) (k : ℕ) (items : List ScheduledRequest)
    → map strip (start_all clock k items) ≡ map strip items
unfolding start_all
map-strip-start_all clock k [] = refl
map-strip-start_all clock k (item ∷ items) =
    ap (◌∷◌ (strip item)) (map-strip-start_all clock (suc k) items)

contents-submit :
    (x : Submission) (s : PriorityScheduler)
    → contents (submit x.enqueued x.now x.item s) ≡ contents s ++ (strip x.item ∷ [])
unfolding submit
contents-submit x s = map-append (λ (q : QueuedRequest). strip q.item) s.items _

contents-submit_all :
    (xs : List Submission) (s : PriorityScheduler)
    → contents (submit_all xs s) ≡ contents s ++ map (λ x. strip x.item) xs
unfolding submit_all
contents-submit_all [] s = sym (append-nil (contents s))
contents-submit_all (x ∷ xs) s = cc (
  contents-submit_all xs (submit x.enqueued x.now x.item s),
  contents-submit x s,
  append_assoc (contents s) (strip x.item ∷ []) (map (λ (y : Submission). strip y.item) xs),
)

contents-Selects :
    (now : ℕ) (s s' : PriorityScheduler) (q : QueuedRequest)
    → Selects now s q s'
    → Perm (contents s) (strip q.item ∷ contents s')
contents-Selects now s s' q sel = Perm.map (λ (x : QueuedRequest). strip x.item) sel.kept

cons-kept :
    (q : QueuedRequest) (now : ℕ) (s s' : PriorityScheduler)
    → Selects now s q s'
    → {taken : List ScheduledRequest} (later : List ScheduledRequest)
    → Perm taken (contents s' ++ later)
    → Perm (strip q.item ∷ taken) (contents s ++ later)
cons-kept q now s s' sel later kept =
    Perm.trans (Perm.cons (strip q.item) kept)
      (Perm.append_right later (Perm.symm (contents-Selects now s s' q sel)))

module _ (clock : ℕ → ℕ) (timeout deadline : ℕ) where
  -- How many of the listed waits the loop makes.
  unfoldable pub waits_used : ℕ → List Wait → PriorityScheduler → ℕ
  waits_used zero waits s = 0
  waits_used (suc todo) [] s = 0
  waits_used (suc todo) (w ∷ waits) s = elim (select (clock todo) s) [
    | none ↦
        let woken = waits_used (suc todo) waits (submit_all w.submissions s) in
        if timeout == 0 || leb deadline w.now then 0 else suc woken
    | some (queued, s') ↦ waits_used todo (w ∷ waits) s'
  ]

  take_nil : (todo : ℕ) (s : PriorityScheduler) → take {A = Wait} (waits_used todo [] s) [] ≡ []
  unfolding waits_used
  take_nil zero s = refl
  take_nil (suc todo) s = refl

  collect-kept :
      (todo : ℕ) (waits : List Wait) (s : PriorityScheduler)
      → let (taken, last) = collect clock timeout deadline todo waits s in
        Perm
          (map (λ q. strip q.item) taken ++ contents last)
          (contents s ++ submitted (take (waits_used todo waits s) waits))
        × (length taken ≤ todo)
  unfolding collect waits_used
  collect-kept zero waits s = (rw append-nil Perm.rfl, omega arith)
  collect-kept (suc todo) [] s = elim (select_cases (clock todo) s) [
    | inl (e, nothing) ↦ rw (nothing, collect) (rw append-nil Perm.rfl, omega arith)
    | inr (q, s', sel) ↦
        let (kept, short) = collect-kept todo [] s' in
        rw (sel.selected, collect)
          (cons-kept q (clock todo) s s' sel _ (rw (take_nil todo s') at kept), omega arith)
  ]
  collect-kept (suc todo) (w ∷ waits) s = elim (select_cases (clock todo) s) [
    | inl (e, nothing) ↦
        rw (nothing, collect, waits_used)
          (elim (Bool-cases (timeout == 0 || leb deadline w.now)) [
            | inl over ↦ rw over (rw append-nil Perm.rfl, omega arith)
            | inr waits_on ↦
                let (kept, short) = collect-kept (suc todo) waits (submit_all w.submissions s) in
                rw waits_on (rw (contents-submit_all w.submissions s, append_assoc) at kept, short)
          ])
    | inr (q, s', sel) ↦
        let (kept, short) = collect-kept todo (w ∷ waits) s' in
        rw (sel.selected, collect, waits_used)
          (cons-kept q (clock todo) s s' sel _ kept, omega arith)
  ]

strip-started :
    (clock : ℕ → ℕ) (first : QueuedRequest) (rest : List QueuedRequest)
    → map strip (start_all clock 0 (map (λ q. q.item) (first ∷ rest)))
      ≡ strip first.item ∷ map (λ q. strip q.item) rest
strip-started clock first rest =
    map-strip-start_all clock 0 _ ∙ map-map strip (λ (q : QueuedRequest). q.item) (first ∷ rest)

-- How many waits a batch makes.
unfoldable pub waits_made : (ℕ → ℕ) → List Wait → ℕ → ℕ → ℕ → PriorityScheduler → ℕ
unfolding waits_used
waits_made clock waits now max_batch_size batch_timeout_ms s =
    elim (select (clock max_batch_size) s) [
      | none ↦ 0
      | some (first, s') ↦
          let timeout = batch_timeout_ms * ns_per_ms in
          waits_used clock timeout (now + timeout) (max_batch_size - 1) waits s'
    ]

-- A batch begins when a request waits. Together the batch and the queue it leaves hold each request
-- of the queue and each one submitted during the waits that the batch makes exactly once. The batch
-- holds between one request and the limit, each marked as started.
pub next_batch-perm :
    (clock : ℕ → ℕ) (waits : List Wait) (now : ℕ) (started : ℕ → ℕ)
    (max_batch_size batch_timeout_ms : ℕ) (s : PriorityScheduler)
    → s.items ≢ []
    → (b : Batch) × (s' : PriorityScheduler) × (next_batch clock waits now started max_batch_size
          batch_timeout_ms s
        ≡ some (b, s'))
      × Perm (map strip b.items ++ contents s') (
          contents s
          ++ submitted (take (waits_made clock waits now max_batch_size batch_timeout_ms s) waits))
      × (1 ≤ length b.items)
      × (length b.items ≤ max 1 max_batch_size)
      × All HasStarted b.items
unfolding next_batch waits_made
next_batch-perm clock waits now started max_batch_size batch_timeout_ms s h =
    let (first, s1, sel) = select-least (clock max_batch_size) s h in
    let timeout = batch_timeout_ms * ns_per_ms in
    let todo = max_batch_size - 1 in
    let (rest, last) = collect clock timeout (now + timeout) todo waits s1 in
    let (kept, short) = collect-kept clock timeout (now + timeout) todo waits s1 in
    let chosen = map (λ (q : QueuedRequest). q.item) (first ∷ rest) in
    let items = start_all started 0 chosen in
    let counted = length-start_all started 0 chosen in
    (
      record { items = items; created_at = started (length items) },
      last,
      rw (sel.selected, next_batch),
      rw (strip-started started first rest, sel.selected, waits_made)
          (cons-kept first (clock max_batch_size) s s1 sel _ kept),
      omega (arith, counted, length-map (λ (q : QueuedRequest). q.item) rest),
      omega (arith, counted, length-map (λ (q : QueuedRequest). q.item) rest, short),
      start_all-HasStarted started 0 chosen,
    )
