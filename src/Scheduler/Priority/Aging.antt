-- ===== src/Scheduler/Priority/Aging.antt =====
-- scheduler/priority.py: which entry may overtake which, and how aging ends the wait of each.
use mathlib.Core.Logic.Or
use mathlib.Core.List.{
  Mem, Mem-prop, mem-cons_self, mem-cons, mem-append, mem-append_left, not-mem-nil, mem-cons_of_mem,
}
use mathlib.Core.List.Perm
use native.Mathlib.Bridge.{le_prop}
use native.Mathlib.Nat.{le-div_iff_mul-le, le_trans, div-mul-le_self}
use llm_serving_runtime.Base.{
  ℕ, suc, ◌+◌, ◌-◌, ◌*◌, ◌/◌, ◌≤◌, ◌<◌, ◌≡◌, refl, sym, subst, ◌∙◌, none, some, List, [], ◌∷◌,
  arith, leb, if◌then◌else◌, All, count_p, count_p-append, count_p-perm,
}
use llm_serving_runtime.Core.Response.{ScheduledRequest}
use llm_serving_runtime.Scheduler.Priority.{
  QueuedRequest, PriorityScheduler, Submission, effective_priority, select, submit,
}
use llm_serving_runtime.Scheduler.Priority.Select.{KeyLe, Selects, select-least, select-Selects}

All-mem {ℓ} :
    {A : Type ℓ} {P : A → Type 0} (prop : (a : A) → IsProp (P a)) (a : A) (xs : List A)
    → All P xs
    → Mem a xs
    → P a
All-mem prop a [] h m = absurd (not-mem-nil m)
All-mem {P = P} prop a (x ∷ xs) h m =
    Or.elim (prop a) (mem-cons.0 m) (λ e. subst P (sym e) h.0) (All-mem prop a xs h.1)

-- The popped entry stands before each entry of the queue.
least_of :
    (now : ℕ) (s s' : PriorityScheduler) (q r : QueuedRequest)
    → Selects now s q s'
    → Mem r s.items
    → KeyLe s.aging_boost_interval_s now q r
least_of now s s' q r sel m =
    All-mem {P = KeyLe s.aging_boost_interval_s now q} (λ a. hlevel le_prop) r s.items sel.least m

div_mono : (a b n : ℕ) → a ≤ b → 0 < n → a / n ≤ b / n
div_mono a b n h pos = (le-div_iff_mul-le pos).1 (le_trans (div-mul-le_self a n) h)

effective_priority_mono :
    (interval now : ℕ) (r q : QueuedRequest)
    → r.priority ≤ q.priority
    → r.queued_at ≤ q.queued_at
    → effective_priority interval r now ≤ effective_priority interval q now
unfolding effective_priority
effective_priority_mono interval now r q urgent early =
    ground (arith, div_mono (now - q.queued_at) (now - r.queued_at) interval)

-- If a pop takes one entry while another one waits, whose priority is the same or more urgent and
-- which was queued no later, then the taken one was submitted first, or is that entry: with or
-- without aging, such an entry is not overtaken.
pub select-no_overtaking :
    (now : ℕ) (s s' : PriorityScheduler) (q r : QueuedRequest)
    → select now s ≡ some (q, s')
    → Mem r s.items
    → r.priority ≤ q.priority
    → r.queued_at ≤ q.queued_at
    → q.sequence ≤ r.sequence
select-no_overtaking now s s' q r taken m urgent early =
    let sel = select-Selects now s s' q taken in
    let (first, tie) = least_of now s s' q r sel m in
    let mono = effective_priority_mono s.aging_boost_interval_s now r q urgent early in
    tie (omega arith)

-- The entry has waited long enough for its priority to reach 0.
pub record IsAged (interval now : ℕ) (r : QueuedRequest) : Type 0 where
  pub ages : 0 < interval
  pub waited : r.priority * interval ≤ now - r.queued_at

aged-effective_priority :
    (interval now : ℕ) (r : QueuedRequest)
    → IsAged interval now r
    → effective_priority interval r now ≡ 0
unfolding effective_priority
aged-effective_priority interval now r a = ground (
  arith,
  (le-div_iff_mul-le {k = interval} {x = r.priority} {y = now - r.queued_at} a.ages).1 a.waited,
)

-- Once it has, no entry submitted later passes it.
aged_first :
    (now : ℕ) (s s' : PriorityScheduler) (q r : QueuedRequest)
    → Selects now s q s'
    → Mem r s.items
    → IsAged s.aging_boost_interval_s now r
    → q.sequence ≤ r.sequence
aged_first now s s' q r sel m a =
    ground
      (arith, least_of now s s' q r sel m, aged-effective_priority s.aging_boost_interval_s now r a)

-- What happens to the queue: a submission, or a pop at a reading of the clock.
pub data Op : Type 0 where
  submits : Submission → Op
  pops : (now : ℕ) → Op

-- The entries that the pops of a history take, in turn, and the queue after it. A pop of an empty
-- queue waits.
unfoldable pub run : List Op → PriorityScheduler → List QueuedRequest × PriorityScheduler
run [] s = ([], s)
run (submits x ∷ ops) s = run ops (submit x.enqueued x.now x.item s)
run (pops now ∷ ops) s = elim (select now s) [
  | none ↦ run ops s
  | some (q, s') ↦ let (taken, last) = run ops s' in (q ∷ taken, last)
]

abbrev pub count_pops : List Op → ℕ
count_pops [] = 0
count_pops (submits x ∷ ops) = count_pops ops
count_pops (pops now ∷ ops) = suc (count_pops ops)

-- At each pop of the history the entry has aged.
abbrev pub AgedThroughout : ℕ → QueuedRequest → List Op → Type 0
AgedThroughout interval r [] = Unit
AgedThroughout interval r (submits x ∷ ops) = AgedThroughout interval r ops
AgedThroughout interval r (pops now ∷ ops) = IsAged interval now r × AgedThroughout interval r ops

-- The sequence numbers in use are at most the counter.
abbrev pub IsNumbered : PriorityScheduler → Type 0
IsNumbered s = (q : QueuedRequest) → Mem q s.items → q.sequence ≤ s.counter

submit-IsNumbered :
    (enqueued now : ℕ) (item : ScheduledRequest) (s : PriorityScheduler)
    → IsNumbered s
    → IsNumbered (submit enqueued now item s)
unfolding submit
submit-IsNumbered enqueued now item s h q m =
    Or.elim le_prop (mem-append.0 m) (λ (old : Mem q s.items). omega (arith, h q old))
      (λ last.
        Or.elim le_prop (mem-cons.0 last) (λ e. rw e (omega arith)) (λ n. absurd (not-mem-nil n)))

Selects-IsNumbered :
    (now : ℕ) (s s' : PriorityScheduler) (q : QueuedRequest)
    → Selects now s q s'
    → IsNumbered s
    → IsNumbered s'
Selects-IsNumbered now s s' q sel h r m =
    rw sel.same_counter (h r (Perm.subset (Perm.symm sel.kept) r (mem-cons_of_mem q m)))

-- The entries that may still be popped before `r`, and `r` itself.
abbrev pub ahead : QueuedRequest → PriorityScheduler → ℕ
ahead r s = count_p (λ x. leb x.sequence r.sequence) s.items

submit-mem :
    (x : Submission) (s : PriorityScheduler) (r : QueuedRequest)
    → Mem r s.items
    → Mem r (submit x.enqueued x.now x.item s).items
unfolding submit
submit-mem x s r m = mem-append_left _ m

submit-interval :
    (x : Submission) (s : PriorityScheduler)
    → (submit x.enqueued x.now x.item s).aging_boost_interval_s ≡ s.aging_boost_interval_s
unfolding submit
submit-interval x s = refl

submit-ahead :
    (x : Submission) (s : PriorityScheduler) (r : QueuedRequest)
    → r.sequence ≤ s.counter
    → ahead r (submit x.enqueued x.now x.item s) ≡ ahead r s
unfolding submit
submit-ahead x s r h = count_p-append (λ y. leb y.sequence r.sequence) s.items _ ∙ ground arith

Selects-ahead :
    (now : ℕ) (s s' : PriorityScheduler) (q r : QueuedRequest)
    → Selects now s q s'
    → ahead r s ≡ (if leb q.sequence r.sequence then 1 else 0) + ahead r s'
Selects-ahead now s s' q r sel =
    count_p-perm (λ x. leb x.sequence r.sequence) s.items (q ∷ s'.items) sel.kept

count_p_pos :
    (r : QueuedRequest) (xs : List QueuedRequest)
    → Mem r xs
    → 1 ≤ count_p (λ x. leb x.sequence r.sequence) xs
count_p_pos r [] m = absurd (not-mem-nil m)
count_p_pos r (x ∷ xs) m =
    Or.elim le_prop (mem-cons.0 m) (λ e. ground arith) (λ n. omega (arith, count_p_pos r xs n))

-- With aging no entry starves. Take an entry that at each pop of a history has waited for an
-- interval per level of its priority, on a queue whose sequence numbers are at most the counter. If
-- the history has as many pops as entries with at most its sequence number wait, one of the pops
-- takes it, whatever is submitted in between.
pub run-serves_aged :
    (ops : List Op) (s : PriorityScheduler) (r : QueuedRequest)
    → IsNumbered s
    → Mem r s.items
    → AgedThroughout s.aging_boost_interval_s r ops
    → ahead r s ≤ count_pops ops
    → Mem r (run ops s).0
unfolding run
run-serves_aged [] s r numbered m aged enough = absurd (omega (arith, count_p_pos r s.items m))
run-serves_aged (submits x ∷ ops) s r numbered m aged enough =
    run-serves_aged ops (submit x.enqueued x.now x.item s) r
      (submit-IsNumbered x.enqueued x.now x.item s numbered) (submit-mem x s r m)
      (rw (submit-interval x s) aged) (omega (arith, submit-ahead x s r (numbered r m)))
run-serves_aged (pops now ∷ ops) s r numbered m aged enough =
    let (q, s', sel) = select-least now s (λ e. not-mem-nil (subst (Mem r) e m)) in
    rw (sel.selected, run)
      (Or.elim Mem-prop (mem-cons.0 (Perm.subset sel.kept r m))
        (λ e. subst (λ x. Mem x (q ∷ (run ops s').0)) (sym e) mem-cons_self)
        (λ rest. mem-cons_of_mem q (
          run-serves_aged ops s' r (Selects-IsNumbered now s s' q sel numbered) rest
            (rw sel.same_interval aged.1)
            (ground
              (arith, aged_first now s s' q r sel m aged.0, Selects-ahead now s s' q r sel)))))
