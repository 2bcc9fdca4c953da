-- ===== src/Workers/Batch/Counted.antt =====
-- workers/manager.py: what a batch without cancellations counts.
use llm_serving_runtime.Base.{
  ℕ, suc, ◌+◌, ◌≡◌, refl, ap, subst, ◌∙◌, inl, inr, true, false, not, ◌&&◌, none, List, [], ◌∷◌,
  arith, Bool-cases, length, All, count_p,
}
use llm_serving_runtime.Base.Text.{String, str_eq}
use llm_serving_runtime.Core.Response.{
  ScheduledRequest, ResponseHandle, completion, streaming, item_cancelled, handle_cancelled,
}
use llm_serving_runtime.Metrics.Collector.{record_failure}
use llm_serving_runtime.Metrics.Collector.Accounts.{
  counters-record_success, counters-record_failure,
}
use llm_serving_runtime.Backends.Base.{BatchEvent, batch_token, batch_completed, event_id}
use llm_serving_runtime.Workers.Batch.{
  Entry, entry_id, Shared, Step, Ending, exhausted, raises, complete_handle, complete_item,
  fail_handle, fail_item, count_failure, count_success, put_token, on_event, on_entry, deliver,
  each_pending, complete_pending, fail_pending, try_body, run_batch,
}
use llm_serving_runtime.Workers.Batch.Outcomes.{
  Current, IsCurrent, complete_item-Current, on_entry_settled, on_entry_open,
}

-- The requests that were counted as completed or failed.
abbrev pub settled : Shared → ℕ
settled sh = sh.metrics.completed_count + sh.metrics.failed_count

abbrev pub IsOpenEntry : Entry → Type 0
IsOpenEntry e = item_cancelled e.item ≡ false

-- The requests of a batch that have no outcome yet.
abbrev pub unsettled : List Entry → ℕ
unsettled = count_p (λ e. e.is_pending)

settled-count_success :
    (now batch_start : ℕ) (tokens : List String) (item : ScheduledRequest) (sh : Shared)
    → settled (count_success now batch_start tokens item sh) ≡ suc (settled sh)
unfolding count_success
settled-count_success now batch_start tokens item sh =
    let e = counters-record_success item.request (length tokens) sh.metrics in
    omega (arith, ap (λ c. c.completed) e, ap (λ c. c.failed) e)

complete_handle-settled :
    (now batch_start : ℕ) (tokens : List String) (item : ScheduledRequest) (sh : Shared)
    (h : ResponseHandle)
    → Current true item.request.request_id tokens h
    → handle_cancelled h ≡ false
    → let (_, item', sh') = complete_handle h now batch_start tokens item sh in
      (item_cancelled item' ≡ false) × (settled sh' ≡ suc (settled sh))
unfolding complete_handle
complete_handle-settled now batch_start tokens item sh (completion h) c open_ =
    rw (c open_) (open_, settled-count_success now batch_start tokens item sh)
complete_handle-settled now batch_start tokens item sh (streaming h) c open_ =
    rw open_ (refl, settled-count_success now batch_start tokens item sh)

complete_item-settled :
    (now batch_start : ℕ) (tokens : List String) (item : ScheduledRequest) (sh : Shared)
    → Current true item.request.request_id tokens item.handle
    → item_cancelled item ≡ false
    → let (_, item', sh') = complete_item now batch_start tokens item sh in
      (item_cancelled item' ≡ false) × (settled sh' ≡ suc (settled sh))
unfolding complete_item
complete_item-settled now batch_start tokens item sh c open_ =
    rw open_ (complete_handle-settled now batch_start tokens _ sh item.handle c open_)

fail_handle-settled :
    (exc : String) (item : ScheduledRequest) (sh : Shared) (h : ResponseHandle)
    → settled (fail_handle h exc item sh).2 ≡ settled sh
unfolding fail_handle
fail_handle-settled exc item sh (completion h) = ground arith
fail_handle-settled exc item sh (streaming h) = refl

fail_item-settled :
    (now : ℕ) (exc : String) (item : ScheduledRequest) (sh : Shared)
    → item_cancelled item ≡ false
    → settled (fail_item now exc item sh).2 ≡ suc (settled sh)
unfolding fail_item count_failure
fail_item-settled now exc item sh open_ =
    let e = counters-record_failure now item.request sh.metrics in
    rw open_ (
      fail_handle-settled exc (count_failure now exc item sh).0 (count_failure now exc item sh).1
        item.handle
      ∙ omega (arith, ap (λ c. c.completed) e, ap (λ c. c.failed) e))

put_token-cancelled :
    (token : String) (h : ResponseHandle)
    → handle_cancelled (put_token token h) ≡ handle_cancelled h
put_token-cancelled token (completion h) = refl
put_token-cancelled token (streaming h) = refl

Current-pending :
    (e : Entry)
    → e.is_pending ≡ true
    → IsCurrent e
    → Current true (entry_id e) e.tokens e.item.handle
Current-pending e p c = subst (λ b. Current b (entry_id e) e.tokens e.item.handle) p c

-- A step on open entries leaves them open, and counts as many as it settles.
abbrev Counts : List Entry → Shared → List Entry → Shared → Type 0
Counts before sh after sh' =
    All IsOpenEntry after × (settled sh' + unsettled after ≡ settled sh + unsettled before)

on_event-Counts :
    (now batch_start : ℕ) (event : BatchEvent) (e : Entry) (sh : Shared)
    → e.is_pending ≡ true
    → IsOpenEntry e
    → IsCurrent e
    → let (_, e', sh') = on_event now batch_start event e sh in Counts (e ∷ []) sh (e' ∷ []) sh'
unfolding on_event
on_event-Counts now batch_start (batch_token id token) e sh p open_ c =
    ((put_token-cancelled token e.item.handle ∙ open_, tt), refl)
on_event-Counts now batch_start (batch_completed id) e sh p open_ c =
    let current = Current-pending e p c in
    let (ok, _, _) = complete_item-Current now batch_start e.tokens e.item sh current open_ in
    let (open', counted) = complete_item-settled now batch_start e.tokens e.item sh current open_ in
    rw (ok, on_event) ((open', tt), rw p (omega (arith, counted)))

on_entry-Counts :
    (now batch_start : ℕ) (event : BatchEvent) (e : Entry) (sh : Shared)
    → IsOpenEntry e
    → IsCurrent e
    → let (_, e', sh') = on_entry now batch_start event e sh in Counts (e ∷ []) sh (e' ∷ []) sh'
on_entry-Counts now batch_start event e sh open_ c = elim (Bool-cases e.is_pending) [
  | inl p ↦
      rw (on_entry_open now batch_start event e sh p open_)
        (on_event-Counts now batch_start event e sh p open_ c)
  | inr done ↦ rw (on_entry_settled now batch_start event e sh done) ((open_, tt), refl)
]

pub deliver-Counts :
    (now batch_start : ℕ) (event : BatchEvent) (entries : List Entry) (sh : Shared)
    → All IsOpenEntry entries
    → All IsCurrent entries
    → let (_, entries', sh') = deliver now batch_start event entries sh in
      Counts entries sh entries' sh'
unfolding deliver
deliver-Counts now batch_start event [] sh o c = (tt, refl)
deliver-Counts now batch_start event (e ∷ entries) sh o c =
    let (opened, counted) = on_entry-Counts now batch_start event e sh o.0 c.0 in
    let (opened', counted') = deliver-Counts now batch_start event entries sh o.1 c.1 in
    elim (Bool-cases (str_eq (entry_id e) (event_id event))) [
      | inl at ↦ rw at ((opened.0, o.1), omega (arith, counted))
      | inr later ↦ rw later ((o.0, opened'), omega (arith, counted'))
    ]

-- What a final loop does for an entry that it works on.
abbrev pub CountsOne : (ℕ → Entry → Shared → Step ScheduledRequest) → Type 0
CountsOne f =
    (k : ℕ) (e : Entry) (sh : Shared)
    → Current true (entry_id e) e.tokens e.item.handle
    → IsOpenEntry e
    → ((f k e sh).0 ≡ none) × (settled (f k e sh).2 ≡ suc (settled sh))

-- It counts each entry that has no outcome.
each_pending-settled :
    (f : ℕ → Entry → Shared → Step ScheduledRequest)
    → CountsOne f
    → (k : ℕ) (entries : List Entry) (sh : Shared) → All IsOpenEntry entries
    → All IsCurrent entries
    → ((each_pending f k entries sh).0 ≡ none)
      × (settled (each_pending f k entries sh).2 ≡ settled sh + unsettled entries)
unfolding each_pending
each_pending-settled f g k [] sh o c = (refl, omega arith)
each_pending-settled f g k (e ∷ entries) sh o c =
    elim (Bool-cases (e.is_pending && not (item_cancelled e.item))) [
      | inl works ↦
          let p : e.is_pending ≡ true = ground arith in
          let one : unsettled (e ∷ entries) ≡ suc (unsettled entries) = rw p (omega arith) in
          let (ok, counted) = g k e sh (Current-pending e p c.0) o.0 in
          let (fine, rest) = each_pending-settled f g (suc k) entries (f k e sh).2 o.1 c.1 in
          rw (works, ok, each_pending) (fine, omega (arith, rest, counted, one))
      | inr idle ↦
          let p : e.is_pending ≡ false = ground (arith, o.0) in
          let same : unsettled (e ∷ entries) ≡ unsettled entries = rw p (omega arith) in
          let (fine, rest) = each_pending-settled f g (suc k) entries sh o.1 c.1 in
          rw (idle, each_pending) (fine, omega (arith, rest, same))
    ]

pub complete-CountsOne :
    (clock : ℕ → ℕ) (batch_start : ℕ)
    → CountsOne (λ k e sh. complete_item (clock k) batch_start e.tokens e.item sh)
complete-CountsOne clock batch_start k e sh c open_ = (
  (complete_item-Current (clock k) batch_start e.tokens e.item sh c open_).0,
  (complete_item-settled (clock k) batch_start e.tokens e.item sh c open_).1,
)

fail_handle-ok :
    (exc : String) (item : ScheduledRequest) (sh : Shared) (tokens : List String)
    (h : ResponseHandle)
    → Current true item.request.request_id tokens h
    → handle_cancelled h ≡ false
    → (fail_handle h exc item sh).0 ≡ none
unfolding fail_handle
fail_handle-ok exc item sh tokens (completion h) c open_ = rw (c open_) refl
fail_handle-ok exc item sh tokens (streaming h) c open_ = refl

pub fail-CountsOne :
    (clock : ℕ → ℕ) (exc : String) → CountsOne (λ k e sh. fail_item (clock k) exc e.item sh)
unfolding fail_item count_failure record_failure
fail-CountsOne clock exc k e sh c open_ = (
  rw open_ (
      fail_handle-ok exc (count_failure (clock k) exc e.item sh).0
        (count_failure (clock k) exc e.item sh).1 e.tokens e.item.handle c open_),
  fail_item-settled (clock k) exc e.item sh open_,
)

-- The end of a batch counts each of its requests that has no outcome.
pub run_batch-settled :
    (batch_start : ℕ) (ending : Ending) (entries : List Entry) (sh : Shared)
    → All IsOpenEntry entries
    → All IsCurrent entries
    → settled (run_batch batch_start [] ending entries sh).2 ≡ settled sh + unsettled entries
unfolding run_batch try_body complete_pending fail_pending
run_batch-settled batch_start (exhausted clock) entries sh o c =
    let (fine, counted) =
      each_pending-settled (λ k e sh. complete_item (clock k) batch_start e.tokens e.item sh)
        (complete-CountsOne clock batch_start) 0 entries sh o c in
    rw (fine, run_batch) counted
run_batch-settled batch_start (raises clock message) entries sh o c =
    (each_pending-settled (λ k e sh. fail_item (clock (length entries + k)) message e.item sh)
      (fail-CountsOne (λ k. clock (length entries + k)) message) 0 entries sh o c).1
