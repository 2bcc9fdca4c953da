-- ===== src/Workers/Batch/Totals.antt =====
-- workers/manager.py: the tokens that each request of a batch has at its end.
use llm_serving_runtime.Base.{
  ℕ, suc, ◌≡◌, sym, ap, subst, ◌∙◌, ◌⊎◌, inl, inr, true, false, not, ◌&&◌, List, [], ◌∷◌, map,
  append-nil, Bool-cases, All,
}
use llm_serving_runtime.Base.Text.{String}
use llm_serving_runtime.Core.Response.{item_cancelled, ScheduledRequest}
use llm_serving_runtime.Workers.Batch.{
  Entry, entry_id, Shared, Step, Happening, emits, cancels, Ending, exhausted, raises, deliver,
  cancel_entry, each_pending, try_body, run_batch, complete_pending, fail_pending,
}
use llm_serving_runtime.Workers.Batch.Outcomes.{IsCurrent, deliver-Current, cancel_entry-Current}
use llm_serving_runtime.Workers.Batch.Received.{AreDistinct, IsDue, deliver-IsDue, cancel-IsDue}
use llm_serving_runtime.Workers.Batch.Resolution.{
  Resolves, complete-Resolves, fail-Resolves, try_body-Current, Current-of, open_of,
}

module _ (total : String → List String) where
  -- An entry has its tokens, unless its request was cancelled.
  abbrev pub HasTotal : Entry → Type 0
  HasTotal e = (item_cancelled e.item ≡ true) ⊎ (e.tokens ≡ total (entry_id e))

  IsDue-HasTotal : (entries : List Entry) → All (IsDue total []) entries → All HasTotal entries
  IsDue-HasTotal [] d = tt
  IsDue-HasTotal (e ∷ entries) d = (
    elim d.0 [
      | inl gone ↦ inl gone
      | inr due_ ↦ inr (elim (Bool-cases e.is_pending) [
        | inl p ↦ sym (append-nil e.tokens) ∙ (rw p at due_)
        | inr p ↦ rw p at due_
      ])
    ],
    IsDue-HasTotal entries d.1,
  )

  each_pending-HasTotal :
      (ending : Ending) (f : ℕ → Entry → Shared → Step ScheduledRequest)
      → Resolves ending f
      → (k : ℕ) (entries : List Entry) (sh : Shared) → All IsCurrent entries
      → All HasTotal entries
      → All HasTotal (each_pending f k entries sh).1
  unfolding each_pending
  each_pending-HasTotal ending f g k [] sh c d = tt
  each_pending-HasTotal ending f g k (e ∷ entries) sh c d =
      elim (Bool-cases (e.is_pending && not (item_cancelled e.item))) [
        | inl works ↦
            let open_ = open_of e works in
            let (ok, same, _) = g k e sh (Current-of e c.0 works) open_ in
            rw (works, ok, each_pending)
              (
                elim d.0 [
                  | inl gone ↦ absurd (let h : true ≡ false = sym gone ∙ open_ in cc)
                  | inr all ↦ inr (all ∙ ap total (sym same))
                ],
                each_pending-HasTotal ending f g (suc k) entries (f k e sh).2 c.1 d.1,
              )
        | inr idle ↦
            rw (idle, each_pending)
              (d.0, each_pending-HasTotal ending f g (suc k) entries sh c.1 d.1)
      ]

  try_body-HasTotal :
      (batch_start : ℕ) (happenings : List Happening) (ending : Ending) (entries : List Entry)
      (sh : Shared)
      → AreDistinct (map entry_id entries)
      → All IsCurrent entries
      → All (IsDue total happenings) entries
      → All HasTotal (try_body batch_start happenings ending entries sh).1
  unfolding try_body complete_pending
  try_body-HasTotal batch_start [] (exhausted clock) entries sh distinct c d =
      each_pending-HasTotal (exhausted clock) _
        (complete-Resolves (exhausted clock) clock batch_start) 0 entries sh c
        (IsDue-HasTotal entries d)
  try_body-HasTotal batch_start [] (raises clock m) entries sh distinct c d =
      IsDue-HasTotal entries d
  try_body-HasTotal batch_start (emits now event ∷ rest) ending entries sh distinct c d =
      let (ok, same, current) = deliver-Current now batch_start event entries sh c in
      let (_, entries', sh') = deliver now batch_start event entries sh in
      rw (ok, try_body)
        (try_body-HasTotal batch_start rest ending entries' sh'
          (subst AreDistinct (sym same) distinct) current
          (deliver-IsDue total now batch_start event rest entries sh distinct c d))
  try_body-HasTotal batch_start (cancels id ∷ rest) ending entries sh distinct c d =
      let (same, current) = cancel_entry-Current id entries c in
      try_body-HasTotal batch_start rest ending (cancel_entry id entries) sh
        (subst AreDistinct (sym same) distinct) current (cancel-IsDue total id rest entries d)

  pub run_batch-HasTotal :
      (batch_start : ℕ) (happenings : List Happening) (ending : Ending) (entries : List Entry)
      (sh : Shared)
      → AreDistinct (map entry_id entries)
      → All IsCurrent entries
      → All (IsDue total happenings) entries
      → All HasTotal (run_batch batch_start happenings ending entries sh).1
  unfolding run_batch fail_pending
  run_batch-HasTotal batch_start happenings ending entries sh distinct c d =
      let (_, entries', sh') = try_body batch_start happenings ending entries sh in
      let (_, outcome) = try_body-Current batch_start happenings ending entries sh c in
      let all = try_body-HasTotal batch_start happenings ending entries sh distinct c d in
      elim outcome [
        | inl (ok, _) ↦ rw (ok, run_batch) all
        | inr (m, failed, from_backend, current) ↦
            rw (failed, run_batch)
              (each_pending-HasTotal ending _ (fail-Resolves ending _ m from_backend) 0 entries' sh'
                current all)
      ]
