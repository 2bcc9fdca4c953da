-- ===== src/Workers/Batch/Received.antt =====
-- workers/manager.py: the tokens that a batch collects for each of its requests, beside the events
-- that the backend emits.
use llm_serving_runtime.Base.{
  ℕ, ◌≡◌, sym, ap, subst, ◌∙◌, ◌⊎◌, inl, inr, true, false, List, [], ◌∷◌, ◌++◌, map, append-nil,
  append_assoc, arith, if◌then◌else◌, Bool-cases, All,
}
use llm_serving_runtime.Base.Text.{String, str_eq, eq_iff}
use llm_serving_runtime.Core.Response.{
  item_cancelled, handle_cancelled, cancel, ResponseHandle, completion, streaming,
}
use llm_serving_runtime.Backends.Base.{BatchEvent, batch_token, batch_completed, event_id}
use llm_serving_runtime.Workers.Batch.{
  Entry, entry_id, Shared, Happening, emits, cancels, on_event, on_entry, deliver, cancel_entry,
}
use llm_serving_runtime.Workers.Batch.Outcomes.{
  Current, IsCurrent, complete_item-Current, on_entry_settled, on_entry_gone, on_entry_open,
}

-- The tokens that the backend emits for an id, in order, up to the first completion of that id.
abbrev pub tokens_for : String → List Happening → List String
tokens_for id [] = []
tokens_for id (emits now (batch_token x token) ∷ rest) =
    if str_eq id x then token ∷ tokens_for id rest else tokens_for id rest
tokens_for id (emits now (batch_completed x) ∷ rest) =
    if str_eq id x then [] else tokens_for id rest
tokens_for id (cancels x ∷ rest) = tokens_for id rest

-- No id stands twice.
abbrev pub AreDistinct : List String → Type 0
AreDistinct [] = Unit
AreDistinct (x ∷ xs) = All (λ y. str_eq x y ≡ false) xs × AreDistinct xs

-- What an entry will have collected after some happenings, unless its request is cancelled.
abbrev pub due : List Happening → Entry → List String
due happenings e = if e.is_pending then e.tokens ++ tokens_for (entry_id e) happenings else e.tokens

abbrev pub IsDue : (String → List String) → List Happening → Entry → Type 0
IsDue total happenings e = (item_cancelled e.item ≡ true) ⊎ (due happenings e ≡ total (entry_id e))

str_eq_sym : (x y : String) → str_eq x y ≡ false → str_eq y x ≡ false
str_eq_sym x y other = elim (Bool-cases (str_eq y x)) [
  | inl same ↦
      absurd (let f : true ≡ false = sym ((eq_iff x y).1 (sym ((eq_iff y x).0 same))) ∙ other in cc)
  | inr e ↦ e
]

cancel_stays :
    (h : ResponseHandle) → handle_cancelled h ≡ true → handle_cancelled (cancel h).1 ≡ true
unfolding cancel
cancel_stays (completion h) gone = ground arith
cancel_stays (streaming h) gone = ground arith

module _ (total : String → List String) where
  on_event-IsDue :
      (now batch_start : ℕ) (event : BatchEvent) (rest : List Happening) (e : Entry) (sh : Shared)
      → str_eq (entry_id e) (event_id event) ≡ true
      → e.is_pending ≡ true
      → item_cancelled e.item ≡ false
      → IsCurrent e
      → due (emits now event ∷ rest) e ≡ total (entry_id e)
      → due rest (on_event now batch_start event e sh).1
        ≡ total (entry_id (on_event now batch_start event e sh).1)
  unfolding on_event
  on_event-IsDue now batch_start (batch_token id token) rest e sh here p open_ c d =
      rw p (append_assoc e.tokens (token ∷ []) (tokens_for (entry_id e) rest) ∙ (rw (p, here) at d))
  on_event-IsDue now batch_start (batch_completed id) rest e sh here p open_ c d =
      let (ok, same, _) =
        complete_item-Current now batch_start e.tokens e.item sh
          (subst (λ b. Current b (entry_id e) e.tokens e.item.handle) p c) open_ in
      rw (ok, on_event) (sym (append-nil e.tokens) ∙ (rw (p, here) at d) ∙ ap total (sym same))

  on_entry-IsDue :
      (now batch_start : ℕ) (event : BatchEvent) (rest : List Happening) (e : Entry) (sh : Shared)
      → str_eq (entry_id e) (event_id event) ≡ true
      → IsCurrent e
      → IsDue total (emits now event ∷ rest) e
      → IsDue total rest (on_entry now batch_start event e sh).1
  on_entry-IsDue now batch_start event rest e sh here c d = elim (Bool-cases e.is_pending) [
    | inl p ↦ elim (Bool-cases (item_cancelled e.item)) [
      | inl gone ↦ rw (on_entry_gone now batch_start event e sh p gone) (inl gone)
      | inr open_ ↦ elim d [
        | inl gone ↦ absurd (let f : true ≡ false = sym gone ∙ open_ in cc)
        | inr due_ ↦
            rw (on_entry_open now batch_start event e sh p open_)
              (inr (on_event-IsDue now batch_start event rest e sh here p open_ c due_))
      ]
    ]
    | inr settled ↦
        rw (on_entry_settled now batch_start event e sh settled)
          (elim d [ inl gone ↦ inl gone | inr due_ ↦ inr (rw settled (rw settled at due_)) ])
  ]

  IsDue-other :
      (now : ℕ) (event : BatchEvent) (rest : List Happening) (e : Entry)
      → str_eq (entry_id e) (event_id event) ≡ false
      → IsDue total (emits now event ∷ rest) e
      → IsDue total rest e
  IsDue-other now event rest e other (inl gone) = inl gone
  IsDue-other now (batch_token id token) rest e other (inr d) = inr (rw other at d)
  IsDue-other now (batch_completed id) rest e other (inr d) = inr (rw other at d)

  others-IsDue :
      (now : ℕ) (event : BatchEvent) (rest : List Happening) (e : Entry) (entries : List Entry)
      → str_eq (entry_id e) (event_id event) ≡ true
      → All (λ y. str_eq (entry_id e) y ≡ false) (map entry_id entries)
      → All (IsDue total (emits now event ∷ rest)) entries
      → All (IsDue total rest) entries
  others-IsDue now event rest e [] here distinct d = tt
  others-IsDue now event rest e (y ∷ entries) here distinct d = (
    IsDue-other now event rest y
        (subst (λ x. str_eq (entry_id y) x ≡ false) ((eq_iff (entry_id e) (event_id event)).0 here)
          (str_eq_sym (entry_id e) (entry_id y) distinct.0))
        d.0,
    others-IsDue now event rest e entries here distinct.1 d.1,
  )

  pub deliver-IsDue :
      (now batch_start : ℕ) (event : BatchEvent) (rest : List Happening) (entries : List Entry)
      (sh : Shared)
      → AreDistinct (map entry_id entries)
      → All IsCurrent entries
      → All (IsDue total (emits now event ∷ rest)) entries
      → All (IsDue total rest) (deliver now batch_start event entries sh).1
  unfolding deliver
  deliver-IsDue now batch_start event rest [] sh distinct c d = tt
  deliver-IsDue now batch_start event rest (e ∷ entries) sh distinct c d =
      elim (Bool-cases (str_eq (entry_id e) (event_id event))) [
        | inl here ↦ rw here (
          on_entry-IsDue now batch_start event rest e sh here c.0 d.0,
          others-IsDue now event rest e entries here distinct.0 d.1,
        )
        | inr later ↦ rw later (
          IsDue-other now event rest e later d.0,
          deliver-IsDue now batch_start event rest entries sh distinct.1 c.1 d.1,
        )
      ]

  pub cancel-IsDue :
      (id : String) (rest : List Happening) (entries : List Entry)
      → All (IsDue total (cancels id ∷ rest)) entries
      → All (IsDue total rest) (cancel_entry id entries)
  unfolding cancel_entry
  cancel-IsDue id rest [] d = tt
  cancel-IsDue id rest (e ∷ entries) d = elim (Bool-cases (str_eq (entry_id e) id)) [
    | inl here ↦
        rw here
          (elim d.0 [ inl gone ↦ inl (cancel_stays e.item.handle gone) | inr due_ ↦ inr due_ ], d.1)
    | inr later ↦ rw later (d.0, cancel-IsDue id rest entries d.1)
  ]
