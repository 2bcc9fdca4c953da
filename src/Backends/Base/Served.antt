-- ===== src/Backends/Base/Served.antt =====
-- backends/base.py: the compatibility mode, seen by one request of the batch.
use llm_serving_runtime.Base.{
  ℕ, zero, suc, ◌≡◌, refl, sym, ap, subst, inl, inr, Bool, true, false, some, List, [], ◌∷◌, ◌++◌,
  map, append-nil, append_assoc, Bool-cases, get_elem?, keep, All,
}
use llm_serving_runtime.Base.Text.{String, str_eq, eq_iff}
use llm_serving_runtime.Core.Request.{RuntimeRequest}
use llm_serving_runtime.Backends.Base.{
  BatchEvent, batch_token, batch_completed, event_id, generate_batch,
}

-- The events for one request, in order.
abbrev pub events_for : String → List BatchEvent → List BatchEvent
events_for id events = keep (λ e. str_eq (event_id e) id) events

-- No id stands twice.
abbrev pub HasDistinctIds : List RuntimeRequest → Type 0
HasDistinctIds [] = Unit
HasDistinctIds (x ∷ xs) = All (λ y. str_eq x.request_id y.request_id ≡ false) xs × HasDistinctIds xs

-- What a request is served on its own: its tokens, then its completion.
abbrev pub served : (RuntimeRequest → List String) → RuntimeRequest → List BatchEvent
served generate r =
    map (batch_token r.request_id) (generate r) ++ (batch_completed r.request_id ∷ [])

pub keep-append {ℓ} :
    {A : Type ℓ} (test : A → Bool) (xs ys : List A)
    → keep test (xs ++ ys) ≡ keep test xs ++ keep test ys
keep-append test [] ys = refl
keep-append test (x ∷ xs) ys = elim (Bool-cases (test x)) [
  | inl e ↦ rw e (ap (◌∷◌ x) (keep-append test xs ys))
  | inr e ↦ rw e (keep-append test xs ys)
]

pub str_eq_refl : (s : String) → str_eq s s ≡ true
str_eq_refl s = (eq_iff s s).1 refl

pub str_eq_sym : (s t : String) → str_eq s t ≡ false → str_eq t s ≡ false
str_eq_sym s t h = elim (Bool-cases (str_eq t s)) [
  | inl e ↦ absurd (let same = (eq_iff t s).0 e in let back = (eq_iff s t).1 (sym same) in cc)
  | inr e ↦ e
]

pub All-get_elem? {ℓ} :
    {A : Type ℓ} (P : A → Type 0) (xs : List A) (k : ℕ) {x : A}
    → get_elem? xs k ≡ some x
    → All P xs
    → P x
All-get_elem? P [] k e h = absurd (cc)
All-get_elem? P (y ∷ xs) zero {x = x} e h = let same : y ≡ x = cc in subst P same h.0
All-get_elem? P (y ∷ xs) (suc k) e h = All-get_elem? P xs k e h.1

module _ (generate : RuntimeRequest → List String) where
  served_other :
      (id : String) (r : RuntimeRequest)
      → str_eq r.request_id id ≡ false
      → events_for id (served generate r) ≡ []
  served_other id r h = go (generate r)
    where
      go :
          (tokens : List String)
          → events_for id
              (map (batch_token r.request_id) tokens ++ (batch_completed r.request_id ∷ []))
            ≡ []
      go [] = rw h refl
      go (t ∷ tokens) = rw h (go tokens)

  served_own :
      (r : RuntimeRequest) → events_for r.request_id (served generate r) ≡ served generate r
  served_own r = go (generate r)
    where
      go :
          (tokens : List String)
          → events_for r.request_id
              (map (batch_token r.request_id) tokens ++ (batch_completed r.request_id ∷ []))
            ≡ map (batch_token r.request_id) tokens ++ (batch_completed r.request_id ∷ [])
      go [] = rw (str_eq_refl r.request_id) refl
      go (t ∷ tokens) =
          rw (str_eq_refl r.request_id) (ap (◌∷◌ (batch_token r.request_id t)) (go tokens))

  generate_batch-cons :
      (r : RuntimeRequest) (requests : List RuntimeRequest)
      → generate_batch generate (r ∷ requests)
        ≡ served generate r ++ generate_batch generate requests
  unfolding generate_batch
  generate_batch-cons r requests =
      sym (append_assoc (map (batch_token r.request_id) (generate r)) _ _)

  generate_batch-nil : generate_batch generate [] ≡ []
  unfolding generate_batch
  generate_batch-nil = refl

  generate_batch_other :
      (id : String) (requests : List RuntimeRequest)
      → All (λ y. str_eq id y.request_id ≡ false) requests
      → events_for id (generate_batch generate requests) ≡ []
  generate_batch_other id [] h = ap (events_for id) generate_batch-nil
  generate_batch_other id (r ∷ requests) h =
      rw
        (
          generate_batch-cons r requests,
          keep-append (λ e. str_eq (event_id e) id) (served generate r)
              (generate_batch generate requests),
          served_other id r (str_eq_sym id r.request_id h.0),
        )
        (generate_batch_other id requests h.1)

  pub generate_batch-served :
      (requests : List RuntimeRequest) (k : ℕ) (r : RuntimeRequest)
      → HasDistinctIds requests
      → get_elem? requests k ≡ some r
      → events_for r.request_id (generate_batch generate requests) ≡ served generate r
  generate_batch-served [] k r d e = absurd (cc)
  generate_batch-served (x ∷ requests) zero r d e =
      let same : x ≡ r = cc in
      subst
        (λ (r : RuntimeRequest).
          events_for r.request_id (generate_batch generate (x ∷ requests)) ≡ served generate r)
        same
        (rw
          (
            generate_batch-cons x requests,
            keep-append (λ e. str_eq (event_id e) x.request_id) (served generate x)
                (generate_batch generate requests),
            served_own x,
            generate_batch_other x.request_id requests d.0,
          )
          (append-nil _))
  generate_batch-served (x ∷ requests) (suc k) r d e =
      rw
        (
          generate_batch-cons x requests,
          keep-append (λ e. str_eq (event_id e) r.request_id) (served generate x)
              (generate_batch generate requests),
          served_other r.request_id x
              (All-get_elem? (λ y. str_eq x.request_id y.request_id ≡ false) requests k e d.0),
        )
        (generate_batch-served requests k r d.1 e)
