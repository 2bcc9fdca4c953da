-- ===== src/Workers/Loop/Waiting.antt =====
-- workers/manager.py: the requests that wait for the worker, and what a cancellation keeps.
use llm_serving_runtime.Base.{
  ◌≡◌, refl, ap, ◌∙◌, ◌⊎◌, inl, inr, Bool, true, false, not, ◌||◌, List, [], ◌∷◌, ◌++◌, map, arith,
  Bool-cases, keep, All,
}
use mathlib.Core.Path.{ap₂}
use llm_serving_runtime.Base.Text.{String, str_eq}
use llm_serving_runtime.Core.Response.{
  ScheduledRequest, ResponseHandle, completion, streaming, cancel, cancel_completion,
  cancel_streaming, item_cancelled, handle_cancelled,
}
use llm_serving_runtime.Scheduler.Batching.{identity}
use llm_serving_runtime.Workers.Batch.Contract.{item_id, IsFresh, IsDistinct, active}
use llm_serving_runtime.Workers.Loop.{cancel_if, cancel_ids}

-- Nothing was delivered to the request yet, or it was cancelled.
abbrev pub IsWaiting : ScheduledRequest → Type 0
IsWaiting item = IsFresh item.handle ⊎ (item_cancelled item ≡ true)

-- No text stands twice.
abbrev pub IsDistinctIds : List String → Type 0
IsDistinctIds [] = Unit
IsDistinctIds (x ∷ xs) = All (λ y. str_eq x y ≡ false) xs × IsDistinctIds xs

module _ {A B : Type 0} (f : A → B) (P : B → Type 0) where
  pub All-map : (xs : List A) → All (λ x. P (f x)) xs → All P (map f xs)
  All-map [] h = tt
  All-map (x ∷ xs) h = (h.0, All-map xs h.1)

  pub All-unmap : (xs : List A) → All P (map f xs) → All (λ x. P (f x)) xs
  All-unmap [] h = tt
  All-unmap (x ∷ xs) h = (h.0, All-unmap xs h.1)

pub All-split {ℓ} :
    {A : Type ℓ} (P : A → Type 0) (xs ys : List A) → All P (xs ++ ys) → All P xs × All P ys
All-split P [] ys h = (tt, h)
All-split P (x ∷ xs) ys h = let (left, right) = All-split P xs ys h.1 in ((h.0, left), right)

pub IsDistinctIds-split :
    (xs ys : List String) → IsDistinctIds (xs ++ ys) → IsDistinctIds xs × IsDistinctIds ys
IsDistinctIds-split [] ys h = (tt, h)
IsDistinctIds-split (x ∷ xs) ys h =
    let (left, right) = IsDistinctIds-split xs ys h.1 in
    (((All-split (λ y. str_eq x y ≡ false) xs ys h.0).0, left), right)

All-keep :
    {A : Type 0} (P : A → Type 0) (test : A → Bool) (xs : List A) → All P xs → All P (keep test xs)
All-keep P test [] h = tt
All-keep P test (x ∷ xs) h = elim (Bool-cases (test x)) [
  | inl e ↦ rw e (h.0, All-keep P test xs h.1)
  | inr e ↦ rw e (All-keep P test xs h.1)
]

-- The requests that a batch works on have different ids if all of its requests do.
pub active-IsDistinct :
    (items : List ScheduledRequest) → IsDistinctIds (map item_id items) → IsDistinct (active items)
active-IsDistinct [] h = tt
active-IsDistinct (x ∷ items) h = elim (Bool-cases (item_cancelled x)) [
  | inl gone ↦ rw gone (active-IsDistinct items h.1)
  | inr open_ ↦ rw open_ (
    All-keep (λ y. str_eq (item_id x) (item_id y) ≡ false) (λ item. not (item_cancelled item)) items
        (All-unmap item_id (λ y. str_eq (item_id x) y ≡ false) items h.0),
    active-IsDistinct items h.1,
  )
]

IsWaiting-IsFresh :
    (item : ScheduledRequest) → item_cancelled item ≡ false → IsWaiting item → IsFresh item.handle
IsWaiting-IsFresh item open_ (inl f) = f
IsWaiting-IsFresh item open_ (inr gone) = absurd (cc (open_, gone))

-- They are fresh if all of its requests were waiting.
pub active-IsFresh :
    (items : List ScheduledRequest)
    → All IsWaiting items
    → All (λ i. IsFresh i.handle) (active items)
active-IsFresh [] h = tt
active-IsFresh (x ∷ items) h = elim (Bool-cases (item_cancelled x)) [
  | inl gone ↦ rw gone (active-IsFresh items h.1)
  | inr open_ ↦ rw open_ (IsWaiting-IsFresh x open_ h.0, active-IsFresh items h.1)
]

cancel-IsFresh :
    (h : ResponseHandle) → IsFresh h → IsFresh (cancel h).1 ⊎ (handle_cancelled (cancel h).1 ≡ true)
unfolding cancel cancel_completion cancel_streaming
cancel-IsFresh (completion h) f = elim (Bool-cases h.cancelled) [
  | inl gone ↦ rw gone (inl f)
  | inr open_ ↦ rw open_ (inr refl)
]
cancel-IsFresh (streaming h) f = elim (Bool-cases (h.cancelled || h.completed)) [
  | inl gone ↦ rw gone (inl f)
  | inr open_ ↦ rw open_ (inr refl)
]

cancel-cancelled :
    (h : ResponseHandle) → handle_cancelled h ≡ true → handle_cancelled (cancel h).1 ≡ true
unfolding cancel cancel_completion cancel_streaming
cancel-cancelled (completion h) c = ground arith
cancel-cancelled (streaming h) c = ground arith

pub cancel_if-IsWaiting :
    (x : String) (item : ScheduledRequest) → IsWaiting item → IsWaiting (cancel_if x item)
cancel_if-IsWaiting x item w = elim (Bool-cases (str_eq (item_id item) x)) [
  | inl same ↦ rw same (elim w [
    | inl f ↦ cancel-IsFresh item.handle f
    | inr gone ↦ inr (cancel-cancelled item.handle gone)
  ])
  | inr other ↦ rw other w
]

pub cancel_if-item_id :
    (x : String) (item : ScheduledRequest) → item_id (cancel_if x item) ≡ item_id item
cancel_if-item_id x item = elim (Bool-cases (str_eq (item_id item) x)) [
  | inl same ↦ rw same refl
  | inr other ↦ rw other refl
]

-- A cancellation leaves a request's id, and a waiting request waiting or cancelled.
cancel_ids-item_id :
    (xs : List String) (item : ScheduledRequest) → item_id (cancel_ids xs item) ≡ item_id item
cancel_ids-item_id [] item = refl
cancel_ids-item_id (x ∷ xs) item =
    cancel_ids-item_id xs (cancel_if x item) ∙ cancel_if-item_id x item

cancel_ids-IsWaiting :
    (xs : List String) (item : ScheduledRequest) → IsWaiting item → IsWaiting (cancel_ids xs item)
cancel_ids-IsWaiting [] item w = w
cancel_ids-IsWaiting (x ∷ xs) item w =
    cancel_ids-IsWaiting xs (cancel_if x item) (cancel_if-IsWaiting x item w)

pub map-cancel_ids-item_id :
    (xs : List String) (items : List ScheduledRequest)
    → map item_id (map (cancel_ids xs) items) ≡ map item_id items
map-cancel_ids-item_id xs [] = refl
map-cancel_ids-item_id xs (x ∷ items) =
    ap₂ ◌∷◌ (cancel_ids-item_id xs x) (map-cancel_ids-item_id xs items)

pub map-cancel_ids-IsWaiting :
    (xs : List String) (items : List ScheduledRequest)
    → All IsWaiting items
    → All IsWaiting (map (cancel_ids xs) items)
map-cancel_ids-IsWaiting xs [] w = tt
map-cancel_ids-IsWaiting xs (x ∷ items) w =
    (cancel_ids-IsWaiting xs x w.0, map-cancel_ids-IsWaiting xs items w.1)

-- What the scheduler changes in a request leaves both alone.
pub map-identity-item_id :
    (items : List ScheduledRequest) → map item_id (map identity items) ≡ map item_id items
map-identity-item_id [] = refl
map-identity-item_id (x ∷ items) = ap (◌∷◌ (item_id x)) (map-identity-item_id items)
