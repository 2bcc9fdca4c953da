-- ===== src/Scheduler/Batching.antt =====
-- scheduler/batching.py.
use llm_serving_runtime.Base.{
  ℕ, suc, ◌≡◌, refl, ap, none, some, List, [], ◌∷◌, map, length, take, All,
}
use llm_serving_runtime.Core.Request.{mark_started}
use llm_serving_runtime.Core.Response.{ScheduledRequest, on_request}

pub record Batch : Type 0 where
  pub items : List ScheduledRequest
  pub created_at : ℕ

abbrev pub size : Batch → ℕ
size b = length b.items

-- `items[:max_batch_size]`.
unfoldable pub build_batch : ℕ → List ScheduledRequest → ℕ → Batch
build_batch now items max_batch_size = record {
  items = take max_batch_size items;
  created_at = now;
}

-- `for item in items: item.request.mark_started()`, at the clock's readings from `now` on.
unfoldable pub start_all : (ℕ → ℕ) → ℕ → List ScheduledRequest → List ScheduledRequest
start_all clock k [] = []
start_all clock k (item ∷ items) =
    on_request (mark_started (clock k)) item ∷ start_all clock (suc k) items

-- What a scheduler leaves alone in the requests that it hands out.
abbrev pub identity : ScheduledRequest → ScheduledRequest
identity item = on_request (λ r. record r { started_at = none }) item

pub length-start_all :
    (clock : ℕ → ℕ) (k : ℕ) (items : List ScheduledRequest)
    → length (start_all clock k items) ≡ length items
unfolding start_all
length-start_all clock k [] = refl
length-start_all clock k (item ∷ items) = ap suc (length-start_all clock (suc k) items)

pub map-identity-start_all :
    (clock : ℕ → ℕ) (k : ℕ) (items : List ScheduledRequest)
    → map identity (start_all clock k items) ≡ map identity items
unfolding start_all
map-identity-start_all clock k [] = refl
map-identity-start_all clock k (item ∷ items) =
    ap (◌∷◌ (identity item)) (map-identity-start_all clock (suc k) items)

abbrev pub HasStarted : ScheduledRequest → Type 0
HasStarted item = (t : ℕ) × (item.request.started_at ≡ some t)

pub start_all-HasStarted :
    (clock : ℕ → ℕ) (k : ℕ) (items : List ScheduledRequest)
    → All HasStarted (start_all clock k items)
unfolding start_all
start_all-HasStarted clock k [] = tt
start_all-HasStarted clock k (item ∷ items) =
    ((clock k, refl), start_all-HasStarted clock (suc k) items)
