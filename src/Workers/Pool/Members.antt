-- ===== src/Workers/Pool/Members.antt =====
-- workers/manager.py: a list of workers of which one changes.
use llm_serving_runtime.Base.{
  ℕ, zero, suc, ◌+◌, ◌≡◌, refl, ap, subst, some, List, [], ◌∷◌, map, arith, length, get_elem?,
  replicate, All, sum, ◌==◌, false,
}
use llm_serving_runtime.Workers.Pool.{set_at}

module _ {ℓ} {A : Type ℓ} where
  pub length-set_at : (i : ℕ) (y : A) (xs : List A) → length (set_at i y xs) ≡ length xs
  length-set_at i y [] = refl
  length-set_at zero y (x ∷ xs) = refl
  length-set_at (suc i) y (x ∷ xs) = ap suc (length-set_at i y xs)

  pub All-set_at :
      (P : A → Type 0) (i : ℕ) (y : A) (xs : List A) → P y → All P xs → All P (set_at i y xs)
  All-set_at P i y [] h k = tt
  All-set_at P zero y (x ∷ xs) h k = (h, k.1)
  All-set_at P (suc i) y (x ∷ xs) h k = (k.0, All-set_at P i y xs h k.1)

  pub All-get_elem? :
      (P : A → Type 0) (i : ℕ) (x : A) (xs : List A) → get_elem? xs i ≡ some x → All P xs → P x
  All-get_elem? P i x [] e h = absurd (cc)
  All-get_elem? P zero x (y ∷ xs) e h = let same : y ≡ x = cc in subst P same h.0
  All-get_elem? P (suc i) x (y ∷ xs) e h = All-get_elem? P i x xs e h.1

  -- A sum over the list changes by what the element changes.
  pub sum-set_at :
      (f : A → ℕ) (i : ℕ) (x y : A) (xs : List A)
      → get_elem? xs i ≡ some x
      → sum (map f (set_at i y xs)) + f x ≡ sum (map f xs) + f y
  sum-set_at f i x y [] e = absurd (cc)
  sum-set_at f zero x y (z ∷ xs) e = let same : f z ≡ f x = ap f (cc) in omega (arith, same)
  sum-set_at f (suc i) x y (z ∷ xs) e = omega (arith, sum-set_at f i x y xs e)

  pub sum-map_same :
      (f : A → ℕ) (g : A → A) (xs : List A)
      → ((x : A) → f (g x) ≡ f x)
      → sum (map f (map g xs)) ≡ sum (map f xs)
  sum-map_same f g [] h = refl
  sum-map_same f g (x ∷ xs) h = omega (arith, h x, sum-map_same f g xs h)

  pub sum-replicate : (f : A → ℕ) (n : ℕ) (x : A) → f x ≡ 0 → sum (map f (replicate n x)) ≡ 0
  sum-replicate f zero x h = refl
  sum-replicate f (suc n) x h = omega (arith, h, sum-replicate f n x h)

  pub All-replicate : (P : A → Type 0) (n : ℕ) (x : A) → P x → All P (replicate n x)
  All-replicate P zero x h = tt
  All-replicate P (suc n) x h = (h, All-replicate P n x h)

  pub length-replicate : (n : ℕ) (x : A) → length (replicate n x) ≡ n
  length-replicate zero x = refl
  length-replicate (suc n) x = ap suc (length-replicate n x)

  pub get_elem?-set_at :
      (i : ℕ) (y x : A) (xs : List A) → get_elem? (set_at i y xs) i ≡ some x → x ≡ y
  get_elem?-set_at i y x [] e = absurd (cc)
  get_elem?-set_at zero y x (z ∷ xs) e = cc
  get_elem?-set_at (suc i) y x (z ∷ xs) e = get_elem?-set_at i y x xs e

  pub get_elem?-set_at_other :
      (i j : ℕ) (y : A) (xs : List A)
      → (i == j) ≡ false
      → get_elem? (set_at i y xs) j ≡ get_elem? xs j
  get_elem?-set_at_other i j y [] e = refl
  get_elem?-set_at_other zero zero y (z ∷ xs) e = absurd (ground arith)
  get_elem?-set_at_other zero (suc j) y (z ∷ xs) e = refl
  get_elem?-set_at_other (suc i) zero y (z ∷ xs) e = refl
  get_elem?-set_at_other (suc i) (suc j) y (z ∷ xs) e =
      get_elem?-set_at_other i j y xs (ground arith)

  pub get_elem?-map :
      (f : A → A) (i : ℕ) (y : A) (xs : List A)
      → get_elem? (map f xs) i ≡ some y
      → (x : A) × (get_elem? xs i ≡ some x) × (f x ≡ y)
  get_elem?-map f i y [] e = absurd (cc)
  get_elem?-map f zero y (x ∷ xs) e = (x, refl, cc)
  get_elem?-map f (suc i) y (x ∷ xs) e = get_elem?-map f i y xs e
