-- ===== src/Base/Sorting.antt =====
-- Python's `sorted`, by insertion: a stable sort by a strict order.
use Prim.Native.Nat.{ℕ, ◌+◌}
use mathlib.Core.Path.{◌≡◌, refl}
use mathlib.Core.Bool.{Bool}
use mathlib.Core.Logic.{inl, inr}
use mathlib.Core.List.{List, [], ◌∷◌, map, Perm}
use mathlib.Core.List.Perm
use native.Mathlib.Omega.{arith}
use llm_serving_runtime.Base.Tests.{if◌then◌else◌, Bool-cases}
use llm_serving_runtime.Base.Counts.{sum}

module _ {ℓ} {A : Type ℓ} (lt : A → A → Bool) where
  unfoldable pub insert_by : A → List A → List A
  insert_by x [] = x ∷ []
  insert_by x (y ∷ ys) = let rest = insert_by x ys in if lt y x then y ∷ rest else x ∷ y ∷ ys

  unfoldable pub sort_by : List A → List A
  unfolding insert_by
  sort_by [] = []
  sort_by (x ∷ xs) = insert_by x (sort_by xs)

  insert_by-perm : (x : A) (xs : List A) → Perm (insert_by x xs) (x ∷ xs)
  unfolding insert_by
  insert_by-perm x [] = Perm.rfl
  insert_by-perm x (y ∷ xs) = elim (Bool-cases (lt y x)) [
    | inl later ↦
        rw (later, insert_by) (Perm.trans (Perm.cons y (insert_by-perm x xs)) (Perm.swap x y xs))
    | inr here ↦ rw (here, insert_by) Perm.rfl
  ]

  pub sort_by-perm : (xs : List A) → Perm (sort_by xs) xs
  unfolding sort_by
  sort_by-perm [] = Perm.rfl
  sort_by-perm (x ∷ xs) = Perm.trans (insert_by-perm x (sort_by xs)) (Perm.cons x (sort_by-perm xs))

  insert_by-sum :
      (f : A → ℕ) (x : A) (xs : List A) → sum (map f (insert_by x xs)) ≡ f x + sum (map f xs)
  unfolding insert_by
  insert_by-sum f x [] = refl
  insert_by-sum f x (y ∷ xs) = elim (Bool-cases (lt y x)) [
    | inl later ↦ rw (later, insert_by) (omega (arith, insert_by-sum f x xs))
    | inr here ↦ rw (here, insert_by) refl
  ]

  -- A sum does not depend on the order.
  pub sort_by-sum : (f : A → ℕ) (xs : List A) → sum (map f (sort_by xs)) ≡ sum (map f xs)
  unfolding sort_by
  sort_by-sum f [] = refl
  sort_by-sum f (x ∷ xs) = omega (arith, insert_by-sum f x (sort_by xs), sort_by-sum f xs)
