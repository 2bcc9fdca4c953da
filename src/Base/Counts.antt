-- ===== src/Base/Counts.antt =====
-- Sums and counts of a list over the native numbers.
use Prim.Native.Nat.{ℕ, ◌+◌, ◌≤◌}
use mathlib.Core.Path.{◌≡◌, refl, ◌∙◌}
use mathlib.Core.Bool.{Bool}
use mathlib.Core.List.{List, [], ◌∷◌, ◌++◌}
use native.Mathlib.Omega.{arith}
use mathlib.Core.Logic.{∥∥₁_elim}
use mathlib.Core.List.{Perm, Permᴰ}
use native.Mathlib.Nat.{ℕ_set}
use llm_serving_runtime.Base.Tests.{if◌then◌else◌}
use llm_serving_runtime.Base.Lists.{length}

abbrev pub sum : List ℕ → ℕ
sum [] = 0
sum (x ∷ xs) = x + sum xs

pub sum-append : (xs ys : List ℕ) → sum (xs ++ ys) ≡ sum xs + sum ys
sum-append [] ys = omega arith
sum-append (x ∷ xs) ys = omega (arith, sum-append xs ys)

module _ {ℓ} {A : Type ℓ} where
  -- How many elements pass a test.
  abbrev pub count_p : (A → Bool) → List A → ℕ
  count_p test [] = 0
  count_p test (x ∷ xs) = (if test x then 1 else 0) + count_p test xs

  pub count_p-append :
      (test : A → Bool) (xs ys : List A)
      → count_p test (xs ++ ys) ≡ count_p test xs + count_p test ys
  count_p-append test [] ys = omega arith
  count_p-append test (x ∷ xs) ys = omega (arith, count_p-append test xs ys)

  pub count_p-le_length : (test : A → Bool) (xs : List A) → count_p test xs ≤ length xs
  count_p-le_length test [] = omega arith
  count_p-le_length test (x ∷ xs) = ground (arith, count_p-le_length test xs)

  count_p-permᴰ :
      (test : A → Bool) {xs ys : List A} → Permᴰ xs ys → count_p test xs ≡ count_p test ys
  count_p-permᴰ test Permᴰ.nil = refl
  count_p-permᴰ test (Permᴰ.cons {b = b} e p) = rw (e, count_p-permᴰ test p)
  count_p-permᴰ test (Permᴰ.swap e f) = rw (e, f) (omega arith)
  count_p-permᴰ test (Permᴰ.trans p q) = count_p-permᴰ test p ∙ count_p-permᴰ test q

  -- A count does not depend on the order.
  pub count_p-perm :
      (test : A → Bool) (xs ys : List A) → Perm xs ys → count_p test xs ≡ count_p test ys
  count_p-perm test xs ys p = ∥∥₁_elim p (ℕ_set _ _) (count_p-permᴰ test)
