-- ===== src/Base/Decimal.antt =====
-- Decimal text: Python's `str` and `int` on numbers, with a text as its code points.
use Prim.Native.Nat.{ℕ, zero, suc, ◌+◌, ◌-◌, ◌*◌, ◌/◌, ◌%◌, ◌<◌}
use mathlib.Core.Path.{◌≡◌, refl, ap}
use mathlib.Core.Bool.{Bool, true, false, ◌&&◌}
use mathlib.Core.List.{List, [], ◌∷◌}
use mathlib.Core.Logic.{◌≢◌, inl, inr}
use native.Mathlib.Omega.{arith}
use llm_serving_runtime.Base.Tests.{ltb, leb, Bool-cases}
use llm_serving_runtime.Base.Lists.{All}
use llm_serving_runtime.Base.Int.{ℤ, pos, negsuc}

abbrev pub is_digit : ℕ → Bool
is_digit c = leb 48 c && leb c 57

-- The value of some digits, on top of the value of those before.
abbrev pub digits_value : ℕ → List ℕ → ℕ
digits_value value [] = value
digits_value value (c ∷ digits) = digits_value (value * 10 + (c - 48)) digits

-- The digits of a number before some others; each round divides by ten.
unfoldable pub digits : ℕ → ℕ → List ℕ → List ℕ
digits zero n out = out
digits (suc fuel) n out = elim (ltb n 10) [
  | true ↦ (48 + n) ∷ out
  | false ↦ digits fuel (n / 10) ((48 + n % 10) ∷ out)
]

-- `str(n)`. A number has fewer digits than its successor says.
unfoldable pub decimal : ℕ → List ℕ
unfolding digits
decimal n = digits (suc n) n []

-- `str(z)`.
abbrev pub integer : ℤ → List ℕ
integer (pos n) = decimal n
integer (negsuc n) = 45 ∷ decimal (suc n)

abbrev pub AllDigits : List ℕ → Type 0
AllDigits text = All (λ c. is_digit c ≡ true) text

-- A digit adds its value to ten times those before it.
digits_value_last :
    (n : ℕ) (out : List ℕ)
    → digits_value (n / 10 * 10 + (48 + n % 10 - 48)) out ≡ digits_value n out
digits_value_last n out =
    let e : n / 10 * 10 + (48 + n % 10 - 48) ≡ n = omega arith in ap (λ v. digits_value v out) e

digits-value :
    (fuel n : ℕ) (out : List ℕ) → n < fuel → digits_value 0 (digits fuel n out) ≡ digits_value n out
unfolding digits
digits-value zero n out h = absurd (omega arith)
digits-value (suc fuel) n out h =
    ground (arith, digits_value_last n out, digits-value fuel (n / 10) ((48 + n % 10) ∷ out))

digits-AllDigits : (fuel n : ℕ) (out : List ℕ) → AllDigits out → AllDigits (digits fuel n out)
unfolding digits
digits-AllDigits zero n out h = h
digits-AllDigits (suc fuel) n out h = elim (Bool-cases (ltb n 10)) [
  | inl small ↦ rw (small, digits) (ground arith, h)
  | inr large ↦
      rw (large, digits) (digits-AllDigits fuel (n / 10) ((48 + n % 10) ∷ out) (ground arith, h))
]

pub decimal-value : (n : ℕ) → digits_value 0 (decimal n) ≡ n
unfolding decimal
decimal-value n = digits-value (suc n) n [] (omega arith)

pub decimal-AllDigits : (n : ℕ) → AllDigits (decimal n)
unfolding decimal
decimal-AllDigits n = digits-AllDigits (suc n) n [] tt

digits-cons-ne-nil : (fuel n c : ℕ) (out : List ℕ) → digits fuel n (c ∷ out) ≢ []
unfolding digits
digits-cons-ne-nil zero n c out e = absurd (cc)
digits-cons-ne-nil (suc fuel) n c out e = elim (Bool-cases (ltb n 10)) [
  | inl small ↦ absurd (let e' : (48 + n) ∷ c ∷ out ≡ [] = rw (small, digits) at e in cc)
  | inr large ↦ digits-cons-ne-nil fuel (n / 10) (48 + n % 10) (c ∷ out) (rw (large, digits) at e)
]

-- Only digits, and at least one.
abbrev pub is_number : List ℕ → Bool
is_number [] = false
is_number (c ∷ []) = is_digit c
is_number (c ∷ d ∷ text) = is_digit c && is_number (d ∷ text)

AllDigits-is_number : (text : List ℕ) → AllDigits text → text ≢ [] → is_number text ≡ true
AllDigits-is_number [] h ne = absurd (ne refl)
AllDigits-is_number (c ∷ []) h ne = h.0
AllDigits-is_number (c ∷ d ∷ text) h ne =
    ground (arith, h.0, AllDigits-is_number (d ∷ text) h.1 (λ e. absurd (cc)))

pub decimal-ne-nil : (n : ℕ) → decimal n ≢ []
unfolding decimal
decimal-ne-nil n e = elim (Bool-cases (ltb n 10)) [
  | inl small ↦ absurd (let e' : (48 + n) ∷ [] ≡ [] = rw (small, digits) at e in cc)
  | inr large ↦ digits-cons-ne-nil n (n / 10) (48 + n % 10) [] (rw (large, digits) at e)
]

pub decimal-is_number : (n : ℕ) → is_number (decimal n) ≡ true
decimal-is_number n = AllDigits-is_number (decimal n) (decimal-AllDigits n) (decimal-ne-nil n)
