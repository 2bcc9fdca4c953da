-- ===== src/Config/Environment/Integers.antt =====
-- src/llm_runtime/config.py: `int` reads what `str` writes.
use llm_serving_runtime.Base.{
  ℕ, suc, ◌+◌, ◌-◌, ◌*◌, ◌≡◌, refl, ap, ◌∙◌, ◌≢◌, true, false, some, List, [], ◌∷◌, arith,
}
use llm_serving_runtime.Base.Text.{String}
use llm_serving_runtime.Base.Int.{ℤ, pos, negsuc, sub_ℕ}
use llm_serving_runtime.Base.Decimal.{
  is_digit, digits_value, AllDigits, decimal, integer, decimal-value, decimal-AllDigits,
  decimal-ne-nil,
}
use llm_serving_runtime.Core.Request.{codes}
use llm_serving_runtime.Core.Prompt.{is_space}
use llm_serving_runtime.Core.Strip.{strip, strip_start, strip_end}
use llm_serving_runtime.Config.Environment.{◌>>=◌, read_digits, read_signed, int}

is_digit-is_space : (c : ℕ) → is_digit c ≡ true → is_space c ≡ false
unfolding is_space
is_digit-is_space c d = ground arith

strip_end-AllDigits : (text : List ℕ) → AllDigits text → strip_end text ≡ text
unfolding strip_end
strip_end-AllDigits [] d = refl
strip_end-AllDigits (c ∷ text) d =
    ground (arith, strip_end-AllDigits text d.1, is_digit-is_space c d.0)

strip-AllDigits : (text : List ℕ) → AllDigits text → strip text ≡ text
unfolding strip strip_start
strip-AllDigits [] d = strip_end-AllDigits [] d
strip-AllDigits (c ∷ text) d = rw (is_digit-is_space c d.0) (strip_end-AllDigits (c ∷ text) d)

strip-minus : (text : List ℕ) → AllDigits text → strip (45 ∷ text) ≡ 45 ∷ text
unfolding strip strip_start strip_end is_space
strip-minus text d = ap (◌∷◌ 45) (strip_end-AllDigits text d)

read_digits-inside :
    (value : ℕ) (text : List ℕ)
    → AllDigits text
    → read_digits true value text ≡ some (digits_value value text)
unfolding read_digits
read_digits-inside value [] d = refl
read_digits-inside value (c ∷ text) d = rw d.0 (read_digits-inside (value * 10 + (c - 48)) text d.1)

read_digits-value :
    (text : List ℕ)
    → AllDigits text
    → text ≢ []
    → read_digits false 0 text ≡ some (digits_value 0 text)
unfolding read_digits
read_digits-value [] d ne = absurd (ne refl)
read_digits-value (c ∷ text) d ne = rw d.0 (read_digits-inside (0 * 10 + (c - 48)) text d.1)

read_digits-decimal : (n : ℕ) → read_digits false 0 (decimal n) ≡ some n
read_digits-decimal n =
    read_digits-value (decimal n) (decimal-AllDigits n) (decimal-ne-nil n)
    ∙ ap some (decimal-value n)

read_signed-AllDigits :
    (text : List ℕ)
    → AllDigits text
    → read_signed text ≡ (read_digits false 0 text >>= λ n. some (pos n))
unfolding read_signed read_digits
read_signed-AllDigits [] d = refl
read_signed-AllDigits (c ∷ text) d = ground (arith, d.0)

-- `int(str(z))` is `z`.
pub int-integer : (value : String) (z : ℤ) → codes value ≡ integer z → int value ≡ some z
unfolding int read_signed
int-integer value (pos n) e =
    ap (λ t. read_signed (strip t)) e
    ∙ ap read_signed (strip-AllDigits (decimal n) (decimal-AllDigits n))
    ∙ read_signed-AllDigits (decimal n) (decimal-AllDigits n)
    ∙ ap (λ r. r >>= λ m. some (pos m)) (read_digits-decimal n)
int-integer value (negsuc n) e =
    ap (λ t. read_signed (strip t)) e
    ∙ ap read_signed (strip-minus (decimal (suc n)) (decimal-AllDigits (suc n)))
    ∙ ap (λ r. r >>= λ m. some (sub_ℕ 0 m)) (read_digits-decimal (suc n))
    ∙ ap some (ground arith)
