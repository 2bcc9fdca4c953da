-- ===== src/Core/Strip.antt =====
-- Python's `str.strip` on a text of code points.
use llm_serving_runtime.Base.{
  ℕ, ◌+◌, ◌≡◌, false, ◌&&◌, List, [], ◌∷◌, ◌++◌, arith, ◌==◌, if◌then◌else◌, length, length-append,
}
use llm_serving_runtime.Core.Prompt.{is_space}

unfoldable pub strip_start : List ℕ → List ℕ
strip_start [] = []
strip_start (c ∷ text) = let rest = strip_start text in if is_space c then rest else c ∷ text

unfoldable pub strip_end : List ℕ → List ℕ
strip_end [] = []
strip_end (c ∷ text) =
    let rest = strip_end text in if is_space c && (length rest == 0) then [] else c ∷ rest

unfoldable pub strip : List ℕ → List ℕ
unfolding strip_start strip_end
strip text = strip_end (strip_start text)

-- A text that ends in a character that is no space keeps its end.
strip_end-ends :
    (text : List ℕ) (c : ℕ) → is_space c ≡ false → strip_end (text ++ (c ∷ [])) ≡ text ++ (c ∷ [])
unfolding strip_end
strip_end-ends [] c e = ground (arith, e)
strip_end-ends (x ∷ text) c e =
    let kept : strip_end (text ++ (c ∷ [])) ≡ text ++ (c ∷ []) = strip_end-ends text c e in
    let long : length (text ++ (c ∷ [])) ≡ length text + 1 = length-append text (c ∷ []) in
    ground (arith, kept, long)

-- So `strip` leaves a text alone between two characters that are no spaces.
pub strip-closed :
    (c : ℕ) (text : List ℕ) (d : ℕ)
    → is_space c ≡ false
    → is_space d ≡ false
    → strip (c ∷ text ++ (d ∷ [])) ≡ c ∷ text ++ (d ∷ [])
unfolding strip strip_start
strip-closed c text d e f =
    let kept : strip_end ((c ∷ text) ++ (d ∷ [])) ≡ (c ∷ text) ++ (d ∷ []) =
      strip_end-ends (c ∷ text) d f in
    rw e kept
