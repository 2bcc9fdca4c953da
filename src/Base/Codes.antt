-- ===== src/Base/Codes.antt =====
-- Texts as lists of code points: Python's `<`, `==`, `startswith` and `in`.
use Prim.Native.Nat.{ℕ}
use mathlib.Core.Bool.{Bool, true, false, ◌&&◌, ◌||◌}
use mathlib.Core.List.{List, [], ◌∷◌}
use mathlib.Core.Option.{Option, none, some}
use llm_serving_runtime.Base.Tests.{ltb, ◌==◌}

-- The order of texts, by code points.
unfoldable pub text_lt : List ℕ → List ℕ → Bool
text_lt s [] = false
text_lt [] (d ∷ t) = true
text_lt (c ∷ s) (d ∷ t) = let rest = text_lt s t in ltb c d || (c == d && rest)

unfoldable pub text_eq : List ℕ → List ℕ → Bool
text_eq [] [] = true
text_eq (c ∷ s) (d ∷ t) = let rest = text_eq s t in c == d && rest
text_eq _ _ = false

-- The text after a prefix, if it starts with that.
unfoldable pub drop_prefix : List ℕ → List ℕ → Option (List ℕ)
drop_prefix [] text = some text
drop_prefix (c ∷ prefix) [] = none
drop_prefix (c ∷ prefix) (d ∷ text) = elim (c == d) [
  | true ↦ drop_prefix prefix text
  | false ↦ none
]

abbrev is_some : Option (List ℕ) → Bool
is_some none = false
is_some (some x) = true

abbrev pub starts_with : List ℕ → List ℕ → Bool
starts_with prefix text = is_some (drop_prefix prefix text)

-- `part in text`.
unfoldable pub contains : List ℕ → List ℕ → Bool
unfolding drop_prefix
contains part [] = starts_with part []
contains part (c ∷ text) = let rest = contains part text in starts_with part (c ∷ text) || rest
