-- ===== src/Metrics/Exposition/Labels.antt =====
-- metrics/collector.py, `_escape_label`, and the samples of the Prometheus text that have labels.
use llm_serving_runtime.Base.{ℕ, List, [], ◌∷◌, ◌++◌, ◌==◌, if◌then◌else◌}
use llm_serving_runtime.Core.Request.{codes}

-- `str.replace` of one character by a text.
unfoldable pub replace : ℕ → List ℕ → List ℕ → List ℕ
replace old new [] = []
replace old new (c ∷ text) = (if c == old then new else c ∷ []) ++ replace old new text

unfoldable pub escape_label : List ℕ → List ℕ
unfolding replace
escape_label value =
    replace 10 (codes "\\n") (replace 34 (codes "\\\"") (replace 92 (codes "\\\\") value))

-- A label and its quoted value: `key="value"`.
unfoldable pub label : List ℕ × List ℕ → List ℕ
unfolding escape_label
label (key, value) = key ++ (61 ∷ 34 ∷ (escape_label value ++ (34 ∷ [])))

-- The labels, with commas between them.
unfoldable pub labels : List (List ℕ × List ℕ) → List ℕ
unfolding label
labels [] = []
labels (l ∷ []) = label l
labels (l ∷ m ∷ ls) = label l ++ (44 ∷ labels (m ∷ ls))

-- `name{labels} value`.
unfoldable pub labelled : List ℕ → List (List ℕ × List ℕ) → List ℕ → List ℕ
unfolding labels
labelled name ls value = name ++ (123 ∷ (labels ls ++ (125 ∷ 32 ∷ value)))
