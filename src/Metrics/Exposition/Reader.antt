-- ===== src/Metrics/Exposition/Reader.antt =====
-- metrics/collector.py: a reader of the exposition format gets back what the samples with labels say.
use llm_serving_runtime.Base.{
  ℕ, zero, suc, ◌<◌, ◌≡◌, refl, Bool, true, false, not, ◌&&◌, ◌||◌, Option, none, some, List, [],
  ◌∷◌, ◌++◌, append_assoc, arith, ◌==◌, if◌then◌else◌, length, All, length-append,
}
use llm_serving_runtime.Base.Decimal.{
  decimal, decimal-value, decimal-is_number, is_number, digits_value,
}
use llm_serving_runtime.Core.Request.{codes}
use llm_serving_runtime.Metrics.Exposition.Labels.{escape_label, label, labels, labelled}

-- The reader of the exposition format: a quoted value up to its closing quote, where a backslash
-- stands before a backslash, a quote or the letter n of a line feed.
unfoldable pub read_value : List ℕ → Option (List ℕ × List ℕ)
read_value [] = none
read_value (c ∷ []) = if c == 34 then some ([], []) else none
read_value (c ∷ d ∷ text) = elim (c == 34) [
  | true ↦ some ([], d ∷ text)
  | false ↦ elim (c == 92) [
    | true ↦ elim (read_value text) [
      | none ↦ none
      | some (value, rest) ↦
          if d == 92 || d == 34
          then some (d ∷ value, rest)
          else if d == 110
          then some (10 ∷ value, rest)
          else none
    ]
    | false ↦ elim (c == 10) [
      | true ↦ none
      | false ↦ elim (read_value (d ∷ text)) [
        | none ↦ none
        | some (value, rest) ↦ some (c ∷ value, rest)
      ]
    ]
  ]
]

escape_char : ℕ → List ℕ
escape_char c =
    if c == 92
    then codes "\\\\"
    else if c == 34
    then codes "\\\""
    else if c == 10
    then codes "\\n"
    else c ∷ []

escape_label-cons :
    (c : ℕ) (text : List ℕ) → escape_label (c ∷ text) ≡ escape_char c ++ escape_label text
unfolding escape_label escape_char
escape_label-cons c text = ground arith

read_value-char :
    (c : ℕ) (text value rest : List ℕ)
    → read_value text ≡ some (value, rest)
    → read_value (escape_char c ++ text) ≡ some (c ∷ value, rest)
unfolding read_value escape_char
read_value-char c [] value rest e = absurd (cc)
read_value-char c (d ∷ text) value rest e = ground arith

read_value_close : (rest : List ℕ) → read_value (34 ∷ rest) ≡ some ([], rest)
unfolding read_value
read_value_close [] = refl
read_value_close (d ∷ rest) = refl

read_value-escape_label :
    (value rest : List ℕ) → read_value (escape_label value ++ (34 ∷ rest)) ≡ some (value, rest)
unfolding escape_label
read_value-escape_label [] rest = read_value_close rest
read_value-escape_label (c ∷ value) rest =
    rw (escape_label-cons c value, append_assoc)
      (read_value-char c (escape_label value ++ (34 ∷ rest)) value rest
        (read_value-escape_label value rest))

-- The text up to a mark, and the text after it.
unfoldable pub read_until : ℕ → List ℕ → Option (List ℕ × List ℕ)
read_until mark [] = none
read_until mark (c ∷ text) = elim (c == mark) [
  | true ↦ some ([], text)
  | false ↦ elim (read_until mark text) [
    | none ↦ none
    | some (before, rest) ↦ some (c ∷ before, rest)
  ]
]

abbrev pub lacks : ℕ → List ℕ → Bool
lacks mark [] = true
lacks mark (c ∷ text) = not (c == mark) && lacks mark text

-- The character is not in the text.
abbrev pub Lacks : ℕ → List ℕ → Type 0
Lacks mark text = lacks mark text ≡ true

Lacks-cons :
    (mark c : ℕ) (text : List ℕ) → Lacks mark (c ∷ text) → ((c == mark) ≡ false) × Lacks mark text
Lacks-cons mark c text h = ground arith

read_until-append :
    (mark : ℕ) (before rest : List ℕ)
    → Lacks mark before
    → read_until mark (before ++ (mark ∷ rest)) ≡ some (before, rest)
unfolding read_until
read_until-append mark [] rest h = ground arith
read_until-append mark (c ∷ before) rest h =
    let (other, more) = Lacks-cons mark c before h in
    rw (other, read_until, read_until-append mark before rest more) refl

-- The reader of one label.
unfoldable pub read_label : List ℕ → Option ((List ℕ × List ℕ) × List ℕ)
unfolding read_until read_value
read_label text = elim (read_until 61 text) [
  | none ↦ none
  | some (key, quoted) ↦ elim quoted [
    | [] ↦ none
    | quote ∷ more ↦ elim (read_value more) [
      | none ↦ none
      | some (value, rest) ↦ if quote == 34 then some ((key, value), rest) else none
    ]
  ]
]

read_label-label :
    (l : List ℕ × List ℕ) (rest : List ℕ)
    → Lacks 61 l.0
    → read_label (label l ++ rest) ≡ some (l, rest)
unfolding label read_label
read_label-label (key, value) rest h =
    rw (append_assoc, read_label, read_until-append 61 key _ h)
      (rw (append_assoc, read_value-escape_label value rest) refl)

-- The reader of labels, with commas, up to the closing brace.
unfoldable pub read_labels : ℕ → List ℕ → Option (List (List ℕ × List ℕ) × List ℕ)
unfolding read_label
read_labels zero text = none
read_labels (suc fuel) text = elim (read_label text) [
  | none ↦ none
  | some (l, rest) ↦ elim rest [
    | [] ↦ none
    | c ∷ more ↦ elim (c == 125) [
      | true ↦ some (l ∷ [], more)
      | false ↦ elim (c == 44) [
        | false ↦ none
        | true ↦ elim (read_labels fuel more) [
          | none ↦ none
          | some (ls, last) ↦ some (l ∷ ls, last)
        ]
      ]
    ]
  ]
]

abbrev pub Keys : List (List ℕ × List ℕ) → Type 0
Keys ls = All (λ l. Lacks 61 l.0) ls

read_labels-labels :
    (l : List ℕ × List ℕ) (ls : List (List ℕ × List ℕ)) (rest : List ℕ) (fuel : ℕ)
    → Keys (l ∷ ls)
    → length ls < fuel
    → read_labels fuel (labels (l ∷ ls) ++ (125 ∷ rest)) ≡ some (l ∷ ls, rest)
unfolding labels read_labels
read_labels-labels l ls rest zero h enough = absurd (omega arith)
read_labels-labels l [] rest (suc fuel) h enough =
    rw (read_labels, read_label-label l (125 ∷ rest) h.0) refl
read_labels-labels l (m ∷ ls) rest (suc fuel) h enough =
    rw (append_assoc, read_labels, read_label-label l (44 ∷ (labels (m ∷ ls) ++ (125 ∷ rest))) h.0)
      (rw (read_labels-labels m ls rest fuel h.1 (omega arith)) refl)

length-labels :
    (l : List ℕ × List ℕ) (ls : List (List ℕ × List ℕ)) → length ls < length (labels (l ∷ ls))
unfolding labels label
length-labels l [] = omega (arith, length-append l.0 (61 ∷ 34 ∷ (escape_label l.1 ++ (34 ∷ []))))
length-labels l (m ∷ ls) =
    omega (arith, length-labels m ls, length-append (label l) (44 ∷ labels (m ∷ ls)))

-- What a sample says.
pub record Sample : Type 0 where
  pub name : List ℕ
  pub labels : List (List ℕ × List ℕ)
  pub value : ℕ

-- The reader of the value at the end of a line.
unfoldable pub read_number : List ℕ → Option ℕ
read_number text = if is_number text then some (digits_value 0 text) else none

unfoldable pub read_sample : List ℕ → Option Sample
unfolding read_until read_labels read_number
read_sample text = elim (read_until 123 text) [
  | none ↦ none
  | some (name, more) ↦ elim (read_labels (length more) more) [
    | none ↦ none
    | some (ls, rest) ↦ elim rest [
      | [] ↦ none
      | c ∷ number ↦ elim (read_number number) [
        | none ↦ none
        | some value ↦
            if c == 32 then some (record { name = name; labels = ls; value = value }) else none
      ]
    ]
  ]
]

read_number-decimal : (n : ℕ) → read_number (decimal n) ≡ some n
unfolding read_number
read_number-decimal n = rw (decimal-is_number n) (rw (decimal-value n) refl)

pub read_sample-labelled :
    (name : List ℕ) (l : List ℕ × List ℕ) (ls : List (List ℕ × List ℕ)) (value : ℕ)
    → Lacks 123 name
    → Keys (l ∷ ls)
    → read_sample (labelled name (l ∷ ls) (decimal value))
      ≡ some (record { name = name; labels = l ∷ ls; value = value })
unfolding read_sample labelled
read_sample-labelled name l ls value n k =
    rw (read_until-append 123 name _ n, read_sample)
      (rw
        (
          read_labels-labels l ls (32 ∷ decimal value)
              (length (labels (l ∷ ls) ++ (125 ∷ 32 ∷ decimal value))) k
              (omega (
                arith,
                length-labels l ls,
                length-append (labels (l ∷ ls)) (125 ∷ 32 ∷ decimal value),
              )),
          read_number-decimal value,
        )
        refl)
