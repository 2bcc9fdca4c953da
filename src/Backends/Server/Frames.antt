-- ===== src/Backends/Server/Frames.antt =====
-- backends/llama_cpp_backend.py and backends/vllm_backend.py: `generate` on the event stream that an
-- OpenAI-compatible server writes.
use llm_serving_runtime.Base.{
  ℕ, ◌≡◌, refl, sym, ap, ◌∙◌, ◌⊎◌, inl, inr, true, false, Option, none, some, List, [], ◌∷◌, ◌++◌,
  map, append-nil, append_assoc, if◌then◌else◌, Bool-cases, All,
}
use llm_serving_runtime.Base.Text.{String, str_eq}
use llm_serving_runtime.Base.Codes.{text_eq, drop_prefix}
use llm_serving_runtime.Core.Request.{codes}
use llm_serving_runtime.Core.Prompt.{is_space}
use llm_serving_runtime.Core.Strip.{strip, strip_start, strip_end, strip-closed}
use llm_serving_runtime.Backends.Server.{ServerBackend, can_generate}
use llm_serving_runtime.Backends.Server.Stream.{
  Json, text, array, object, nil, cons, end, field, Yields, and_then, get, elements, is_true,
  choice_content, read_choices, read_data, data_prefix, done_line, answered, read_line, read_lines,
  llama_generate, vllm_generate,
}

-- The object that the server sends for a token.
abbrev pub chunk : String → Json
chunk token = object (
    field "choices"
      (array (cons (object (field "delta" (object (field "content" (text token) end)) end)) nil))
      end)

-- A line of the stream: the object for a token, a blank line, a comment, or the end mark.
pub data ServerLine : Type 0 where
  frame : (token : String) → ServerLine
  blank : ServerLine
  comment : List ℕ → ServerLine
  done : ServerLine

-- The tokens that are no empty texts, in order.
unfoldable pub tokens_of : List ServerLine → List Json
tokens_of [] = []
tokens_of (frame token ∷ lines) =
    (if str_eq token "" then [] else text token ∷ []) ++ tokens_of lines
tokens_of (blank ∷ lines) = tokens_of lines
tokens_of (comment body ∷ lines) = tokens_of lines
tokens_of (done ∷ lines) = tokens_of lines

-- An object's text, from its brackets and what stands between them.
abbrev pub object_text : List ℕ → List ℕ
object_text body = 123 ∷ body ++ (125 ∷ [])

-- The line of a text; `body` is what the server writes between the brackets of a token's object.
abbrev pub line_text : (String → List ℕ) → ServerLine → List ℕ
line_text body (frame token) = data_prefix ++ object_text (body token)
line_text body blank = []
line_text body (comment note) = 58 ∷ note
line_text body done = done_line

-- `json.loads` reads the server's text of the line's object.
abbrev pub Reads : (List ℕ → String ⊎ Json) → (String → List ℕ) → ServerLine → Type 0
Reads loads body (frame token) = loads (object_text (body token)) ≡ inr (chunk token)
Reads loads body blank = Unit
Reads loads body (comment note) = Unit
Reads loads body done = Unit

read_data-chunk :
    (token : String)
    → read_data (chunk token) ≡ (if str_eq token "" then [] else text token ∷ [], none)
unfolding read_data get elements read_choices choice_content is_true
read_data-chunk token = elim (Bool-cases (str_eq token "")) [
  | inl empty ↦ rw empty refl
  | inr full ↦ rw full refl
]

strip-data :
    (rest : List ℕ) (d : ℕ)
    → is_space d ≡ false
    → strip (data_prefix ++ 123 ∷ rest ++ (d ∷ [])) ≡ data_prefix ++ 123 ∷ rest ++ (d ∷ [])
unfolding is_space
strip-data rest d e = strip-closed 100 (codes "ata: " ++ 123 ∷ rest) d refl e

pub and_then_assoc :
    (xs ys : List Json) (rest : Yields)
    → and_then (xs, none) (and_then (ys, none) rest) ≡ and_then (xs ++ ys, none) rest
and_then_assoc xs ys rest = ap (λ l. (l, rest.1)) (sym (append_assoc xs ys rest.0))

module _ (loads : List ℕ → String ⊎ Json) where
  pub read_line-data :
      (rest : List ℕ) (d : ℕ)
      → is_space d ≡ false
      → read_line loads (data_prefix ++ 123 ∷ rest ++ (d ∷ []))
        ≡ elim (loads (123 ∷ rest ++ (d ∷ []))) [
          | inl message ↦ ([], some message)
          | inr value ↦ read_data value
        ]
  unfolding read_line text_eq drop_prefix
  read_line-data rest d e = rw (strip-data rest d e) refl

  read_line-comment : (note : List ℕ) → read_line loads (58 ∷ note) ≡ ([], none)
  unfolding read_line strip strip_start strip_end text_eq drop_prefix is_space
  read_line-comment note = refl

  pub read_line-done : read_line loads done_line ≡ ([], none)
  unfolding read_line strip strip_start strip_end text_eq drop_prefix is_space
  read_line-done = refl

  pub read_line-blank : read_line loads [] ≡ ([], none)
  unfolding read_line strip strip_start strip_end text_eq drop_prefix is_space
  read_line-blank = refl

  pub read_lines-skip :
      (raw_line : List ℕ) (lines : List (List ℕ)) (broken : Option String)
      → read_line loads raw_line ≡ ([], none)
      → read_lines loads (raw_line ∷ lines) broken ≡ read_lines loads lines broken
  unfolding read_lines
  read_lines-skip raw_line lines broken e = ap (λ y. and_then y (read_lines loads lines broken)) e

  -- The exception of a line ends the stream.
  read_lines-broken :
      (raw_line : List ℕ) (lines : List (List ℕ)) (broken : Option String) (message : String)
      → read_line loads raw_line ≡ ([], some message)
      → read_lines loads (raw_line ∷ lines) broken ≡ ([], some message)
  unfolding read_lines
  read_lines-broken raw_line lines broken message e =
      ap (λ y. and_then y (read_lines loads lines broken)) e

  module _ (body : String → List ℕ) where
    read_line-frame :
        (token : String)
        → loads (object_text (body token)) ≡ inr (chunk token)
        → read_line loads (line_text body (frame token))
          ≡ (if str_eq token "" then [] else text token ∷ [], none)
    unfolding is_space
    read_line-frame token law =
        read_line-data (body token) 125 refl ∙ rw law (read_data-chunk token)

    read_lines-append :
        (lines : List ServerLine) (rest : List (List ℕ)) (broken : Option String)
        → All (Reads loads body) lines
        → read_lines loads (map (line_text body) lines ++ rest) broken
          ≡ and_then (tokens_of lines, none) (read_lines loads rest broken)
    unfolding read_lines tokens_of
    read_lines-append [] rest broken law = refl
    read_lines-append (frame token ∷ lines) rest broken law =
        ap (λ y. and_then y (read_lines loads (map (line_text body) lines ++ rest) broken))
          (read_line-frame token law.0)
        ∙ ap (and_then (if str_eq token "" then [] else text token ∷ [], none))
            (read_lines-append lines rest broken law.1)
        ∙ and_then_assoc (if str_eq token "" then [] else text token ∷ []) (tokens_of lines)
            (read_lines loads rest broken)
    read_lines-append (blank ∷ lines) rest broken law =
        read_lines-skip [] (map (line_text body) lines ++ rest) broken read_line-blank
        ∙ read_lines-append lines rest broken law.1
    read_lines-append (comment note ∷ lines) rest broken law =
        read_lines-skip (58 ∷ note) (map (line_text body) lines ++ rest) broken
          (read_line-comment note)
        ∙ read_lines-append lines rest broken law.1
    read_lines-append (done ∷ lines) rest broken law =
        read_lines-skip done_line (map (line_text body) lines ++ rest) broken read_line-done
        ∙ read_lines-append lines rest broken law.1

    -- A started backend gives back the tokens that the server framed, in order and without the empty
    -- ones, whatever blank lines, comments and end marks stand between, and then raises what breaks
    -- the stream off, if anything does. The assumption is that `json.loads` reads the server's text of
    -- each token's object.
    pub generate-frames :
        (s : ServerBackend) (lines : List ServerLine) (broken : Option String)
        → s.has_client ≡ true
        → All (Reads loads body) lines
        → (llama_generate loads s (answered (map (line_text body) lines) broken)
            ≡ (tokens_of lines, broken))
          × (vllm_generate loads s (answered (map (line_text body) lines) broken)
              ≡ (tokens_of lines, broken))
    unfolding llama_generate vllm_generate can_generate read_lines
    generate-frames s lines broken open_ law =
        let all : read_lines loads (map (line_text body) lines) broken ≡ (tokens_of lines, broken) =
          ap (λ l. read_lines loads l broken) (sym (append-nil (map (line_text body) lines)))
          ∙ read_lines-append lines [] broken law
          ∙ ap (λ l. (l, broken)) (append-nil (tokens_of lines)) in
        (rw open_ all, rw open_ all)

    -- An object that `json.loads` refuses ends the generation of a started backend with its message,
    -- after the tokens of the lines before it; no later line is read. The assumption is that
    -- `json.loads` reads the server's text of each token's object, and that the refused text starts
    -- with a bracket and ends in no white space.
    pub generate-broken_frame :
        (s : ServerBackend) (lines : List ServerLine) (rest : List ℕ) (d : ℕ)
        (later : List (List ℕ)) (broken : Option String) (message : String)
        → s.has_client ≡ true
        → All (Reads loads body) lines
        → is_space d ≡ false
        → loads (123 ∷ rest ++ (d ∷ [])) ≡ inl message
        → let response =
            answered
              (map (line_text body) lines ++ (data_prefix ++ 123 ∷ rest ++ (d ∷ [])) ∷ later)
              broken in
          (llama_generate loads s response ≡ (tokens_of lines, some message))
          × (vllm_generate loads s response ≡ (tokens_of lines, some message))
    unfolding llama_generate vllm_generate can_generate read_lines
    generate-broken_frame s lines rest d later broken message open_ law ends refused =
        let line = data_prefix ++ 123 ∷ rest ++ (d ∷ []) in
        let fails : read_line loads line ≡ ([], some message) =
          read_line-data rest d ends ∙ rw refused refl in
        let all : read_lines loads (map (line_text body) lines ++ line ∷ later) broken
            ≡ (tokens_of lines, some message) =
          read_lines-append lines (line ∷ later) broken law
          ∙ ap (and_then (tokens_of lines, none))
              (read_lines-broken line later broken message fails)
          ∙ ap (λ l. (l, some message)) (append-nil (tokens_of lines)) in
        (rw open_ all, rw open_ all)
