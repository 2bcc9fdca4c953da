-- ===== src/Tests/Loopback.antt =====
-- api/streaming.py and the backends: a stream of the runtime, read by a backend, with a small
-- `json.dumps` and `json.loads` and a client that splits at line feeds.
use llm_serving_runtime.Base.{
  ℕ, ◌≡◌, refl, ap, ◌∙◌, ◌⊎◌, inl, inr, true, false, none, some, List, [], ◌∷◌, ◌++◌, map, arith,
  ◌==◌, if◌then◌else◌, Bool-cases, All,
}
use llm_serving_runtime.Base.Text.{String, str_eq}
use llm_serving_runtime.Base.Codes.{text_eq}
use llm_serving_runtime.Core.Request.{codes}
use llm_serving_runtime.Core.Response.{token_event, error_event, new_streaming}
use llm_serving_runtime.Backends.Server.{ServerBackend}
use llm_serving_runtime.Backends.Server.Stream.{
  Json, null, boolean, number, text, array, object, Fields, end, field, answered, llama_generate,
  vllm_generate,
}
use llm_serving_runtime.Backends.Server.Frames.{object_text}
use llm_serving_runtime.Api.Streaming.{chat_completion_stream}
use llm_serving_runtime.Api.Streaming.Delivery.{fails}
use llm_serving_runtime.Api.Streaming.Text.{chunk_fields, error_fields, stream_text}
use llm_serving_runtime.Api.Streaming.Loopback.{
  unlines, IsPlain, yielded_all, generate-chat_completion_stream,
}

-- The two objects of the stream differ in their first key.
abbrev inner : Fields → List ℕ
inner end = []
inner (field key value fields) = if str_eq key "id" then codes "1" else codes "2"

abbrev dumps : Json → List ℕ
dumps null = codes "null"
dumps (boolean b) = codes "true"
dumps (number is_zero) = codes "0"
dumps (text s) = codes "\"\""
dumps (array items) = codes "[]"
dumps (object fields) = object_text (inner fields)

abbrev loads : List ℕ → String ⊎ Json
loads s =
    if text_eq s (codes "{1}")
    then inr (object (chunk_fields "r1" "qwen" "a"))
    else inr (object (error_fields "out of memory"))

dumps-IsPlain : (value : Json) → All IsPlain (dumps value)
dumps-IsPlain null = omega arith
dumps-IsPlain (boolean b) = omega arith
dumps-IsPlain (number is_zero) = omega arith
dumps-IsPlain (text s) = omega arith
dumps-IsPlain (array items) = omega arith
dumps-IsPlain (object end) = omega arith
dumps-IsPlain (object (field key value fields)) = elim (Bool-cases (str_eq key "id")) [
  | inl e ↦ rw e (omega arith)
  | inr e ↦ rw e (omega arith)
]

abbrev start_line : ℕ → List (List ℕ) → List (List ℕ)
start_line c [] = (c ∷ []) ∷ []
start_line c (line ∷ lines) = (c ∷ line) ∷ lines

abbrev split_lines : List ℕ → List (List ℕ)
split_lines [] = []
split_lines (c ∷ s) = let rest = split_lines s in if c == 10 then [] ∷ rest else start_line c rest

split_lines-append :
    (line rest : List ℕ)
    → All IsPlain line
    → split_lines (line ++ (10 ∷ rest)) ≡ line ∷ split_lines rest
split_lines-append [] rest p = refl
split_lines-append (c ∷ line) rest p =
    let other : (c == 10) ≡ false = ground arith in
    rw (other, split_lines-append line rest p.1) refl

split_lines-unlines :
    (lines : List (List ℕ)) → All (All IsPlain) lines → split_lines (unlines lines) ≡ lines
split_lines-unlines [] p = refl
split_lines-unlines (line ∷ lines) p =
    split_lines-append line (unlines lines) p.0 ∙ ap (◌∷◌ line) (split_lines-unlines lines p.1)

abbrev running : ServerBackend
running = record { process = some (record { returncode = none }); has_client = true }

generate-chat_completion_stream_example :
    let (frames, _, _) =
      chat_completion_stream "r1" "qwen"
        (map token_event ("a" ∷ "a" ∷ []) ++ (error_event "out of memory" ∷ []))
        new_streaming in
    let response = answered (split_lines (stream_text dumps frames)) none in
    (llama_generate loads running response ≡ (yielded_all ("a" ∷ "a" ∷ []), none))
    × (vllm_generate loads running response ≡ (yielded_all ("a" ∷ "a" ∷ []), none))
unfolding text_eq
generate-chat_completion_stream_example =
    generate-chat_completion_stream dumps loads inner split_lines dumps-IsPlain (λ fields. refl)
      split_lines-unlines running "r1" "qwen" ("a" ∷ "a" ∷ []) [] new_streaming none refl
      (fails "out of memory") (refl, (refl, (refl, tt)))
