-- ===== src/Tests/Server.antt =====
-- backends/llama_cpp_backend.py and backends/vllm_backend.py: two event streams.
use llm_serving_runtime.Base.{
  ℕ, ◌≡◌, refl, ◌⊎◌, inl, inr, true, none, some, List, [], ◌∷◌, ◌++◌, map, ◌==◌, if◌then◌else◌,
  length,
}
use llm_serving_runtime.Base.Text.{String}
use llm_serving_runtime.Core.Request.{codes}
use llm_serving_runtime.Core.Prompt.{is_space}
use llm_serving_runtime.Backends.Server.{ServerBackend}
use llm_serving_runtime.Backends.Server.Stream.{
  Json, answered, llama_generate, vllm_generate, data_prefix,
}
use llm_serving_runtime.Backends.Server.Frames.{
  ServerLine, frame, blank, comment, done, chunk, line_text, tokens_of, generate-frames,
  generate-broken_frame,
}

abbrev running : ServerBackend
running = record { process = some (record { returncode = none }); has_client = true }

-- A reader of the two objects that the stream has.
abbrev loads : List ℕ → String ⊎ Json
loads object =
    if length object == 3
    then inr (chunk "a")
    else if length object == 2
    then inr (chunk "")
    else inl "Expecting value"

abbrev lines : List ServerLine
lines = comment (codes " ping") ∷ frame "" ∷ blank ∷ frame "a" ∷ blank ∷ done ∷ []

generate-frames_example :
    (llama_generate loads running (answered (map (line_text codes) lines) none)
      ≡ (tokens_of lines, none))
    × (vllm_generate loads running (answered (map (line_text codes) lines) none)
        ≡ (tokens_of lines, none))
generate-frames_example =
    generate-frames loads codes running lines none refl (tt, (refl, (tt, (refl, (tt, (tt, tt))))))

-- The object is cut off in its first key.
generate-broken_frame_example :
    let response =
      answered
        (map (line_text codes) lines ++ (data_prefix ++ 123 ∷ codes "\"cho" ++ (105 ∷ [])) ∷ [])
        none in
    (llama_generate loads running response ≡ (tokens_of lines, some "Expecting value"))
    × (vllm_generate loads running response ≡ (tokens_of lines, some "Expecting value"))
unfolding is_space
generate-broken_frame_example =
    generate-broken_frame loads codes running lines (codes "\"cho") 105 [] none "Expecting value"
      refl (tt, (refl, (tt, (refl, (tt, (tt, tt)))))) refl refl
