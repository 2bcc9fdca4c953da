-- ===== src/Tests/Scripts.antt =====
-- scripts/download_vllm_smoke_assets.py: a download that succeeds at the second attempt, with no
-- tokenizer.
use llm_serving_runtime.Base.{
  ℕ, ◌+◌, ◌-◌, ◌<◌, ◌≡◌, ◌⊎◌, inl, inr, true, false, none, some, [], ◌∷◌, ◌++◌, arith, ◌==◌,
  if◌then◌else◌, length, count_p,
}
use llm_serving_runtime.Base.Text.{String}
use llm_serving_runtime.Base.Int.{pos}
use llm_serving_runtime.Core.Request.{codes}
use llm_serving_runtime.Scripts.{
  FilePath, Download, returned, gave_up, download_with_retries, Arguments, Surroundings,
}
use llm_serving_runtime.Scripts.Retries.{AllFail, is_attempt, is_pause, download_with_retries-ends}

abbrev second : ℕ → Download
second attempt = if attempt == 2 then inr (codes "models/qwen") else inl "connection reset"

download_with_retries-ends_example :
    let (exit, events) = download_with_retries true second (pos 10) in
    ((before : ℕ) × (path : FilePath) × (before < 10)
      × AllFail second 1 (1 + before)
      × (second (1 + before) ≡ inr path)
      × (exit ≡ returned path)
      × (count_p is_attempt events ≡ before + 1)
      × (count_p is_pause events ≡ before))
    ⊎ ((message : String) × AllFail second 1 (1 + 10)
        × (second 10 ≡ inl message)
        × (exit ≡ gave_up (some message))
        × (count_p is_attempt events ≡ 10)
        × (count_p is_pause events ≡ 10 - 1))
download_with_retries-ends_example = download_with_retries-ends second 10 (omega arith)

abbrev arguments : Arguments
arguments = record {
  model = codes "Qwen/Qwen2.5-0.5B-Instruct";
  output_dir = codes "models";
  local_dir = none;
  hf_home = codes ".hf-cache";
  hf_endpoint = [];
  retries = pos 10;
  dry_run = false;
}

abbrev surroundings : Surroundings
surroundings = record {
  join = λ path name. path ++ 47 ∷ name;
  resolve = λ path. 47 ∷ path;
  quote = λ text. text;
  has_hub = true;
  download = λ path. second;
  files = record { is_file = λ path. length path == 24; has_safetensors = λ path. true };
}
