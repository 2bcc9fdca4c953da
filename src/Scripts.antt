-- ===== src/Scripts.antt =====
-- scripts/download_vllm_smoke_assets.py. Texts and paths are lists of code points. `argparse`, the
-- library `huggingface_hub`, the file system, `pathlib`'s joining and resolving of paths and
-- `shlex.quote` are arguments. What is printed for progress and what is slept are events.
pub mod Retries
pub mod Outcome
use llm_serving_runtime.Base.{
  ℕ, zero, suc, ◌⊎◌, inl, inr, Bool, not, ◌&&◌, ◌||◌, Option, none, some, List, [], ◌∷◌, ◌++◌, ◌==◌,
  if◌then◌else◌, length,
}
use llm_serving_runtime.Base.Text.{String}
use llm_serving_runtime.Base.Int.{ℤ, pos_part}
use llm_serving_runtime.Core.Request.{codes}

abbrev pub FilePath : Type 0
FilePath = List ℕ

-- What `parse_args` returns; the times, patterns and other values that are only passed on are left out.
pub record Arguments : Type 0 where
  pub model : List ℕ
  pub output_dir : FilePath
  pub local_dir : Option FilePath
  pub hf_home : FilePath
  pub hf_endpoint : List ℕ
  pub retries : ℤ
  pub dry_run : Bool

-- `model.rstrip("/")`.
unfoldable pub strip_slashes : List ℕ → List ℕ
strip_slashes [] = []
strip_slashes (c ∷ text) =
    let rest = strip_slashes text in if (c == 47) && (length rest == 0) then [] else c ∷ rest

-- `text.split("/")[-1]`, of a text whose last segment so far is given.
unfoldable pub last_segment : List ℕ → List ℕ → List ℕ
last_segment segment [] = segment
last_segment segment (c ∷ text) =
    let next = last_segment [] text in
    let same = last_segment (segment ++ (c ∷ [])) text in if c == 47 then next else same

-- What the script reads of the file system.
pub record Files : Type 0 where
  pub is_file : FilePath → Bool
  pub has_safetensors : FilePath → Bool

-- What a call of `snapshot_download` gives: an exception's message or a path.
abbrev pub Download : Type 0
Download = String ⊎ FilePath

pub data Event : Type 0 where
  attempting : (attempt : ℕ) → Event
  failing : (message : String) → Event
  sleeping : Event

-- How a function ends: with a value, or with `SystemExit`.
pub data Exit (A : Type 0) : Type 0 where
  returned : A → Exit A
  missing_dependency : Exit A
  gave_up : (last_error : Option String) → Exit A
  missing_assets : List (List ℕ) → Exit A

-- The loop over the attempts, with `todo` of them left.
unfoldable pub attempts : (ℕ → Download) → ℕ → ℕ → Option String → Exit FilePath × List Event
attempts download attempt zero last_error = (gave_up last_error, [])
attempts download attempt (suc todo) last_error = elim (download attempt) [
  | inr path ↦ (returned path, attempting attempt ∷ [])
  | inl message ↦
      let (exit, events) = attempts download (suc attempt) todo (some message) in
      let pause = if todo == 0 then [] else sleeping ∷ [] in
      (exit, attempting attempt ∷ failing message ∷ (pause ++ events))
]

-- With a number of retries below 1 there is no attempt.
unfoldable pub download_with_retries :
    (has_hub : Bool) → (ℕ → Download) → ℤ → Exit FilePath × List Event
unfolding attempts
download_with_retries has_hub download retries =
    if not has_hub then (missing_dependency, []) else attempts download 1 (pos_part retries) none

module _ (join : FilePath → List ℕ → FilePath) where
  unfoldable pub default_local_dir : List ℕ → FilePath → FilePath
  unfolding strip_slashes last_segment
  default_local_dir model output_dir = join output_dir (last_segment [] (strip_slashes model))

  unfoldable pub missing_required_assets : Files → FilePath → List (List ℕ)
  missing_required_assets files model_dir =
      let has_file : String → Bool = λ name. files.is_file (join model_dir (codes name)) in
      (if not (has_file "config.json") then codes "config.json" ∷ [] else [])
      ++ (if not (files.has_safetensors model_dir) then codes "*.safetensors" ∷ [] else [])
      ++ (if not (has_file "tokenizer.json" || has_file "tokenizer.model" || has_file "vocab.json")
          then codes "tokenizer.json/tokenizer.model/vocab.json" ∷ []
          else [])

-- `export NAME=…`.
abbrev export_line : (List ℕ → List ℕ) → String → List ℕ → List ℕ
export_line quote name value = codes "export " ++ codes name ++ (61 ∷ quote value)

unfoldable pub runtime_export_lines :
    (List ℕ → List ℕ) → FilePath → FilePath → List ℕ → List (List ℕ)
runtime_export_lines quote model_dir hf_home hf_endpoint =
    export_line quote "HF_HOME" hf_home
      ∷ (if length hf_endpoint == 0 then [] else export_line quote "HF_ENDPOINT" hf_endpoint ∷ [])
    ++ (export_line quote "LLM_RUNTIME_MODEL_PATH" model_dir ∷ [])

-- The variables that `configure_huggingface_env` sets.
unfoldable pub configure_huggingface_env : FilePath → List ℕ → List (String × List ℕ)
configure_huggingface_env hf_home hf_endpoint =
    ("HF_HOME", hf_home)
    ∷ (if length hf_endpoint == 0 then [] else ("HF_ENDPOINT", hf_endpoint) ∷ [])

-- What `main` meets. `download` is given the destination.
pub record Surroundings : Type 0 where
  pub join : FilePath → List ℕ → FilePath
  pub resolve : FilePath → FilePath
  pub quote : List ℕ → List ℕ
  pub has_hub : Bool
  pub download : FilePath → ℕ → Download
  pub files : Files

-- `args.local_dir or default_local_dir(…)`: any given path counts, as every `Path` is true.
unfoldable pub destination : Surroundings → Arguments → FilePath
unfolding default_local_dir
destination w args = w.resolve (elim args.local_dir [
  | some path ↦ path
  | none ↦ default_local_dir w.join args.model args.output_dir
])

-- The end of `main` once the download is there: the lines that it prints for the shell.
unfoldable pub finish : Surroundings → Arguments → FilePath → Exit (List (List ℕ))
unfolding missing_required_assets runtime_export_lines
finish w args path =
    let downloaded = w.resolve path in
    elim (missing_required_assets w.join w.files downloaded) [
      | [] ↦
          returned
            (runtime_export_lines w.quote downloaded (w.resolve args.hf_home) args.hf_endpoint)
      | name ∷ names ↦ missing_assets (name ∷ names)
    ]

-- The end of `main` after the download.
abbrev pub after_download : Surroundings → Arguments → Exit FilePath → Exit (List (List ℕ))
after_download w args (returned path) = finish w args path
after_download w args missing_dependency = missing_dependency
after_download w args (gave_up e) = gave_up e
after_download w args (missing_assets names) = missing_assets names

-- What a run leaves: its end, the variables that it sets, the directories that it creates, and the
-- events of the download.
pub record Ran : Type 0 where
  pub exit : Exit (List (List ℕ))
  pub environment : List (String × List ℕ)
  pub created : List FilePath
  pub events : List Event

-- `main`, without the lines that it prints about its arguments; where it returns, it returns 0.
unfoldable pub main : Surroundings → Arguments → Ran
unfolding destination download_with_retries finish configure_huggingface_env
main w args =
    let environment = configure_huggingface_env (w.resolve args.hf_home) args.hf_endpoint in
    let path = destination w args in
    let (exit, events) = download_with_retries w.has_hub (w.download path) args.retries in
    if args.dry_run
    then record { exit = returned []; environment = environment; created = []; events = [] }
    else record {
      exit = after_download w args exit;
      environment = environment;
      created = path ∷ [];
      events = events;
    }
