-- ===== src/Scripts/Outcome.antt =====
-- scripts/download_vllm_smoke_assets.py: how `main` ends.
use llm_serving_runtime.Base.{ℕ, ◌≡◌, ◌⊎◌, Option, List, [], ◌∷◌}
use llm_serving_runtime.Base.Text.{String}
use llm_serving_runtime.Scripts.{
  FilePath, Exit, returned, gave_up, missing_assets, missing_required_assets, runtime_export_lines,
  Arguments, Surroundings,
}

-- The lines for the shell are printed exactly if the download gives a path and no required file is
-- missing there; a missing file and a failed download end the run with their own message.
abbrev pub Delivers : Surroundings → Arguments → Exit FilePath → Exit (List (List ℕ)) → Type 0
Delivers w args got exit =
    ((path : FilePath) × (got ≡ returned path)
      × (missing_required_assets w.join w.files (w.resolve path) ≡ [])
      × (exit
          ≡ returned (
              runtime_export_lines w.quote (w.resolve path) (w.resolve args.hf_home)
                args.hf_endpoint)))
    ⊎ ((path : FilePath) × (name : List ℕ) × (names : List (List ℕ)) × (got ≡ returned path)
        × (missing_required_assets w.join w.files (w.resolve path) ≡ name ∷ names)
        × (exit ≡ missing_assets (name ∷ names)))
    ⊎ ((e : Option String) × (got ≡ gave_up e) × (exit ≡ gave_up e))
