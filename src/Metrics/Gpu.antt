-- ===== src/Metrics/Gpu.antt =====
-- metrics/gpu.py: the reading of `nvidia-smi`. What the runner gives is an argument, and so are
-- `subprocess.run` in `_run` and `shutil.which`; the output is given as the rows of fields that `csv.reader` reads. Texts are lists of code points; a digit is one of
-- 0 to 9, since the command prints no others.
pub mod Readings
use llm_serving_runtime.Base.{
  ℕ, not, Bool, true, false, ◌&&◌, ◌++◌, Option, none, some, List, [], ◌∷◌, map, ◌==◌,
  if◌then◌else◌, length, keep, sum, count_p,
}
use llm_serving_runtime.Core.Request.{codes}
use llm_serving_runtime.Core.Strip.{strip}
use llm_serving_runtime.Base.Decimal.{is_digit, digits_value}
use llm_serving_runtime.Metrics.Latency.{round_div}

pub record GpuDevice : Type 0 where
  pub index : ℕ
  pub name : List ℕ
  pub memory_used_mb : ℕ
  pub memory_total_mb : ℕ
  pub utilization_pct : ℕ

-- The status is `available` exactly if there is no reason.
pub record GpuSnapshot : Type 0 where
  pub reason : Option (List ℕ)
  pub gpu_count : ℕ
  pub memory_used_mb : ℕ
  pub memory_total_mb : ℕ
  pub utilization_pct : ℕ
  pub gpus : List GpuDevice

-- What running the command gives. `failed` is an exit with another code than 0.
pub data RunResult : Type 0 where
  timed_out : RunResult
  os_error : (message : List ℕ) → RunResult
  failed : (stderr exit_message : List ℕ) → RunResult
  printed : (rows : List (List (List ℕ))) → RunResult

unfoldable pub parse_int : List ℕ → ℕ
parse_int value = digits_value 0 (keep is_digit value)

-- One row; a short or empty one is passed over.
unfoldable pub parse_row : List (List ℕ) → Option GpuDevice
unfolding parse_int strip
parse_row (index ∷ name ∷ memory_used ∷ memory_total ∷ utilization ∷ more) =
    let row = index ∷ name ∷ memory_used ∷ memory_total ∷ utilization ∷ more in
    if count_p (λ value. length (strip value) == 0) row == length row
    then none
    else some (record {
      index = parse_int (strip index);
      name = strip name;
      memory_used_mb = parse_int (strip memory_used);
      memory_total_mb = parse_int (strip memory_total);
      utilization_pct = parse_int (strip utilization);
    })
parse_row _ = none

unfoldable pub parse_nvidia_smi : List (List (List ℕ)) → List GpuDevice
unfolding parse_row
parse_nvidia_smi [] = []
parse_nvidia_smi (row ∷ rows) =
    let rest = parse_nvidia_smi rows in elim (parse_row row) [ none ↦ rest | some gpu ↦ gpu ∷ rest ]

unfoldable pub unavailable : List ℕ → GpuSnapshot
unavailable reason = record {
  reason = some reason;
  gpu_count = 0;
  memory_used_mb = 0;
  memory_total_mb = 0;
  utilization_pct = 0;
  gpus = [];
}

unfoldable pub available : List GpuDevice → GpuSnapshot
available gpus = record {
  reason = none;
  gpu_count = length gpus;
  memory_used_mb = sum (map (λ g. g.memory_used_mb) gpus);
  memory_total_mb = sum (map (λ g. g.memory_total_mb) gpus);
  utilization_pct = round_div (sum (map (λ g. g.utilization_pct) gpus)) (length gpus);
  gpus = gpus;
}

-- `a or b` on texts.
abbrev pub text_or : List ℕ → List ℕ → List ℕ
text_or [] b = b
text_or (c ∷ a) b = c ∷ a

-- `if not gpus`.
unfoldable pub of_gpus : List GpuDevice → GpuSnapshot
unfolding unavailable available
of_gpus [] = unavailable (codes "no GPU data")
of_gpus (g ∷ gpus) = available (g ∷ gpus)

-- `snapshot`, once the runner was called.
unfoldable pub sample : RunResult → GpuSnapshot
unfolding of_gpus parse_nvidia_smi
sample timed_out = unavailable (codes "nvidia-smi timed out")
sample (os_error message) = unavailable message
sample (failed stderr exit_message) = unavailable (text_or (strip stderr) exit_message)
sample (printed rows) = of_gpus (parse_nvidia_smi rows)

-- A runner gets the arguments and the timeout, a number of nanoseconds.
abbrev pub Runner : Type 0
Runner = List (List ℕ) → ℕ → RunResult

pub record NvidiaSmiSampler : Type 0 where
  pub command : List ℕ
  pub timeout_s : ℕ
  pub runner : Option Runner

abbrev pub new_sampler : NvidiaSmiSampler
new_sampler = record { command = codes "nvidia-smi"; timeout_s = 1_000_000_000; runner = none }

abbrev query_fields : List (List ℕ)
query_fields =
    codes "index"
    ∷ codes "name"
    ∷ codes "memory.used"
    ∷ codes "memory.total"
    ∷ codes "utilization.gpu"
    ∷ []

-- `','.join(texts)`.
abbrev comma_join : List (List ℕ) → List ℕ
comma_join [] = []
comma_join (s ∷ []) = s
comma_join (s ∷ t ∷ texts) = s ++ (44 ∷ comma_join (t ∷ texts))

unfoldable pub query_args : List ℕ → List (List ℕ)
query_args command =
    command
    ∷ (codes "--query-gpu=" ++ comma_join query_fields)
    ∷ codes "--format=csv,noheader,nounits"
    ∷ []

-- `self._runner or _run`.
abbrev pub runner_or : Option Runner → Runner → Runner
runner_or none run = run
runner_or (some runner) run = runner

abbrev lacks_runner : NvidiaSmiSampler → Bool
lacks_runner s = elim s.runner [ none ↦ true | some runner ↦ false ]

-- `which` tells whether `shutil.which` finds a command, and `run` is `_run`.
module _ (which : List ℕ → Bool) (run : Runner) where
  unfoldable pub snapshot : NvidiaSmiSampler → GpuSnapshot
  unfolding sample query_args
  snapshot s =
      if lacks_runner s && not (which s.command)
      then unavailable (codes "nvidia-smi not found")
      else sample (runner_or s.runner run (query_args s.command) s.timeout_s)

  unfoldable pub gpu_snapshot : GpuSnapshot
  unfolding snapshot
  gpu_snapshot = snapshot new_sampler
