-- ===== src/Tests/Gpu.antt =====
-- metrics/gpu.py at a concrete output.
use llm_serving_runtime.Base.{◌≡◌, refl, true, none, [], ◌∷◌}
use llm_serving_runtime.Core.Request.{codes}
use llm_serving_runtime.Core.Strip.{strip, strip_start, strip_end}
use llm_serving_runtime.Core.Prompt.{is_space}
use llm_serving_runtime.Metrics.Latency.{round_div}
use llm_serving_runtime.Metrics.Gpu.{
  GpuSnapshot, RunResult, printed, sample, snapshot, new_sampler, query_args, of_gpus, available,
  parse_nvidia_smi, parse_row, parse_int,
}
use llm_serving_runtime.Metrics.Gpu.Readings.{IsSummary, snapshot-IsSummary}

-- Two devices and an empty line.
abbrev output : RunResult
output = printed (
    (codes "0" ∷ codes " A10" ∷ codes " 1024 MiB" ∷ codes " 24576" ∷ codes " 30" ∷ [])
    ∷ (codes " " ∷ [])
    ∷ (codes "1" ∷ codes " A10" ∷ codes " 0" ∷ codes " 24576" ∷ codes " 75" ∷ [])
    ∷ [])

-- The mean 52.5 rounds to the even 52.
abbrev two_gpus : GpuSnapshot
two_gpus = record {
  reason = none;
  gpu_count = 2;
  memory_used_mb = 1024;
  memory_total_mb = 49152;
  utilization_pct = 52;
  gpus =
      record {
        index = 0;
        name = codes "A10";
        memory_used_mb = 1024;
        memory_total_mb = 24576;
        utilization_pct = 30;
      }
      ∷ record {
        index = 1;
        name = codes "A10";
        memory_used_mb = 0;
        memory_total_mb = 24576;
        utilization_pct = 75;
      }
      ∷ [];
}

output_read : sample output ≡ two_gpus
unfolding sample of_gpus available parse_nvidia_smi parse_row parse_int strip strip_start strip_end
    is_space round_div
output_read = refl

-- The command is there and prints this.
snapshot-IsSummary_example :
    IsSummary (snapshot (λ command. true) (λ args timeout. output) new_sampler)
snapshot-IsSummary_example =
    snapshot-IsSummary (λ command. true) (λ args timeout. output) new_sampler

args_read :
    query_args (codes "nvidia-smi")
    ≡ codes "nvidia-smi"
      ∷ codes "--query-gpu=index,name,memory.used,memory.total,utilization.gpu"
      ∷ codes "--format=csv,noheader,nounits"
      ∷ []
unfolding query_args
args_read = refl
