-- ===== src/Metrics/Exposition/Rejections.antt =====
-- metrics/collector.py: what a scrape tells of the rejections and of the devices.
use llm_serving_runtime.Base.{ℕ, ◌*◌, ◌≡◌, refl, some, List, [], ◌∷◌, map}
use llm_serving_runtime.Base.Text.{String}
use llm_serving_runtime.Base.Decimal.{decimal}
use llm_serving_runtime.Core.Request.{codes}
use llm_serving_runtime.Metrics.Gpu.{GpuDevice}
use llm_serving_runtime.Metrics.Exposition.Reader.{Sample, read_sample, read_sample-labelled, Lacks}
use llm_serving_runtime.Metrics.Exposition.Labels.{labelled}
use llm_serving_runtime.Metrics.Exposition.{Rejection, bytes_per_mb, source, device_lines}

-- The sample that one count of rejections is.
abbrev pub rejection_sample : Rejection → Sample
rejection_sample ((reason, priority), count) = record {
  name = codes "llm_rejected_requests_total";
  labels = (codes "reason", reason) ∷ (codes "priority", priority) ∷ [];
  value = count;
}

-- The sample of a device.
abbrev pub device_sample : GpuDevice → String → ℕ → Sample
device_sample g name value = record {
  name = codes name;
  labels = (codes "gpu", decimal g.index) ∷ (codes "name", g.name) ∷ source ∷ [];
  value = value;
}

-- A scrape reads back the numbers of a device, with its index and its name, whatever characters
-- the name holds; the memory is in bytes.
pub device_lines-read_sample :
    (g : GpuDevice)
    → map read_sample (device_lines g)
      ≡ some (device_sample g "llm_gpu_device_memory_used_bytes" (g.memory_used_mb * bytes_per_mb))
        ∷ some
            (device_sample g "llm_gpu_device_memory_total_bytes" (g.memory_total_mb * bytes_per_mb))
        ∷ some (device_sample g "llm_gpu_device_utilization_percent" g.utilization_pct)
        ∷ []
unfolding device_lines
device_lines-read_sample g =
    rw
      (
        device "llm_gpu_device_memory_used_bytes" (g.memory_used_mb * bytes_per_mb) refl,
        device "llm_gpu_device_memory_total_bytes" (g.memory_total_mb * bytes_per_mb) refl,
        device "llm_gpu_device_utilization_percent" g.utilization_pct refl,
      )
      refl
  where
    device :
        (name : String) (value : ℕ)
        → Lacks 123 (codes name)
        → read_sample (
            labelled
              (codes name)
              ((codes "gpu", decimal g.index) ∷ (codes "name", g.name) ∷ source ∷ [])
              (decimal value))
          ≡ some (device_sample g name value)
    device name value n =
        read_sample-labelled (codes name) (codes "gpu", decimal g.index)
          ((codes "name", g.name) ∷ source ∷ []) value n (refl, (refl, (refl, tt)))
