-- ===== src/Api/Endpoints.antt =====
-- api/routes.py: `health` and `get_metrics`. The GPU sampler's reading is an argument, and so are
-- the texts of floats.
use llm_serving_runtime.Base.{ℕ, Option, none, some, List, [], ◌∷◌, if◌then◌else◌}
use llm_serving_runtime.Base.Text.{String}
use llm_serving_runtime.Base.Int.{ℤ}
use llm_serving_runtime.Base.Codes.{contains}
use llm_serving_runtime.Core.Request.{codes}
use llm_serving_runtime.Api.Routes.{Services}
use llm_serving_runtime.Metrics.Gpu.{GpuSnapshot}
use llm_serving_runtime.Metrics.Exposition.{snapshot_prometheus}
use llm_serving_runtime.Metrics.Snapshot.{Snapshot, snapshot}
use llm_serving_runtime.Scheduler.Interface.{Scheduler}

unfoldable pub health : List (String × String)
health = ("status", "ok") ∷ []

-- A text, or the dictionary of the snapshot with the key `queue_size`.
pub data MetricsResponse : Type 0 where
  plain_text : List ℕ → MetricsResponse
  json : (snapshot : Snapshot) → (queue_size : ℕ) → MetricsResponse

-- `headers.get("accept", "")`.
abbrev accept_of : Option (List ℕ) → List ℕ
accept_of none = []
accept_of (some accept) = accept

module _ (show_seconds : ℤ → List ℕ) (show_mean : ℕ → ℕ → List ℕ) {sch : Scheduler} where
  unfoldable pub get_metrics : Option (List ℕ) → GpuSnapshot → Services sch → MetricsResponse
  unfolding contains snapshot_prometheus snapshot
  get_metrics accept gpu s =
      if contains (codes "text/plain") (accept_of accept)
      then plain_text
          (snapshot_prometheus show_seconds show_mean (sch.size s.scheduler) gpu s.metrics)
      else json (snapshot gpu s.metrics) (sch.size s.scheduler)
