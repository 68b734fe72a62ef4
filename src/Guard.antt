-- ===== src/Guard.antt =====
-- internal/resourceguard/guard.go: the resource monitor that gates new work. The timer and the sampler
-- are outside: a sample is a report and whether the sampler failed. An int or a duration below 0 is
-- refused by `New` as 0 is, so both are natural numbers here.
pub mod Evaluation
pub mod Hysteresis
use tos_ai.Prelude.{
  Bool, List, Result, [], err, false, if◌then◌else◌, leb, length, ltb, not, ok, reject_if, true, ℕ,
  ◌%◌, ◌&&◌, ◌*◌, ◌+◌, ◌-◌, ◌/◌, ◌==◌, ◌^◌, ◌||◌, ◌∷◌,
}
use tos_ai.Prelude.Results.{◌>>=◌, ◌>>◌}
use tos_ai.Prelude.Text.{Bytes}

-- `NVIDIA.Status`, where `other_status` stands for any text that the probe does not report.
pub data GpuStatus : Type 0 where
  available gpu_degraded unavailable no_devices unknown_status : GpuStatus
  other_status : Bytes → GpuStatus

pub record Device : Type 0 where
  pub vram_bytes : ℕ  -- uint64
  pub vram_used_bytes : ℕ  -- uint64

pub record Report : Type 0 where
  pub memory_bytes : ℕ  -- uint64
  pub gpu_status : GpuStatus
  pub driver_version : Bytes
  pub devices : List Device

pub data HealthStatus : Type 0 where
  status_ready status_degraded : HealthStatus

pub record ResourceHealth : Type 0 where
  pub ready : Bool
  pub status : HealthStatus
  pub gpu : GpuStatus

pub data GuardError : Type 0 where
  invalid_monitor unsafe_observation memory_unavailable memory_below_policy : GuardError
  gpu_unavailable invalid_vram vram_below_policy : GuardError

pub record GuardConfig : Type 0 where
  pub interval : ℕ  -- nanoseconds
  pub timeout : ℕ  -- nanoseconds
  pub failure_threshold : ℕ
  pub recovery_threshold : ℕ
  pub required_ram : ℕ  -- uint64
  pub required_vram : ℕ  -- uint64
  pub initial : Report
  pub has_sampler : Bool

pub record Guard : Type 0 where
  pub config : GuardConfig
  pub health : ResourceHealth
  pub failures : ℕ
  pub recoveries : ℕ

abbrev pub min_interval : ℕ
min_interval = 1_000_000_000

abbrev pub max_interval_hard : ℕ
max_interval_hard = 300_000_000_000

abbrev pub min_timeout : ℕ
min_timeout = 100_000_000

abbrev pub max_timeout_hard : ℕ
max_timeout_hard = 30_000_000_000

abbrev pub max_threshold_hard : ℕ
max_threshold_hard = 10

-- 64 << 20
abbrev pub minimum_observed_ram : ℕ
minimum_observed_ram = 64 * 2 ^ 20

abbrev pub valid_gpu_status : GpuStatus → Bool
valid_gpu_status (other_status t) = false
valid_gpu_status _ = true

abbrev pub is_available : GpuStatus → Bool
is_available available = true
is_available _ = false

-- The loop over the devices; `total` is a uint64, and the test keeps its sum from wrapping.
unfoldable pub total_vram : ℕ → List Device → Result GuardError ℕ
total_vram total [] = ok total
total_vram total (d ∷ ds) =
    let rest = total_vram ((total + d.vram_bytes) % 2 ^ 64) ds in
    if (d.vram_bytes == 0)
      || ltb d.vram_bytes d.vram_used_bytes
      || ltb (2 ^ 64 - 1 - total) d.vram_bytes
    then err invalid_vram
    else rest

-- The checks of `evaluate`, without the health that it returns beside them.
unfoldable pub admit : Report → ℕ → ℕ → Result GuardError (Unit {0})
admit report required_ram required_vram = do
  reject_if (ltb report.memory_bytes minimum_observed_ram) memory_unavailable
  reject_if (ltb (report.memory_bytes - report.memory_bytes / 4) required_ram) memory_below_policy
  if required_vram == 0 then ok tt else do
    reject_if
        (not (is_available report.gpu_status)
          || (length report.driver_version == 0)
          || (length report.devices == 0))
        gpu_unavailable
    total ← total_vram 0 report.devices
    reject_if (ltb total required_vram) vram_below_policy

unfoldable pub evaluate : Report → ℕ → ℕ → ResourceHealth × Result GuardError (Unit {0})
evaluate report required_ram required_vram = (
  record {
    ready = true;
    status = status_ready;
    gpu = if valid_gpu_status report.gpu_status then report.gpu_status else unknown_status;
  },
  admit report required_ram required_vram,
)

abbrev pub passes : Result GuardError (Unit {0}) → Bool
passes (ok _) = true
passes (err _) = false

unfoldable pub new : GuardConfig → Result GuardError Guard
new config =
    if ltb config.interval min_interval
      || ltb max_interval_hard config.interval
      || ltb config.timeout min_timeout
      || ltb max_timeout_hard config.timeout
      || ltb config.interval config.timeout
      || (config.failure_threshold == 0)
      || ltb max_threshold_hard config.failure_threshold
      || (config.recovery_threshold == 0)
      || ltb max_threshold_hard config.recovery_threshold
      || (config.required_ram == 0)
      || not config.has_sampler
    then err invalid_monitor
    else let (health, checked) = evaluate config.initial config.required_ram config.required_vram in
      if passes checked
      then ok (record { config = config; health = health; failures = 0; recoveries = 0 })
      else err unsafe_observation

-- `record` on a good observation.
unfoldable pub record_good : Guard → ResourceHealth → Guard
record_good g next =
    if g.health.ready
    then (record g { failures = 0; recoveries = 0; health = record (g.health) { gpu = next.gpu } })
    else if leb g.config.recovery_threshold (g.recoveries + 1)
    then (record g { failures = 0; recoveries = 0; health = next })
    else (record g {
      failures = 0;
      recoveries = g.recoveries + 1;
      health = record (g.health) { gpu = next.gpu };
    })

-- `record` on a bad observation.
unfoldable pub record_bad : Guard → Report → Guard
record_bad g report =
    let gpu = if valid_gpu_status report.gpu_status then report.gpu_status else g.health.gpu in
    if leb g.config.failure_threshold (g.failures + 1)
    then record g {
      recoveries = 0;
      failures = g.config.failure_threshold;
      health = record { ready = false; status = status_degraded; gpu = gpu };
    }
    else record g {
      recoveries = 0;
      failures = g.failures + 1;
      health = record (g.health) { gpu = gpu };
    }

-- `record`, with the report and whether `safeSample` returned an error.
unfoldable pub record_sample : Guard → Report → Bool → Guard
record_sample g report sample_failed =
    let (next, checked) = evaluate report g.config.required_ram g.config.required_vram in
    if not sample_failed && passes checked then record_good g next else record_bad g report

-- A sample as `run` hands it on: the report, and whether the sampler failed.
abbrev pub Sample : Type 0
Sample = Report × Bool

-- The loop of `run`, over the samples that it takes.
unfoldable pub run_samples : Guard → List Sample → Guard
run_samples g [] = g
run_samples g ((report, failed) ∷ rest) = run_samples (record_sample g report failed) rest
