-- ===== src/Guard/Evaluation.antt =====
-- The checks of the resource monitor against their description over unbounded numbers.
use tos_ai.Guard.{
  Device, GpuStatus, Report, admit, available, is_available, minimum_observed_ram, total_vram,
}
use tos_ai.Prelude.{
  List, [], arith, inl, inr, ok, refl, true, ℕ, ◌%◌, ◌+◌, ◌-◌, ◌/◌, ◌<◌, ◌^◌, ◌↔◌, ◌∷◌, ◌≡◌, ◌≢◌,
  ◌≤◌, ◌⊎◌,
}
use tos_ai.Prelude.Results.{Result-cases}

abbrev pub sum_vram : List Device → ℕ
sum_vram [] = 0
sum_vram (d ∷ ds) = d.vram_bytes + sum_vram ds

abbrev pub AreSane : List Device → Type 0
AreSane [] = Unit {0}
AreSane (d ∷ ds) = (0 < d.vram_bytes) × (d.vram_used_bytes ≤ d.vram_bytes) × AreSane ds

total_vram_sound :
    (total t : ℕ) (ds : List Device)
    → total < 2 ^ 64
    → total_vram total ds ≡ ok t
    → AreSane ds × (t ≡ total + sum_vram ds) × (t < 2 ^ 64)
unfolding total_vram
total_vram_sound total t [] fits h = ground arith
total_vram_sound total t (d ∷ ds) fits h =
    ground (arith, total_vram_sound ((total + d.vram_bytes) % 2 ^ 64) t ds)

total_vram_complete :
    (total : ℕ) (ds : List Device)
    → AreSane ds
    → total + sum_vram ds < 2 ^ 64
    → total_vram total ds ≡ ok (total + sum_vram ds)
unfolding total_vram
total_vram_complete total [] sane fits = ground arith
total_vram_complete total (d ∷ ds) sane fits =
    ground (arith, total_vram_complete ((total + d.vram_bytes) % 2 ^ 64) ds)

-- What the monitor asks of a report: three quarters of the memory cover the required one, and the
-- devices, each with some memory and no more in use than it has, hold the required memory together.
pub record IsAdequate (report : Report) (required_ram required_vram : ℕ) : Type 0 where
  pub observed : minimum_observed_ram ≤ report.memory_bytes
  pub memory : required_ram ≤ report.memory_bytes - report.memory_bytes / 4
  pub gpu :
      (required_vram ≡ 0)
      ⊎ ((report.gpu_status ≡ available)
          × (report.driver_version ≢ [])
          × (report.devices ≢ [])
          × AreSane report.devices
          × (sum_vram report.devices < 2 ^ 64)
          × (required_vram ≤ sum_vram report.devices))

is_available→eq : (s : GpuStatus) → is_available s ≡ true → s ≡ available
is_available→eq available h = refl
is_available→eq _ h = cc

-- The monitor's checks pass exactly on the adequate reports; its 64-bit sum never wraps.
pub admit_iff :
    (report : Report) (required_ram required_vram : ℕ)
    → (admit report required_ram required_vram ≡ ok tt)
      ↔ IsAdequate report required_ram required_vram
unfolding admit
admit_iff report required_ram required_vram = (
  λ h. record {
    observed = ground arith;
    memory = ground arith;
    gpu = elim (Result-cases (total_vram 0 report.devices)) [
      | inl (e, bad) ↦ ground arith
      | inr (t, got) ↦
          ground (arith, total_vram_sound 0 t report.devices, is_available→eq report.gpu_status)
    ];
  },
  λ h. ground (arith, total_vram_complete 0 report.devices),
)
