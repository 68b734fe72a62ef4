-- ===== src/Examples/Guarding.antt =====
-- A monitor of internal/resourceguard/guard.go on a host with 1 GiB of memory.
use tos_ai.Guard.{
  Guard, GuardConfig, Report, Sample, admit, evaluate, new, no_devices, run_samples,
  status_degraded, status_ready,
}
use tos_ai.Guard.Evaluation.{IsAdequate, admit_iff}
use tos_ai.Guard.Hysteresis.{
  IsSettled, bad_samples_degrade, good_samples_recover, is_good, run_samples-IsSettled,
}
use tos_ai.Prelude.{[], all, arith, false, not, ok, refl, true, ℕ, ◌^◌, ◌↔◌, ◌∷◌, ◌≡◌}

abbrev report_of : ℕ → Report
report_of memory = record {
  memory_bytes = memory;
  gpu_status = no_devices;
  driver_version = [];
  devices = [];
}

abbrev good_sample : Sample
good_sample = (report_of (2 ^ 30), false)

abbrev bad_sample : Sample
bad_sample = (report_of 1000, false)

abbrev config : GuardConfig
config = record {
  interval = 2_000_000_000;
  timeout = 1_000_000_000;
  failure_threshold = 2;
  recovery_threshold = 2;
  required_ram = 2 ^ 28;
  required_vram = 0;
  initial = report_of (2 ^ 30);
  has_sampler = true;
}

abbrev ready_guard : Guard
ready_guard = record {
  config = config;
  health = record { ready = true; status = status_ready; gpu = no_devices };
  failures = 0;
  recoveries = 0;
}

abbrev degraded_guard : Guard
degraded_guard = record {
  config = config;
  health = record { ready = false; status = status_degraded; gpu = no_devices };
  failures = 2;
  recoveries = 0;
}

starts : new config ≡ ok ready_guard
unfolding new evaluate admit
starts = refl

run_samples-IsSettled_example :
    IsSettled (run_samples ready_guard (bad_sample ∷ bad_sample ∷ good_sample ∷ []))
run_samples-IsSettled_example =
    run_samples-IsSettled config ready_guard (bad_sample ∷ bad_sample ∷ good_sample ∷ []) starts

two_bad : all (λ s. not (is_good config s)) (bad_sample ∷ bad_sample ∷ []) ≡ true
unfolding admit
two_bad = refl

two_good : all (is_good config) (good_sample ∷ good_sample ∷ []) ≡ true
unfolding admit
two_good = refl

bad_samples_degrade_example :
    (run_samples ready_guard (bad_sample ∷ bad_sample ∷ [])).health.ready ≡ false
bad_samples_degrade_example =
    bad_samples_degrade ready_guard (bad_sample ∷ bad_sample ∷ []) refl (omega arith) two_bad

good_samples_recover_example :
    (run_samples degraded_guard (good_sample ∷ good_sample ∷ [])).health.ready ≡ true
good_samples_recover_example =
    good_samples_recover degraded_guard (good_sample ∷ good_sample ∷ []) refl (omega arith) two_good

admit_iff_example :
    (admit (report_of (2 ^ 30)) (2 ^ 28) 0 ≡ ok tt) ↔ IsAdequate (report_of (2 ^ 30)) (2 ^ 28) 0
admit_iff_example = admit_iff (report_of (2 ^ 30)) (2 ^ 28) 0
