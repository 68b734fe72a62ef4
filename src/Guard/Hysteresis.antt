-- ===== src/Guard/Hysteresis.antt =====
-- How many samples in a row the resource monitor takes to change its mind.
use tos_ai.Guard.{
  Guard, GuardConfig, Report, Sample, admit, evaluate, new, passes, record_bad, record_good,
  record_sample, run_samples, status_degraded, status_ready,
}
use tos_ai.Prelude.{
  Bool, Bool-cases, List, [], all, arith, false, if◌then◌else◌, inl, inr, leb, length, ltb, not, ok,
  true, ◌&&◌, ◌+◌, ◌<◌, ◌||◌, ◌∷◌, ◌≡◌, ◌≤◌,
}

-- What `record` counts as a good sample.
abbrev pub is_good : GuardConfig → Sample → Bool
is_good config (report, failed) =
    not failed && passes (admit report config.required_ram config.required_vram)

pub record IsSettled (g : Guard) : Type 0 where
  pub failures : g.failures ≤ g.config.failure_threshold
  pub recoveries : g.recoveries < g.config.recovery_threshold
  pub ready_now :
      g.health.ready ≡ true
      → (g.recoveries ≡ 0)
        × (g.failures < g.config.failure_threshold)
        × (g.health.status ≡ status_ready)
  pub degraded_now : g.health.ready ≡ false → g.health.status ≡ status_degraded

record_sample-config :
    (g : Guard) (report : Report) (failed : Bool)
    → (record_sample g report failed).config ≡ g.config
unfolding record_sample record_good record_bad
record_sample-config g report failed = ground arith

record_sample-IsSettled :
    (g : Guard) (report : Report) (failed : Bool)
    → 0 < g.config.failure_threshold
    → 0 < g.config.recovery_threshold
    → IsSettled g
    → IsSettled (record_sample g report failed)
unfolding record_sample record_good record_bad evaluate
record_sample-IsSettled g report failed f r h = ground arith

run_samples-keeps :
    (g : Guard) (ss : List Sample)
    → 0 < g.config.failure_threshold
    → 0 < g.config.recovery_threshold
    → IsSettled g
    → IsSettled (run_samples g ss)
unfolding run_samples
run_samples-keeps g [] f r h = h
run_samples-keeps g ((report, failed) ∷ ss) f r h =
    let same = record_sample-config g report failed in
    run_samples-keeps (record_sample g report failed) ss (rw same f) (rw same r)
      (record_sample-IsSettled g report failed f r h)

new-IsSettled :
    (config : GuardConfig) (g : Guard)
    → new config ≡ ok g
    → (0 < g.config.failure_threshold) × (0 < g.config.recovery_threshold) × IsSettled g
unfolding new evaluate
new-IsSettled config g h = ground arith

-- From a monitor that `New` returned, any samples keep both counts within their thresholds and the
-- status in step with readiness.
pub run_samples-IsSettled :
    (config : GuardConfig) (g : Guard) (ss : List Sample)
    → new config ≡ ok g
    → IsSettled (run_samples g ss)
run_samples-IsSettled config g ss h =
    let (f, r, settled) = new-IsSettled config g h in run_samples-keeps g ss f r settled

-- A good sample, and a bad one, as the counters see them.
record_sample-bad :
    (g : Guard) (s : Sample)
    → is_good g.config s ≡ false
    → let h = record_sample g s.0 s.1 in
      (h.health.ready ≡ (g.health.ready && ltb (g.failures + 1) g.config.failure_threshold))
      × (h.failures ≡ (
          if leb g.config.failure_threshold (g.failures + 1)
          then g.config.failure_threshold
          else g.failures + 1))
unfolding record_sample record_bad evaluate
record_sample-bad g s b = ground arith

record_sample-good :
    (g : Guard) (s : Sample)
    → is_good g.config s ≡ true
    → let h = record_sample g s.0 s.1 in
      (h.health.ready ≡ (g.health.ready || leb g.config.recovery_threshold (g.recoveries + 1)))
      × (h.failures ≡ 0)
      × (g.health.ready ≡ false → h.health.ready ≡ false → h.recoveries ≡ g.recoveries + 1)
unfolding record_sample record_good evaluate
record_sample-good g s b = ground arith

stays_degraded :
    (g : Guard) (ss : List Sample)
    → g.health.ready ≡ false
    → all (λ s. not (is_good g.config s)) ss ≡ true
    → (run_samples g ss).health.ready ≡ false
unfolding run_samples
stays_degraded g [] h bad = h
stays_degraded g ((report, failed) ∷ ss) h bad =
    let same = record_sample-config g report failed in
    stays_degraded (record_sample g report failed) ss
      (ground (arith, record_sample-bad g (report, failed))) (rw same (ground arith))

-- From a ready monitor with `failures` bad samples counted, a row of bad samples keeps it ready exactly
-- as long as the count stays below the failure threshold.
pub bad_samples_degrade :
    (g : Guard) (ss : List Sample)
    → g.health.ready ≡ true
    → g.failures < g.config.failure_threshold
    → all (λ s. not (is_good g.config s)) ss ≡ true
    → (run_samples g ss).health.ready ≡ ltb (g.failures + length ss) g.config.failure_threshold
unfolding run_samples
bad_samples_degrade g [] h f bad = ground arith
bad_samples_degrade g ((report, failed) ∷ ss) h f bad =
    let g' = record_sample g report failed in
    let same = record_sample-config g report failed in
    let bad' : all (λ s. not (is_good g'.config s)) ss ≡ true = rw same (ground arith) in
    elim (Bool-cases (ltb (g.failures + 1) g.config.failure_threshold)) [
      | inl below ↦ ground (arith, record_sample-bad g (report, failed), bad_samples_degrade g' ss)
      | inr reached ↦ ground (arith, record_sample-bad g (report, failed), stays_degraded g' ss)
    ]

stays_ready :
    (g : Guard) (ss : List Sample)
    → g.health.ready ≡ true
    → all (is_good g.config) ss ≡ true
    → (run_samples g ss).health.ready ≡ true
unfolding run_samples
stays_ready g [] h good = h
stays_ready g ((report, failed) ∷ ss) h good =
    let same = record_sample-config g report failed in
    stays_ready (record_sample g report failed) ss
      (ground (arith, record_sample-good g (report, failed))) (rw same (ground arith))

-- From a degraded monitor with `recoveries` good samples counted, a row of good samples makes it ready
-- exactly when the count reaches the recovery threshold.
pub good_samples_recover :
    (g : Guard) (ss : List Sample)
    → g.health.ready ≡ false
    → g.recoveries < g.config.recovery_threshold
    → all (is_good g.config) ss ≡ true
    → (run_samples g ss).health.ready ≡ leb g.config.recovery_threshold (g.recoveries + length ss)
unfolding run_samples
good_samples_recover g [] h r good = ground arith
good_samples_recover g ((report, failed) ∷ ss) h r good =
    let g' = record_sample g report failed in
    let same = record_sample-config g report failed in
    let good' : all (is_good g'.config) ss ≡ true = rw same (ground arith) in
    elim (Bool-cases (leb g.config.recovery_threshold (g.recoveries + 1))) [
      | inl reached ↦ ground (arith, record_sample-good g (report, failed), stays_ready g' ss)
      | inr below ↦
          ground (arith, record_sample-good g (report, failed), good_samples_recover g' ss)
    ]
