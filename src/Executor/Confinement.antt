-- ===== src/Executor/Confinement.antt =====
-- What reaches the container runtime, and what comes back from it.
use tos_ai.Executor.Execute.{
  ClientOutcome, ContextAnswers, accept_outcome, admit_request, exceeds_limits, execute,
  execution_digest, failed_or_panicked, request_for, returned,
}
use tos_ai.Executor.Hosts.{Library, contains_text}
use tos_ai.Executor.Policy.{check_gpu, check_network, check_privileges, validate, within_ceiling}
use tos_ai.Executor.Spec.{
  ContainerRequest, Execution, Limits, NetworkMode, Policy, Spec, network_allowlist, network_none,
  other_mode,
}
use tos_ai.Prelude.{
  Bool, List, [], any, arith, false, inl, inr, length, not, ok, refl, subst, true, ◌<◌, ◌∷◌, ◌≡◌,
  ◌≢◌, ◌≤◌, ◌⊎◌,
}
use tos_ai.Prelude.Int.{neg_part, pos_part}
use tos_ai.Prelude.Results.{Result-cases}
use tos_ai.Prelude.Text.{Bytes, bytes_eq_iff, is_digest}

-- `x` is one of the texts.
abbrev pub IsOneOf : Bytes → List Bytes → Type 0
IsOneOf x [] = ⊥
IsOneOf x (y ∷ ys) = (x ≡ y) ⊎ IsOneOf x ys

abbrev pub AreAmong : List Bytes → List Bytes → Type 0
AreAmong [] ys = Unit {0}
AreAmong (x ∷ xs) ys = IsOneOf x ys × AreAmong xs ys

contains_text-IsOneOf : (ys : List Bytes) (x : Bytes) → contains_text ys x ≡ true → IsOneOf x ys
contains_text-IsOneOf [] x h = cc
contains_text-IsOneOf (y ∷ ys) x h = ground (arith, bytes_eq_iff y x, contains_text-IsOneOf ys x)

all_contained :
    (ys xs : List Bytes) → any (λ x. not (contains_text ys x)) xs ≡ false → AreAmong xs ys
all_contained ys [] h = tt
all_contained ys (x ∷ xs) h = ground (arith, contains_text-IsOneOf ys x, all_contained ys xs)

pub record AreWithin (l ceiling : Limits) : Type 0 where
  pub cpu : (0 < l.cpu_millis) × (l.cpu_millis ≤ ceiling.cpu_millis)
  pub memory : (0 < l.memory_bytes) × (l.memory_bytes ≤ ceiling.memory_bytes)
  pub disk : (0 < l.disk_bytes) × (l.disk_bytes ≤ ceiling.disk_bytes)
  pub output : (0 < l.output_bytes) × (l.output_bytes ≤ ceiling.output_bytes)
  pub processes : (0 < l.pids) × (l.pids ≤ ceiling.pids)
  pub time :
      (0 < pos_part l.execution_time)
      × (pos_part l.execution_time ≤ pos_part ceiling.execution_time)

-- A request within a policy, described apart from the code that checks it.
pub record IsConfined (p : Policy) (r : ContainerRequest) : Type 0 where
  pub image : (is_digest r.image_digest ≡ true) × IsOneOf r.image_digest p.allowed_images
  pub identity : (0 < r.user_id) × (0 < r.group_id)
  pub privileges : r.no_new_privileges ≡ true
  pub root : p.require_read_only_root ≡ true → r.read_only_root ≡ true
  pub network :
      ((r.network ≡ network_none) × (r.allowed_hosts ≡ []))
      ⊎ ((r.network ≡ network_allowlist)
          × (p.permit_network ≡ true)
          × (r.allowed_hosts ≢ [])
          × AreAmong r.allowed_hosts p.allowed_network_hosts)
  pub gpu :
      ((r.allow_gpu ≡ false) × (r.limits.gpu_device_count ≡ 0))
      ⊎ ((p.permit_gpu ≡ true)
          × (0 < r.limits.gpu_device_count)
          × (r.limits.gpu_device_count ≤ p.ceiling.gpu_device_count))
  pub limits : AreWithin r.limits p.ceiling

within_ceiling-AreWithin :
    (l ceiling : Limits) → within_ceiling l ceiling ≡ ok tt → AreWithin l ceiling
unfolding within_ceiling
within_ceiling-AreWithin l ceiling h = ground arith

module _ (p : Policy) (spec : Spec) where
  check_privileges-lem :
      (required : Bool)
      → check_privileges required spec ≡ ok tt
      → (0 < spec.user_id)
        × (0 < spec.group_id)
        × (spec.no_new_privileges ≡ true)
        × (required ≡ true → spec.read_only_root ≡ true)
  unfolding check_privileges
  check_privileges-lem required h = ground arith

  check_network-lem :
      (mode : NetworkMode) (hosts : List Bytes)
      → check_network p mode hosts ≡ ok tt
      → ((mode ≡ network_none) × (hosts ≡ []))
        ⊎ ((mode ≡ network_allowlist)
            × (p.permit_network ≡ true)
            × (hosts ≢ [])
            × AreAmong hosts p.allowed_network_hosts)
  unfolding check_network
  check_network-lem network_none hosts h = ground arith
  check_network-lem network_allowlist hosts h =
      ground (arith, all_contained p.allowed_network_hosts hosts)
  check_network-lem (other_mode t) hosts h = cc

  check_gpu-lem :
      check_gpu p spec ≡ ok tt
      → ((spec.allow_gpu ≡ false) × (spec.limits.gpu_device_count ≡ 0))
        ⊎ ((p.permit_gpu ≡ true)
            × (0 < spec.limits.gpu_device_count)
            × (spec.limits.gpu_device_count ≤ p.ceiling.gpu_device_count))
  unfolding check_gpu
  check_gpu-lem h = ground arith

module _ (lib : Library) (p : Policy) (spec : Spec) where
  validate-parts :
      validate lib p spec ≡ ok tt
      → (is_digest spec.image_digest ≡ true)
        × (contains_text p.allowed_images spec.image_digest ≡ true)
        × (check_privileges p.require_read_only_root spec ≡ ok tt)
        × (check_network p spec.network spec.allowed_hosts ≡ ok tt)
        × (check_gpu p spec ≡ ok tt)
        × (within_ceiling spec.limits p.ceiling ≡ ok tt)
  unfolding validate
  validate-parts h = ground arith

  validate-IsConfined :
      (digest : Bytes) → validate lib p spec ≡ ok tt → IsConfined p (request_for lib digest spec)
  validate-IsConfined digest h =
      let (pinned, listed, privileges, network, gpu, limits) = validate-parts h in
      let (user, group, no_new, root) =
        check_privileges-lem p spec p.require_read_only_root privileges in
      record {
        image = (pinned, contains_text-IsOneOf p.allowed_images spec.image_digest listed);
        identity = (user, group);
        privileges = no_new;
        root = root;
        network = check_network-lem p spec spec.network spec.allowed_hosts network;
        gpu = check_gpu-lem p spec gpu;
        limits = within_ceiling-AreWithin spec.limits p.ceiling limits;
      }

-- The output and the usage of a result are within limits.
pub record IsUsageWithin (r : Execution) (limits : Limits) : Type 0 where
  pub output : length r.output ≤ limits.output_bytes
  pub cpu : r.usage.cpu_millis ≤ limits.cpu_millis
  pub memory : r.usage.peak_memory ≤ limits.memory_bytes
  pub disk : r.usage.disk_written ≤ limits.disk_bytes
  pub duration : pos_part r.usage.duration ≤ pos_part limits.execution_time

abbrev pub AllConfined : Policy → List ContainerRequest → Type 0
AllConfined p [] = Unit {0}
AllConfined p (r ∷ rs) = IsConfined p r × AllConfined p rs

module _ (lib : Library) (client : ContainerRequest → Bytes → ClientOutcome) (p : Policy)
    (ctx : ContextAnswers) (id : Bytes) (spec : Spec) (input : Bytes) where
  admit_request-parts :
      (r : ContainerRequest)
      → admit_request lib p ctx id spec input ≡ ok r
      → (validate lib p spec ≡ ok tt) × (digest : Bytes) × (r ≡ request_for lib digest spec)
  unfolding admit_request
  admit_request-parts r h = elim (Result-cases (execution_digest lib id)) [
    | inl (e, refused) ↦ ground arith
    | inr (digest, accepted) ↦ (ground arith, digest, ground arith)
  ]

  admit_request-IsConfined :
      (r : ContainerRequest)
      → admit_request lib p ctx id spec input ≡ ok r
      → IsConfined p r × (r.limits ≡ spec.limits)
  admit_request-IsConfined r h =
      let (valid, digest, e) = admit_request-parts r h in
      rw (e) (validate-IsConfined lib p spec digest valid, refl)

  accept_outcome-bounds :
      (limits : Limits) (outcome : ClientOutcome) (r : Execution)
      → accept_outcome lib limits ctx outcome ≡ ok r
      → (pos_part r.exit_code ≤ 255)
        × (neg_part r.exit_code ≡ 0)
        × (length r.output ≤ limits.output_bytes)
        × (r.usage.cpu_millis ≤ limits.cpu_millis)
        × (r.usage.peak_memory ≤ limits.memory_bytes)
        × (r.usage.disk_written ≤ limits.disk_bytes)
        × (neg_part r.usage.duration ≡ 0)
        × (pos_part r.usage.duration ≤ pos_part limits.execution_time)
  unfolding accept_outcome exceeds_limits
  accept_outcome-bounds limits failed_or_panicked r h = ground arith
  accept_outcome-bounds limits (returned r') r h = ground arith

  -- Whatever the specification and the input, `Execute` calls the client at most once, and only with a
  -- request within the policy: a pinned and listed image, no root user, no new privileges, a read-only
  -- root where it is required, no network or listed hosts only, devices as permitted, and every limit
  -- positive and within the ceiling.
  pub execute-IsConfined :
      let (requests, _) = execute lib client p ctx id spec input in
      (length requests ≤ 1) × AllConfined p requests
  unfolding execute
  execute-IsConfined = elim (Result-cases (admit_request lib p ctx id spec input)) [
    | inl (e, h) ↦ rw (h, execute) (omega arith, tt)
    | inr (r, h) ↦ rw (h, execute) (omega arith, ((admit_request-IsConfined r h).0, tt))
  ]

  -- A result that `Execute` returns has an exit code of one byte, and an output, a processor time, a memory
  -- peak, written bytes and a duration each within the limits of the specification, and each within the
  -- ceiling of the policy. The duration is not negative.
  pub execute-bounds :
      (r : Execution)
      → (execute lib client p ctx id spec input).1 ≡ ok r
      → (pos_part r.exit_code ≤ 255)
        × (neg_part r.exit_code ≡ 0)
        × (neg_part r.usage.duration ≡ 0)
        × IsUsageWithin r spec.limits
        × IsUsageWithin r p.ceiling
  unfolding execute
  execute-bounds r h = elim (Result-cases (admit_request lib p ctx id spec input)) [
    | inl (e, refused) ↦ ground arith
    | inr (q, admitted) ↦
        let (confined, same) = admit_request-IsConfined q admitted in
        let within : AreWithin spec.limits p.ceiling =
          subst (λ l. AreWithin l p.ceiling) same confined.limits in
        let returns : accept_outcome lib spec.limits ctx (client q input) ≡ ok r = ground arith in
        let bounds = accept_outcome-bounds spec.limits (client q input) r returns in
        ground (arith, bounds, within.cpu, within.memory, within.disk, within.output, within.time)
  ]
