-- ===== src/Executor/Admitted.antt =====
-- `Execute` calls the container client exactly for the admissible calls.
use tos_ai.Executor.Admission.{
  AreFreshHosts, IsGpuPermitted, IsNetworkPermitted, IsProcessBounded, IsUnprivileged,
  check_gpu_iff, check_hosts_iff, check_network_iff, check_privileges_iff, check_process_iff,
  contains_text_iff, within_ceiling_iff,
}
use tos_ai.Executor.Confinement.{AreWithin, IsOneOf}
use tos_ai.Executor.Execute.{
  ClientOutcome, ContextAnswers, admit_request, execute, execution_digest, new_policy_executor,
  request_for,
}
use tos_ai.Executor.Hosts.{Library, validate_network_hosts}
use tos_ai.Executor.Policy.{validate, validate_policy}
use tos_ai.Executor.Spec.{ContainerRequest, Policy, Spec}
use tos_ai.Prelude.{
  Bool, [], arith, false, inl, inr, length, ok, refl, true, ◌++◌, ◌∷◌, ◌<◌, ◌≡◌, ◌≢◌, ◌≤◌,
}
use tos_ai.Prelude.Results.{Result-cases}
use tos_ai.Prelude.Text.{Bytes, codes, hex_encode, is_digest, sha256_prefix}

-- The name under which the container runtime knows an execution.
abbrev pub identity_digest : Library → Bytes → Bytes
identity_digest lib id =
    sha256_prefix ++ hex_encode (lib.sha256 (codes "TOS-AI-EXECUTION-ID-V1" ++ 0 ∷ id))

module _ (lib : Library) (p : Policy) where
  -- A specification that the policy permits.
  pub record IsPermitted (spec : Spec) : Type 0 where
    pub image : (is_digest spec.image_digest ≡ true) × IsOneOf spec.image_digest p.allowed_images
    pub process : IsProcessBounded lib p spec
    pub hosts : AreFreshHosts lib p.max_string_bytes [] spec.allowed_hosts
    pub privileges : IsUnprivileged p spec
    pub network : IsNetworkPermitted p spec spec.network spec.allowed_hosts
    pub gpu : IsGpuPermitted p spec
    pub limits : AreWithin spec.limits p.ceiling

  -- A call with a live context, an identity and an input within their bounds, and a permitted specification.
  pub record IsAdmissible (ctx : ContextAnswers) (id : Bytes) (spec : Spec) (input : Bytes)
      : Type 0 where
    pub context : (ctx.is_nil ≡ false) × (ctx.cancelled_before ≡ false)
    pub identity : (0 < length id) × (length id ≤ 128)
    pub size : length input ≤ p.max_input_bytes
    pub permitted : IsPermitted spec

  module _ (sound : validate_policy lib p ≡ ok tt) where
    validate-IsPermitted : (spec : Spec) → validate lib p spec ≡ ok tt → IsPermitted spec
    unfolding validate validate_network_hosts
    validate-IsPermitted spec h = record {
      image = ground (arith, contains_text_iff spec.image_digest p.allowed_images);
      process = (check_process_iff lib p spec).0 (ground arith);
      hosts = (check_hosts_iff lib p.max_string_bytes [] spec.allowed_hosts).0 (ground arith);
      privileges = (check_privileges_iff p spec).0 (ground arith);
      network = (check_network_iff p spec spec.network spec.allowed_hosts).0 (ground arith);
      gpu = (check_gpu_iff p spec).0 (ground arith);
      limits = (within_ceiling_iff p spec spec.limits p.ceiling).0 (ground arith);
    }

    IsPermitted-validate : (spec : Spec) → IsPermitted spec → validate lib p spec ≡ ok tt
    unfolding validate validate_network_hosts
    IsPermitted-validate spec i =
        let listed = (contains_text_iff spec.image_digest p.allowed_images).1 i.image.1 in
        let process = (check_process_iff lib p spec).1 i.process in
        let hosts = (check_hosts_iff lib p.max_string_bytes [] spec.allowed_hosts).1 i.hosts in
        let privileges = (check_privileges_iff p spec).1 i.privileges in
        let network = (check_network_iff p spec spec.network spec.allowed_hosts).1 i.network in
        let gpu = (check_gpu_iff p spec).1 i.gpu in
        let limits = (within_ceiling_iff p spec spec.limits p.ceiling).1 i.limits in
        ground (arith, sound, i.image, listed, process, hosts, privileges, network, gpu, limits)

    module _ (ctx : ContextAnswers) (id : Bytes) (spec : Spec) (input : Bytes) where
      admit_request-IsAdmissible :
          (r : ContainerRequest)
          → admit_request lib p ctx id spec input ≡ ok r
          → IsAdmissible ctx id spec input
      unfolding admit_request execution_digest
      admit_request-IsAdmissible r h = record {
        context = ground arith;
        identity = ground arith;
        size = ground arith;
        permitted = validate-IsPermitted spec (ground arith);
      }

      IsAdmissible-admit_request :
          IsAdmissible ctx id spec input
          → admit_request lib p ctx id spec input
            ≡ ok (request_for lib (identity_digest lib id) spec)
      unfolding admit_request execution_digest
      IsAdmissible-admit_request a =
          let valid = IsPermitted-validate spec a.permitted in
          ground (arith, a.context, a.identity, a.size, valid)

new_policy_executor_sound :
    (lib : Library) (q p : Policy) (client_is_nil : Bool)
    → new_policy_executor lib q client_is_nil ≡ ok p
    → validate_policy lib p ≡ ok tt
unfolding new_policy_executor
new_policy_executor_sound lib q p client_is_nil h = ground arith

-- An executor that NewPolicyExecutor has returned: `Execute` makes exactly one call of the client for an
-- admissible call, with the specification's request under the hashed identity, and a call for which it makes any
-- call of the client is admissible. Admissible is a live context, an identity of 1 to 128 bytes, an input within
-- the policy's bound, and a permitted specification: a pinned and listed image; a command, an environment, hosts
-- and a directory within their bounds and well formed, and no host mounts; no privileges, socket, root user or
-- group, and a read-only root where it is required; a permitted network and permitted devices; and every limit
-- positive and within the ceiling.
pub execute-calls :
    (lib : Library) (client : ContainerRequest → Bytes → ClientOutcome) (q p : Policy)
    (client_is_nil : Bool) (ctx : ContextAnswers) (id : Bytes) (spec : Spec) (input : Bytes)
    → new_policy_executor lib q client_is_nil ≡ ok p
    → let (requests, _) = execute lib client p ctx id spec input in
      (IsAdmissible lib p ctx id spec input
        → requests ≡ request_for lib (identity_digest lib id) spec ∷ [])
      × (requests ≢ [] → IsAdmissible lib p ctx id spec input)
unfolding execute
execute-calls lib client q p client_is_nil ctx id spec input made =
    let sound = new_policy_executor_sound lib q p client_is_nil made in
    (
      λ a. rw (IsAdmissible-admit_request lib p sound ctx id spec input a, execute) refl,
      λ some_call. elim (Result-cases (admit_request lib p ctx id spec input)) [
        | inl (e, refused) ↦ absurd (some_call (rw (refused, execute) refl))
        | inr (r, admitted) ↦ admit_request-IsAdmissible lib p sound ctx id spec input r admitted
      ],
    )
