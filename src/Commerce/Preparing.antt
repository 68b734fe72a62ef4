-- ===== src/Commerce/Preparing.antt =====
-- `preparePlan` of pkg/commercegate/gate.go: a plan with its bindings sorted and checked, its writer and its
-- execution identity. `sort.Slice` is an insertion sort: a plan in which two keys are equal is refused, so
-- which sort it is makes no difference to a plan that is accepted. That the caller's own slices are reordered
-- with it is not modelled.
use tos_ai.Commerce.Plan.{
  Authority, AuthorizedAction, CredentialBinding, EffectBinding, FileBinding, GateError, IpTraits,
  LeaseLossPolicy, NetworkBinding, Plan, PlanKit, SemanticFields, Ticket, WriterFence,
  bad_credential_binding, bad_effect_binding, bad_file_binding, bad_network_binding, digest32, id,
  identity_failed, incomplete_plan, marshal_failed, other_policy, plan_digest_failed, u64,
  valid_digest,
}
use tos_ai.Prelude.{
  Bool, List, Option, Result, [], err, false, if◌then◌else◌, leb, length, ltb, none, not, ok,
  reject_if, some, true, ℕ, ◌&&◌, ◌==◌, ◌||◌, ◌∷◌,
}
use tos_ai.Prelude.Results.{◌>>=◌, ◌>>◌}
use tos_ai.Prelude.Sorting.{bytes_lt, sort_by}
use tos_ai.Prelude.Text.{Bytes, bytes_eq, codes, has_prefix}

module _ {A : Type 0} (key : A → Bytes) where
  -- The first element passes the test, and so does each further one, whose key is not that of the one before.
  unfoldable pub follow : (A → Bool) → A → List A → Bool
  follow valid previous [] = true
  follow valid previous (x ∷ xs) =
      valid x && not (bytes_eq (key previous) (key x)) && follow valid x xs

  unfoldable pub valid_bindings : (A → Bool) → List A → Bool
  valid_bindings valid [] = true
  valid_bindings valid (x ∷ xs) = valid x && follow valid x xs

abbrev pub file_key : FileBinding → Bytes
file_key b = b.path

abbrev pub network_key : NetworkBinding → Bytes
network_key b = b.binding_id

abbrev pub credential_key : CredentialBinding → Bytes
credential_key b = b.handle_id

abbrev pub effect_key : EffectBinding → Bytes
effect_key b = b.plan_effect_id

-- `sort.StringsAreSorted`
unfoldable pub strings_are_sorted : List Bytes → Bool
strings_are_sorted [] = true
strings_are_sorted (x ∷ []) = true
strings_are_sorted (x ∷ y ∷ ys) = not (bytes_lt y x) && strings_are_sorted (y ∷ ys)

-- `publicIP`
unfoldable pub public_ip : Option IpTraits → Bool
public_ip none = false
public_ip (some ip) =
    ip.global_unicast
    && not ip.private
    && not ip.loopback
    && not ip.link_local_unicast
    && not ip.link_local_multicast

unfoldable pub known_policy : LeaseLossPolicy → Bool
known_policy (other_policy text) = false
known_policy _ = true

unfoldable pub known_operation : Bytes → Bool
known_operation operation =
    bytes_eq operation (codes "https.get")
    || bytes_eq operation (codes "https.post")
    || bytes_eq operation (codes "https.put")
    || bytes_eq operation (codes "https.delete")

abbrev pub max_plan_files : ℕ
max_plan_files = 256

-- 1 << 30
abbrev pub max_input_file_bytes : ℕ
max_input_file_bytes = 1073741824

abbrev pub max_plan_network_targets : ℕ
max_plan_network_targets = 64

abbrev pub max_plan_credentials : ℕ
max_plan_credentials = 64

abbrev pub max_plan_effects : ℕ
max_plan_effects = 256

-- The binding under an identifier, by a look-up in the map that `preparePlan` makes.
unfoldable pub find_network : Bytes → List NetworkBinding → Option NetworkBinding
find_network name [] = none
find_network name (b ∷ bs) = if bytes_eq b.binding_id name then some b else find_network name bs

unfoldable pub find_credential : Bytes → List CredentialBinding → Option CredentialBinding
find_credential name [] = none
find_credential name (b ∷ bs) =
    if bytes_eq b.handle_id name then some b else find_credential name bs

unfoldable pub incomplete : Plan → WriterFence → Bool
incomplete plan fence =
    not (bytes_eq plan.owner_id fence.owner_id)
    || not (bytes_eq plan.agent_id fence.agent_id)
    || (length plan.agreement_body_digest == 0)
    || (length plan.execution_obligation_id == 0)
    || (length plan.accepted_input_manifest_digest == 0)
    || (length plan.reservation_id == 0)
    || (plan.policy_revision == 0)
    || ltb max_plan_files (length plan.files)
    || ltb max_plan_network_targets (length plan.network_bindings)
    || ltb max_plan_credentials (length plan.credential_bindings)
    || ltb max_plan_effects (length plan.effect_bindings)
    || not (known_policy plan.lease_loss_policy)

unfoldable pub valid_credential : CredentialBinding → Bool
valid_credential b =
    not (length b.handle_id == 0) && valid_digest b.scope_digest && not (b.expires_at_unix == 0)

unfoldable pub valid_network_shape : NetworkBinding → Bool
valid_network_shape b =
    not (length b.binding_id == 0)
    && bytes_eq b.scheme (codes "https")
    && not (length b.host == 0)
    && not (b.port == 0)
    && bytes_eq b.tls_server_name b.host
    && not b.allow_redirects
    && not (b.max_request_bytes == 0)
    && leb b.max_request_bytes 16777216
    && not (b.max_response_bytes == 0)
    && leb b.max_response_bytes 67108864
    && not (length b.resolved_ips == 0)
    && leb (length b.resolved_ips) 16
    && strings_are_sorted b.resolved_ips

-- The bindings in the order of their keys, without the identity, under the fence's writer.
unfoldable pub arranged : Plan → WriterFence → Plan
arranged plan fence = record plan {
  writer_generation = fence.writer_generation;
  execution_id = [];
  canonical_plan_digest = [];
  files = sort_by file_key plan.files;
  network_bindings = sort_by network_key plan.network_bindings;
  credential_bindings = sort_by credential_key plan.credential_bindings;
  effect_bindings = sort_by effect_key plan.effect_bindings;
}

-- What the identity of an execution is derived from.
unfoldable pub slot_fields : Plan → Bytes → SemanticFields
slot_fields plan canonical =
    (codes "owner_id", id plan.owner_id)
    ∷ (codes "agent_id", id plan.agent_id)
    ∷ (codes "agreement_body_digest", digest32 plan.agreement_body_digest)
    ∷ (codes "execution_obligation_id", id plan.execution_obligation_id)
    ∷ (codes "canonical_plan_digest", digest32 canonical)
    ∷ (codes "accepted_input_manifest_digest", digest32 plan.accepted_input_manifest_digest)
    ∷ (codes "attempt_index", u64 plan.attempt_index)
    ∷ (
      codes "predecessor_terminal_resolution_digest",
      digest32 plan.predecessor_terminal_resolution_digest,
    )
    ∷ []

-- What a plan authorizes beside its own bytes.
unfoldable pub execution_fields : Plan → SemanticFields
execution_fields plan =
    (codes "owner_id", id plan.owner_id)
    ∷ (codes "agent_id", id plan.agent_id)
    ∷ (codes "execution_id", digest32 plan.execution_id)
    ∷ []

-- `value, err := f(); if err != nil { return err }`
abbrev pub or_fail {ℓ} : {A : Type ℓ} → GateError → Option A → Result GateError A
or_fail e none = err e
or_fail e (some a) = ok a

module _ (kit : PlanKit) where
  unfoldable pub valid_file : FileBinding → Bool
  valid_file b =
      has_prefix (codes "/") b.path
      && bytes_eq (kit.clean b.path) b.path
      && valid_digest b.digest
      && leb b.size max_input_file_bytes

  unfoldable pub valid_addresses : List Bytes → Bool
  valid_addresses ips = valid_bindings (λ text. text) (λ text. public_ip (kit.parse_ip text)) ips

  unfoldable pub valid_network : NetworkBinding → Bool
  valid_network b = valid_network_shape b && valid_addresses b.resolved_ips

  unfoldable pub valid_target : EffectBinding → Option NetworkBinding → Bool
  valid_target b none = false
  valid_target b (some network) =
      elim (kit.digest_network (codes "tos.executor-network-target.v1") network) [
        | none ↦ false
        | some digest ↦ bytes_eq b.target_digest digest
      ]

  unfoldable pub credential_found : Plan → EffectBinding → Bool
  credential_found plan b =
      (length b.credential_handle_id == 0)
      || elim (find_credential b.credential_handle_id plan.credential_bindings) [
        | none ↦ false
        | some found ↦ true
      ]

  unfoldable pub valid_effect : Plan → EffectBinding → Bool
  valid_effect plan b =
      not (length b.plan_effect_id == 0)
      && valid_digest b.effect_profile_digest
      && valid_digest b.target_digest
      && valid_digest b.effect_semantic_key_digest
      && known_operation b.operation_kind
      && valid_target b (find_network b.network_binding_id plan.network_bindings)
      && (b.maximum_uses == 1)
      && credential_found plan b

  -- The checks of the bindings, in the source's order; an address that is refused has the error of its binding.
  unfoldable pub check_bindings : Plan → Result GateError (Unit {0})
  check_bindings plan = do
    reject_if (not (valid_bindings file_key valid_file plan.files)) bad_file_binding
    reject_if (not (valid_bindings network_key valid_network plan.network_bindings))
        bad_network_binding
    reject_if (not (valid_bindings credential_key valid_credential plan.credential_bindings))
        bad_credential_binding
    reject_if (not (valid_bindings effect_key (valid_effect plan) plan.effect_bindings))
        bad_effect_binding

  -- The digest of the plan without its writer, and the identity that follows from it.
  unfoldable pub identify : Plan → Result GateError Plan
  identify plan = do
    canonical ← or_fail plan_digest_failed (
        kit.digest_plan (codes "tos.local-execution-plan.v1")
          (record plan { writer_generation = 0 }))
    execution_id ←
        or_fail identity_failed
          (kit.derive_action_id (codes "execution.slot") (slot_fields plan canonical))
    ok (record plan { canonical_plan_digest = canonical; execution_id = execution_id })

  -- `preparePlan`
  unfoldable pub prepare_plan : Plan → WriterFence → Result GateError (Plan × Bytes)
  prepare_plan plan fence = do
    reject_if (incomplete plan fence) incomplete_plan
    check_bindings (arranged plan fence)
    prepared ← identify (arranged plan fence)
    digest ←
        or_fail plan_digest_failed
          (kit.digest_plan (codes "tos.local-execution-plan-bound.v1") prepared)
    ok (prepared, digest)

  -- `prepareAuthorizationMaterial`
  unfoldable pub prepare_material : Plan → Result GateError (Bytes × SemanticFields)
  prepare_material prepared = do
    request ← or_fail marshal_failed (kit.marshal_plan prepared)
    ok (request, execution_fields prepared)

  -- `PrepareAuthorizationMaterial`
  unfoldable pub prepare_authorization_material :
      Plan → WriterFence → Result GateError (Plan × Bytes × SemanticFields)
  prepare_authorization_material plan fence = do
    prepared ← prepare_plan plan fence
    material ← prepare_material prepared.0
    ok (prepared.0, material.0, material.1)

  -- `startAuthorizationMaterial`
  unfoldable pub start_material : Plan → Ticket → Result GateError (Bytes × SemanticFields)
  start_material plan ticket = do
    request ← or_fail marshal_failed (kit.marshal_ticket ticket)
    ok (request, execution_fields plan)

-- Whether the request was marshalled, and the action is of the kind and verified for it.
unfoldable pub authorized :
    Bytes
    → Authority
    → ℕ
    → WriterFence
    → AuthorizedAction
    → Result GateError (Bytes × SemanticFields)
    → Bool
authorized wanted authority now fence action (err e) = false
authorized wanted authority now fence action (ok (request, fields)) =
    bytes_eq action.action_kind wanted && authority.verify_action action fields request fence now
