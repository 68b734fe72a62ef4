-- ===== src/Examples/Gating.antt =====
-- A commerce gate of pkg/commercegate with one plan of each kind of binding, and a toy encoding of its records.
use tos_ai.Commerce.Identity.{prepare_plan-prepare_plan, prepare_plan-takeover}
use tos_ai.Commerce.Plan.{
  CredentialBinding, EffectBinding, FileBinding, IpTraits, NetworkBinding, Plan, PlanKit,
  WriterFence, lease_loss_drain, valid_digest,
}
use tos_ai.Commerce.Preparing.{
  arranged, check_bindings, credential_found, find_credential, find_network, follow, identify,
  incomplete, known_operation, known_policy, prepare_plan, public_ip, slot_fields,
  strings_are_sorted, valid_addresses, valid_bindings, valid_credential, valid_effect, valid_file,
  valid_network, valid_network_shape, valid_target,
}
use tos_ai.Commerce.Requests.{HttpKit}
use tos_ai.Prelude.{[], false, ok, refl, some, suc, true, zero, ℕ, ◌∷◌, ◌≡◌}
use tos_ai.Prelude.Sorting.{sort_by, insert_by}
use tos_ai.Prelude.Text.{Bytes, bytes_eq, codes, has_prefix, hex_decodes}

abbrev pub zeros : ℕ → Bytes
zeros zero = []
zeros (suc n) = 0 ∷ zeros n

abbrev pub some_digest : Bytes
some_digest = codes "sha256:0000000000000000000000000000000000000000000000000000000000000000"

abbrev public_address : IpTraits
public_address = record {
  global_unicast = true;
  private = false;
  loopback = false;
  link_local_unicast = false;
  link_local_multicast = false;
}

abbrev pub kit : PlanKit
kit = record {
  clean = λ path. path;
  parse_ip = λ text. some public_address;
  sha256 = λ raw. zeros 32;
  digest_plan = λ domain plan. some some_digest;
  digest_network = λ domain network. some some_digest;
  marshal_plan = λ plan. some (codes "plan");
  marshal_ticket = λ ticket. some (codes "ticket");
  marshal_request = λ request. some (codes "request");
  derive_action_id = λ kind' fields. some some_digest;
}

abbrev pub http : HttpKit
http = record { canonical_header_key = λ name. name; to_upper = λ text. codes "GET" }

abbrev pub input_binding : FileBinding
input_binding = record { path = codes "/in"; digest = some_digest; size = 1 }

abbrev pub network : NetworkBinding
network = record {
  binding_id = codes "n";
  scheme = codes "https";
  host = codes "h";
  port = 443;
  resolved_ips = codes "1.2.3.4" ∷ [];
  tls_server_name = codes "h";
  allow_redirects = false;
  max_request_bytes = 10;
  max_response_bytes = 10;
}

abbrev pub credential : CredentialBinding
credential = record { handle_id = codes "c"; scope_digest = some_digest; expires_at_unix = 100 }

abbrev pub effect : EffectBinding
effect = record {
  plan_effect_id = codes "e";
  effect_profile_digest = some_digest;
  target_digest = some_digest;
  operation_kind = codes "https.get";
  effect_semantic_key_digest = some_digest;
  network_binding_id = codes "n";
  credential_handle_id = codes "c";
  maximum_uses = 1;
}

-- The plan as it is given, before it has a writer and an identity.
abbrev pub plan : Plan
plan = record {
  owner_id = codes "owner";
  agent_id = codes "agent";
  agreement_body_digest = some_digest;
  execution_obligation_id = codes "obligation";
  canonical_plan_digest = [];
  accepted_input_manifest_digest = some_digest;
  attempt_index = 0;
  predecessor_terminal_resolution_digest = [];
  execution_id = [];
  reservation_id = codes "reservation";
  policy_revision = 1;
  writer_generation = 0;
  lease_loss_policy = lease_loss_drain;
  files = input_binding ∷ [];
  network_bindings = network ∷ [];
  credential_bindings = credential ∷ [];
  effect_bindings = effect ∷ [];
}

abbrev pub prepared_by : ℕ → Plan
prepared_by generation = record plan {
  canonical_plan_digest = some_digest;
  execution_id = some_digest;
  writer_generation = generation;
}

abbrev pub fence_of : ℕ → WriterFence
fence_of generation = record {
  owner_id = codes "owner";
  agent_id = codes "agent";
  writer_generation = generation;
  expires_at_unix = 100;
  proof = [];
}

pub prepares_under_three : prepare_plan kit plan (fence_of 3) ≡ ok (prepared_by 3, some_digest)
unfolding prepare_plan check_bindings identify arranged incomplete valid_bindings follow sort_by
    insert_by valid_file valid_network valid_addresses valid_effect valid_target credential_found
    valid_credential valid_network_shape find_network find_credential known_operation known_policy
    public_ip strings_are_sorted slot_fields valid_digest bytes_eq has_prefix hex_decodes
prepares_under_three = refl

prepares_under_four : prepare_plan kit plan (fence_of 4) ≡ ok (prepared_by 4, some_digest)
unfolding prepare_plan check_bindings identify arranged incomplete valid_bindings follow sort_by
    insert_by valid_file valid_network valid_addresses valid_effect valid_target credential_found
    valid_credential valid_network_shape find_network find_credential known_operation known_policy
    public_ip strings_are_sorted slot_fields valid_digest bytes_eq has_prefix hex_decodes
prepares_under_four = refl

prepare_plan-takeover_example :
    ((prepared_by 3).execution_id ≡ (prepared_by 4).execution_id)
    × ((prepared_by 3).canonical_plan_digest ≡ (prepared_by 4).canonical_plan_digest)
prepare_plan-takeover_example =
    prepare_plan-takeover kit plan (fence_of 3) (fence_of 4) (prepared_by 3) (prepared_by 4)
      some_digest some_digest prepares_under_three prepares_under_four

prepare_plan-prepare_plan_example :
    prepare_plan kit (prepared_by 3) (fence_of 3) ≡ ok (prepared_by 3, some_digest)
prepare_plan-prepare_plan_example =
    prepare_plan-prepare_plan kit plan (fence_of 3) (prepared_by 3) some_digest prepares_under_three
