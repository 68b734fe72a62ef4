-- ===== src/Examples/Preparing.antt =====
-- The plan of Gating, prepared on an empty gate and started as in Launching.
use tos_ai.Commerce.Admission.{
  Launch, PrepareWorld, admit_preparation, open_bound_file, open_bound_files, prepared_record,
  start_deadline, ticket_from,
}
use tos_ai.Commerce.Lifecycle.{IsReady, prepare-start}
use tos_ai.Commerce.Plan.{before_unix, valid_digest}
use tos_ai.Commerce.Preparing.{
  arranged, authorized, check_bindings, credential_found, find_credential, find_network, follow,
  identify, incomplete, known_operation, known_policy, prepare_material, prepare_plan, public_ip,
  slot_fields, start_material, strings_are_sorted, valid_addresses, valid_bindings,
  valid_credential, valid_effect, valid_file, valid_network, valid_network_shape, valid_target,
}
use tos_ai.Commerce.Records.{
  create_record, find_effect, no_read_faults, private_file, read_record, valid_effect_record,
  valid_record,
}
use tos_ai.Commerce.Starting.{create_execution, prepare, settle_preparation, start}
use tos_ai.Examples.Gating.{fence_of, kit, plan, prepared_by, prepares_under_three, some_digest}
use tos_ai.Examples.Launching.{
  authority, codec, empty_gate, input_file, prepare_action, start_action, start_world, ticket,
}
use tos_ai.Prelude.{[], false, ok, refl, some, true, ◌∷◌, ◌≡◌}
use tos_ai.Prelude.Exec.{◌>>=◌}
use tos_ai.Prelude.Int.{pos}
use tos_ai.Prelude.Sorting.{sort_by, insert_by}
use tos_ai.Prelude.Text.{bytes_eq, codes, has_prefix, hex_decodes, hex_encode}

-- At 3 seconds.
abbrev prepare_world : PrepareWorld
prepare_world = record {
  now = 3000000000;
  authority = authority;
  secret = some (codes "secret");
  read = no_read_faults;
  create = record {
    create = false;
    write = false;
    written = 0;
    sync = false;
    close = false;
    sync_directory = false;
  };
}

prepared_ok :
    (prepare kit codec prepare_world plan (fence_of 3) (pos 2000000000) prepare_action empty_gate).0
    ≡ ok ticket
unfolding prepare admit_preparation prepare_plan check_bindings identify arranged incomplete
    valid_bindings follow sort_by insert_by valid_file valid_network valid_addresses valid_effect
    valid_target credential_found valid_credential valid_network_shape find_network find_credential
    known_operation known_policy public_ip strings_are_sorted slot_fields prepare_material
    authorized read_record settle_preparation create_execution create_record ticket_from
    prepared_record start_deadline valid_digest bytes_eq has_prefix hex_decodes ◌>>=◌
prepared_ok = refl

prepared_locked :
    (prepare kit codec prepare_world plan
      (fence_of 3)
      (pos 2000000000)
      prepare_action
      empty_gate).1.has_lock
    ≡ true
unfolding prepare admit_preparation prepare_plan check_bindings identify arranged incomplete
    valid_bindings follow sort_by insert_by valid_file valid_network valid_addresses valid_effect
    valid_target credential_found valid_credential valid_network_shape find_network find_credential
    known_operation known_policy public_ip strings_are_sorted slot_fields prepare_material
    authorized read_record settle_preparation create_execution create_record ticket_from
    prepared_record start_deadline valid_digest bytes_eq has_prefix hex_decodes ◌>>=◌
prepared_locked = refl

reads_back :
    read_record codec no_read_faults (
      private_file (
        codec.encode (
          prepared_record 3000000000
            (pos 2000000000)
            (fence_of 3)
            prepare_action
            (codes "secret")
            (prepared_by 3)
            some_digest)))
    ≡ ok (
        prepared_record 3000000000
          (pos 2000000000)
          (fence_of 3)
          prepare_action
          (codes "secret")
          (prepared_by 3)
          some_digest)
unfolding read_record prepared_record start_deadline valid_record valid_effect_record valid_digest
    bytes_eq has_prefix hex_decodes find_effect
reads_back = refl

ready :
    IsReady kit codec start_world ticket (fence_of 3) start_action (prepared_by 3) (input_file ∷ [])
unfolding authorized start_material before_unix open_bound_files open_bound_file hex_encode bytes_eq
ready = record {
  no_read_fault = refl;
  no_replace_fault = refl;
  fence_verified = refl;
  fence_current = refl;
  action_verified = refl;
  writer = refl;
  in_time = refl;
  identified = refl;
  secret = refl;
  opened = refl;
}

prepare-start_example :
    let after =
      (prepare kit codec prepare_world plan
        (fence_of 3)
        (pos 2000000000)
        prepare_action
        empty_gate).1 in
    (launch' : Launch) × ((start kit codec start_world ticket (fence_of 3) start_action after).0
      ≡ ok launch')
    × (launch'.execution_id ≡ (prepared_by 3).execution_id)
    × (launch'.files ≡ input_file ∷ [])
    × (launch'.effect_bindings ≡ (prepared_by 3).effect_bindings)
prepare-start_example =
    prepare-start kit codec prepare_world plan (fence_of 3) (pos 2000000000) prepare_action
      (prepared_by 3) some_digest (codes "secret") empty_gate ticket start_world (fence_of 3)
      start_action (input_file ∷ []) prepares_under_three refl refl reads_back prepared_ok ready
      prepared_locked
