-- ===== src/Examples/Sending.antt =====
-- Effects of the launch of Launching, and the gate opened again.
use tos_ai.Commerce.Effects.{
  EffectWorld, SendWorld, Submission, admit_effect, continue_effect, credential_headers,
  credential_of, record_submission, response_name, own_running_record, send_effect, submit_effect,
  submits, write_effect_response,
}
use tos_ai.Commerce.History.{run_events}
use tos_ai.Commerce.Lifecycle.{no_replace_faults}
use tos_ai.Commerce.OneSubmission.{submit_effect-once}
use tos_ai.Commerce.Opening.{
  is_record_name, open_gate, recover_entry, recover_file, recover_interrupted, recover_record,
}
use tos_ai.Commerce.Phases.{phase_of}
use tos_ai.Commerce.Plan.{HttpHeader, HttpsRequest, before_unix, valid_digest}
use tos_ai.Commerce.Preparing.{authorized, find_credential, find_network}
use tos_ai.Commerce.Records.{
  CreateFaults, create_record, find_effect, no_read_faults, private_file, read_record,
  replace_record, state_prepared, state_running, valid_effect_record, valid_record,
}
use tos_ai.Commerce.Recovery.{open_gate-settles, is_interrupted, lists}
use tos_ai.Commerce.Requests.{
  HttpsResponse, effect_fields, effect_material, find_effect_binding, has_line_break,
  is_connection_header, perform_pinned_https, read_reply, response_limit, safe_header,
  starts_with_slash, valid_headers, valid_https_request, wire_request,
}
use tos_ai.Commerce.Responses.{send_effect-ok}
use tos_ai.Commerce.Running.{matches_launch}
use tos_ai.Commerce.TornRecords.{create_record-open_gate}
use tos_ai.Examples.Gating.{credential, fence_of, http, kit, network, some_digest}
use tos_ai.Examples.Launching.{
  authority, codec, effect_action, empty_gate, entry, gate_in, keeps_effect, keeps_state, launch,
  open_world, some_events, stored,
}
use tos_ai.Prelude.{
  List, [], all, false, length, ok, refl, some, take, true, ◌++◌, ◌∷◌, ◌≡◌, ◌≢◌, ◌≤◌,
}
use tos_ai.Prelude.Exec.{◌>>=◌}
use tos_ai.Prelude.Text.{bytes_eq, codes, has_prefix, hex_decodes}

abbrev effect_world : EffectWorld
effect_world = record {
  now = 4000000000;
  authority = authority;
  read = no_read_faults;
  read_response = false;
  replace = no_replace_faults;
}

abbrev request : HttpsRequest
request = record {
  plan_effect_id = codes "e";
  method = codes "GET";
  path_and_query = codes "/";
  headers = [];
  body = [];
}

abbrev submission : Submission
submission = record { network = network; credential = some credential }

submits_ok :
    (submit_effect kit http codec effect_world launch request effect_action
      (fence_of 3)
      (gate_in state_running)).0
    ≡ ok (submits submission)
unfolding submit_effect read_record own_running_record matches_launch admit_effect
    find_effect_binding find_network find_credential credential_of continue_effect record_submission
    replace_record valid_record valid_effect_record valid_digest authorized effect_material
    effect_fields valid_https_request valid_headers starts_with_slash has_line_break find_effect
    bytes_eq has_prefix hex_decodes ◌>>=◌
submits_ok = refl

submit_effect-once_example :
    let g = gate_in state_running in
    let after =
      (submit_effect kit http codec effect_world launch request effect_action (fence_of 3) g).1 in
    (submit_effect kit http codec effect_world launch request effect_action
      (fence_of 3)
      (run_events kit http codec after some_events)).0
    ≢ ok (submits submission)
submit_effect-once_example =
    submit_effect-once kit http codec (gate_in state_running) effect_world effect_world launch
      launch request request effect_action effect_action (fence_of 3) (fence_of 3) submission
      submission some_events keeps_effect refl refl submits_ok

abbrev send_world : SendWorld
send_world = record {
  resolver = some (λ handle scope stable_id.
      some (record { name = codes "Authorization"; value = codes "token" } ∷ []));
  revalidates = true;
  exchange = record {
    accepts = true;
    reply = λ wire. some (record { status = 200; body = 1 ∷ 2 ∷ []; body_fails = false });
  };
  digest = λ status body. some some_digest;
  replace = no_replace_faults;
}

abbrev response : HttpsResponse
response = record { status_code = 200; body = 1 ∷ 2 ∷ []; digest = some_digest }

sends_ok :
    (send_effect http 4000000000 send_world request effect_action submission empty_gate).0
    ≡ ok response
unfolding send_effect credential_headers before_unix perform_pinned_https safe_header has_line_break
    is_connection_header read_reply response_limit write_effect_response wire_request bytes_eq ◌>>=◌
sends_ok = refl

send_effect-ok_example :
    let after =
      send_effect http 4000000000 send_world request effect_action submission empty_gate in
    (send_world.revalidates ≡ true)
    × ((secrets : List HttpHeader) × (credential_headers 4000000000 send_world effect_action
            submission.credential
          ≡ ok secrets)
        × (all (safe_header http) (request.headers ++ secrets) ≡ true))
    × (length response.body ≤ submission.network.max_response_bytes)
    × (after.1.responses (response_name effect_action.stable_action_id) ≡ some response.body)
send_effect-ok_example =
    send_effect-ok http 4000000000 send_world request effect_action submission empty_gate response
      sends_ok

listed : lists entry.name (entry ∷ []) ≡ true
unfolding lists is_record_name bytes_eq
listed = refl

opens_ok : (open_gate codec open_world (entry ∷ []) (gate_in state_running)).0 ≡ ok tt
unfolding open_gate recover_interrupted recover_entry recover_file recover_record replace_record
    read_record is_record_name valid_record valid_effect_record valid_digest bytes_eq has_prefix
    hex_decodes find_effect ◌>>=◌
opens_ok = refl

open_gate-settles_example :
    is_interrupted (
      phase_of codec
        ((open_gate codec open_world (entry ∷ []) (gate_in state_running)).1.files entry.name))
    ≡ false
open_gate-settles_example =
    open_gate-settles codec open_world (entry ∷ []) (gate_in state_running) entry.name keeps_state
      listed opens_ok

-- The disk is full behind the first byte.
abbrev torn_write : CreateFaults
torn_write = record {
  create = false;
  write = true;
  written = 1;
  sync = false;
  close = false;
  sync_directory = false;
}

create_record-open_gate_example :
    let later =
      run_events kit http codec
        (create_record codec torn_write entry.name (stored state_prepared 0) empty_gate).1
        some_events in
    (later.files entry.name
      ≡ private_file (take torn_write.written (codec.encode (stored state_prepared 0))))
    × ((open_gate codec open_world (entry ∷ []) later).0 ≢ ok tt)
create_record-open_gate_example =
    create_record-open_gate codec kit http torn_write entry.name (stored state_prepared 0)
      empty_gate some_events open_world (entry ∷ []) refl refl refl refl listed
