-- ===== src/Examples/Launching.antt =====
-- Executions of the gate of Gating: prepared, started, with an effect, interrupted, and torn.
use tos_ai.Commerce.Admission.{
  InputFile, Launch, StartWorld, admit_start, launch_of, open_bound_file, open_bound_files,
}
use tos_ai.Commerce.History.{GateEvent, close_call, open_call, run_events, start_call}
use tos_ai.Commerce.Lifecycle.{no_replace_faults}
use tos_ai.Commerce.OneStart.{start-once}
use tos_ai.Commerce.OneSubmission.{KeepsEffect, is_some}
use tos_ai.Commerce.Opening.{DirectoryEntry, OpenWorld}
use tos_ai.Commerce.Phases.{IsPath, KeepsState, phase_of, run_events-IsPath}
use tos_ai.Commerce.Plan.{
  Authority, AuthorizedAction, Ticket, before_unix, lease_loss_drain, valid_digest,
}
use tos_ai.Commerce.Preparing.{authorized, start_material}
use tos_ai.Commerce.Records.{
  EffectRecord, Gate, GateRecord, GateState, RecordCodec, effect_submitted, find_effect,
  gate_schema, no_read_faults, other_gate_state, private_file, read_record, record_name,
  replace_record, state_ambiguous_run, state_ambiguous_start, state_cancelled, state_failed,
  state_killed, state_prepared, state_running, state_starting, state_succeeded, valid_effect_record,
  valid_record,
}
use tos_ai.Commerce.Startable.{IsStartable, start-IsStartable}
use tos_ai.Commerce.Starting.{start}
use tos_ai.Examples.Gating.{
  credential, effect, fence_of, http, kit, network, prepared_by, some_digest,
}
use tos_ai.Prelude.{
  List, Option, Option-cases, [], ap, arith, eq_of_some, false, if◌then◌else◌, inl, inr, none, ok,
  refl, some, subst, suc, sym, take, true, zero, ℕ, ◌==◌, ◌∙◌, ◌∷◌, ◌≡◌, ◌≢◌,
}
use tos_ai.Prelude.Exec.{◌>>=◌}
use tos_ai.Prelude.Text.{Bytes, bytes_eq, codes, has_prefix, hex_decodes, hex_encode}

abbrev pub state_code : GateState → ℕ
state_code state_prepared = 1
state_code state_starting = 2
state_code state_running = 3
state_code state_ambiguous_start = 4
state_code state_ambiguous_run = 5
state_code state_succeeded = 6
state_code state_failed = 7
state_code state_cancelled = 8
state_code state_killed = 9
state_code (other_gate_state text) = 10

abbrev pub state_of_code : ℕ → Option GateState
state_of_code c =
    if c == 1
    then some state_prepared
    else if c == 2
    then some state_starting
    else if c == 3
    then some state_running
    else if c == 4
    then some state_ambiguous_start
    else if c == 5
    then some state_ambiguous_run
    else if c == 6
    then some state_succeeded
    else if c == 7
    then some state_failed
    else if c == 8
    then some state_cancelled
    else if c == 9
    then some state_killed
    else none

abbrev pub submission_record : EffectRecord
submission_record = record {
  stable_action_id = some_digest;
  exact_request_digest = some_digest;
  state = effect_submitted;
  response_digest = [];
  http_status = 0;
  state_revision = 1;
}

abbrev pub stored : GateState → ℕ → GateRecord
stored state mark = record {
  schema = gate_schema;
  plan = prepared_by 3;
  plan_digest = some_digest;
  ticket_secret = codes "secret";
  start_not_after_unix = 5;
  state = state;
  state_revision = 1;
  outcome_digest = [];
  prepare_action_id = some_digest;
  prepare_request_digest = some_digest;
  start_action_id = [];
  start_request_digest = [];
  effects = if mark == 1 then (codes "e", submission_record) ∷ [] else [];
}

abbrev pub effect_mark : Option EffectRecord → ℕ
effect_mark none = 0
effect_mark (some e) = 1

-- The state, and whether the record has the effect.
abbrev pub codec : RecordCodec
codec = record {
  encode = λ r. state_code r.state ∷ effect_mark (find_effect (codes "e") r.effects) ∷ [];
  decode = λ raw. elim raw [
    | [] ↦ none
    | c ∷ rest ↦ elim rest [
      | [] ↦ none
      | mark ∷ others ↦ elim (state_of_code c) [
        | none ↦ none
        | some state ↦ some (stored state mark)
      ]
    ]
  ];
}

state_of_code-state_code : (s t : GateState) → state_of_code (state_code s) ≡ some t → t ≡ s
state_of_code-state_code s t h = ground arith

decoded_state :
    (r : GateRecord) (t : GateState) (mark n : ℕ)
    → state_of_code (state_code r.state) ≡ some t
    → codec.decode (state_code r.state ∷ mark ∷ take n []) ≡ some (stored t mark)
decoded_state r t mark zero h = rw (codec, h) refl
decoded_state r t mark (suc n) h = rw (codec, h) refl

decodes-state :
    (n : ℕ) (r s : GateRecord) → codec.decode (take n (codec.encode r)) ≡ some s → s.state ≡ r.state
decodes-state zero r s h = ground arith
decodes-state (suc zero) r s h = ground arith
decodes-state (suc (suc n)) r s h =
    let mark = effect_mark (find_effect (codes "e") r.effects) in
    elim (Option-cases (state_of_code (state_code r.state))) [
      | inl unknown ↦ ground arith
      | inr (t, known) ↦
          let decoded : stored t mark ≡ s = eq_of_some (sym (decoded_state r t mark n known) ∙ h) in
          ap (λ (q : GateRecord). q.state) (sym decoded) ∙ state_of_code-state_code r.state t known
    ]

pub keeps_state : KeepsState codec
keeps_state = record { keeps = decodes-state }

stored_effect : (t : GateState) → is_some (find_effect (codes "e") (stored t 1).effects) ≡ true
unfolding find_effect bytes_eq
stored_effect t = refl

decodes-effect :
    (r s : GateRecord)
    → codec.decode (codec.encode r) ≡ some s
    → is_some (find_effect (codes "e") r.effects) ≡ true
    → is_some (find_effect (codes "e") s.effects) ≡ true
decodes-effect r s h has = elim (Option-cases (find_effect (codes "e") r.effects)) [
  | inl missing ↦ ground arith
  | inr (e, there) ↦ elim (Option-cases (state_of_code (state_code r.state))) [
    | inl unknown ↦ ground arith
    | inr (t, known) ↦
        let computed : codec.decode (codec.encode r) ≡ some (stored t 1) =
          rw there (decoded_state r t 1 zero known) in
        let decoded : stored t 1 ≡ s = eq_of_some (sym computed ∙ h) in
        subst (λ (q : GateRecord). is_some (find_effect (codes "e") q.effects) ≡ true) decoded
          (stored_effect t)
  ]
]

pub keeps_effect : KeepsEffect codec (codes "e")
keeps_effect = record { keeps = decodes-effect }

abbrev pub authority : Authority
authority = record {
  verify_fence = λ fence now purpose. true;
  confirm_current = λ fence now. true;
  verify_action = λ action fields request fence now. true;
}

abbrev pub action : Bytes → AuthorizedAction
action purpose = record {
  action_kind = purpose;
  stable_action_id = some_digest;
  exact_request_digest = some_digest;
  expires_at_unix = 100;
  proof = [];
}

abbrev pub prepare_action : AuthorizedAction
prepare_action = action (codes "execution.prepare")

abbrev pub start_action : AuthorizedAction
start_action = action (codes "execution.start")

abbrev pub effect_action : AuthorizedAction
effect_action = action (codes "executor.effect")

abbrev pub input_file : InputFile
input_file = record {
  stat_fails = false;
  regular = true;
  size = 1;
  content = 7 ∷ [];
  read_fails = false;
  seek_fails = false;
}

abbrev pub start_world : StartWorld
start_world = record {
  now = 4000000000;
  authority = authority;
  inputs = λ path. some input_file;
  read = no_read_faults;
  replace = no_replace_faults;
}

abbrev pub ticket : Ticket
ticket = record {
  execution_id = some_digest;
  secret = codes "secret";
  start_not_after_unix = 5;
  plan_digest = some_digest;
}

abbrev pub launch : Launch
launch = record {
  execution_id = some_digest;
  plan_digest = some_digest;
  ticket_secret = codes "secret";
  lease_loss_policy = lease_loss_drain;
  files = input_file ∷ [];
  network_bindings = network ∷ [];
  credential_bindings = credential ∷ [];
  effect_bindings = effect ∷ [];
}

abbrev pub empty_gate : Gate
empty_gate = record { has_lock = true; files = λ name. none; responses = λ name. none }

-- Every file of the gate holds the state, without an effect.
abbrev pub gate_in : GateState → Gate
gate_in state = record empty_gate { files = λ name. private_file (state_code state ∷ 0 ∷ []) }

abbrev pub own_name : Bytes
own_name = record_name some_digest

abbrev pub open_world : OpenWorld
open_world = record {
  bad_config = false;
  make_directory = false;
  not_private = false;
  locked = false;
  list = false;
}

abbrev pub entry : DirectoryEntry
entry = record {
  regular = true;
  name = codes "0000000000000000000000000000000000000000000000000000000000000000.json";
  read = no_read_faults;
  replace = no_replace_faults;
}

starts_ok :
    (start kit codec start_world ticket (fence_of 3) start_action (gate_in state_prepared)).0
    ≡ ok launch
unfolding start read_record admit_start open_bound_files open_bound_file replace_record launch_of
    valid_record valid_effect_record valid_digest authorized start_material before_unix bytes_eq
    has_prefix hex_decodes hex_encode ◌>>=◌
starts_ok = refl

-- The gate is closed and opened again, and the same start is tried.
abbrev pub some_events : List GateEvent
some_events =
    close_call
    ∷ open_call open_world (entry ∷ [])
    ∷ start_call start_world ticket (fence_of 3) start_action
    ∷ []

start-once_example :
    let g = gate_in state_prepared in
    let after = (start kit codec start_world ticket (fence_of 3) start_action g).1 in
    (start kit codec start_world ticket
      (fence_of 3)
      start_action
      (run_events kit http codec after some_events)).0
    ≢ ok launch
start-once_example =
    start-once kit http codec (gate_in state_prepared) start_world start_world ticket ticket
      (fence_of 3) (fence_of 3) start_action start_action launch launch some_events keeps_state refl
      starts_ok

run_events-IsPath_example :
    let g = gate_in state_prepared in
    IsPath
      (phase_of codec (g.files own_name))
      (phase_of codec ((run_events kit http codec g some_events).files own_name))
run_events-IsPath_example =
    run_events-IsPath codec kit http (gate_in state_prepared) some_events own_name keeps_state

start-IsStartable_example :
    let g = gate_in state_prepared in
    (r : GateRecord) × (read_record codec start_world.read
        (g.files (record_name ticket.execution_id))
      ≡ ok r)
    × IsStartable kit start_world ticket (fence_of 3) start_action r launch.files
start-IsStartable_example =
    start-IsStartable kit codec start_world ticket (fence_of 3) start_action
      (gate_in state_prepared) launch starts_ok
