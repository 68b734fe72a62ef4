-- ===== src/Examples/Updating.antt =====
-- Updates of pkg/softwareupdate on a host with one trusted key, with toy hashing and encoding.
use tos_ai.Prelude.{
  Bool, List, Option, [], arith, false, length, none, ok, refl, some, suc, true, zero, ℕ, ◌==◌,
  ◌||◌, ◌↔◌, ◌∷◌, ◌≡◌,
}
use tos_ai.Prelude.Exec.{◌>>=◌}
use tos_ai.Prelude.Int.{pos}
use tos_ai.Prelude.Text.{Bytes, bytes_eq, codes, has_prefix, hex_decodes, hex_encode}
use tos_ai.Update.Disk.{
  Disk, Place, SlotFiles, WriteFaults, clean_interrupted_files, executable_mode, private_mode,
  read_private_file, slot_files, write_atomic,
}
use tos_ai.Update.History.{
  Call, Safe, activates, confirms, restarts, run_calls, run_calls-Safe, safe_stopped, stages,
  stopped,
}
use tos_ai.Update.Installed.{
  no_verify_faults, stage-read_slot_manifest, stage-verify_installed_slot,
}
use tos_ai.Update.Invariant.{IsSound}
use tos_ai.Update.Keeping.{IsRoundTrip}
use tos_ai.Update.KnownGood.{stage-known_good}
use tos_ai.Update.Manifest.{
  Crypto, Manifest, Reader, digest_text, read_limited, signing_message, validate_structure, verify,
  verify_artifact, verify_installed,
}
use tos_ai.Update.Manifest.Acceptance.{IsAcceptable, verify_iff}
use tos_ai.Update.Manifest.Checks.{verify_artifact_iff}
use tos_ai.Update.Manifest.Message.{HasGoTypes, signing_message-injective}
use tos_ai.Update.Opening.{
  Config, OpenFaults, artifact_file_holds, booted, load_and_recover, load_state, open_manager,
  opened, prepare_root, recover, referenced_slots, unique_slots, verify_installed_artifact,
  verify_installed_slot, verify_slots,
}
use tos_ai.Update.Restart.{IsRestarted}
use tos_ai.Update.Restart.{open_manager-IsRestarted}
use tos_ai.Update.Slots.{
  PersistentState, Slot, is_unset, slot_a, slot_b, slot_eq, unknown, unset, valid_slot,
  validate_state,
}
use tos_ai.Update.Staged.{IsStaged, stage-IsStaged}
use tos_ai.Update.Staging.{
  StageFaults, discard_if, install_artifact, receive_artifact, stage, stage_files, write_manifest,
}
use tos_ai.Update.Store.{
  Json, Manager, StoreFaults, commit, public_key, read_slot_manifest, store_state, write_state,
}

abbrev zeros : ℕ → Bytes
zeros zero = []
zeros (suc n) = 0 ∷ zeros n

-- Every hash is 32 zero bytes, and the signature `[1]` is every key's on every message.
abbrev crypto : Crypto
crypto = record {
  sha256 = λ value. zeros 32;
  ed25519_sign = λ key message. 1 ∷ [];
  ed25519_verify = λ key message signature. bytes_eq signature (1 ∷ []);
  base64_encode = λ value. value;
  base64_decode = λ value. some value;
}

abbrev release : Manifest
release = record {
  version = 1;
  artifact = codes "edge";
  digest = codes "sha256:0000000000000000000000000000000000000000000000000000000000000000";
  size_bytes = 3;
  target = codes "linux";
  security_revision = 1;
  issued_at = pos 0;
  expires_at = pos 1000;
  key_id = codes "key";
  signature = 1 ∷ [];
}

abbrev slot_code : Slot → ℕ
slot_code unset = 0
slot_code slot_a = 1
slot_code slot_b = 2
slot_code (unknown t) = 3

abbrev code_slot : ℕ → Slot
code_slot zero = unset
code_slot (suc zero) = slot_a
code_slot (suc (suc n)) = slot_b

abbrev flag : Bool → ℕ
flag true = 1
flag false = 0

abbrev encode_state : PersistentState → Bytes
encode_state s =
    s.version
    ∷ slot_code s.active
    ∷ slot_code s.known_good
    ∷ slot_code s.pending
    ∷ slot_code s.previous
    ∷ flag s.awaiting_health
    ∷ flag s.boot_attempted
    ∷ s.security_revision
    ∷ []

abbrev decode_state : Bytes → Option PersistentState
decode_state (v ∷ a ∷ k ∷ p ∷ q ∷ h ∷ b ∷ r ∷ []) = some (record {
  version = v;
  active = code_slot a;
  known_good = code_slot k;
  pending = code_slot p;
  previous = code_slot q;
  awaiting_health = h == 1;
  boot_attempted = b == 1;
  security_revision = r;
})
decode_state _ = none

abbrev json : Json
json = record {
  encode_state = encode_state;
  decode_state = decode_state;
  encode_manifest = λ m. codes "release";
  decode_manifest = λ value. some release;
}

slot-code : (s : Slot) → (is_unset s || valid_slot s) ≡ true → code_slot (slot_code s) ≡ s
slot-code unset h = refl
slot-code slot_a h = refl
slot-code slot_b h = refl
slot-code (unknown t) h = cc

flag-code : (b : Bool) → (flag b == 1) ≡ b
flag-code true = refl
flag-code false = refl

decode-encode :
    (s : PersistentState) → validate_state s ≡ ok tt → decode_state (encode_state s) ≡ some s
unfolding validate_state
decode-encode s h =
    rw
      (
        slot-code s.active (ground arith),
        slot-code s.known_good (ground arith),
        slot-code s.pending (ground arith),
        slot-code s.previous (ground arith),
        flag-code s.awaiting_health,
        flag-code s.boot_attempted,
      )
      refl

json-IsRoundTrip : IsRoundTrip json
json-IsRoundTrip = record { state = decode-encode }

abbrev empty_place : Place
empty_place = record { current = none; has_temporary = false }

abbrev empty_disk : Disk
empty_disk = record {
  state_file = empty_place;
  files_a = record { artifact = empty_place; manifest = empty_place };
  files_b = record { artifact = empty_place; manifest = empty_place };
}

abbrev config : Config
config = record {
  root_is_canonical = true;
  target = codes "linux";
  public_keys = (codes "key", zeros 32) ∷ [];
}

abbrev no_write_faults : WriteFaults
no_write_faults = record {
  create = false;
  write = false;
  rename = false;
  chmod = false;
  remove = false;
}

abbrev no_store_faults : StoreFaults
no_store_faults = record { writing = no_write_faults; sync = false }

abbrev no_open_faults : OpenFaults
no_open_faults = record {
  make_root = false;
  root_not_private = false;
  lock_taken = false;
  remove_state = false;
  make_a = false;
  a_not_private = false;
  make_b = false;
  b_not_private = false;
  clean = false;
  load = record { read = false; slots = λ slot. no_verify_faults; store = no_store_faults };
}

abbrev no_stage_faults : StageFaults
no_stage_faults = record {
  nil_request = false;
  clean = false;
  create = false;
  flush = false;
  cancel = false;
  rename = false;
  remove = false;
  chmod = false;
  manifest = no_write_faults;
  sync = false;
  store = no_store_faults;
}

abbrev reader : Reader
reader = record { content = 1 ∷ 2 ∷ 3 ∷ []; fails = false }

abbrev one_update : List Call
one_update =
    restarts no_open_faults config
    ∷ stages no_stage_faults release reader (pos 1000)
    ∷ activates no_store_faults
    ∷ restarts no_open_faults config
    ∷ confirms false no_store_faults
    ∷ []

run_calls-Safe_example : Safe json (run_calls crypto json (stopped empty_disk) one_update)
run_calls-Safe_example =
    run_calls-Safe crypto json json-IsRoundTrip (stopped empty_disk) one_update (safe_stopped tt)

-- Slot a is active and known to be good.
abbrev steady_state : PersistentState
steady_state = record {
  version = 1;
  active = slot_a;
  known_good = slot_a;
  pending = unset;
  previous = unset;
  awaiting_health = false;
  boot_attempted = false;
  security_revision = 1;
}

abbrev steady : Manager
steady = record {
  target = config.target;
  public_keys = config.public_keys;
  state = steady_state;
  closed = false;
  disk = empty_disk;
}

steady-IsSound : IsSound steady_state
unfolding validate_state
steady-IsSound = ground arith

stage-known_good_example :
    slot_files slot_a (stage crypto json no_stage_faults release reader (pos 1000) steady).1.disk
    ≡ slot_files slot_a empty_disk
stage-known_good_example =
    stage-known_good crypto json no_stage_faults release reader (pos 1000) steady steady-IsSound
      refl

staged_well : (stage crypto json no_stage_faults release reader (pos 1000) steady).0 ≡ ok slot_b
unfolding stage verify verify_installed validate_structure public_key stage_files receive_artifact
    install_artifact write_manifest write_atomic clean_interrupted_files verify_artifact
    read_limited digest_text discard_if commit store_state write_state validate_state hex_encode
    bytes_eq signing_message ◌>>=◌
staged_well = refl

stage-IsStaged_example :
    IsStaged crypto json release reader
      (pos 1000)
      steady
      (stage crypto json no_stage_faults release reader (pos 1000) steady).1
      slot_b
stage-IsStaged_example =
    stage-IsStaged crypto json no_stage_faults release reader (pos 1000) steady slot_b staged_well

stage-read_slot_manifest_example :
    (read_slot_manifest json false slot_b
      (stage crypto json no_stage_faults release reader (pos 1000) steady).1).0
    ≡ ok release
stage-read_slot_manifest_example =
    stage-read_slot_manifest crypto json no_stage_faults release reader (pos 1000) steady slot_b
      staged_well refl

stage-verify_installed_slot_example :
    let m' = (stage crypto json no_stage_faults release reader (pos 1000) steady).1 in
    verify_installed_slot crypto json no_verify_faults slot_b m'.state.security_revision m'
    ≡ (ok tt, m')
stage-verify_installed_slot_example =
    stage-verify_installed_slot crypto json no_stage_faults release reader (pos 1000) steady slot_b
      staged_well refl (omega arith)

-- Slot b is on trial in its first boot.
abbrev trial_state : PersistentState
trial_state = record {
  version = 1;
  active = slot_b;
  known_good = slot_a;
  pending = unset;
  previous = slot_a;
  awaiting_health = true;
  boot_attempted = false;
  security_revision = 1;
}

abbrev file_of : ℕ → Bytes → Place
file_of perm value = record {
  current = some (record { regular = true; perm = perm; owned = true; content = value });
  has_temporary = false;
}

abbrev installed_files : SlotFiles
installed_files = record {
  artifact = file_of executable_mode (1 ∷ 2 ∷ 3 ∷ []);
  manifest = file_of private_mode (codes "release");
}

abbrev trial_disk : Disk
trial_disk = record {
  state_file = file_of private_mode (encode_state trial_state);
  files_a = installed_files;
  files_b = installed_files;
}

abbrev booted_manager : Manager
booted_manager = record {
  target = config.target;
  public_keys = config.public_keys;
  state = booted trial_state;
  closed = false;
  disk = record trial_disk {
    state_file = file_of private_mode (encode_state (booted trial_state));
  };
}

opens_well : (open_manager crypto json no_open_faults config trial_disk).0 ≡ ok booted_manager
unfolding open_manager prepare_root opened load_and_recover read_private_file load_state
    validate_state verify_slots referenced_slots unique_slots verify_installed_slot
    read_slot_manifest clean_interrupted_files verify_installed public_key bytes_eq
    validate_structure has_prefix hex_decodes hex_encode write_atomic digest_text read_limited
    signing_message verify_artifact artifact_file_holds recover verify_installed_artifact slot_eq
    commit store_state write_state ◌>>=◌
opens_well = refl

open_manager-IsRestarted_example : IsRestarted json trial_state booted_manager
open_manager-IsRestarted_example =
    open_manager-IsRestarted crypto json no_open_faults config trial_disk
      (record {
        regular = true;
        perm = private_mode;
        owned = true;
        content = encode_state trial_state;
      })
      trial_state booted_manager refl refl opens_well

release-HasGoTypes : HasGoTypes release
release-HasGoTypes = record {
  size_bytes = omega arith;
  security_revision = omega arith;
  issued_at = omega arith;
  expires_at = omega arith;
}

release-valid : validate_structure release ≡ ok tt
unfolding validate_structure
release-valid = refl

abbrev resigned : Manifest
resigned = record release { signature = 2 ∷ [] }

resigned-HasGoTypes : HasGoTypes resigned
resigned-HasGoTypes = record {
  size_bytes = omega arith;
  security_revision = omega arith;
  issued_at = omega arith;
  expires_at = omega arith;
}

resigned-valid : validate_structure resigned ≡ ok tt
unfolding validate_structure
resigned-valid = refl

one_message : signing_message release ≡ signing_message resigned
unfolding signing_message
one_message = refl

signing_message-injective_example : record release { signature = resigned.signature } ≡ resigned
signing_message-injective_example =
    signing_message-injective release resigned release-HasGoTypes resigned-HasGoTypes release-valid
      resigned-valid one_message

verify_artifact_iff_example : (verify_artifact crypto release reader ≡ ok tt) ↔ (
    (validate_structure release ≡ ok tt)
    × (reader.fails ≡ false)
    × (length reader.content ≡ release.size_bytes)
    × (digest_text crypto reader.content ≡ release.digest))
verify_artifact_iff_example = verify_artifact_iff crypto release reader

verifies : verify crypto release (zeros 32) (codes "linux") 0 (pos 1000) ≡ ok tt
unfolding verify verify_installed validate_structure bytes_eq signing_message
verifies = refl

verify_iff_example :
    (verify crypto release (zeros 32) (codes "linux") 0 (pos 1000) ≡ ok tt)
    ↔ IsAcceptable crypto (zeros 32) (codes "linux") 0 (pos 1000) release
verify_iff_example = verify_iff crypto release (zeros 32) (codes "linux") 0 (pos 1000)

-- The description holds of this release.
accepts : IsAcceptable crypto (zeros 32) (codes "linux") 0 (pos 1000) release
accepts = (verify_iff crypto release (zeros 32) (codes "linux") 0 (pos 1000)).0 verifies
