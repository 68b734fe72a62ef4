-- ===== src/Update/Slots.antt =====
-- pkg/softwareupdate/manager.go: the persistent state of the two release slots, and its validation.
use tos_ai.Prelude.{ℕ, Bool, true, false, not, ◌&&◌, ◌||◌, ◌==◌, Result, reject_if}
use tos_ai.Prelude.Text.{Bytes, bytes_eq}
use tos_ai.Prelude.Results.{◌>>◌}

-- The text of a slot field: empty, "a", "b", or any other text that a state file may hold.
pub data Slot : Type 0 where
  unset slot_a slot_b : Slot
  unknown : Bytes → Slot

pub data UpdateError : Type 0 where
  invalid_request manager_closed transition_pending untrusted_key manifest_refused : UpdateError
  create_artifact stage_artifact cancelled commit_artifact protect_artifact : UpdateError
  create_file write_file commit_file protect_file sync_directory : UpdateError
  invalid_version invalid_slot inconsistent_transition : UpdateError
  nothing_to_activate nothing_to_confirm nothing_to_roll_back : UpdateError
  read_manifest decode_manifest installed_manifest_refused : UpdateError
  invalid_artifact artifact_refused read_state invalid_state : UpdateError
  invalid_configuration invalid_trust_root not_private : UpdateError
  create_directory already_owned : UpdateError

pub record PersistentState : Type 0 where
  pub version : ℕ
  pub active : Slot
  pub known_good : Slot
  pub pending : Slot
  pub previous : Slot
  pub awaiting_health : Bool
  pub boot_attempted : Bool
  pub security_revision : ℕ

abbrev pub state_version : ℕ
state_version = 1

-- `persistentState{Version: stateVersion}`
abbrev pub initial_state : PersistentState
initial_state = record {
  version = state_version;
  active = unset;
  known_good = unset;
  pending = unset;
  previous = unset;
  awaiting_health = false;
  boot_attempted = false;
  security_revision = 0;
}

-- `slot == ""`
abbrev pub is_unset : Slot → Bool
is_unset unset = true
is_unset _ = false

-- `validSlots[slot]`
abbrev pub valid_slot : Slot → Bool
valid_slot slot_a = true
valid_slot slot_b = true
valid_slot _ = false

unfoldable pub slot_eq : Slot → Slot → Bool
slot_eq unset unset = true
slot_eq slot_a slot_a = true
slot_eq slot_b slot_b = true
slot_eq (unknown s) (unknown t) = bytes_eq s t
slot_eq _ _ = false

unfoldable pub validate_state : PersistentState → Result UpdateError (Unit {0})
unfolding slot_eq
validate_state s = do
  reject_if (not (s.version == state_version)) invalid_version
  reject_if (not (is_unset s.active || valid_slot s.active)) invalid_slot
  reject_if (not (is_unset s.known_good || valid_slot s.known_good)) invalid_slot
  reject_if (not (is_unset s.pending || valid_slot s.pending)) invalid_slot
  reject_if (not (is_unset s.previous || valid_slot s.previous)) invalid_slot
  reject_if
      (not (is_unset s.pending) && slot_eq s.pending s.active
        || not (is_unset s.known_good) && is_unset s.active
        || s.awaiting_health && is_unset s.active
        || not s.awaiting_health && (not (is_unset s.previous) || s.boot_attempted))
      inconsistent_transition

-- The slot that `Stage` writes: the one that is not active.
abbrev pub stage_slot : Slot → Slot
stage_slot slot_a = slot_b
stage_slot _ = slot_a

-- The state that `Stage` stores.
abbrev pub staged : Slot → PersistentState → PersistentState
staged slot s = record s { pending = slot }

-- The state that `ActivatePending` stores.
abbrev pub activated : PersistentState → PersistentState
activated s = record s {
  previous = s.active;
  active = s.pending;
  pending = unset;
  awaiting_health = true;
  boot_attempted = false;
}
