-- ===== src/Commerce/Opening.antt =====
-- `Open` and `recoverInterruptedStates` of pkg/commercegate/gate.go.
use tos_ai.Commerce.Plan.{
  gate_directory_failed, gate_not_private, gate_owned, invalid_gate_config, list_failed,
}
use tos_ai.Commerce.Records.{
  GateMethod, GateRecord, GateState, ReadFaults, RecordCodec, ReplaceFaults, next_revision,
  read_record, replace_record, state_ambiguous_run, state_ambiguous_start, state_running,
  state_starting,
}
use tos_ai.Prelude.{
  Bool, List, Option, [], drop, if◌then◌else◌, length, none, some, true, ◌&&◌, ◌==◌, ◌∷◌,
}
use tos_ai.Prelude.Exec.{gets, lift, modify, pure, raise_if, ◌>>=◌, ◌>>◌}
use tos_ai.Prelude.Text.{Bytes, bytes_eq, codes}

-- What `Open` meets: the checks of its arguments and of the directory, the lock, and the entries that
-- `os.ReadDir` lists: whether an entry is a regular file, its name, and the failures at it.
pub record OpenWorld : Type 0 where
  pub bad_config : Bool
  pub make_directory : Bool
  pub not_private : Bool
  pub locked : Bool
  pub list : Bool

pub record DirectoryEntry : Type 0 where
  pub regular : Bool
  pub name : Bytes
  pub read : ReadFaults
  pub replace : ReplaceFaults

-- strings.HasSuffix(name, ".json") and a length of 64 + 5
unfoldable pub is_record_name : Bytes → Bool
is_record_name name = (length name == 69) && bytes_eq (drop 64 name) (codes ".json")

-- The state after a restart, if the state changes.
abbrev pub interrupted : GateState → Option GateState
interrupted state_starting = some state_ambiguous_start
interrupted state_running = some state_ambiguous_run
interrupted _ = none

unfoldable pub with_state : GateState → GateRecord → GateRecord
with_state state r = record r { state = state; state_revision = next_revision r.state_revision }

module _ (codec : RecordCodec) where
  unfoldable pub recover_record :
      ReplaceFaults → Bytes → GateRecord → Option GateState → GateMethod (Unit {0})
  recover_record io name r none = pure tt
  recover_record io name r (some state) = replace_record codec io name (with_state state r)

  -- The body of the loop of `recoverInterruptedStates`, for an entry that is not passed over
  unfoldable pub recover_file : DirectoryEntry → GateMethod (Unit {0})
  recover_file entry = do
    gate ← gets (λ gate. gate)
    r ← lift (read_record codec entry.read (gate.files entry.name))
    recover_record entry.replace entry.name r (interrupted r.state)

  unfoldable pub recover_entry : DirectoryEntry → GateMethod (Unit {0})
  recover_entry entry =
      if entry.regular && is_record_name entry.name then recover_file entry else pure tt

  -- `recoverInterruptedStates`, for the entries listed
  unfoldable pub recover_interrupted : List DirectoryEntry → GateMethod (Unit {0})
  recover_interrupted [] = pure tt
  recover_interrupted (entry ∷ entries) = do recover_entry entry; recover_interrupted entries

  -- `Open`, on the files that are there. The gate holds its lock when no error is returned.
  unfoldable pub open_gate : OpenWorld → List DirectoryEntry → GateMethod (Unit {0})
  open_gate world entries = do
    raise_if world.bad_config invalid_gate_config
    raise_if world.make_directory gate_directory_failed
    raise_if world.not_private gate_not_private
    raise_if world.locked gate_owned
    raise_if world.list list_failed
    recover_interrupted entries
    modify (λ gate. record gate { has_lock = true })
