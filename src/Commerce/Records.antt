-- ===== src/Commerce/Records.antt =====
-- The durable records of pkg/commercegate/gate.go: one file for each execution, created with O_EXCL and
-- replaced by a rename. JSON is a parameter. The temporary files `.gate-*` are never read, so they are left
-- out.
use tos_ai.Commerce.Plan.{
  GateError, Plan, chmod_failed, close_record_failed, create_record_failed, create_temporary_failed,
  invalid_effect_record, invalid_gate_record, read_record_failed, record_absent, rename_failed,
  stat_record, sync_directory_failed, sync_record_failed, valid_digest, write_record_failed,
}
use tos_ai.Prelude.{
  Bool, List, Option, Result, [], all, drop, err, false, if◌then◌else◌, length, ltb, none, not, ok,
  some, take, true, ℕ, ◌%◌, ◌&&◌, ◌++◌, ◌+◌, ◌==◌, ◌^◌, ◌||◌, ◌∷◌,
}
use tos_ai.Prelude.Exec.{Exec, gets, modify, raise_if, ◌>>=◌, ◌>>◌}
use tos_ai.Prelude.Text.{Bytes, bytes_eq, codes}

pub data GateState : Type 0 where
  state_prepared state_starting state_running state_ambiguous_start : GateState
  state_ambiguous_run state_succeeded state_failed state_cancelled state_killed : GateState
  other_gate_state : Bytes → GateState

pub data EffectState : Type 0 where
  effect_submitted effect_terminal : EffectState
  other_effect_state : Bytes → EffectState

pub record EffectRecord : Type 0 where
  pub stable_action_id : Bytes
  pub exact_request_digest : Bytes
  pub state : EffectState
  pub response_digest : Bytes
  pub http_status : ℕ  -- uint16
  pub state_revision : ℕ  -- uint64

-- map[string]EffectRecord
abbrev pub Effects : Type 0
Effects = List (Bytes × EffectRecord)

pub record GateRecord : Type 0 where
  pub schema : Bytes
  pub plan : Plan
  pub plan_digest : Bytes
  pub ticket_secret : Bytes
  pub start_not_after_unix : ℕ  -- uint64
  pub state : GateState
  pub state_revision : ℕ  -- uint64
  pub outcome_digest : Bytes
  pub prepare_action_id : Bytes
  pub prepare_request_digest : Bytes
  pub start_action_id : Bytes
  pub start_request_digest : Bytes
  pub effects : Effects

pub record Resolution : Type 0 where
  pub state : GateState
  pub state_revision : ℕ
  pub plan_digest : Bytes
  pub outcome_digest : Bytes

-- encoding/json on a record: `decode` allows no unknown field and nothing behind the value.
pub record RecordCodec : Type 0 where
  pub encode : GateRecord → Bytes
  pub decode : Bytes → Option GateRecord

-- What `Lstat` tells of a file, and its content.
pub record GateFile : Type 0 where
  pub regular : Bool
  pub perm : ℕ
  pub content : Bytes

-- The gate, the records of its directory by file name, and the effect responses by file name.
pub record Gate : Type 0 where
  pub has_lock : Bool
  pub files : Bytes → Option GateFile
  pub responses : Bytes → Option Bytes

abbrev pub GateMethod : Type 0 → Type 0
GateMethod A = Exec Gate GateError A

pub record ReadFaults : Type 0 where
  pub stat : Bool
  pub read : Bool

pub record CreateFaults : Type 0 where
  pub create : Bool
  pub write : Bool
  pub written : ℕ
  pub sync : Bool
  pub close : Bool
  pub sync_directory : Bool

pub record ReplaceFaults : Type 0 where
  pub create : Bool
  pub chmod : Bool
  pub write : Bool
  pub sync : Bool
  pub close : Bool
  pub rename : Bool
  pub sync_directory : Bool

abbrev pub gate_schema : Bytes
gate_schema = codes "tos.ai.local-execution-gate.v1"

-- 2 << 20
abbrev pub max_gate_record_bytes : ℕ
max_gate_record_bytes = 2097152

-- `knownState`
abbrev pub known_state : GateState → Bool
known_state (other_gate_state text) = false
known_state _ = true

abbrev pub is_prepared : GateState → Bool
is_prepared state_prepared = true
is_prepared _ = false

abbrev pub is_starting : GateState → Bool
is_starting state_starting = true
is_starting _ = false

abbrev pub is_running : GateState → Bool
is_running state_running = true
is_running _ = false

abbrev pub is_submitted : EffectState → Bool
is_submitted effect_submitted = true
is_submitted _ = false

abbrev pub is_terminal : EffectState → Bool
is_terminal effect_terminal = true
is_terminal _ = false

-- `gate.path`, inside the directory
unfoldable pub record_name : Bytes → Bytes
record_name execution_id =
    if valid_digest execution_id then drop 7 execution_id ++ codes ".json" else codes "invalid"

abbrev pub private_file : Bytes → Option GateFile
private_file content = some (record { regular = true; perm = 0o600; content = content })

abbrev pub set_file : Bytes → Option GateFile → Gate → Gate
set_file name file gate = record gate {
  files = λ other. if bytes_eq other name then file else gate.files other;
}

-- entry.StateRevision++
abbrev pub next_revision : ℕ → ℕ
next_revision revision = (revision + 1) % 2 ^ 64

unfoldable pub find_effect : Bytes → Effects → Option EffectRecord
find_effect name [] = none
find_effect name (e ∷ es) = if bytes_eq e.0 name then some e.1 else find_effect name es

-- entry.Effects[name] = effect
unfoldable pub put_effect : Bytes → EffectRecord → Effects → Effects
put_effect name effect [] = (name, effect) ∷ []
put_effect name effect (e ∷ es) =
    let rest = put_effect name effect es in
    if bytes_eq e.0 name then (name, effect) ∷ es else e ∷ rest

unfoldable pub valid_effect_record : Bytes × EffectRecord → Bool
valid_effect_record (name, effect) =
    not (length name == 0)
    && valid_digest effect.stable_action_id
    && valid_digest effect.exact_request_digest
    && not (effect.state_revision == 0)
    && (is_submitted effect.state
        || is_terminal effect.state
          && valid_digest effect.response_digest
          && not (effect.http_status == 0))

unfoldable pub valid_record : GateRecord → Bool
valid_record r =
    bytes_eq r.schema gate_schema
    && not (r.state_revision == 0)
    && valid_digest r.prepare_action_id
    && valid_digest r.prepare_request_digest
    && known_state r.state
    && ((length r.start_action_id == 0) && (length r.start_request_digest == 0)
        || valid_digest r.start_action_id && valid_digest r.start_request_digest)

module _ (codec : RecordCodec) where
  -- `readRecord`
  unfoldable pub read_record : ReadFaults → Option GateFile → Result GateError GateRecord
  read_record io file = if io.stat then err stat_record else elim file [
    | none ↦ err record_absent
    | some f ↦
        if not f.regular
          || not (f.perm == 0o600)
          || (length f.content == 0)
          || ltb max_gate_record_bytes (length f.content)
        then err invalid_gate_record
        else if io.read
        then err read_record_failed
        else elim (codec.decode f.content) [
          | none ↦ err invalid_gate_record
          | some r ↦
              if not (valid_record r)
              then err invalid_gate_record
              else if all valid_effect_record r.effects
              then ok r
              else err invalid_effect_record
        ]
  ]

  -- `createRecord`: what was written stays when a later step fails.
  unfoldable pub create_record : CreateFaults → Bytes → GateRecord → GateMethod (Unit {0})
  create_record io name r = do
    gate ← gets (λ gate. gate)
    raise_if (io.create || elim (gate.files name) [ none ↦ false | some f ↦ true ])
        create_record_failed
    let content = codec.encode r
    modify (set_file name (private_file (if io.write then take io.written content else content)))
    raise_if io.write write_record_failed
    raise_if io.sync sync_record_failed
    raise_if io.close close_record_failed
    raise_if io.sync_directory sync_directory_failed

  -- `replaceRecord`: the file is the old one up to the rename, and the new one after it.
  unfoldable pub replace_record : ReplaceFaults → Bytes → GateRecord → GateMethod (Unit {0})
  replace_record io name r = do
    raise_if io.create create_temporary_failed
    raise_if io.chmod chmod_failed
    raise_if io.write write_record_failed
    raise_if io.sync sync_record_failed
    raise_if io.close close_record_failed
    raise_if io.rename rename_failed
    modify (set_file name (private_file (codec.encode r)))
    raise_if io.sync_directory sync_directory_failed

abbrev pub no_read_faults : ReadFaults
no_read_faults = record { stat = false; read = false }
