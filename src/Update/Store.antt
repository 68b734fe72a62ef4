-- ===== src/Update/Store.antt =====
-- pkg/softwareupdate/manager.go: the manager's memory and files, and how its state is
-- stored. The mutex makes each method atomic. JSON encoding is a parameter.
use tos_ai.Prelude.{
  Bool, List, Option, Result, [], err, false, if◌then◌else◌, none, not, ok, some, true, ℕ, ◌∷◌,
}
use tos_ai.Prelude.Exec.{Exec, lift, modify, raise_if, ◌>>◌}
use tos_ai.Prelude.Text.{Bytes, bytes_eq}
use tos_ai.Update.Disk.{
  Disk, SlotFiles, WriteFaults, contents, private_mode, read_private_file, set_slot_files,
  slot_files, write_atomic,
}
use tos_ai.Update.Manifest.{Manifest}
use tos_ai.Update.Slots.{
  PersistentState, Slot, UpdateError, decode_manifest, invalid_slot, read_manifest, sync_directory,
  valid_slot, validate_state,
}

-- encoding/json on the two types that are stored. `decode` is strict: no unknown fields, and
-- nothing behind the value.
pub record Json : Type 0 where
  pub encode_state : PersistentState → Bytes
  pub decode_state : Bytes → Option PersistentState
  pub encode_manifest : Manifest → Bytes
  pub decode_manifest : Bytes → Option Manifest

pub record Manager : Type 0 where
  pub target : Bytes
  pub public_keys : List (Bytes × Bytes)
  pub state : PersistentState
  pub closed : Bool
  pub disk : Disk

-- `m.publicKeys[id]`: an identifier that is not there gives the empty key.
unfoldable pub public_key : Bytes → List (Bytes × Bytes) → Bytes
public_key id [] = []
public_key id ((name, key) ∷ keys) = if bytes_eq name id then key else public_key id keys

abbrev pub Method : Type 0 → Type 0
Method A = Exec Manager UpdateError A

-- 4 << 10 and 16 << 10
abbrev pub max_state_bytes : ℕ
max_state_bytes = 4096

abbrev pub max_manifest_bytes : ℕ
max_manifest_bytes = 16384

pub record StoreFaults : Type 0 where
  pub writing : WriteFaults
  pub sync : Bool

-- `err != nil`
abbrev pub is_err {ℓ κ} : {E : Type ℓ} {A : Type κ} → Result E A → Bool
is_err (ok a) = false
is_err (err e) = true

abbrev pub with_slot : Slot → (SlotFiles → SlotFiles) → Manager → Manager
with_slot slot f m = record m { disk = set_slot_files slot (f (slot_files slot m.disk)) m.disk }

module _ (json : Json) where
  -- `m.writeFile(filepath.Join(m.root, stateName), data, 0o600)`
  unfoldable pub write_state : WriteFaults → Bytes → Method Unit
  write_state io value m =
      let (result, place) = write_atomic io value private_mode m.disk.state_file in
      (result, record m { disk = record (m.disk) { state_file = place } })

  -- `storeState`
  unfoldable pub store_state : StoreFaults → PersistentState → Method Unit
  store_state io s = do
    lift (validate_state s)
    write_state io.writing (json.encode_state s)
    raise_if io.sync sync_directory

  -- `if err := m.storeState(next); err != nil { return err }; m.state = next`
  unfoldable pub commit : StoreFaults → PersistentState → Method Unit
  commit io next = do store_state io next; modify (λ m. record m { state = next })

  -- `readManifest`
  unfoldable pub read_slot_manifest : Bool → Slot → Method Manifest
  read_slot_manifest fault slot m =
      if not (valid_slot slot)
      then (err invalid_slot, m)
      else elim (read_private_file fault max_manifest_bytes private_mode
          (slot_files slot m.disk).manifest) [
            | contents value ↦ elim (json.decode_manifest value) [
              | none ↦ (err decode_manifest, m)
              | some manifest ↦ (ok manifest, m)
            ]
            | _ ↦ (err read_manifest, m)
          ]
