-- ===== src/Update/Staging.antt =====
-- pkg/softwareupdate/manager.go: `Stage`, which verifies a manifest and its artifact and installs both
-- in the slot that is not active.
use tos_ai.Prelude.{Bool, err, false, length, not, ok, some, true, ℕ, ◌+◌, ◌==◌, ◌||◌}
use tos_ai.Prelude.Exec.{gets, modify, pure, raise_if, ◌>>=◌, ◌>>◌}
use tos_ai.Prelude.Int.{ℤ}
use tos_ai.Prelude.Text.{Bytes}
use tos_ai.Update.Disk.{
  Place, SlotFiles, WriteFaults, clean_interrupted_files, executable_mode, private_mode, slot_files,
  write_atomic,
}
use tos_ai.Update.Manifest.{
  Crypto, Manifest, Reader, public_key_size, read_limited, verify, verify_artifact,
}
use tos_ai.Update.Slots.{
  Slot, UpdateError, cancelled, commit_artifact, create_artifact, invalid_request, is_unset,
  manager_closed, manifest_refused, protect_artifact, stage_artifact, stage_slot, staged,
  sync_directory, transition_pending, untrusted_key,
}
use tos_ai.Update.Store.{Json, Method, StoreFaults, commit, is_err, public_key, with_slot}

pub record StageFaults : Type 0 where
  pub nil_request : Bool
  pub clean : Bool
  pub create : Bool
  pub flush : Bool
  pub cancel : Bool
  pub rename : Bool
  pub remove : Bool
  pub chmod : Bool
  pub manifest : WriteFaults
  pub sync : Bool
  pub store : StoreFaults

-- os.OpenFile of the temporary artifact, and os.Remove of it, which may fail silently
abbrev pub set_temporary : Bool → SlotFiles → SlotFiles
set_temporary there fs = record fs { artifact = record (fs.artifact) { has_temporary = there } }

-- os.Rename of the temporary artifact, and os.Chmod
abbrev pub put_artifact : ℕ → Bytes → SlotFiles → SlotFiles
put_artifact mode value fs = record fs {
  artifact = record {
    current = some (record { regular = true; perm = mode; owned = true; content = value });
    has_temporary = false;
  };
}

-- `if condition { _ = os.Remove(temporaryArtifact); return err }`
unfoldable pub discard_if : Bool → StageFaults → Slot → UpdateError → Method Unit
discard_if true io slot e m = (err e, with_slot slot (set_temporary io.remove) m)
discard_if false io slot e m = (ok tt, m)

abbrev pub put_manifest : Place → SlotFiles → SlotFiles
put_manifest place fs = record fs { manifest = place }

-- `m.writeFile(filepath.Join(slotDirectory, manifestName), manifestJSON, 0o600)`
unfoldable pub write_manifest : WriteFaults → Slot → Bytes → Method Unit
write_manifest io slot value m =
    let (result, place) = write_atomic io value private_mode (slot_files slot m.disk).manifest in
    (result, with_slot slot (put_manifest place) m)

module _ (crypto : Crypto) (json : Json) where
  -- The artifact goes to its temporary file while it is verified.
  unfoldable pub receive_artifact : StageFaults → Slot → Manifest → Reader → Method Unit
  receive_artifact io slot manifest reader = do
    modify (with_slot slot (clean_interrupted_files io.clean))
    there ← gets (λ m. (slot_files slot m.disk).artifact.has_temporary)
    raise_if (io.create || there) create_artifact
    modify (with_slot slot (set_temporary true))
    discard_if (is_err (verify_artifact crypto manifest reader) || io.flush) io slot stage_artifact
    discard_if io.cancel io slot cancelled
    discard_if io.rename io slot commit_artifact

  -- The verified artifact takes its place, and the manifest beside it.
  unfoldable pub install_artifact : StageFaults → Slot → Manifest → Reader → Method Unit
  install_artifact io slot manifest reader = do
    let value = (read_limited (manifest.size_bytes + 1) reader).0
    modify (with_slot slot (put_artifact private_mode value))
    raise_if io.chmod protect_artifact
    modify (with_slot slot (put_artifact executable_mode value))
    write_manifest io.manifest slot (json.encode_manifest manifest)
    raise_if io.sync sync_directory

  unfoldable pub stage_files : StageFaults → Slot → Manifest → Reader → Method Unit
  stage_files io slot manifest reader = do
    receive_artifact io slot manifest reader
    install_artifact io slot manifest reader

  unfoldable pub stage : StageFaults → Manifest → Reader → ℤ → Method Slot
  stage io manifest reader now = do
    raise_if io.nil_request invalid_request
    m ← gets (λ m. m)
    raise_if m.closed manager_closed
    raise_if (not (is_unset m.state.pending) || m.state.awaiting_health) transition_pending
    let key = public_key manifest.key_id m.public_keys
    raise_if (not (length key == public_key_size)) untrusted_key
    raise_if (is_err (verify crypto manifest key m.target m.state.security_revision now))
        manifest_refused
    let slot = stage_slot m.state.active
    stage_files io slot manifest reader
    commit json io.store (staged slot m.state)
    pure slot
