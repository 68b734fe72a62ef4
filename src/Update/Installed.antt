-- ===== src/Update/Installed.antt =====
-- A release that `Stage` has accepted passes the verification of the next `Open`, if its encoded
-- manifest is short enough to be read back.
use tos_ai.Prelude.{arith, err, false, if◌then◌else◌, length, ltb, ok, refl, some, true, ◌≡◌, ◌≤◌}
use tos_ai.Prelude.Exec.{◌>>=◌}
use tos_ai.Prelude.Int.{ℤ}
use tos_ai.Prelude.Text.{Bytes}
use tos_ai.Update.Disk.{executable_mode, read_private_file, slot_files}
use tos_ai.Update.Manifest.{Crypto, Manifest, Reader, verify_artifact, verify_installed}
use tos_ai.Update.Manifest.Checks.{
  verify-verify_installed, verify_accepts, verify_artifact_iff, whole_read,
}
use tos_ai.Update.Opening.{
  VerifyFaults, artifact_file_holds, verify_installed_artifact, verify_installed_slot,
}
use tos_ai.Update.Preservation.{read_slot_manifest-state}
use tos_ai.Update.Slots.{Slot, read_manifest}
use tos_ai.Update.Staged.{stage-IsStaged}
use tos_ai.Update.Staging.{StageFaults, stage}
use tos_ai.Update.Store.{Json, Manager, max_manifest_bytes, public_key, read_slot_manifest}

abbrev pub no_verify_faults : VerifyFaults
no_verify_faults = record {
  manifest = false;
  lstat = false;
  open_file = false;
  stat = false;
  read = false;
}

module _ (crypto : Crypto) (json : Json) where
  -- What the next `readManifest` makes of a slot after a successful `Stage`: the manifest, if its encoding
  -- has at most 16384 bytes, and an error otherwise. `Stage` does not check that bound. JSON gives back this manifest.
  pub stage-read_slot_manifest :
      (io : StageFaults) (release : Manifest) (reader : Reader) (now : ℤ) (m : Manager)
      (slot : Slot)
      → (stage crypto json io release reader now m).0 ≡ ok slot
      → json.decode_manifest (json.encode_manifest release) ≡ some release
      → (read_slot_manifest json false slot (stage crypto json io release reader now m).1).0 ≡ (
          if ltb max_manifest_bytes (length (json.encode_manifest release))
          then err read_manifest
          else ok release)
  unfolding read_slot_manifest read_private_file
  stage-read_slot_manifest io release reader now m slot h law =
      let s = stage-IsStaged crypto json io release reader now m slot h in
      let valid = s.is_slot in ground (arith, valid, s.manifest, law)

  installed_artifact-ok :
      (release : Manifest) (content : Bytes)
      → length content ≡ release.size_bytes
      → verify_artifact crypto release (record { content = content; fails = false }) ≡ ok tt
      → verify_installed_artifact crypto json no_verify_faults release (
          some (record { regular = true; perm = executable_mode; owned = true; content = content }))
        ≡ ok tt
  unfolding verify_installed_artifact artifact_file_holds
  installed_artifact-ok release content fits verified = ground arith

  -- A staged release whose encoded manifest has at most 16384 bytes passes the verification that `Open` makes
  -- of its slot, under the revision that was current when it was staged, if no system call fails and JSON
  -- gives back this manifest.
  pub stage-verify_installed_slot :
      (io : StageFaults) (release : Manifest) (reader : Reader) (now : ℤ) (m : Manager)
      (slot : Slot)
      → (stage crypto json io release reader now m).0 ≡ ok slot
      → json.decode_manifest (json.encode_manifest release) ≡ some release
      → length (json.encode_manifest release) ≤ max_manifest_bytes
      → let m' = (stage crypto json io release reader now m).1 in
        verify_installed_slot crypto json no_verify_faults slot m'.state.security_revision m'
        ≡ (ok tt, m')
  stage-verify_installed_slot io release reader now m slot h law short =
      let m' = (stage crypto json io release reader now m).1 in
      let s = stage-IsStaged crypto json io release reader now m slot h in
      let (well_formed, _, newer) =
        verify_accepts crypto release (public_key release.key_id m.public_keys) m.target
          m.state.security_revision now s.accepted in
      let (_, ends, fits, hashes) = (verify_artifact_iff crypto release reader).0 s.verified in
      let revision = s.state.security_revision in
      let trusted =
        verify-verify_installed crypto release (public_key release.key_id m.public_keys) m.target
          m.state.security_revision m.state.security_revision now s.accepted newer in
      let still_trusted : verify_installed crypto release (public_key release.key_id m'.public_keys)
            m'.target m'.state.security_revision
          ≡ ok tt =
        rw (s.public_keys, s.target, revision) trusted in
      let manifest : read_slot_manifest json false slot m' ≡ (ok release, m') = ground (
        arith,
        stage-read_slot_manifest io release reader now m slot h law,
        read_slot_manifest-state json false slot m',
      ) in
      let artifact : verify_installed_artifact crypto json no_verify_faults release
            (slot_files slot m'.disk).artifact.current
          ≡ ok tt =
        rw (s.artifact, whole_read release.size_bytes reader ends fits)
          (installed_artifact-ok release reader.content (rw fits refl) (
            (verify_artifact_iff crypto release
                (record { content = reader.content; fails = false })).1
              (well_formed, refl, fits, hashes))) in
      unfold verify_installed_slot ◌>>=◌ in ground (arith, manifest, still_trusted, artifact)
