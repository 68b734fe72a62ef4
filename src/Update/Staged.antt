-- ===== src/Update/Staged.antt =====
-- What a successful `Stage` has done.
use tos_ai.Prelude.{Result, ap, arith, err, false, ok, refl, some, subst, sym, true, ◌+◌, ◌∙◌, ◌≡◌}
use tos_ai.Prelude.Exec.{call, check, fetch, return, ◌>>=◌}
use tos_ai.Prelude.Int.{ℤ}
use tos_ai.Update.Disk.{SlotFiles, executable_mode, slot_files, write_atomic}
use tos_ai.Update.Keeping.{commit-IsCommit, written}
use tos_ai.Update.KnownGood.{IsCommit-files}
use tos_ai.Update.Manifest.{
  Crypto, Manifest, ManifestError, Reader, read_limited, verify, verify_artifact,
}
use tos_ai.Update.Outcomes.{
  IsFreeSlot, IsPendingIn, stage_slot-IsFreeSlot, stage_slot-valid, staged-IsPendingIn,
}
use tos_ai.Update.Preservation.{stage_files-IsSlotWrite}
use tos_ai.Update.Restart.{commit-ok}
use tos_ai.Update.Slots.{
  Slot, UpdateError, slot_a, slot_b, stage_slot, staged, unknown, unset, valid_slot,
}
use tos_ai.Update.Staging.{
  StageFaults, discard_if, install_artifact, receive_artifact, stage, stage_files, write_manifest,
}
use tos_ai.Update.Store.{Json, Manager, commit, is_err, public_key}

-- What the file operations of `Stage` leave in the slot, where they succeed.
record IsInstalled (crypto : Crypto) (json : Json) (release : Manifest) (reader : Reader)
    (fs : SlotFiles) : Type 0 where
  verified : verify_artifact crypto release reader ≡ ok tt
  artifact :
      fs.artifact.current
      ≡ some (record {
        regular = true;
        perm = executable_mode;
        owned = true;
        content = (read_limited (release.size_bytes + 1) reader).0;
      })
  manifest : fs.manifest.current ≡ some (written (json.encode_manifest release))

is_err-ok : (r : Result ManifestError (Unit {0})) → is_err r ≡ false → r ≡ ok tt
is_err-ok (ok tt) h = refl
is_err-ok (err e) h = cc

module _ (crypto : Crypto) (json : Json) (io : StageFaults) (manifest : Manifest)
    (reader : Reader) where
  receive_artifact-verifies :
      (slot : Slot) (m : Manager)
      → (receive_artifact crypto json io slot manifest reader m).0 ≡ ok tt
      → verify_artifact crypto manifest reader ≡ ok tt
  unfolding receive_artifact discard_if ◌>>=◌
  receive_artifact-verifies slot m h =
      ground (arith, is_err-ok (verify_artifact crypto manifest reader))

  install_artifact-installs :
      (slot : Slot) (m : Manager)
      → valid_slot slot ≡ true
      → (install_artifact crypto json io slot manifest reader m).0 ≡ ok tt
      → let fs = slot_files slot (install_artifact crypto json io slot manifest reader m).1.disk in
        (fs.artifact.current
          ≡ some (record {
            regular = true;
            perm = executable_mode;
            owned = true;
            content = (read_limited (manifest.size_bytes + 1) reader).0;
          }))
        × (fs.manifest.current ≡ some (written (json.encode_manifest manifest)))
  unfolding install_artifact write_manifest write_atomic ◌>>=◌
  install_artifact-installs unset m v h = cc
  install_artifact-installs slot_a m v h = ground arith
  install_artifact-installs slot_b m v h = ground arith
  install_artifact-installs (unknown t) m v h = cc

  stage_files-IsInstalled :
      (slot : Slot) (m : Manager)
      → valid_slot slot ≡ true
      → (stage_files crypto json io slot manifest reader m).0 ≡ ok tt
      → IsInstalled crypto json manifest reader
          (slot_files slot (stage_files crypto json io slot manifest reader m).1.disk)
  unfolding stage_files
  stage_files-IsInstalled slot m v =
      let Q : Result UpdateError (Unit {0}) × Manager → Type 0 =
        λ r. r.0 ≡ ok tt → IsInstalled crypto json manifest reader (slot_files slot r.1.disk) in
      call Q _ _ m (λ _ _ h. cc)
        λ done received h.
          let m1 = (receive_artifact crypto json io slot manifest reader m).1 in
          let (artifact, kept) = install_artifact-installs slot m1 v h in
          record {
            verified = receive_artifact-verifies slot m received;
            artifact = artifact;
            manifest = kept;
          }

-- What a successful `Stage` has done.
pub record IsStaged (crypto : Crypto) (json : Json) (release : Manifest) (reader : Reader) (now : ℤ)
    (m m' : Manager) (slot : Slot) : Type 0 where
  pub chosen : IsFreeSlot m.state.active slot
  pub is_slot : valid_slot slot ≡ true
  pub accepted :
      verify crypto release
        (public_key release.key_id m.public_keys)
        m.target
        m.state.security_revision
        now
      ≡ ok tt
  pub verified : verify_artifact crypto release reader ≡ ok tt
  pub artifact :
      (slot_files slot m'.disk).artifact.current
      ≡ some (record {
        regular = true;
        perm = executable_mode;
        owned = true;
        content = (read_limited (release.size_bytes + 1) reader).0;
      })
  pub manifest :
      (slot_files slot m'.disk).manifest.current ≡ some (written (json.encode_manifest release))
  pub state : IsPendingIn slot m.state m'.state
  pub stored : m'.disk.state_file.current ≡ some (written (json.encode_state m'.state))
  pub target : m'.target ≡ m.target
  pub public_keys : m'.public_keys ≡ m.public_keys

module _ (crypto : Crypto) (json : Json) (io : StageFaults) (release : Manifest) (reader : Reader)
    (now : ℤ) (m : Manager) where
  committed-IsStaged :
      (slot : Slot)
      → is_err (
          verify crypto release
            (public_key release.key_id m.public_keys)
            m.target
            m.state.security_revision
            now)
        ≡ false
      → (stage_files crypto json io (stage_slot m.state.active) release reader m).0 ≡ ok tt
      → (commit json io.store
          (staged (stage_slot m.state.active) m.state)
          (stage_files crypto json io (stage_slot m.state.active) release reader m).1).0
        ≡ ok tt
      → ◌≡◌ {A = Result UpdateError Slot} (ok (stage_slot m.state.active)) (ok slot)
      → IsStaged crypto json release reader now m
          (commit json io.store
            (staged (stage_slot m.state.active) m.state)
            (stage_files crypto json io (stage_slot m.state.active) release reader m).1).1
          slot
  committed-IsStaged slot accepted filed committed h =
      let target = stage_slot m.state.active in
      let m1 = (stage_files crypto json io target release reader m).1 in
      let m2 = (commit json io.store (staged target m.state) m1).1 in
      let installed =
        stage_files-IsInstalled crypto json io release reader target m
          (stage_slot-valid m.state.active) filed in
      let written_files = stage_files-IsSlotWrite io target m crypto json release reader in
      let c = commit-IsCommit json io.store (staged target m.state) m1 in
      let same = IsCommit-files json (staged target m.state) target m1 m2 c in
      let (state, stored) = commit-ok json io.store (staged target m.state) m1 committed in
      let e : target ≡ slot = ground arith in
      subst (IsStaged crypto json release reader now m m2) e (record {
        chosen = stage_slot-IsFreeSlot m.state.active;
        is_slot = stage_slot-valid m.state.active;
        accepted = is_err-ok _ accepted;
        verified = installed.verified;
        artifact = ap (λ (fs : SlotFiles). fs.artifact.current) same ∙ installed.artifact;
        manifest = ap (λ (fs : SlotFiles). fs.manifest.current) same ∙ installed.manifest;
        state = subst (IsPendingIn target m.state) (sym state) (staged-IsPendingIn target m.state);
        stored = rw state stored;
        target = c.target ∙ written_files.target;
        public_keys = c.public_keys ∙ written_files.public_keys;
      })

  -- A call of `Stage` that succeeds has verified the manifest and the artifact and written both to a slot
  -- that is not active: `b` if `a` is active, and `a` otherwise. In the new state that slot is pending, and
  -- nothing else has changed; the state file holds its encoding. Target and trusted keys stay.
  pub stage-IsStaged :
      (slot : Slot)
      → (stage crypto json io release reader now m).0 ≡ ok slot
      → IsStaged crypto json release reader now m (stage crypto json io release reader now m).1 slot
  unfolding stage
  stage-IsStaged slot =
      let Q : Result UpdateError Slot × Manager → Type 0 =
        λ r. r.0 ≡ ok slot → IsStaged crypto json release reader now m r.1 slot in
      let target = stage_slot m.state.active in
      let m1 = (stage_files crypto json io target release reader m).1 in
      let m2 = (commit json io.store (staged target m.state) m1).1 in
      check Q _ _ _ m (λ _ h. cc)
        λ _. fetch Q _ _ m (
          check Q _ _ _ m (λ _ h. cc)
            λ _.
              check Q _ _ _ m (λ _ h. cc)
                λ _.
                  check Q _ _ _ m (λ _ h. cc)
                    λ accepted.
                      check Q _ _ _ m (λ _ h. cc)
                        λ accepted.
                          call Q _ _ m (λ _ _ h. cc)
                            λ _ filed.
                              call Q _ _ m1 (λ _ _ h. cc)
                                λ _ committed.
                                  return Q _ m2
                                    λ h. committed-IsStaged slot accepted filed committed h)
