-- ===== src/Update/Opening.antt =====
-- pkg/softwareupdate/manager.go: `Open`, which takes the root, cleans what an interrupted process left,
-- verifies what is installed, and recovers a candidate that did not confirm its health.
use tos_ai.Prelude.{
  Bool, List, Option, Result, [], any, err, false, if◌then◌else◌, length, ltb, none, not, ok, some,
  true, ℕ, ◌&&◌, ◌==◌, ◌||◌, ◌∷◌,
}
use tos_ai.Prelude.Exec.{Exec, gets, lift, modify, pure, raise, raise_if, ◌>>=◌, ◌>>◌}
use tos_ai.Prelude.Text.{Bytes}
use tos_ai.Update.Disk.{
  Disk, File, absent, clean_interrupted_files, contents, executable_mode, private_mode,
  read_private_file, set_slot_files, slot_files, unreadable,
}
use tos_ai.Update.Manifest.{Crypto, Manifest, public_key_size, verify_artifact, verify_installed}
use tos_ai.Update.Slots.{
  PersistentState, Slot, UpdateError, already_owned, artifact_refused, create_directory,
  initial_state, installed_manifest_refused, invalid_artifact, invalid_configuration, invalid_state,
  invalid_trust_root, not_private, read_state, slot_a, slot_b, slot_eq, unset, valid_slot,
  validate_state,
}
use tos_ai.Update.Store.{
  Json, Manager, Method, StoreFaults, commit, is_err, max_state_bytes, public_key,
  read_slot_manifest, store_state,
}

pub record Config : Type 0 where
  pub root_is_canonical : Bool  -- filepath.IsAbs(root) && filepath.Clean(root) == root
  pub target : Bytes
  pub public_keys : List (Bytes × Bytes)

pub record VerifyFaults : Type 0 where
  pub manifest : Bool
  pub lstat : Bool
  pub open_file : Bool
  pub stat : Bool
  pub read : Bool

pub record LoadFaults : Type 0 where
  pub read : Bool
  pub slots : Slot → VerifyFaults
  pub store : StoreFaults

pub record OpenFaults : Type 0 where
  pub make_root : Bool
  pub root_not_private : Bool
  pub lock_taken : Bool
  pub remove_state : Bool
  pub make_a : Bool
  pub a_not_private : Bool
  pub make_b : Bool
  pub b_not_private : Bool
  pub clean : Bool
  pub load : LoadFaults

-- `uniqueReferencedSlots`; the first argument is `seen`.
unfoldable pub unique_slots : List Slot → List Slot → List Slot
unique_slots seen [] = []
unique_slots seen (s ∷ rest) =
    let more = unique_slots (s ∷ seen) rest in
    let fewer = unique_slots seen rest in
    if valid_slot s && not (any (slot_eq s) seen) then s ∷ more else fewer

unfoldable pub referenced_slots : PersistentState → List Slot
referenced_slots s = unique_slots [] (s.active ∷ s.known_good ∷ s.pending ∷ s.previous ∷ [])

-- The state of a candidate's first boot.
abbrev pub booted : PersistentState → PersistentState
booted s = record s { boot_attempted = true }

-- The state after a candidate ended without confirming its health.
abbrev pub recovered : PersistentState → PersistentState
recovered s = record s {
  active = if valid_slot s.known_good then s.known_good else unset;
  previous = unset;
  awaiting_health = false;
  boot_attempted = false;
}

-- The installed artifact passes the checks on its file, for a manifest's size.
unfoldable pub artifact_file_holds : VerifyFaults → ℕ → File → Bool
artifact_file_holds io size f =
    f.regular && not io.stat && (f.perm == executable_mode) && f.owned && (length f.content == size)

-- `len(keyID) > 512`, the empty identifier, and a key of another size
abbrev pub bad_trust_root : Bytes × Bytes → Bool
bad_trust_root (id, key) =
    (length id == 0) || ltb 512 (length id) || not (length key == public_key_size)

abbrev pub remove_state_temporary : Bool → Disk → Disk
remove_state_temporary fails d = record d {
  state_file = record (d.state_file) { has_temporary = d.state_file.has_temporary && fails };
}

abbrev pub clean_slot : Bool → Slot → Disk → Disk
clean_slot fails slot d = set_slot_files slot (clean_interrupted_files fails (slot_files slot d)) d

-- The manager that `Open` returns, or its error, and the files.
unfoldable pub opened : Result UpdateError (Unit {0}) × Manager → Result UpdateError Manager × Disk
opened (ok _, m) = (ok m, m.disk)
opened (err e, m) = (err e, m.disk)

-- `Open` up to the loading of the state: the checks, the lock, and the cleaning of the root.
unfoldable pub prepare_root : OpenFaults → Config → Exec Disk UpdateError Unit
prepare_root io config = do
  raise_if
      (not config.root_is_canonical
        || (length config.target == 0)
        || ltb 256 (length config.target)
        || (length config.public_keys == 0))
      invalid_configuration
  raise_if (any bad_trust_root config.public_keys) invalid_trust_root
  raise_if io.make_root create_directory
  raise_if io.root_not_private not_private
  raise_if io.lock_taken already_owned
  modify (remove_state_temporary io.remove_state)
  raise_if io.make_a create_directory
  raise_if io.a_not_private not_private
  modify (clean_slot io.clean slot_a)
  raise_if io.make_b create_directory
  raise_if io.b_not_private not_private
  modify (clean_slot io.clean slot_b)

-- The manager before `loadAndRecover`.
abbrev pub unloaded : Config → Disk → Manager
unloaded config d = record {
  target = config.target;
  public_keys = config.public_keys;
  state = initial_state;
  closed = false;
  disk = d;
}

module _ (crypto : Crypto) (json : Json) where
  unfoldable pub verify_installed_artifact :
      VerifyFaults → Manifest → Option File → Result UpdateError (Unit {0})
  verify_installed_artifact io manifest none = err invalid_artifact
  verify_installed_artifact io manifest (some f) =
      if io.lstat
        || not f.regular
        || io.open_file
        || not (artifact_file_holds io manifest.size_bytes f)
      then err invalid_artifact
      else if is_err
          (verify_artifact crypto manifest (record { content = f.content; fails = io.read }))
      then err artifact_refused
      else ok tt

  unfoldable pub verify_installed_slot : VerifyFaults → Slot → ℕ → Method Unit
  verify_installed_slot io slot revision = do
    manifest ← read_slot_manifest json io.manifest slot
    m ← gets (λ m. m)
    raise_if
        (is_err (
          verify_installed crypto manifest (public_key manifest.key_id m.public_keys) m.target
            revision))
        installed_manifest_refused
    lift (verify_installed_artifact io manifest (slot_files slot m.disk).artifact.current)

  unfoldable pub verify_slots : (Slot → VerifyFaults) → ℕ → List Slot → Method Unit
  verify_slots io revision [] = pure tt
  verify_slots io revision (slot ∷ rest) =
      let others = verify_slots io revision rest in
      do verify_installed_slot (io slot) slot revision; others

  -- The part of `loadAndRecover` behind the verification.
  unfoldable pub recover : StoreFaults → PersistentState → Method Unit
  recover io s =
      if s.awaiting_health && not s.boot_attempted
      then commit json io (booted s)
      else if s.awaiting_health
      then commit json io (recovered s)
      else pure tt

  -- The part of `loadAndRecover` behind the reading: the state file holds these bytes.
  unfoldable pub load_state : LoadFaults → Bytes → Method Unit
  load_state io value = elim (json.decode_state value) [
    | none ↦ raise invalid_state
    | some s ↦ do
      raise_if (is_err (validate_state s)) invalid_state
      modify (λ m. record m { state = s })
      verify_slots io.slots s.security_revision (referenced_slots s)
      recover io.store s
  ]

  unfoldable pub load_and_recover : LoadFaults → Method Unit
  load_and_recover io m =
      elim (read_private_file io.read max_state_bytes private_mode m.disk.state_file) [
        | absent ↦ store_state json io.store m.state m
        | unreadable ↦ (err read_state, m)
        | contents value ↦ load_state io value m
      ]

  unfoldable pub open_manager : OpenFaults → Config → Disk → Result UpdateError Manager × Disk
  open_manager io config d =
      let (prepared, d') = prepare_root io config d in
      elim prepared [
        | err e ↦ (err e, d')
        | ok _ ↦ opened (load_and_recover io.load (unloaded config d'))
      ]
