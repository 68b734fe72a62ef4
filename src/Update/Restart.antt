-- ===== src/Update/Restart.antt =====
-- What a restart of the update manager makes of the stored state.
use tos_ai.Prelude.{
  Bool-cases, List, Result, [], arith, err, false, inl, inr, ok, refl, some, subst, sym, true, ℕ,
  ◌∙◌, ◌∷◌, ◌≡◌,
}
use tos_ai.Prelude.Exec.{call, change, check, fetch, pure, return, settle, ◌>>=◌}
use tos_ai.Prelude.Text.{Bytes}
use tos_ai.Update.Disk.{Disk, File, read_private_file, write_atomic}
use tos_ai.Update.Keeping.{written}
use tos_ai.Update.Manifest.{Crypto}
use tos_ai.Update.Opening.{
  Config, LoadFaults, OpenFaults, VerifyFaults, booted, load_and_recover, load_state, open_manager,
  opened, prepare_root, recover, recovered, referenced_slots, unloaded, verify_installed_slot,
  verify_slots,
}
use tos_ai.Update.Outcomes.{
  IsRestartOf, booted-IsRestartOf, recovered-IsRestartOf, same-IsRestartOf,
}
use tos_ai.Update.Preservation.{read_slot_manifest-state}
use tos_ai.Update.Slots.{PersistentState, Slot, UpdateError, validate_state}
use tos_ai.Update.Store.{Json, Manager, StoreFaults, commit, is_err, store_state, write_state}

-- A `commit` that succeeds has stored the new state and taken it over.
pub commit-ok :
    (json : Json) (io : StoreFaults) (next : PersistentState) (m : Manager)
    → (commit json io next m).0 ≡ ok tt
    → ((commit json io next m).1.state ≡ next)
      × ((commit json io next m).1.disk.state_file.current
          ≡ some (written (json.encode_state next)))
unfolding commit store_state write_state write_atomic ◌>>=◌
commit-ok json io next m h = ground arith

abbrev Same : {A : Type 0} → Manager → Result UpdateError A × Manager → Type 0
Same m r = r.1 ≡ m

module _ (crypto : Crypto) (json : Json) where
  verify_installed_slot-same :
      (io : VerifyFaults) (slot : Slot) (revision : ℕ) (m : Manager)
      → (verify_installed_slot crypto json io slot revision m).1 ≡ m
  unfolding verify_installed_slot
  verify_installed_slot-same io slot revision m =
      let same = read_slot_manifest-state json io.manifest slot m in
      call (Same m) _ _ m (λ _ _. same)
        λ manifest _.
          rw same (
            fetch (Same m) _ _ m (check (Same m) _ _ _ m (λ _. refl) λ _. settle (Same m) _ m refl))

  pub verify_slots-same :
      (io : Slot → VerifyFaults) (revision : ℕ) (slots : List Slot) (m : Manager)
      → (verify_slots crypto json io revision slots m).1 ≡ m
  unfolding verify_slots
  verify_slots-same io revision [] m = return (Same m) _ m refl
  verify_slots-same io revision (slot ∷ rest) m =
      let same = verify_installed_slot-same (io slot) slot revision m in
      call (Same m) _ _ m (λ _ _. same) λ _ _. rw same (verify_slots-same io revision rest m)

-- What `loadAndRecover` has done where it succeeds on a file that holds the state `s`.
pub record IsRestarted (json : Json) (s : PersistentState) (m : Manager) : Type 0 where
  pub valid : validate_state s ≡ ok tt
  pub state : IsRestartOf s m.state
  pub stored :
      s.awaiting_health ≡ true
      → m.disk.state_file.current ≡ some (written (json.encode_state m.state))

-- A restart that has stored a new state.
committed-IsRestarted :
    (json : Json) (io : StoreFaults) (s next : PersistentState) (m : Manager)
    → validate_state s ≡ ok tt
    → IsRestartOf s next
    → (commit json io next m).0 ≡ ok tt
    → IsRestarted json s (commit json io next m).1
committed-IsRestarted json io s next m valid restart h =
    let (state, stored) = commit-ok json io next m h in
    record {
      valid = valid;
      state = subst (IsRestartOf s) (sym state) restart;
      stored = λ _. rw state stored;
    }

abbrev Restarts : Json → PersistentState → Result UpdateError (Unit {0}) × Manager → Type 0
Restarts json s r = r.0 ≡ ok tt → IsRestarted json s r.1

module _ (crypto : Crypto) (json : Json) (io : StoreFaults) (s : PersistentState)
    (m : Manager) where
  recover-settled : s.awaiting_health ≡ false → recover crypto json io s m ≡ (ok tt, m)
  unfolding recover pure
  recover-settled over = ground arith

  recover-first :
      s.awaiting_health ≡ true
      → s.boot_attempted ≡ false
      → recover crypto json io s m ≡ commit json io (booted s) m
  unfolding recover
  recover-first trial first = ground arith

  recover-second :
      s.awaiting_health ≡ true
      → s.boot_attempted ≡ true
      → recover crypto json io s m ≡ commit json io (recovered s) m
  unfolding recover
  recover-second trial second = ground arith

  recover-IsRestarted :
      m.state ≡ s → validate_state s ≡ ok tt → Restarts json s (recover crypto json io s m)
  recover-IsRestarted same valid = elim (Bool-cases s.awaiting_health) [
    | inr over ↦ subst (Restarts json s) (sym (recover-settled over)) λ _. record {
      valid = valid;
      state = subst (IsRestartOf s) (sym same) (same-IsRestartOf s over);
      stored = λ trial. cc;
    }
    | inl trial ↦ elim (Bool-cases s.boot_attempted) [
      | inr first ↦
          subst (Restarts json s) (sym (recover-first trial first))
            (committed-IsRestarted json io s (booted s) m valid (booted-IsRestartOf s trial first))
      | inl second ↦ subst (Restarts json s) (sym (recover-second trial second)) (
          committed-IsRestarted json io s (recovered s) m valid
            (recovered-IsRestartOf s valid trial second))
    ]
  ]

is_err-ok : (r : Result UpdateError (Unit {0})) → is_err r ≡ false → r ≡ ok tt
is_err-ok (ok tt) h = refl
is_err-ok (err e) h = cc

module _ (crypto : Crypto) (json : Json) (io : LoadFaults) where
  load_state-IsRestarted :
      (value : Bytes) (s : PersistentState) (m : Manager)
      → json.decode_state value ≡ some s
      → (load_state crypto json io value m).0 ≡ ok tt
      → IsRestarted json s (load_state crypto json io value m).1
  unfolding load_state
  load_state-IsRestarted value s m decoded =
      rw (decoded, load_state)
        (check (Restarts json s) _ _ _ m (λ _ h. cc)
          λ valid. change (Restarts json s) _ _ m (
            call (Restarts json s) _ _ _ (λ _ _ h. cc)
              λ _ _.
                rw
                  (verify_slots-same crypto json io.slots s.security_revision (referenced_slots s)
                    (record m { state = s }))
                  (recover-IsRestarted crypto json io.store s (record m { state = s }) refl
                    (is_err-ok (validate_state s) valid))))

  load_and_recover-IsRestarted :
      (f : File) (s : PersistentState) (m : Manager)
      → m.disk.state_file.current ≡ some f
      → json.decode_state f.content ≡ some s
      → (load_and_recover crypto json io m).0 ≡ ok tt
      → IsRestarted json s (load_and_recover crypto json io m).1
  unfolding load_and_recover read_private_file
  load_and_recover-IsRestarted f s m there decoded h =
      ground (arith, load_state-IsRestarted f.content s m decoded)

pub prepare_root-state_file :
    (io : OpenFaults) (config : Config) (d : Disk)
    → (prepare_root io config d).1.state_file.current ≡ d.state_file.current
unfolding prepare_root ◌>>=◌
prepare_root-state_file io config d = ground arith

opened-ok :
    (r : Result UpdateError (Unit {0}) × Manager) (m : Manager)
    → (opened r).0 ≡ ok m
    → (r.0 ≡ ok tt) × (r.1 ≡ m)
unfolding opened
opened-ok (ok tt, n) m h = (refl, ground arith)
opened-ok (err e, n) m h = cc

-- Where `Open` succeeds, so does `loadAndRecover`, and its manager is returned.
pub open_manager-ok :
    (crypto : Crypto) (json : Json) (io : OpenFaults) (config : Config) (d : Disk) (m : Manager)
    → (open_manager crypto json io config d).0 ≡ ok m
    → let start = unloaded config (prepare_root io config d).1 in
      ((load_and_recover crypto json io.load start).0 ≡ ok tt)
      × ((load_and_recover crypto json io.load start).1 ≡ m)
unfolding open_manager
open_manager-ok crypto json io config d m h =
    let start = unloaded config (prepare_root io config d).1 in
    ground (arith, opened-ok (load_and_recover crypto json io.load start) m)

-- A manager that `Open` returns for a state file that decodes has a state that follows the file's, which was
-- valid: the same one, if no candidate was on trial; with the candidate still active and on trial and its boot
-- attempted, if that was not so before; and otherwise with the known-good slot active, no previous slot, and
-- no trial and no attempted boot. Version, known-good slot, pending slot and security revision stay. If a
-- candidate was on trial, the state file holds the encoding of the new state when `Open` returns.
pub open_manager-IsRestarted :
    (crypto : Crypto) (json : Json) (io : OpenFaults) (config : Config) (d : Disk) (f : File)
    (s : PersistentState) (m : Manager)
    → d.state_file.current ≡ some f
    → json.decode_state f.content ≡ some s
    → (open_manager crypto json io config d).0 ≡ ok m
    → IsRestarted json s m
open_manager-IsRestarted crypto json io config d f s m there decoded h =
    let start = unloaded config (prepare_root io config d).1 in
    let (loaded, same) = open_manager-ok crypto json io config d m h in
    subst (IsRestarted json s) same (
      load_and_recover-IsRestarted crypto json io.load f s start
        (prepare_root-state_file io config d ∙ there) decoded loaded)
