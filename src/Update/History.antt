-- ===== src/Update/History.antt =====
-- Histories of the update manager: calls, failing system calls, crashes and restarts in any order.
use tos_ai.Prelude.{
  Bool, List, Option-cases, Result, [], arith, err, inl, inr, ok, some, subst, sym, true, ◌∷◌, ◌≡◌,
  ◌⊎◌,
}
use tos_ai.Prelude.Exec.{call, change, check, fail, pure}
use tos_ai.Prelude.Int.{ℤ}
use tos_ai.Update.Disk.{Disk, File, read_private_file}
use tos_ai.Update.Invariant.{IsSound, booted-IsSound, initial_state-IsSound, recovered-IsSound}
use tos_ai.Update.Keeping.{
  IsCommit-IsConsistent, IsConsistent, IsDurable, IsRoundTrip, activate_pending-IsConsistent,
  commit-IsConsistent, rollback-IsConsistent, store_state-IsCommit,
}
use tos_ai.Update.Manager.{activate_pending, close, confirm_healthy, rollback}
use tos_ai.Update.Manifest.{Crypto, Manifest, Reader}
use tos_ai.Update.Opening.{
  Config, LoadFaults, OpenFaults, booted, load_and_recover, load_state, open_manager, opened,
  prepare_root, recover, recovered, referenced_slots, unloaded,
}
use tos_ai.Update.Preservation.{confirm_healthy-IsConsistent, stage-IsConsistent}
use tos_ai.Update.Restart.{prepare_root-state_file, verify_slots-same}
use tos_ai.Update.Slots.{PersistentState, UpdateError}
use tos_ai.Update.Staging.{StageFaults, stage}
use tos_ai.Update.Store.{Json, Manager, StoreFaults, commit, store_state}

-- The ways through the recovery.
recover-cases :
    (crypto : Crypto) (json : Json) (io : StoreFaults) (s : PersistentState) (m : Manager)
    → ((recover crypto json io s m).1 ≡ m)
      ⊎ ((s.awaiting_health ≡ true) × (recover crypto json io s m ≡ commit json io (booted s) m))
      ⊎ ((s.awaiting_health ≡ true) × (recover crypto json io s m ≡ commit json io (recovered s) m))
unfolding recover pure
recover-cases crypto json io s m = ground arith

module _ (json : Json) (law : IsRoundTrip json) where
  store_state-IsConsistent :
      (io : StoreFaults) (m : Manager)
      → IsConsistent json m
      → IsConsistent json (store_state json io m.state m).1
  store_state-IsConsistent io m h =
      IsCommit-IsConsistent json law m.state m _ (store_state-IsCommit json io m.state m) h h.memory

  module _ (crypto : Crypto) where
    abbrev Consistent : Result UpdateError (Unit {0}) × Manager → Type 0
    Consistent r = IsConsistent json r.1

    recover-IsConsistent :
        (io : StoreFaults) (s : PersistentState) (m : Manager)
        → IsSound s
        → IsConsistent json m
        → IsConsistent json (recover crypto json io s m).1
    recover-IsConsistent io s m sound h = elim (recover-cases crypto json io s m) [
      | inl same ↦ rw same h
      | inr (inl (trial, same)) ↦
          rw same (commit-IsConsistent json law io (booted s) m h (booted-IsSound s sound trial))
      | inr (inr (trial, same)) ↦
          rw same
            (commit-IsConsistent json law io (recovered s) m h (recovered-IsSound s sound trial))
    ]

    load_state-IsConsistent :
        (io : LoadFaults) (f : File) (m : Manager)
        → m.disk.state_file.current ≡ some f
        → IsConsistent json m
        → IsConsistent json (load_state crypto json io f.content m).1
    unfolding load_state
    load_state-IsConsistent io f m there h = elim (Option-cases (json.decode_state f.content)) [
      | inl garbage ↦ rw (garbage, load_state) (fail Consistent _ m h)
      | inr (s, decoded) ↦
          let sound = subst (IsDurable json) there h.durable s decoded in
          let loaded = record m { state = s } in
          let taken : IsConsistent json loaded = record { memory = sound; durable = h.durable } in
          rw (decoded, load_state)
            (check Consistent _ _ _ m (λ _. h)
              λ _. change Consistent _ _ m (
                call Consistent _ _ loaded
                  (λ _ _.
                    rw
                      (verify_slots-same crypto json io.slots s.security_revision
                        (referenced_slots s) loaded)
                      taken)
                  λ _ _.
                    rw
                      (verify_slots-same crypto json io.slots s.security_revision
                        (referenced_slots s) loaded)
                      (recover-IsConsistent io.store s loaded sound taken)))
    ]

    load_and_recover-IsConsistent :
        (io : LoadFaults) (m : Manager)
        → IsConsistent json m
        → IsConsistent json (load_and_recover crypto json io m).1
    unfolding load_and_recover read_private_file
    load_and_recover-IsConsistent io m h = elim (Option-cases m.disk.state_file.current) [
      | inl none_there ↦ ground (arith, store_state-IsConsistent io.store m h)
      | inr (f, there) ↦ ground (arith, load_state-IsConsistent io f m there h)
    ]

-- A process that holds the root, or the files alone.
pub data World : Type 0 where
  running : Manager → World
  stopped : Disk → World

-- What may happen next. A restart ends the process, at a crash or in good order, and opens the root
-- again. A crash in a system call leaves the files as that call's failure does, with the clean-up
-- behind it failing too.
pub data Call : Type 0 where
  stages : StageFaults → Manifest → Reader → ℤ → Call
  activates : StoreFaults → Call
  confirms : Bool → StoreFaults → Call
  rolls_back : StoreFaults → Call
  closes : Call
  restarts : OpenFaults → Config → Call

pub data Safe (json : Json) : World → Type 0 where
  safe_running : {m : Manager} → IsConsistent json m → Safe json (running m)
  safe_stopped : {d : Disk} → IsDurable json d.state_file.current → Safe json (stopped d)

abbrev pub disk_of : World → Disk
disk_of (running m) = m.disk
disk_of (stopped d) = d

abbrev after_open : Result UpdateError Manager × Disk → World
after_open (ok m, d) = running m
after_open (err e, d) = stopped d

module _ (crypto : Crypto) (json : Json) where
  pub after_call : World → Call → World
  after_call (running m) (stages io manifest reader now) =
      running (stage crypto json io manifest reader now m).1
  after_call (running m) (activates io) = running (activate_pending json io m).1
  after_call (running m) (confirms fault io) = running (confirm_healthy json fault io m).1
  after_call (running m) (rolls_back io) = running (rollback json io m).1
  after_call (running m) closes = running (close (ok tt) m).1
  after_call w (restarts io config) = after_open (open_manager crypto json io config (disk_of w))
  after_call (stopped d) _ = stopped d

  pub run_calls : World → List Call → World
  run_calls w [] = w
  run_calls w (c ∷ cs) = run_calls (after_call w c) cs

module _ (crypto : Crypto) (json : Json) (law : IsRoundTrip json) where
  open_manager-cases :
      (io : OpenFaults) (config : Config) (d : Disk)
      → let (refused, d') = prepare_root io config d in
        let loaded = (load_and_recover crypto json io.load (unloaded config d')).1 in
        let w = after_open (open_manager crypto json io config d) in
        (w ≡ stopped d') ⊎ (w ≡ running loaded) ⊎ (w ≡ stopped loaded.disk)
  unfolding open_manager opened
  open_manager-cases io config d = ground arith

  open_manager-Safe :
      (io : OpenFaults) (config : Config) (d : Disk)
      → IsDurable json d.state_file.current
      → Safe json (after_open (open_manager crypto json io config d))
  open_manager-Safe io config d h =
      let start = unloaded config (prepare_root io config d).1 in
      let kept = prepare_root-state_file io config d in
      let clean : IsDurable json start.disk.state_file.current =
        subst (IsDurable json) (sym kept) h in
      let loaded =
        load_and_recover-IsConsistent json law crypto io.load start
          (record { memory = initial_state-IsSound; durable = clean }) in
      elim (open_manager-cases io config d) [
        | inl refused ↦ rw refused (safe_stopped clean)
        | inr (inl started) ↦ rw started (safe_running loaded)
        | inr (inr failed) ↦ rw failed (safe_stopped loaded.durable)
      ]

  after_call-Safe : (w : World) (c : Call) → Safe json w → Safe json (after_call crypto json w c)
  unfolding after_call close
  after_call-Safe (running m) (stages io manifest reader now) (safe_running h) =
      safe_running (stage-IsConsistent json law crypto io manifest reader now m h)
  after_call-Safe (running m) (activates io) (safe_running h) =
      safe_running (activate_pending-IsConsistent json law io m h)
  after_call-Safe (running m) (confirms fault io) (safe_running h) =
      safe_running (confirm_healthy-IsConsistent json law fault io m h)
  after_call-Safe (running m) (rolls_back io) (safe_running h) =
      safe_running (rollback-IsConsistent json law io m h)
  after_call-Safe (running m) closes (safe_running h) =
      safe_running (record { memory = h.memory; durable = h.durable })
  after_call-Safe (running m) (restarts io config) (safe_running h) =
      open_manager-Safe io config m.disk h.durable
  after_call-Safe (stopped d) (restarts io config) (safe_stopped h) =
      open_manager-Safe io config d h
  after_call-Safe (stopped d) (stages io manifest reader now) h = h
  after_call-Safe (stopped d) (activates io) h = h
  after_call-Safe (stopped d) (confirms fault io) h = h
  after_call-Safe (stopped d) (rolls_back io) h = h
  after_call-Safe (stopped d) closes h = h

  -- After any calls, failures, crashes and restarts, the state in memory and the state in the file are
  -- sound: they validate, the active slot is the known-good one unless a candidate is on trial, and a
  -- candidate on trial is another slot than the known-good one, to which `previous` points. This starts
  -- from a sound state or from files that hold one, and JSON gives back the valid states it encoded.
  pub run_calls-Safe :
      (w : World) (cs : List Call) → Safe json w → Safe json (run_calls crypto json w cs)
  unfolding run_calls
  run_calls-Safe w [] h = h
  run_calls-Safe w (c ∷ cs) h =
      run_calls-Safe (after_call crypto json w c) cs (after_call-Safe w c h)
