-- ===== src/Update/Preservation.antt =====
-- Every method of the update manager, and every failure in it, keeps the stored states sound; `Stage`
-- does not write to the files of the known-good release.
use tos_ai.Prelude.{Bool, Result, arith, false, refl, subst, sym, true, ◌≡◌}
use tos_ai.Prelude.Exec.{call, check, fetch, modify, return}
use tos_ai.Prelude.Int.{ℤ}
use tos_ai.Prelude.Keeps.{Keeps, Keeps-modify, keeps_rules}
use tos_ai.Prelude.Text.{Bytes}
use tos_ai.Update.Disk.{Place, SlotFiles, WriteFaults, private_mode, slot_files, write_atomic}
use tos_ai.Update.Invariant.{IsSound, confirmed-IsSound, staged-IsSound}
use tos_ai.Update.Keeping.{IsConsistent, IsDurable, IsRoundTrip, commit-IsConsistent}
use tos_ai.Update.Manager.{confirm_healthy, confirmed}
use tos_ai.Update.Manifest.{Crypto, Manifest, Reader}
use tos_ai.Update.Slots.{Slot, UpdateError, slot_a, slot_b, stage_slot, staged, unknown, unset}
use tos_ai.Update.Staging.{
  StageFaults, discard_if, install_artifact, put_manifest, receive_artifact, set_temporary, stage,
  stage_files, write_manifest,
}
use tos_ai.Update.Store.{Json, Manager, StoreFaults, read_slot_manifest, with_slot}

-- What the file operations of `Stage` leave alone.
pub record IsSlotWrite (slot : Slot) (m m' : Manager) : Type 0 where
  pub state : m'.state ≡ m.state
  pub state_file : m'.disk.state_file ≡ m.disk.state_file
  pub other_a : slot ≡ slot_b → m'.disk.files_a ≡ m.disk.files_a
  pub other_b : slot ≡ slot_a → m'.disk.files_b ≡ m.disk.files_b
  pub target : m'.target ≡ m.target
  pub public_keys : m'.public_keys ≡ m.public_keys

IsSlotWrite-refl : (slot : Slot) (m : Manager) → IsSlotWrite slot m m
IsSlotWrite-refl slot m = record {
  state = refl;
  state_file = refl;
  other_a = λ _. refl;
  other_b = λ _. refl;
  target = refl;
  public_keys = refl;
}

with_slot-IsSlotWrite :
    (slot : Slot) (f : SlotFiles → SlotFiles) (m n : Manager)
    → IsSlotWrite slot m n
    → IsSlotWrite slot m (with_slot slot f n)
with_slot-IsSlotWrite unset f m n w = ground arith
with_slot-IsSlotWrite slot_a f m n w = ground arith
with_slot-IsSlotWrite slot_b f m n w = ground arith
with_slot-IsSlotWrite (unknown t) f m n w = ground arith

module _ (slot : Slot) (m : Manager) where
  modify-IsSlotWrite :
      (f : SlotFiles → SlotFiles)
      → Keeps {E = UpdateError} (IsSlotWrite slot m) (modify (with_slot slot f))
  modify-IsSlotWrite f = Keeps-modify (with_slot slot f) (with_slot-IsSlotWrite slot f m)

  discard_if-IsSlotWrite :
      (b : Bool) (io : StageFaults) (e : UpdateError)
      → Keeps (IsSlotWrite slot m) (discard_if b io slot e)
  unfolding discard_if
  discard_if-IsSlotWrite true io e = record {
    stays = with_slot-IsSlotWrite slot (set_temporary io.remove) m;
  }
  discard_if-IsSlotWrite false io e = record { stays = λ n w. w }

  write_manifest-IsSlotWrite :
      (io : WriteFaults) (value : Bytes) → Keeps (IsSlotWrite slot m) (write_manifest io slot value)
  unfolding write_manifest
  write_manifest-IsSlotWrite io value = record {
    stays = λ n w.
        let place = (write_atomic io value private_mode (slot_files slot n.disk).manifest).1 in
        with_slot-IsSlotWrite slot (put_manifest place) m n w;
  }

  pub stage_files-Keeps :
      (crypto : Crypto) (json : Json) (io : StageFaults) (manifest : Manifest) (reader : Reader)
      → Keeps (IsSlotWrite slot m) (stage_files crypto json io slot manifest reader)
  unfolding stage_files receive_artifact install_artifact
  stage_files-Keeps crypto json io manifest reader =
      search (keeps_rules, modify-IsSlotWrite, discard_if-IsSlotWrite, write_manifest-IsSlotWrite)
        depth 12

pub stage_files-IsSlotWrite :
    (io : StageFaults) (slot : Slot) (m : Manager) (crypto : Crypto) (json : Json)
    (manifest : Manifest) (reader : Reader)
    → IsSlotWrite slot m (stage_files crypto json io slot manifest reader m).1
stage_files-IsSlotWrite io slot m crypto json manifest reader =
    (stage_files-Keeps slot m crypto json io manifest reader).stays m (IsSlotWrite-refl slot m)

IsSlotWrite-IsConsistent :
    (json : Json) (slot : Slot) (m m' : Manager)
    → IsSlotWrite slot m m'
    → IsConsistent json m
    → IsConsistent json m'
IsSlotWrite-IsConsistent json slot m m' w h = record {
  memory = subst IsSound (sym w.state) h.memory;
  durable = subst (λ (p : Place). IsDurable json p.current) (sym w.state_file) h.durable;
}

pub read_slot_manifest-state :
    (json : Json) (fault : Bool) (slot : Slot) (m : Manager)
    → (read_slot_manifest json fault slot m).1 ≡ m
unfolding read_slot_manifest
read_slot_manifest-state json fault slot m = ground arith

module _ (json : Json) (law : IsRoundTrip json) where
  abbrev Consistently : {A : Type 0} → Result UpdateError A × Manager → Type 0
  Consistently r = IsConsistent json r.1

  pub confirm_healthy-IsConsistent :
      (fault : Bool) (io : StoreFaults) (m : Manager)
      → IsConsistent json m
      → IsConsistent json (confirm_healthy json fault io m).1
  unfolding confirm_healthy
  confirm_healthy-IsConsistent fault io m h =
      let same = read_slot_manifest-state json fault m.state.active m in
      fetch Consistently _ _ m (
        check Consistently _ _ _ m (λ _. h)
          λ ready.
            call Consistently _ _ m (λ _ _. rw same h)
              λ manifest _. rw same (
                commit-IsConsistent json law io (confirmed manifest.security_revision m.state) m h
                  (confirmed-IsSound manifest.security_revision m.state h.memory (ground arith))))

  module _ (crypto : Crypto) where
    pub stage-IsConsistent :
        (io : StageFaults) (manifest : Manifest) (reader : Reader) (now : ℤ) (m : Manager)
        → IsConsistent json m
        → IsConsistent json (stage crypto json io manifest reader now m).1
    unfolding stage
    stage-IsConsistent io manifest reader now m h =
        let slot = stage_slot m.state.active in
        let files =
          IsSlotWrite-IsConsistent json slot m _
            (stage_files-IsSlotWrite io slot m crypto json manifest reader) h in
        check Consistently _ _ _ m (λ _. h)
          λ _. fetch Consistently _ _ m (
            check Consistently _ _ _ m (λ _. h)
              λ _.
                check Consistently _ _ _ m (λ _. h)
                  λ idle.
                    check Consistently _ _ _ m (λ _. h)
                      λ _.
                        check Consistently _ _ _ m (λ _. h)
                          λ _.
                            call Consistently _ _ m (λ _ _. files)
                              λ _ _.
                                let stored =
                                  commit-IsConsistent json law io.store (staged slot m.state)
                                    (stage_files crypto json io slot manifest reader m).1 files
                                    (staged-IsSound m.state h.memory (ground arith)
                                      (ground arith)) in
                                call Consistently _ _ _ (λ _ _. stored)
                                  λ _ _. return Consistently _ _ stored)
