-- ===== src/Update/KnownGood.antt =====
-- `Stage` never writes to the release that a rollback would return to.
use tos_ai.Prelude.{Result, arith, refl, subst, true, ◌∙◌, ◌≡◌}
use tos_ai.Prelude.Exec.{call, check, fetch, return}
use tos_ai.Prelude.Int.{ℤ}
use tos_ai.Update.Disk.{slot_files}
use tos_ai.Update.Invariant.{IsSound}
use tos_ai.Update.Keeping.{IsCommit, commit-IsCommit}
use tos_ai.Update.Manifest.{Crypto, Manifest, Reader}
use tos_ai.Update.Preservation.{stage_files-IsSlotWrite}
use tos_ai.Update.Slots.{
  PersistentState, Slot, UpdateError, slot_a, slot_b, stage_slot, staged, unknown, unset,
  valid_slot,
}
use tos_ai.Update.Staging.{StageFaults, stage, stage_files}
use tos_ai.Update.Store.{Json, Manager}

pub IsCommit-files :
    (json : Json) (next : PersistentState) (slot : Slot) (m m' : Manager)
    → IsCommit json next m m'
    → slot_files slot m'.disk ≡ slot_files slot m.disk
IsCommit-files json next unset m m' c = refl
IsCommit-files json next slot_a m m' c = c.files_a
IsCommit-files json next slot_b m m' c = c.files_b
IsCommit-files json next (unknown t) m m' c = refl

abbrev KeepsFiles : {A : Type 0} → Slot → Manager → Result UpdateError A × Manager → Type 0
KeepsFiles slot m r = slot_files slot r.1.disk ≡ slot_files slot m.disk

module _ (crypto : Crypto) (json : Json) (io : StageFaults) (manifest : Manifest)
    (reader : Reader) where
  other_files :
      (slot : Slot) (m : Manager)
      → valid_slot slot ≡ true
      → slot_files slot (stage_files crypto json io (stage_slot slot) manifest reader m).1.disk
        ≡ slot_files slot m.disk
  other_files unset m v = cc
  other_files slot_a m v =
      (stage_files-IsSlotWrite io slot_b m crypto json manifest reader).other_a refl
  other_files slot_b m v =
      (stage_files-IsSlotWrite io slot_a m crypto json manifest reader).other_b refl
  other_files (unknown t) m v = cc

  -- Whatever the manifest, the artifact and the failures, a call of `Stage` in a sound state leaves the
  -- artifact and the manifest of the known-good slot as they were.
  pub stage-known_good :
      (now : ℤ) (m : Manager)
      → IsSound m.state
      → valid_slot m.state.known_good ≡ true
      → slot_files m.state.known_good (stage crypto json io manifest reader now m).1.disk
        ≡ slot_files m.state.known_good m.disk
  unfolding stage
  stage-known_good now m sound v =
      let good = m.state.known_good in
      let slot = stage_slot m.state.active in
      let files = (stage_files crypto json io slot manifest reader m).1 in
      check (KeepsFiles good m) _ _ _ m (λ _. refl)
        λ _. fetch (KeepsFiles good m) _ _ m (
          check (KeepsFiles good m) _ _ _ m (λ _. refl)
            λ _.
              check (KeepsFiles good m) _ _ _ m (λ _. refl)
                λ idle.
                  check (KeepsFiles good m) _ _ _ m (λ _. refl)
                    λ _.
                      check (KeepsFiles good m) _ _ _ m (λ _. refl)
                        λ _.
                          let same = sound.settled (ground arith) in
                          let untouched =
                            subst
                              (λ (k : Slot).
                                valid_slot k ≡ true → slot_files k files.disk ≡ slot_files k m.disk)
                              same (other_files m.state.active m) v in
                          call (KeepsFiles good m) _ _ m (λ _ _. untouched)
                            λ _ _.
                              let stored =
                                IsCommit-files json (staged slot m.state) good files _
                                  (commit-IsCommit json io.store (staged slot m.state) files)
                                ∙ untouched in
                              call (KeepsFiles good m) _ _ _ (λ _ _. stored)
                                λ _ _. return (KeepsFiles good m) _ _ stored)
