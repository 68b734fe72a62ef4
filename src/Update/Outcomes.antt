-- ===== src/Update/Outcomes.antt =====
-- What a restart and `Stage` of pkg/softwareupdate/manager.go make of the persistent state, described field by
-- field.
use tos_ai.Prelude.{arith, false, if◌then◌else◌, ok, refl, true, ◌≡◌, ◌≢◌}
use tos_ai.Update.Opening.{booted, recovered}
use tos_ai.Update.Slots.{
  PersistentState, Slot, slot_a, slot_b, stage_slot, staged, unknown, unset, valid_slot,
  validate_state,
}

-- The candidate that is active stays on trial, and its boot is on record.
pub record IsMarked (s s' : PersistentState) : Type 0 where
  pub active : s'.active ≡ s.active
  pub previous : s'.previous ≡ s.previous
  pub awaiting_health : s'.awaiting_health ≡ true
  pub boot_attempted : s'.boot_attempted ≡ true

-- The known-good slot is active, and no candidate is on trial.
pub record IsFallback (s s' : PersistentState) : Type 0 where
  pub active : s'.active ≡ s.known_good
  pub previous : s'.previous ≡ unset
  pub awaiting_health : s'.awaiting_health ≡ false
  pub boot_attempted : s'.boot_attempted ≡ false

-- What a restart makes of the stored state `s`, described apart from the code that does it.
pub record IsRestartOf (s s' : PersistentState) : Type 0 where
  pub version : s'.version ≡ s.version
  pub known_good : s'.known_good ≡ s.known_good
  pub pending : s'.pending ≡ s.pending
  pub security_revision : s'.security_revision ≡ s.security_revision
  pub settled : s.awaiting_health ≡ false → s' ≡ s
  pub first_boot : s.awaiting_health ≡ true → s.boot_attempted ≡ false → IsMarked s s'
  pub second_boot : s.awaiting_health ≡ true → s.boot_attempted ≡ true → IsFallback s s'

-- A known-good slot that validates is a slot or unset.
valid_known_good :
    (s : PersistentState)
    → validate_state s ≡ ok tt
    → (if valid_slot s.known_good then s.known_good else unset) ≡ s.known_good
unfolding validate_state
valid_known_good s h = ground arith

pub booted-IsRestartOf :
    (s : PersistentState)
    → s.awaiting_health ≡ true
    → s.boot_attempted ≡ false
    → IsRestartOf s (booted s)
booted-IsRestartOf s trial first = record {
  version = refl;
  known_good = refl;
  pending = refl;
  security_revision = refl;
  settled = λ over. cc;
  first_boot = λ _ _. record {
    active = refl;
    previous = refl;
    awaiting_health = trial;
    boot_attempted = refl;
  };
  second_boot = λ _ second. cc;
}

pub recovered-IsRestartOf :
    (s : PersistentState)
    → validate_state s ≡ ok tt
    → s.awaiting_health ≡ true
    → s.boot_attempted ≡ true
    → IsRestartOf s (recovered s)
recovered-IsRestartOf s valid trial second = record {
  version = refl;
  known_good = refl;
  pending = refl;
  security_revision = refl;
  settled = λ over. cc;
  first_boot = λ _ first. cc;
  second_boot = λ _ _. record {
    active = valid_known_good s valid;
    previous = refl;
    awaiting_health = refl;
    boot_attempted = refl;
  };
}

pub same-IsRestartOf : (s : PersistentState) → s.awaiting_health ≡ false → IsRestartOf s s
same-IsRestartOf s over = record {
  version = refl;
  known_good = refl;
  pending = refl;
  security_revision = refl;
  settled = λ _. refl;
  first_boot = λ trial _. cc;
  second_boot = λ trial _. cc;
}

-- The slot to write while `active` is in use: the other one, and `a` if none is.
pub record IsFreeSlot (active slot : Slot) : Type 0 where
  pub inactive : slot ≢ active
  pub beside_a : active ≡ slot_a → slot ≡ slot_b
  pub otherwise : active ≢ slot_a → slot ≡ slot_a

pub stage_slot-IsFreeSlot : (active : Slot) → IsFreeSlot active (stage_slot active)
stage_slot-IsFreeSlot unset = record {
  inactive = λ h. cc;
  beside_a = λ h. cc;
  otherwise = λ h. refl;
}
stage_slot-IsFreeSlot slot_a = record {
  inactive = λ h. cc;
  beside_a = λ h. refl;
  otherwise = λ h. absurd (h refl);
}
stage_slot-IsFreeSlot slot_b = record {
  inactive = λ h. cc;
  beside_a = λ h. cc;
  otherwise = λ h. refl;
}
stage_slot-IsFreeSlot (unknown t) = record {
  inactive = λ h. cc;
  beside_a = λ h. cc;
  otherwise = λ h. refl;
}

-- The slot is pending in the new state, which is the old one otherwise.
pub record IsPendingIn (slot : Slot) (s s' : PersistentState) : Type 0 where
  pub pending : s'.pending ≡ slot
  pub version : s'.version ≡ s.version
  pub active : s'.active ≡ s.active
  pub known_good : s'.known_good ≡ s.known_good
  pub previous : s'.previous ≡ s.previous
  pub awaiting_health : s'.awaiting_health ≡ s.awaiting_health
  pub boot_attempted : s'.boot_attempted ≡ s.boot_attempted
  pub security_revision : s'.security_revision ≡ s.security_revision

pub staged-IsPendingIn : (slot : Slot) (s : PersistentState) → IsPendingIn slot s (staged slot s)
staged-IsPendingIn slot s = record {
  pending = refl;
  version = refl;
  active = refl;
  known_good = refl;
  previous = refl;
  awaiting_health = refl;
  boot_attempted = refl;
  security_revision = refl;
}

pub stage_slot-valid : (slot : Slot) → valid_slot (stage_slot slot) ≡ true
stage_slot-valid unset = refl
stage_slot-valid slot_a = refl
stage_slot-valid slot_b = refl
stage_slot-valid (unknown t) = refl
