-- ===== src/Update/Invariant.antt =====
-- What every stored state of the update manager satisfies, and that each transition keeps it.
use tos_ai.Prelude.{arith, false, ok, true, ℕ, ◌≡◌, ◌≢◌}
use tos_ai.Update.Manager.{confirmed, rolled_back}
use tos_ai.Update.Opening.{booted, recovered}
use tos_ai.Update.Slots.{
  PersistentState, activated, initial_state, is_unset, stage_slot, staged, unset, valid_slot,
  validate_state,
}

pub record IsSound (s : PersistentState) : Type 0 where
  pub valid : validate_state s ≡ ok tt
  -- With no candidate on trial, the active release is the known-good one.
  pub settled : s.awaiting_health ≡ false → s.active ≡ s.known_good
  -- A candidate on trial is another slot than the known-good one, which is the slot before it.
  pub candidate : s.awaiting_health ≡ true → s.active ≢ s.known_good
  pub fallback : s.awaiting_health ≡ true → s.previous ≡ s.known_good
  pub exclusive : s.awaiting_health ≡ true → s.pending ≡ unset

pub initial_state-IsSound : IsSound initial_state
unfolding validate_state
initial_state-IsSound = ground arith

pub staged-IsSound :
    (s : PersistentState)
    → IsSound s
    → is_unset s.pending ≡ true
    → s.awaiting_health ≡ false
    → IsSound (staged (stage_slot s.active) s)
unfolding validate_state
staged-IsSound s h p a = ground arith

pub activated-IsSound :
    (s : PersistentState)
    → IsSound s
    → valid_slot s.pending ≡ true
    → s.awaiting_health ≡ false
    → IsSound (activated s)
unfolding validate_state
activated-IsSound s h p a = ground arith

pub confirmed-IsSound :
    (revision : ℕ) (s : PersistentState)
    → IsSound s
    → s.awaiting_health ≡ true
    → IsSound (confirmed revision s)
unfolding validate_state
confirmed-IsSound revision s h a = ground arith

pub rolled_back-IsSound :
    (s : PersistentState) → IsSound s → valid_slot s.known_good ≡ true → IsSound (rolled_back s)
unfolding validate_state
rolled_back-IsSound s h k = ground arith

pub booted-IsSound :
    (s : PersistentState) → IsSound s → s.awaiting_health ≡ true → IsSound (booted s)
unfolding validate_state
booted-IsSound s h a = ground arith

pub recovered-IsSound :
    (s : PersistentState) → IsSound s → s.awaiting_health ≡ true → IsSound (recovered s)
unfolding validate_state
recovered-IsSound s h a = ground arith
