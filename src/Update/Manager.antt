-- ===== src/Update/Manager.antt =====
-- pkg/softwareupdate/manager.go: activation, health confirmation, rollback, status and closing.
use tos_ai.Prelude.{Bool, Result, false, if◌then◌else◌, ltb, not, true, ℕ, ◌&&◌, ◌||◌}
use tos_ai.Prelude.Exec.{gets, pure, raise_if, ◌>>=◌, ◌>>◌}
use tos_ai.Update.Slots.{
  PersistentState, Slot, UpdateError, activated, manager_closed, nothing_to_activate,
  nothing_to_confirm, nothing_to_roll_back, slot_eq, unset, valid_slot,
}
use tos_ai.Update.Store.{Json, Method, StoreFaults, commit, read_slot_manifest}

-- The public view of the state.
pub record Status : Type 0 where
  pub active_slot : Slot
  pub known_good_slot : Slot
  pub pending_slot : Slot
  pub awaiting_health : Bool
  pub boot_attempted : Bool
  pub security_revision : ℕ

-- The state that `ConfirmHealthy` stores, for the security revision of the active manifest.
abbrev pub confirmed : ℕ → PersistentState → PersistentState
confirmed revision s = record s {
  known_good = s.active;
  previous = unset;
  awaiting_health = false;
  boot_attempted = false;
  security_revision = if ltb s.security_revision revision then revision else s.security_revision;
}

-- The state that `Rollback` stores.
abbrev pub rolled_back : PersistentState → PersistentState
rolled_back s = record s {
  active = s.known_good;
  pending = unset;
  previous = unset;
  awaiting_health = false;
  boot_attempted = false;
}

module _ (json : Json) where
  unfoldable pub activate_pending : StoreFaults → Method Unit
  activate_pending io = do
    m ← gets (λ m. m)
    raise_if (m.closed || not (valid_slot m.state.pending) || m.state.awaiting_health)
        nothing_to_activate
    commit json io (activated m.state)

  unfoldable pub confirm_healthy : Bool → StoreFaults → Method Unit
  confirm_healthy read_fault io = do
    m ← gets (λ m. m)
    raise_if
        (m.closed
          || not m.state.awaiting_health
          || not m.state.boot_attempted
          || not (valid_slot m.state.active))
        nothing_to_confirm
    manifest ← read_slot_manifest json read_fault m.state.active
    commit json io (confirmed manifest.security_revision m.state)

  unfoldable pub rollback : StoreFaults → Method Unit
  rollback io = do
    m ← gets (λ m. m)
    raise_if
        (m.closed
          || not (valid_slot m.state.known_good)
          || not m.state.awaiting_health && slot_eq m.state.active m.state.known_good)
        nothing_to_roll_back
    commit json io (rolled_back m.state)

unfoldable pub status : Method Status
status = do
  m ← gets (λ m. m)
  raise_if m.closed manager_closed
  pure (record {
    active_slot = m.state.active;
    known_good_slot = m.state.known_good;
    pending_slot = m.state.pending;
    awaiting_health = m.state.awaiting_health;
    boot_attempted = m.state.boot_attempted;
    security_revision = m.state.security_revision;
  })

-- `Close`. What the lock's own `Close` returns is passed on.
unfoldable pub close : Result UpdateError (Unit {0}) → Method Unit
close released m = (released, record m { closed = true })
