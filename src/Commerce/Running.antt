-- ===== src/Commerce/Running.antt =====
-- `MarkRunning`, `Complete`, `Inspect`, `Resolve` and `Close` of pkg/commercegate/gate.go.
use tos_ai.Commerce.Admission.{Launch}
use tos_ai.Commerce.Plan.{
  GateError, completion_not_terminal, gate_unavailable, invalid_identity, no_outcome_digest,
  transition_mismatch, valid_digest,
}
use tos_ai.Commerce.Records.{
  Gate, GateMethod, GateRecord, GateState, ReadFaults, RecordCodec, ReplaceFaults, Resolution,
  next_revision, other_gate_state, read_record, record_name, replace_record, state_ambiguous_run,
  state_ambiguous_start, state_cancelled, state_failed, state_killed, state_prepared, state_running,
  state_starting, state_succeeded,
}
use tos_ai.Prelude.{
  Bool, Result, [], arith, err, false, if◌then◌else◌, not, ok, refl, true, ℕ, ◌&&◌, ◌≡◌,
}
use tos_ai.Prelude.Exec.{gets, lift, pure, raise_if, ◌>>=◌, ◌>>◌}
use tos_ai.Prelude.Text.{Bytes, bytes_eq}

pub record TransitionFaults : Type 0 where
  pub read : ReadFaults
  pub replace : ReplaceFaults

abbrev pub state_eq : GateState → GateState → Bool
state_eq state_prepared state_prepared = true
state_eq state_starting state_starting = true
state_eq state_running state_running = true
state_eq state_ambiguous_start state_ambiguous_start = true
state_eq state_ambiguous_run state_ambiguous_run = true
state_eq state_succeeded state_succeeded = true
state_eq state_failed state_failed = true
state_eq state_cancelled state_cancelled = true
state_eq state_killed state_killed = true
state_eq (other_gate_state s) (other_gate_state t) = bytes_eq s t
state_eq _ _ = false

-- The states of an execution that is over.
abbrev pub is_final : GateState → Bool
is_final state_succeeded = true
is_final state_failed = true
is_final state_cancelled = true
is_final state_killed = true
is_final _ = false

abbrev pub is_succeeded : GateState → Bool
is_succeeded state_succeeded = true
is_succeeded _ = false

-- The record is the launch's own, in the state that is expected.
unfoldable pub matches_launch : Launch → GateState → GateRecord → Bool
matches_launch launch expected r =
    bytes_eq r.plan_digest launch.plan_digest
    && bytes_eq r.ticket_secret launch.ticket_secret
    && state_eq r.state expected

unfoldable pub moved : GateState → Bytes → GateRecord → GateRecord
moved next outcome r = record r {
  state = next;
  state_revision = next_revision r.state_revision;
  outcome_digest = outcome;
}

-- The record that `transition` writes.
unfoldable pub transition_of :
    Launch
    → GateState
    → GateState
    → Bytes
    → Result GateError GateRecord
    → Result GateError GateRecord
transition_of launch expected next outcome (err e) = err transition_mismatch
transition_of launch expected next outcome (ok r) =
    if matches_launch launch expected r then ok (moved next outcome r) else err transition_mismatch

module _ (codec : RecordCodec) where
  -- `transition`
  unfoldable pub transition :
      TransitionFaults → Launch → GateState → GateState → Bytes → GateMethod (Unit {0})
  transition io launch expected next outcome = do
    gate ← gets (λ gate. gate)
    raise_if (not gate.has_lock) gate_unavailable
    let name = record_name launch.execution_id
    r ←
        lift
          (transition_of launch expected next outcome (read_record codec io.read (gate.files name)))
    replace_record codec io.replace name r

  -- `MarkRunning`
  unfoldable pub mark_running : TransitionFaults → Launch → GateMethod (Unit {0})
  mark_running io launch = transition io launch state_starting state_running []

  -- `Complete`
  unfoldable pub complete_launch :
      TransitionFaults → Launch → GateState → Bytes → GateMethod (Unit {0})
  complete_launch io launch final outcome = do
    raise_if (not (is_final final)) completion_not_terminal
    raise_if (is_succeeded final && not (valid_digest outcome)) no_outcome_digest
    transition io launch state_running final outcome

  unfoldable pub resolution_of : GateRecord → Resolution
  resolution_of r = record {
    state = r.state;
    state_revision = r.state_revision;
    plan_digest = r.plan_digest;
    outcome_digest = r.outcome_digest;
  }

  -- `Inspect`
  unfoldable pub inspect : ReadFaults → Bytes → GateMethod Resolution
  inspect io execution_id = do
    raise_if (not (valid_digest execution_id)) invalid_identity
    gate ← gets (λ gate. gate)
    r ← lift (read_record codec io (gate.files (record_name execution_id)))
    pure (resolution_of r)

  -- `Resolve`
  unfoldable pub resolve : ReadFaults → Bytes → GateMethod (GateState × ℕ)
  resolve io execution_id = do
    resolution ← inspect io execution_id
    pure (resolution.state, resolution.state_revision)

-- `Close`
unfoldable pub close_gate : Gate → Gate
close_gate gate = record gate { has_lock = false }

-- What `transition` writes: the launch's own record, moved on.
pub transition_of-cases :
    (launch : Launch) (expected target : GateState) (outcome : Bytes)
    (found : Result GateError GateRecord) (s : GateRecord)
    → transition_of launch expected target outcome found ≡ ok s
    → (r : GateRecord) × (found ≡ ok r)
      × (state_eq r.state expected ≡ true)
      × (s ≡ moved target outcome r)
unfolding transition_of matches_launch
transition_of-cases launch expected target outcome (err e) s h = ground arith
transition_of-cases launch expected target outcome (ok r) s h =
    (r, refl, ground arith, ground arith)
