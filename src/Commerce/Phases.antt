-- ===== src/Commerce/Phases.antt =====
-- The abstract view of an execution's file is the phase of the execution, which the gate moves along a fixed
-- set of steps.
use tos_ai.Commerce.Advance.{
  IsAdvance, IsChange, IsEvolution, changed_by, is_completion, is_created, is_effect, is_recovery,
  is_replaced, is_run, is_same, is_start, read_record-reads, unchanged,
}
use tos_ai.Commerce.History.{GateEvent, run_events, run_events-IsEvolution}
use tos_ai.Commerce.Opening.{interrupted}
use tos_ai.Commerce.Plan.{GateError, PlanKit}
use tos_ai.Commerce.Records.{
  Gate, GateFile, GateRecord, GateState, ReadFaults, RecordCodec, is_prepared, is_running,
  is_starting, max_gate_record_bytes, no_read_faults, private_file, read_record,
  state_ambiguous_run, state_ambiguous_start, state_prepared, state_running, state_starting,
  valid_effect_record, valid_record,
}
use tos_ai.Commerce.Requests.{HttpKit}
use tos_ai.Commerce.Running.{is_final}
use tos_ai.Commerce.Starting.{is_absent}
use tos_ai.Prelude.{
  Bool-cases, List, Option, Option-cases, Result, all, arith, eq_of_some, err, if◌then◌else◌, inl,
  inr, length, ltb, none, not, ok, refl, some, sym, take, take-all, true, ℕ, ◌==◌, ◌||◌, ◌≡◌, ◌⊎◌,
}
use tos_ai.Prelude.Text.{Bytes}

pub data Phase : Type 0 where
  no_record unreadable_record : Phase
  recorded : GateState → Phase

-- The steps of an execution. A record that cannot be read back is never read again.
pub data IsMove : Phase → Phase → Type 0 where
  stays : {p : Phase} → IsMove p p
  spoils : {p : Phase} → IsMove p unreadable_record
  prepares : IsMove no_record (recorded state_prepared)
  starts : IsMove (recorded state_prepared) (recorded state_starting)
  runs : IsMove (recorded state_starting) (recorded state_running)
  completes :
      {final : GateState} → is_final final ≡ true → IsMove (recorded state_running) (recorded final)
  loses_start : IsMove (recorded state_starting) (recorded state_ambiguous_start)
  loses_run : IsMove (recorded state_running) (recorded state_ambiguous_run)

pub data IsPath (p : Phase) : Phase → Type 0 where
  arrived : IsPath p p
  moves_on : {q r : Phase} → IsPath p q → IsMove q r → IsPath p r

pub IsPath-append : {p q r : Phase} → IsPath p q → IsPath q r → IsPath p r
IsPath-append first arrived = first
IsPath-append first (moves_on rest last) = moves_on (IsPath-append first rest) last

-- encoding/json: what decodes from a record's encoding, or from a prefix of it, has the record's state.
pub record KeepsState (codec : RecordCodec) : Type 0 where
  pub keeps :
      (n : ℕ) (r s : GateRecord)
      → codec.decode (take n (codec.encode r)) ≡ some s
      → s.state ≡ r.state

abbrev pub phase_of_read : Result GateError GateRecord → Phase
phase_of_read (ok r) = recorded r.state
phase_of_read (err e) = if is_absent e then no_record else unreadable_record

pub is_prepared→eq : (s : GateState) → is_prepared s ≡ true → s ≡ state_prepared
is_prepared→eq s h = ground arith

is_starting→eq : (s : GateState) → is_starting s ≡ true → s ≡ state_starting
is_starting→eq s h = ground arith

is_running→eq : (s : GateState) → is_running s ≡ true → s ≡ state_running
is_running→eq s h = ground arith

interrupted-IsMove : (s t : GateState) → interrupted s ≡ some t → IsMove (recorded s) (recorded t)
interrupted-IsMove state_starting t h = rw (sym (eq_of_some h)) loses_start
interrupted-IsMove state_running t h = rw (sym (eq_of_some h)) loses_run
interrupted-IsMove s t h = ground arith

-- A step of the record is a step of the phase.
IsAdvance-IsMove : (r s : GateRecord) → IsAdvance r s → IsMove (recorded r.state) (recorded s.state)
IsAdvance-IsMove r s (is_start before after kept) = rw (is_prepared→eq r.state before, after) starts
IsAdvance-IsMove r s (is_run before after kept) = rw (is_starting→eq r.state before, after) runs
IsAdvance-IsMove r s (is_completion before after kept) =
    rw (is_running→eq r.state before) (completes after)
IsAdvance-IsMove r s (is_recovery changed kept) = interrupted-IsMove r.state s.state changed
IsAdvance-IsMove r s (is_effect name effect same put) = rw same stays

module _ (codec : RecordCodec) where
  -- What can be made of an execution's file.
  unfoldable pub phase_of : Option GateFile → Phase
  phase_of f = phase_of_read (read_record codec no_read_faults f)

  pub phase_of-recorded :
      (io : ReadFaults) (f : Option GateFile) (r : GateRecord)
      → read_record codec io f ≡ ok r
      → phase_of f ≡ recorded r.state
  unfolding phase_of
  phase_of-recorded io f r h = rw (read_record-reads codec io f r h) refl

  phase_of-none : phase_of none ≡ no_record
  unfolding phase_of read_record
  phase_of-none = refl

  -- A file of private bytes is not no_record.
  pub phase_of-private :
      (content : Bytes)
      → (phase_of (private_file content) ≡ unreadable_record)
        ⊎ ((r : GateRecord) × (codec.decode content ≡ some r)
            × (phase_of (private_file content) ≡ recorded r.state))
  unfolding phase_of read_record
  phase_of-private content = elim (Option-cases (codec.decode content)) [
    | inl undecoded ↦ inl (ground arith)
    | inr (r, decoded) ↦
        elim (Bool-cases (
          (length content == 0)
          || ltb max_gate_record_bytes (length content)
          || not (valid_record r)
          || not (all valid_effect_record r.effects))) [
            | inl refused ↦ inl (ground arith)
            | inr sound ↦ inr (r, decoded, ground arith)
          ]
  ]

  module _ (laws : KeepsState codec) where
    IsChange-IsMove :
        (f g : Option GateFile) → IsChange codec f g → IsMove (phase_of f) (phase_of g)
    IsChange-IsMove f g (is_same same) = rw same stays
    IsChange-IsMove f g (is_created n r none_before is_new written) =
        rw (none_before, written, phase_of-none)
          (elim (phase_of-private (take n (codec.encode r))) [
            | inl lost ↦ rw lost spoils
            | inr (s, decoded, phase) ↦ rw (phase, laws.keeps n r s decoded, is_new) prepares
          ])
    IsChange-IsMove f g (is_replaced io r s found advance written) =
        rw (written, phase_of-recorded io f r found)
          (elim (phase_of-private (codec.encode s)) [
            | inl lost ↦ rw lost spoils
            | inr (q, decoded, phase) ↦
                let content = codec.encode s in
                let whole = take-all (length content) content (omega arith) in
                let kept = laws.keeps (length content) s q (rw whole decoded) in
                rw (phase, kept) (IsAdvance-IsMove r s advance)
          ])

    IsEvolution-IsPath :
        (f : Option GateFile) {g : Option GateFile}
        → IsEvolution codec f g
        → IsPath (phase_of f) (phase_of g)
    IsEvolution-IsPath f unchanged = arrived
    IsEvolution-IsPath f (changed_by {g = g} {h = h} rest last) =
        moves_on (IsEvolution-IsPath f rest) (IsChange-IsMove g h last)

  -- Whatever calls, failures, crashes and restarts follow, the file of an execution goes along the steps of its
  -- phases: from PREPARED to STARTING, RUNNING and a final state, from STARTING and RUNNING to their ambiguous
  -- states, or out of reach. What decodes from a record's encoding has the record's state.
  pub run_events-IsPath :
      (kit : PlanKit) (http : HttpKit) (g : Gate) (es : List GateEvent) (name : Bytes)
      → KeepsState codec
      → IsPath (phase_of (g.files name)) (phase_of ((run_events kit http codec g es).files name))
  run_events-IsPath kit http g es name laws =
      IsEvolution-IsPath laws (g.files name) (run_events-IsEvolution kit http codec g es name)
