-- ===== src/Commerce/OneStart.antt =====
-- An execution is started at most once, whatever fails and however often the gate is opened again.
use tos_ai.Commerce.Admission.{
  InputFile, Launch, StartWorld, admit_start, admit_start-prepared, launch_of, started,
}
use tos_ai.Commerce.History.{GateEvent, run_events}
use tos_ai.Commerce.Phases.{
  IsMove, IsPath, KeepsState, Phase, arrived, completes, is_prepared→eq, loses_run, loses_start,
  moves_on, no_record, phase_of, phase_of-private, phase_of-recorded, prepares, recorded,
  run_events-IsPath, runs, spoils, starts, stays,
}
use tos_ai.Commerce.Plan.{AuthorizedAction, PlanKit, Ticket, WriterFence}
use tos_ai.Commerce.Records.{
  Gate, GateRecord, RecordCodec, ReplaceFaults, private_file, read_record, record_name,
  replace_record, state_prepared,
}
use tos_ai.Commerce.Requests.{HttpKit}
use tos_ai.Commerce.Starting.{start}
use tos_ai.Prelude.{
  Bool, List, ap, arith, false, inl, inr, length, ok, refl, subst, take-all, true, ◌∙◌, ◌≡◌, ◌≢◌,
}
use tos_ai.Prelude.Exec.{◌>>=◌}
use tos_ai.Prelude.Results.{Result-cases}
use tos_ai.Prelude.Text.{Bytes, bytes_eq_self}

-- The phases from which an execution never becomes PREPARED.
abbrev has_left : Phase → Bool
has_left no_record = false
has_left (recorded state_prepared) = false
has_left _ = true

IsMove-has_left : {p q : Phase} → IsMove p q → has_left p ≡ true → has_left q ≡ true
IsMove-has_left stays h = h
IsMove-has_left spoils h = refl
IsMove-has_left prepares h = ground arith
IsMove-has_left starts h = refl
IsMove-has_left runs h = refl
IsMove-has_left (completes {final = final} over) h = ground arith
IsMove-has_left loses_start h = refl
IsMove-has_left loses_run h = refl

IsPath-has_left : {p q : Phase} → IsPath p q → has_left p ≡ true → has_left q ≡ true
IsPath-has_left arrived h = h
IsPath-has_left (moves_on path move) h = IsMove-has_left move (IsPath-has_left path h)

-- A record that is stored with another state than PREPARED has left it.
phase_of-encoded :
    (codec : RecordCodec)
    → KeepsState codec
    → (r : GateRecord) → has_left (recorded r.state) ≡ true
    → has_left (phase_of codec (private_file (codec.encode r))) ≡ true
phase_of-encoded codec laws r h = elim (phase_of-private codec (codec.encode r)) [
  | inl lost ↦ rw lost refl
  | inr (q, decoded, phase) ↦
      let content = codec.encode r in
      let whole = take-all (length content) content (omega arith) in
      let kept = laws.keeps (length content) r q (rw whole decoded) in rw (phase, kept) h
]

module _ (kit : PlanKit) (codec : RecordCodec) where
  pub replace_record-ok :
      (io : ReplaceFaults) (own : Bytes) (r : GateRecord) (g : Gate)
      → (replace_record codec io own r g).0 ≡ ok tt
      → (replace_record codec io own r g).1.files own ≡ private_file (codec.encode r)
  unfolding replace_record ◌>>=◌
  replace_record-ok io own r g h = ground (arith, bytes_eq_self own)

  -- What a launch tells: the record was PREPARED and its start was admitted, and its file now holds the
  -- started record.
  pub start-ok :
      (world : StartWorld) (ticket : Ticket) (fence : WriterFence) (action : AuthorizedAction)
      (g : Gate) (launch : Launch)
      → let name = record_name ticket.execution_id in
        let after = start kit codec world ticket fence action g in
        after.0 ≡ ok launch
        → (r : GateRecord) × (files : List InputFile) × (read_record codec world.read (g.files name)
            ≡ ok r)
          × (admit_start kit world ticket fence action r ≡ ok files)
          × (launch ≡ launch_of r files)
          × (after.1.files name ≡ private_file (codec.encode (started action r)))
  unfolding start ◌>>=◌
  start-ok world ticket fence action g launch h =
      let name = record_name ticket.execution_id in
      elim (Result-cases (read_record codec world.read (g.files name))) [
        | inl (e, refused) ↦ ground arith
        | inr (r, found) ↦ elim (Result-cases (admit_start kit world ticket fence action r)) [
          | inl (e, refused) ↦ ground arith
          | inr (files, admitted) ↦
              let replaced = replace_record codec world.replace name (started action r) g in
              elim (Result-cases replaced.0) [
                | inl (e, failed) ↦ ground arith
                | inr (_, done) ↦
                    let stored = replace_record-ok world.replace name (started action r) g done in
                    (r, files, found, admitted, ground arith, ground (arith, stored))
              ]
        ]
      ]

module _ (kit : PlanKit) (http : HttpKit) (codec : RecordCodec) where
  -- Once Start has returned a launch, then whatever calls, failures, crashes and restarts follow, no Start for
  -- the same execution returns a launch. What decodes from a record's encoding has the record's state.
  pub start-once :
      (g : Gate) (world world' : StartWorld) (ticket ticket' : Ticket) (fence fence' : WriterFence)
      (action action' : AuthorizedAction) (launch launch' : Launch) (es : List GateEvent)
      → KeepsState codec
      → ticket'.execution_id ≡ ticket.execution_id
      → (start kit codec world ticket fence action g).0 ≡ ok launch
      → let later = run_events kit http codec (start kit codec world ticket fence action g).1 es in
        (start kit codec world' ticket' fence' action' later).0 ≢ ok launch'
  unfolding started
  start-once g world world' ticket ticket' fence fence' action action' launch launch' es laws same
        first again =
      let name = record_name ticket.execution_id in
      let after = (start kit codec world ticket fence action g).1 in
      let later = run_events kit http codec after es in
      let (r, _, _, _, _, stored) = start-ok kit codec world ticket fence action g launch first in
      let (r', files', found', admitted', _, _) =
        start-ok kit codec world' ticket' fence' action' later launch' again in
      let left : has_left (phase_of codec (after.files name)) ≡ true =
        rw stored (phase_of-encoded codec laws (started action r) refl) in
      let path : IsPath (phase_of codec (after.files name)) (phase_of codec (later.files name)) =
        run_events-IsPath codec kit http after es name laws in
      let there : read_record codec world'.read (later.files name) ≡ ok r' =
        subst (λ id'. read_record codec world'.read (later.files (record_name id')) ≡ ok r') same
          found' in
      let phase : phase_of codec (later.files name) ≡ recorded state_prepared =
        phase_of-recorded codec world'.read (later.files name) r' there
        ∙ ap recorded (
            is_prepared→eq r'.state
              (admit_start-prepared kit world' ticket' fence' action' r' files' admitted')) in
      let still : has_left (recorded state_prepared) ≡ true =
        subst (λ p. has_left p ≡ true) phase (IsPath-has_left path left) in
      ground arith
