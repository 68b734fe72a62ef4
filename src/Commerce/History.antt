-- ===== src/Commerce/History.antt =====
-- Histories of the gate: calls with their failures, the critical sections of PerformHTTPS apart from each
-- other, and processes that end and open the gate again. A crash leaves the files as a failure at that call
-- does.
use tos_ai.Commerce.Admission.{Launch, PrepareWorld, StartWorld}
use tos_ai.Commerce.Advance.{IsEvolution, IsEvolution-append, IsEvolution-one, is_same, unchanged}
use tos_ai.Commerce.Changes.{
  complete_launch-IsChange, end_effect-IsChange, mark_running-IsChange, prepare-IsChange,
  recover_interrupted-IsEvolution, send_effect-files, start-IsChange, submit_effect-IsChange,
}
use tos_ai.Commerce.Effects.{
  EffectWorld, SendWorld, Submission, end_effect, send_effect, submit_effect,
}
use tos_ai.Commerce.Opening.{DirectoryEntry, OpenWorld, open_gate}
use tos_ai.Commerce.Plan.{
  AuthorizedAction, GateError, HttpsRequest, Plan, PlanKit, Ticket, WriterFence,
}
use tos_ai.Commerce.Records.{Gate, GateState, RecordCodec}
use tos_ai.Commerce.Requests.{HttpKit, HttpsResponse}
use tos_ai.Commerce.Running.{TransitionFaults, close_gate, complete_launch, mark_running}
use tos_ai.Commerce.Starting.{prepare, start}
use tos_ai.Prelude.{List, Result, [], ap, ℕ, ◌∷◌}
use tos_ai.Prelude.Exec.{call, check, modify}
use tos_ai.Prelude.Int.{ℤ}
use tos_ai.Prelude.Text.{Bytes}

pub data GateEvent : Type 0 where
  prepare_call : PrepareWorld → Plan → WriterFence → ℤ → AuthorizedAction → GateEvent
  start_call : StartWorld → Ticket → WriterFence → AuthorizedAction → GateEvent
  mark_running_call : TransitionFaults → Launch → GateEvent
  complete_call : TransitionFaults → Launch → GateState → Bytes → GateEvent
  submit_section : EffectWorld → Launch → HttpsRequest → AuthorizedAction → WriterFence → GateEvent
  send_section : ℕ → SendWorld → HttpsRequest → AuthorizedAction → Submission → GateEvent
  end_section :
      TransitionFaults → Launch → HttpsRequest → AuthorizedAction → HttpsResponse → GateEvent
  close_call : GateEvent
  open_call : OpenWorld → List DirectoryEntry → GateEvent

module _ (kit : PlanKit) (http : HttpKit) (codec : RecordCodec) where
  pub after_event : Gate → GateEvent → Gate
  after_event g (prepare_call world plan fence lifetime action) =
      (prepare kit codec world plan fence lifetime action g).1
  after_event g (start_call world ticket fence action) =
      (start kit codec world ticket fence action g).1
  after_event g (mark_running_call io launch) = (mark_running codec io launch g).1
  after_event g (complete_call io launch final outcome) =
      (complete_launch codec io launch final outcome g).1
  after_event g (submit_section world launch request action fence) =
      (submit_effect kit http codec world launch request action fence g).1
  after_event g (send_section now world request action submission) =
      (send_effect http now world request action submission g).1
  after_event g (end_section io launch request action response) =
      (end_effect codec io launch request action response g).1
  after_event g close_call = close_gate g
  after_event g (open_call world entries) = (open_gate codec world entries g).1

  pub run_events : Gate → List GateEvent → Gate
  run_events g [] = g
  run_events g (e ∷ es) = run_events (after_event g e) es

  abbrev Evolved : Gate → Bytes → Result GateError (Unit {0}) × Gate → Type 0
  Evolved g name after = IsEvolution codec (g.files name) (after.1.files name)

  open_gate-IsEvolution :
      (world : OpenWorld) (entries : List DirectoryEntry) (g : Gate) (name : Bytes)
      → IsEvolution codec (g.files name) ((open_gate codec world entries g).1.files name)
  unfolding open_gate modify
  open_gate-IsEvolution world entries g name =
      let Q = Evolved g name in
      let recovery = recover_interrupted-IsEvolution codec name entries g in
      check Q _ _ _ g (λ refused. unchanged)
        λ valid.
          check Q _ _ _ g (λ refused. unchanged)
            λ made.
              check Q _ _ _ g (λ refused. unchanged)
                λ private.
                  check Q _ _ _ g (λ refused. unchanged)
                    λ free.
                      check Q _ _ _ g (λ refused. unchanged)
                        λ listed. call Q _ _ g (λ e failed. recovery) λ done recovered. recovery

  after_event-IsEvolution :
      (g : Gate) (e : GateEvent) (name : Bytes)
      → IsEvolution codec (g.files name) ((after_event g e).files name)
  unfolding after_event close_gate
  after_event-IsEvolution g (prepare_call world plan fence lifetime action) name =
      IsEvolution-one codec (prepare-IsChange codec name kit world plan fence lifetime action g)
  after_event-IsEvolution g (start_call world ticket fence action) name =
      IsEvolution-one codec (start-IsChange codec name kit world ticket fence action g)
  after_event-IsEvolution g (mark_running_call io launch) name =
      IsEvolution-one codec (mark_running-IsChange codec name io launch g)
  after_event-IsEvolution g (complete_call io launch final outcome) name =
      IsEvolution-one codec (complete_launch-IsChange codec name io launch final outcome g)
  after_event-IsEvolution g (submit_section world launch request action fence) name =
      IsEvolution-one codec
        (submit_effect-IsChange codec name kit http world launch request action fence g)
  after_event-IsEvolution g (send_section now world request action submission) name =
      IsEvolution-one codec (
        is_same (
          ap (λ files. files name)
            (send_effect-files codec name http now world request action submission g)))
  after_event-IsEvolution g (end_section io launch request action response) name =
      IsEvolution-one codec (end_effect-IsChange codec name io launch request action response g)
  after_event-IsEvolution g close_call name = unchanged
  after_event-IsEvolution g (open_call world entries) name =
      open_gate-IsEvolution world entries g name

  pub run_events-IsEvolution :
      (g : Gate) (es : List GateEvent) (name : Bytes)
      → IsEvolution codec (g.files name) ((run_events g es).files name)
  unfolding run_events
  run_events-IsEvolution g [] name = unchanged
  run_events-IsEvolution g (e ∷ es) name =
      IsEvolution-append codec (after_event-IsEvolution g e name)
        (run_events-IsEvolution (after_event g e) es name)
