-- ===== src/Commerce/Changes.antt =====
-- Every method of the gate changes a record's file by the steps of Advance, or leaves it.
use tos_ai.Commerce.Admission.{
  Launch, PrepareWorld, StartWorld, admit_start-prepared, prepared_record, started,
}
use tos_ai.Commerce.Advance.{
  IsAdvance, IsChange, IsEvolution, IsEvolution-append, IsEvolution-one, create_record-IsChange,
  is_completion, is_effect, is_recovery, is_run, is_same, is_start, replace_record-IsChange,
  unchanged,
}
use tos_ai.Commerce.Effects.{
  EffectWorld, SendWorld, Submission, continue_effect, end_effect, end_of, end_of-cases,
  record_submission, replay_effect, own_running_record-reads, send_effect, submit_effect,
  with_response, with_submission, write_effect_response,
}
use tos_ai.Commerce.Opening.{
  DirectoryEntry, interrupted, is_record_name, recover_entry, recover_file, recover_interrupted,
  recover_record, with_state,
}
use tos_ai.Commerce.Plan.{
  AuthorizedAction, GateError, HttpsRequest, Plan, PlanKit, Ticket, WriterFence,
}
use tos_ai.Commerce.Records.{
  EffectRecord, Gate, GateRecord, GateState, ReadFaults, RecordCodec, ReplaceFaults, is_running,
  is_starting, read_record, record_name, state_running, state_starting,
}
use tos_ai.Commerce.Requests.{HttpKit, HttpsResponse}
use tos_ai.Commerce.Running.{
  TransitionFaults, complete_launch, mark_running, moved, state_eq, transition, transition_of-cases,
}
use tos_ai.Commerce.Starting.{create_execution, is_absent, prepare, settle_preparation, start}
use tos_ai.Prelude.{
  Bool-cases, List, Option, Result, [], arith, err, inl, inr, none, ok, refl, some, true, ℕ, ◌&&◌,
  ◌∷◌, ◌≡◌,
}
use tos_ai.Prelude.Exec.{call, check, fetch, lift, pure, raise, ◌>>=◌}
use tos_ai.Prelude.Int.{ℤ}
use tos_ai.Prelude.Text.{Bytes}

module _ (codec : RecordCodec) (name : Bytes) where
  -- What a call leaves of the file of the name.
  abbrev Changed : {A : Type 0} → Gate → Result GateError A × Gate → Type 0
  Changed g after = IsChange codec (g.files name) (after.1.files name)

  abbrev SameFiles : {A : Type 0} → Gate → Result GateError A × Gate → Type 0
  SameFiles g after = after.1.files ≡ g.files

  create_execution-IsChange :
      (world : PrepareWorld) (lifetime : ℤ) (fence : WriterFence) (action : AuthorizedAction)
      (plan : Plan) (digest : Bytes) (g : Gate)
      → Changed g (create_execution codec world lifetime fence action plan digest g)
  unfolding create_execution prepared_record lift pure
  create_execution-IsChange world lifetime fence action plan digest g =
      call (Changed g) _ _ g (λ e failed. is_same refl)
        λ secret drawn.
          let r = prepared_record world.now lifetime fence action secret plan digest in
          let change =
            create_record-IsChange codec world.create (record_name plan.execution_id) r g name
              refl in
          call (Changed g) _ _ g (λ e failed. change) λ done created. change

  settle_preparation-IsChange :
      (world : PrepareWorld) (lifetime : ℤ) (fence : WriterFence) (action : AuthorizedAction)
      (plan : Plan) (digest : Bytes) (found : Result GateError GateRecord) (g : Gate)
      → Changed g (settle_preparation codec world lifetime fence action plan digest found g)
  unfolding settle_preparation lift raise
  settle_preparation-IsChange world lifetime fence action plan digest (ok existing) g = is_same refl
  settle_preparation-IsChange world lifetime fence action plan digest (err e) g =
      elim (Bool-cases (is_absent e)) [
        | inl absent ↦
            rw absent (create_execution-IsChange world lifetime fence action plan digest g)
        | inr other ↦ rw other (is_same refl)
      ]

  pub prepare-IsChange :
      (kit : PlanKit) (world : PrepareWorld) (plan : Plan) (fence : WriterFence) (lifetime : ℤ)
      (action : AuthorizedAction) (g : Gate)
      → Changed g (prepare kit codec world plan fence lifetime action g)
  unfolding prepare lift
  prepare-IsChange kit world plan fence lifetime action g = fetch (Changed g) _ _ g (
      check (Changed g) _ _ _ g (λ refused. is_same refl)
        λ allowed.
          call (Changed g) _ _ g (λ e failed. is_same refl)
            λ p admitted. settle_preparation-IsChange world lifetime fence action p.0 p.1 _ g)

  pub start-IsChange :
      (kit : PlanKit) (world : StartWorld) (ticket : Ticket) (fence : WriterFence)
      (action : AuthorizedAction) (g : Gate)
      → Changed g (start kit codec world ticket fence action g)
  unfolding start started lift pure
  start-IsChange kit world ticket fence action g = fetch (Changed g) _ _ g (
      check (Changed g) _ _ _ g (λ refused. is_same refl)
        λ allowed.
          check (Changed g) _ _ _ g (λ refused. is_same refl)
            λ verified.
              check (Changed g) _ _ _ g (λ refused. is_same refl)
                λ current.
                  call (Changed g) _ _ g (λ e failed. is_same refl)
                    λ r found.
                      call (Changed g) _ _ g (λ e failed. is_same refl)
                        λ files admitted.
                          let change =
                            replace_record-IsChange codec world.read world.replace
                              (record_name ticket.execution_id) r (started action r) g name found
                              (is_start
                                (admit_start-prepared kit world ticket fence action r files
                                  admitted)
                                refl refl) in
                          call (Changed g) _ _ g (λ e failed. change) λ done replaced. change)

  transition-IsChange :
      (io : TransitionFaults) (launch : Launch) (expected target : GateState) (outcome : Bytes)
      (g : Gate)
      → ((r : GateRecord) → state_eq r.state expected ≡ true → IsAdvance r (moved target outcome r))
      → Changed g (transition codec io launch expected target outcome g)
  unfolding transition lift
  transition-IsChange io launch expected target outcome g advance = fetch (Changed g) _ _ g (
      check (Changed g) _ _ _ g (λ refused. is_same refl)
        λ allowed.
          call (Changed g) _ _ g (λ e failed. is_same refl)
            λ s moves.
              let (r, found, same, e) =
                transition_of-cases launch expected target outcome _ s moves in
              replace_record-IsChange codec io.read io.replace (record_name launch.execution_id) r s
                g name found (rw e (advance r same)))

  state_eq→eq_starting : (s : GateState) → state_eq s state_starting ≡ true → is_starting s ≡ true
  state_eq→eq_starting s h = ground arith

  state_eq→eq_running : (s : GateState) → state_eq s state_running ≡ true → is_running s ≡ true
  state_eq→eq_running s h = ground arith

  pub mark_running-IsChange :
      (io : TransitionFaults) (launch : Launch) (g : Gate)
      → Changed g (mark_running codec io launch g)
  unfolding mark_running moved
  mark_running-IsChange io launch g =
      transition-IsChange io launch state_starting state_running [] g
        λ r same. is_run (state_eq→eq_starting r.state same) refl refl

  pub complete_launch-IsChange :
      (io : TransitionFaults) (launch : Launch) (final : GateState) (outcome : Bytes) (g : Gate)
      → Changed g (complete_launch codec io launch final outcome g)
  unfolding complete_launch moved
  complete_launch-IsChange io launch final outcome g =
      check (Changed g) _ _ _ g (λ refused. is_same refl)
        λ is_over.
          check (Changed g) _ _ _ g (λ refused. is_same refl)
            λ has_outcome.
              transition-IsChange io launch state_running final outcome g
                λ r same. is_completion (state_eq→eq_running r.state same) (ground arith) refl

  replay_effect-IsChange :
      (world : EffectWorld) (action : AuthorizedAction) (prior : EffectRecord) (g : Gate)
      → Changed g (replay_effect world action prior g)
  unfolding replay_effect lift pure
  replay_effect-IsChange world action prior g =
      check (Changed g) _ _ _ g (λ refused. is_same refl)
        λ same.
          check (Changed g) _ _ _ g (λ refused. is_same refl)
            λ over. fetch (Changed g) _ _ g (
              check (Changed g) _ _ _ g (λ refused. is_same refl)
                λ readable.
                  call (Changed g) _ _ g (λ e failed. is_same refl) λ body found. is_same refl)

  continue_effect-IsChange :
      (world : EffectWorld) (own : Bytes) (request : HttpsRequest) (action : AuthorizedAction)
      (r : GateRecord) (submission : Submission) (prior : Option EffectRecord) (g : Gate)
      → read_record codec world.read (g.files own) ≡ ok r
      → Changed g (continue_effect codec world own request action r submission prior g)
  unfolding continue_effect record_submission with_submission pure
  continue_effect-IsChange world own request action r submission (some prior) g found =
      replay_effect-IsChange world action prior g
  continue_effect-IsChange world own request action r submission none g found =
      let change =
        replace_record-IsChange codec world.read world.replace own r
          (with_submission request.plan_effect_id action r) g name found
          (is_effect request.plan_effect_id _ refl refl) in
      call (Changed g) _ _ g (λ e failed. change) λ done replaced. change

  pub submit_effect-IsChange :
      (kit : PlanKit) (http : HttpKit) (world : EffectWorld) (launch : Launch)
      (request : HttpsRequest) (action : AuthorizedAction) (fence : WriterFence) (g : Gate)
      → Changed g (submit_effect kit http codec world launch request action fence g)
  unfolding submit_effect lift
  submit_effect-IsChange kit http world launch request action fence g = fetch (Changed g) _ _ g (
      check (Changed g) _ _ _ g (λ refused. is_same refl)
        λ allowed.
          call (Changed g) _ _ g (λ e failed. is_same refl)
            λ r found.
              call (Changed g) _ _ g (λ e failed. is_same refl)
                λ submission admitted.
                  continue_effect-IsChange world (record_name launch.execution_id) request action r
                    submission _ g (own_running_record-reads launch _ r found))

  pub end_effect-IsChange :
      (io : TransitionFaults) (launch : Launch) (request : HttpsRequest) (action : AuthorizedAction)
      (response : HttpsResponse) (g : Gate)
      → Changed g (end_effect codec io launch request action response g)
  unfolding end_effect end_of with_response lift pure
  end_effect-IsChange io launch request action response g =
      let own = record_name launch.execution_id in
      fetch (Changed g) _ _ g (
        call (Changed g) _ _ g (λ e failed. is_same refl)
          λ s ended.
            let (r, prior, found, e) = end_of-cases request action response _ s ended in
            let change =
              replace_record-IsChange codec io.read io.replace own r s g name found
                (rw e (is_effect request.plan_effect_id _ refl refl)) in
            call (Changed g) _ _ g (λ e failed. change) λ done stored. change)

  write_effect_response-files :
      (io : ReplaceFaults) (stable_id body : Bytes) (g : Gate)
      → (write_effect_response io stable_id body g).1.files ≡ g.files
  unfolding write_effect_response ◌>>=◌
  write_effect_response-files io stable_id body g = ground arith

  -- Sending touches no record.
  pub send_effect-files :
      (http : HttpKit) (now : ℕ) (world : SendWorld) (request : HttpsRequest)
      (action : AuthorizedAction) (submission : Submission) (g : Gate)
      → (send_effect http now world request action submission g).1.files ≡ g.files
  unfolding send_effect lift pure
  send_effect-files http now world request action submission g =
      call (SameFiles g) _ _ g (λ e failed. refl)
        λ secrets resolved.
          check (SameFiles g) _ _ _ g (λ refused. refl)
            λ admitted.
              call (SameFiles g) _ _ g (λ e failed. refl)
                λ response got.
                  call (SameFiles g) _ _ g (λ e failed. refl)
                    λ digested found.
                      let same =
                        write_effect_response-files world.replace action.stable_action_id
                          digested.body g in
                      call (SameFiles g) _ _ g (λ e failed. same) λ done written. same

  recover_record-IsChange :
      (fault : ReadFaults) (io : ReplaceFaults) (own : Bytes) (r : GateRecord)
      (state : Option GateState) (g : Gate)
      → interrupted r.state ≡ state
      → read_record codec fault (g.files own) ≡ ok r
      → Changed g (recover_record codec io own r state g)
  unfolding recover_record with_state pure
  recover_record-IsChange fault io own r none g h found = is_same refl
  recover_record-IsChange fault io own r (some state) g h found =
      replace_record-IsChange codec fault io own r (with_state state r) g name found
        (is_recovery h refl)

  recover_entry-IsChange :
      (entry : DirectoryEntry) (g : Gate) → Changed g (recover_entry codec entry g)
  unfolding recover_entry recover_file pure lift
  recover_entry-IsChange entry g = elim (Bool-cases (entry.regular && is_record_name entry.name)) [
    | inr passed ↦ rw passed (is_same refl)
    | inl taken ↦ rw taken (
        fetch (Changed g) _ _ g (
          call (Changed g) _ _ g (λ e failed. is_same refl)
            λ r found.
              recover_record-IsChange entry.read entry.replace entry.name r (interrupted r.state) g
                refl found))
  ]

  pub recover_interrupted-IsEvolution :
      (entries : List DirectoryEntry) (g : Gate)
      → IsEvolution codec (g.files name) ((recover_interrupted codec entries g).1.files name)
  unfolding recover_interrupted pure
  recover_interrupted-IsEvolution [] g = unchanged
  recover_interrupted-IsEvolution (entry ∷ entries) g =
      let first = IsEvolution-one codec (recover_entry-IsChange entry g) in
      call (λ after. IsEvolution codec (g.files name) (after.1.files name)) _ _ g
        (λ e failed. first)
        λ done recovered. IsEvolution-append codec first (recover_interrupted-IsEvolution entries _)
