-- ===== src/Commerce/OneSubmission.antt =====
-- An effect is sent at most once.
use tos_ai.Commerce.Admission.{Launch}
use tos_ai.Commerce.Advance.{
  IsAdvance, IsChange, IsEvolution, changed_by, is_completion, is_created, is_effect, is_recovery,
  is_replaced, is_run, is_same, is_start, read_record-decodes, read_record-reads, unchanged,
}
use tos_ai.Commerce.Effects.{
  EffectWorld, Submission, admit_effect, continue_effect, record_submission, replay_effect,
  response_name, own_running_record, own_running_record-reads, submit_effect, submits,
  with_submission,
}
use tos_ai.Commerce.History.{GateEvent, run_events, run_events-IsEvolution}
use tos_ai.Commerce.OneStart.{replace_record-ok}
use tos_ai.Commerce.Plan.{AuthorizedAction, HttpsRequest, PlanKit, WriterFence}
use tos_ai.Commerce.Records.{
  EffectRecord, Effects, Gate, GateFile, GateRecord, RecordCodec, find_effect, no_read_faults,
  private_file, put_effect, read_record, record_name, replace_record,
}
use tos_ai.Commerce.Requests.{HttpKit}
use tos_ai.Prelude.{
  Bool, Bool-cases, List, Option, Option-cases, [], arith, false, inl, inr, none, ok, some, subst,
  sym, true, ◌∷◌, ◌≡◌, ◌≢◌,
}
use tos_ai.Prelude.Exec.{◌>>=◌}
use tos_ai.Prelude.Results.{Result-cases}
use tos_ai.Prelude.Text.{Bytes, bytes_eq, bytes_eq_self, bytes_eq→eq}

abbrev pub is_some {ℓ} : {A : Type ℓ} → Option A → Bool
is_some none = false
is_some (some a) = true

-- encoding/json: what decodes from a record's encoding has the effect, if the record has.
pub record KeepsEffect (codec : RecordCodec) (effect : Bytes) : Type 0 where
  pub keeps :
      (r s : GateRecord)
      → codec.decode (codec.encode r) ≡ some s
      → is_some (find_effect effect r.effects) ≡ true
      → is_some (find_effect effect s.effects) ≡ true

put_effect-keeps :
    (name other : Bytes) (effect : EffectRecord) (es : Effects)
    → is_some (find_effect name es) ≡ true
    → is_some (find_effect name (put_effect other effect es)) ≡ true
unfolding find_effect put_effect
put_effect-keeps name other effect [] h = ground arith
put_effect-keeps name other effect (e ∷ es) h = elim (Bool-cases (bytes_eq e.0 other)) [
  | inl same ↦ let same_name = bytes_eq→eq e.0 other same in ground arith
  | inr differs ↦ ground (arith, put_effect-keeps name other effect es)
]

put_effect-finds :
    (name : Bytes) (effect : EffectRecord) (es : Effects)
    → is_some (find_effect name (put_effect name effect es)) ≡ true
unfolding find_effect put_effect
put_effect-finds name effect [] = ground (arith, bytes_eq_self name)
put_effect-finds name effect (e ∷ es) =
    ground (arith, bytes_eq_self name, put_effect-finds name effect es)

IsAdvance-keeps :
    (name : Bytes) (r s : GateRecord)
    → IsAdvance r s
    → is_some (find_effect name r.effects) ≡ true
    → is_some (find_effect name s.effects) ≡ true
IsAdvance-keeps name r s (is_start before after kept) h = rw kept h
IsAdvance-keeps name r s (is_run before after kept) h = rw kept h
IsAdvance-keeps name r s (is_completion before after kept) h = rw kept h
IsAdvance-keeps name r s (is_recovery changed kept) h = rw kept h
IsAdvance-keeps name r s (is_effect other effect same put) h =
    rw put (put_effect-keeps name other effect r.effects h)

module _ (codec : RecordCodec) (effect : Bytes) (laws : KeepsEffect codec effect) where
  -- The execution has a file, and whatever can be read from it has the effect.
  record IsSubmitted (f : Option GateFile) : Type 0 where
    present : (file : GateFile) × (f ≡ some file)
    has :
        (r : GateRecord)
        → read_record codec no_read_faults f ≡ ok r
        → is_some (find_effect effect r.effects) ≡ true

  stored-IsSubmitted :
      (s : GateRecord) (g : Option GateFile)
      → g ≡ private_file (codec.encode s)
      → is_some (find_effect effect s.effects) ≡ true
      → IsSubmitted g
  stored-IsSubmitted s g written h = record {
    present = (_, written);
    has = λ q reads.
        laws.keeps s q
          (read_record-decodes codec no_read_faults (codec.encode s) q
            (subst (λ f. read_record codec no_read_faults f ≡ ok q) written reads))
          h;
  }

  IsChange-IsSubmitted :
      (f g : Option GateFile) → IsChange codec f g → IsSubmitted f → IsSubmitted g
  IsChange-IsSubmitted f g (is_same same) h = subst IsSubmitted (sym same) h
  IsChange-IsSubmitted f g (is_created n r no_file is_new written) h =
      let (file, there) = h.present in ground arith
  IsChange-IsSubmitted f g (is_replaced io r s found advance written) h =
      stored-IsSubmitted s g written
        (IsAdvance-keeps effect r s advance (h.has r (read_record-reads codec io f r found)))

  IsEvolution-IsSubmitted :
      (f : Option GateFile) {g : Option GateFile}
      → IsEvolution codec f g
      → IsSubmitted f
      → IsSubmitted g
  IsEvolution-IsSubmitted f unchanged h = h
  IsEvolution-IsSubmitted f (changed_by {g = g} {h = g'} rest last) h =
      IsChange-IsSubmitted g g' last (IsEvolution-IsSubmitted f rest h)

module _ (kit : PlanKit) (http : HttpKit) (codec : RecordCodec) where
  replay_effect-replays :
      (world : EffectWorld) (action : AuthorizedAction) (prior : EffectRecord) (g : Gate)
      (submission : Submission)
      → (replay_effect world action prior g).0 ≢ ok (submits submission)
  unfolding replay_effect ◌>>=◌
  replay_effect-replays world action prior g submission h =
      elim (Option-cases (g.responses (response_name action.stable_action_id))) [
        | inl missing ↦ ground arith
        | inr (body, there) ↦ ground arith
      ]

  -- What an effect that is to be sent tells: the running record had no such effect, and its file now holds it.
  submit_effect-ok :
      (world : EffectWorld) (launch : Launch) (request : HttpsRequest) (action : AuthorizedAction)
      (fence : WriterFence) (g : Gate) (submission : Submission)
      → let name = record_name launch.execution_id in
        let after = submit_effect kit http codec world launch request action fence g in
        after.0 ≡ ok (submits submission)
        → (r : GateRecord) × (read_record codec world.read (g.files name) ≡ ok r)
          × (find_effect request.plan_effect_id r.effects ≡ none)
          × (after.1.files name
              ≡ private_file (codec.encode (with_submission request.plan_effect_id action r)))
  unfolding submit_effect continue_effect record_submission ◌>>=◌
  submit_effect-ok world launch request action fence g submission h =
      let name = record_name launch.execution_id in
      let found = read_record codec world.read (g.files name) in
      elim (Result-cases (own_running_record launch found)) [
        | inl (e, refused) ↦ ground arith
        | inr (r, is_own) ↦
            elim (Option-cases (admit_effect kit http world r request action fence)) [
              | inl refused ↦ ground arith
              | inr (admitted, bindings) ↦
                  elim (Option-cases (find_effect request.plan_effect_id r.effects)) [
                    | inr (prior, there) ↦
                        let replayed = replay_effect-replays world action prior g submission in
                        ground arith
                    | inl is_new ↦
                        let s = with_submission request.plan_effect_id action r in
                        elim (Result-cases (replace_record codec world.replace name s g).0) [
                          | inl (e, failed) ↦ ground arith
                          | inr (_, done) ↦
                              let stored =
                                replace_record-ok kit codec world.replace name s g done in
                              (
                                r,
                                own_running_record-reads launch found r is_own,
                                is_new,
                                ground (arith, stored),
                              )
                        ]
                  ]
            ]
      ]

  -- Once PerformHTTPS has gone on to send an effect, then whatever calls, failures, crashes and restarts follow,
  -- no PerformHTTPS goes on to send the same effect of the same execution. The effect survives the encoding of
  -- a record.
  pub submit_effect-once :
      (g : Gate) (world world' : EffectWorld) (launch launch' : Launch)
      (request request' : HttpsRequest) (action action' : AuthorizedAction)
      (fence fence' : WriterFence) (submission submission' : Submission) (es : List GateEvent)
      → KeepsEffect codec request.plan_effect_id
      → launch'.execution_id ≡ launch.execution_id
      → request'.plan_effect_id ≡ request.plan_effect_id
      → (submit_effect kit http codec world launch request action fence g).0
        ≡ ok (submits submission)
      → let later =
          run_events kit http codec
            (submit_effect kit http codec world launch request action fence g).1
            es in
        (submit_effect kit http codec world' launch' request' action' fence' later).0
        ≢ ok (submits submission')
  unfolding with_submission
  submit_effect-once g world world' launch launch' request request' action action' fence fence'
        submission submission' es laws same_execution same_effect first again =
      let effect = request.plan_effect_id in
      let name = record_name launch.execution_id in
      let after = (submit_effect kit http codec world launch request action fence g).1 in
      let later = run_events kit http codec after es in
      let (r, _, _, stored) =
        submit_effect-ok world launch request action fence g submission first in
      let (r', found', is_new', _) =
        submit_effect-ok world' launch' request' action' fence' later submission' again in
      let submitted =
        stored-IsSubmitted codec effect laws (with_submission effect action r) (after.files name)
          stored (put_effect-finds effect _ r.effects) in
      let still =
        IsEvolution-IsSubmitted codec effect laws (after.files name)
          (run_events-IsEvolution kit http codec after es name) submitted in
      let there : read_record codec world'.read (later.files name) ≡ ok r' =
        subst (λ id'. read_record codec world'.read (later.files (record_name id')) ≡ ok r')
          same_execution found' in
      let holds = still.has r' (read_record-reads codec world'.read (later.files name) r' there) in
      let missing : find_effect effect r'.effects ≡ none =
        subst (λ e. find_effect e r'.effects ≡ none) same_effect is_new' in
      ground arith
