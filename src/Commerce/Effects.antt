-- ===== src/Commerce/Effects.antt =====
-- `PerformHTTPS` of pkg/commercegate/gate.go. It takes the mutex twice: `submit_effect` and `end_effect` are its
-- critical sections, and `send_effect` is what it does between them.
use tos_ai.Commerce.Admission.{Launch}
use tos_ai.Commerce.Plan.{
  Authority, AuthorizedAction, CredentialBinding, EffectBinding, GateError, HttpHeader,
  HttpsRequest, NetworkBinding, Plan, PlanKit, WriterFence, before_unix, broker_unavailable,
  capability_revoked, chmod_failed, close_record_failed, create_temporary_failed,
  credential_expired, credential_failed, effect_ambiguous, effect_conflict, effect_not_authorized,
  not_running_launch, predecessor_lost, rename_failed, response_digest_failed, response_unavailable,
  sync_directory_failed, sync_record_failed, trim_prefix, write_record_failed,
}
use tos_ai.Commerce.Preparing.{authorized, find_credential, find_network, or_fail}
use tos_ai.Commerce.Records.{
  EffectRecord, Gate, GateMethod, GateRecord, ReadFaults, RecordCodec, ReplaceFaults,
  effect_submitted, effect_terminal, find_effect, is_submitted, is_terminal, next_revision,
  put_effect, read_record, record_name, replace_record, state_running,
}
use tos_ai.Commerce.Requests.{
  Exchange, HttpKit, HttpsResponse, effect_material, find_effect_binding, perform_pinned_https,
  valid_https_request,
}
use tos_ai.Commerce.Running.{TransitionFaults, matches_launch, resolve}
use tos_ai.Prelude.{
  Bool, List, Option, Option-cases, Result, [], arith, err, if◌then◌else◌, inl, inr, length, none,
  not, ok, refl, some, ℕ, ◌%◌, ◌&&◌, ◌++◌, ◌==◌, ◌^◌, ◌||◌, ◌≡◌,
}
use tos_ai.Prelude.Exec.{gets, lift, modify, pure, raise_if, ◌>>=◌, ◌>>◌}
use tos_ai.Prelude.Text.{Bytes, bytes_eq, codes, sha256_prefix}

-- What the first critical section goes on with, unless the response of an earlier call is returned.
pub record Submission : Type 0 where
  pub network : NetworkBinding
  pub credential : Option CredentialBinding

pub data EffectAdmission : Type 0 where
  replays : HttpsResponse → EffectAdmission
  submits : Submission → EffectAdmission

-- What the call meets: the clock, the authority, and failures.
pub record EffectWorld : Type 0 where
  pub now : ℕ
  pub authority : Authority
  pub read : ReadFaults
  pub read_response : Bool
  pub replace : ReplaceFaults

-- What the call meets between its critical sections: the credential resolver, if there is one, the callback
-- `revalidate`, the connection, `codec.Digest` of the status and the body, and failures of
-- `writeEffectResponse`.
pub record SendWorld : Type 0 where
  pub resolver : Option (Bytes → Bytes → Bytes → Option (List HttpHeader))
  pub revalidates : Bool
  pub exchange : Exchange
  pub digest : ℕ → Bytes → Option Bytes
  pub replace : ReplaceFaults

unfoldable pub response_name : Bytes → Bytes
response_name stable_id =
    codes "effect-" ++ trim_prefix sha256_prefix stable_id ++ codes ".response"

abbrev pub set_response : Bytes → Bytes → Gate → Gate
set_response name body gate = record gate {
  responses = λ other. if bytes_eq other name then some body else gate.responses other;
}

-- The record of an effect that is submitted.
unfoldable pub with_submission : Bytes → AuthorizedAction → GateRecord → GateRecord
with_submission name action r = record r {
  state_revision = next_revision r.state_revision;
  effects =
      put_effect name
        (record {
          stable_action_id = action.stable_action_id;
          exact_request_digest = action.exact_request_digest;
          state = effect_submitted;
          response_digest = [];
          http_status = 0;
          state_revision = 1;
        })
        r.effects;
}

-- The record of an effect that has its response.
unfoldable pub with_response : Bytes → HttpsResponse → EffectRecord → GateRecord → GateRecord
with_response name response prior r = record r {
  state_revision = next_revision r.state_revision;
  effects =
      put_effect name
        (record prior {
          state = effect_terminal;
          response_digest = response.digest;
          http_status = response.status_code % 2 ^ 16;
          state_revision = next_revision prior.state_revision;
        })
        r.effects;
}

unfoldable pub credential_of : Plan → EffectBinding → Option CredentialBinding
credential_of plan effect =
    if length effect.credential_handle_id == 0
    then none
    else find_credential effect.credential_handle_id plan.credential_bindings

module _ (kit : PlanKit) (http : HttpKit) where
  -- The effect's bindings, if the action authorizes the request now.
  unfoldable pub admit_effect :
      EffectWorld → GateRecord → HttpsRequest → AuthorizedAction → WriterFence → Option Submission
  admit_effect world r request action fence =
      elim (find_effect_binding request.plan_effect_id r.plan.effect_bindings) [
        | none ↦ none
        | some effect ↦ elim (find_network effect.network_binding_id r.plan.network_bindings) [
          | none ↦ none
          | some network ↦
              if authorized (codes "executor.effect") world.authority world.now fence action
                  (effect_material kit r.plan request)
                && world.authority.confirm_current fence world.now
                && valid_https_request http request effect network
              then some (record { network = network; credential = credential_of r.plan effect })
              else none
        ]
      ]

-- An effect that was submitted before: its response, or an error. The code reads the response's file after it has
-- left the critical section.
unfoldable pub replay_effect :
    EffectWorld → AuthorizedAction → EffectRecord → GateMethod EffectAdmission
replay_effect world action prior = do
  raise_if
      (not (bytes_eq prior.stable_action_id action.stable_action_id)
        || not (bytes_eq prior.exact_request_digest action.exact_request_digest))
      effect_conflict
  raise_if (not (is_terminal prior.state)) effect_ambiguous
  gate ← gets (λ gate. gate)
  raise_if world.read_response response_unavailable
  body ←
      lift (or_fail response_unavailable (gate.responses (response_name action.stable_action_id)))
  pure (
      replays
        (record { status_code = prior.http_status; body = body; digest = prior.response_digest }))

-- The record of the running launch, or an error.
unfoldable pub own_running_record :
    Launch → Result GateError GateRecord → Result GateError GateRecord
own_running_record launch (err e) = err not_running_launch
own_running_record launch (ok r) =
    if matches_launch launch state_running r then ok r else err not_running_launch

-- The headers of the credential.
unfoldable pub credential_headers :
    ℕ → SendWorld → AuthorizedAction → Option CredentialBinding → Result GateError (List HttpHeader)
credential_headers now world action none = ok []
credential_headers now world action (some credential) = elim world.resolver [
  | none ↦ err credential_expired
  | some resolve ↦
      if not (before_unix now credential.expires_at_unix)
      then err credential_expired
      else or_fail credential_failed
          (resolve credential.handle_id credential.scope_digest action.stable_action_id)
]

abbrev pub with_digest : HttpsResponse → Option Bytes → Result GateError HttpsResponse
with_digest response none = err response_digest_failed
with_digest response (some digest) = ok (record response { digest = digest })

-- `writeEffectResponse`
unfoldable pub write_effect_response : ReplaceFaults → Bytes → Bytes → GateMethod (Unit {0})
write_effect_response io stable_id body = do
  raise_if io.create create_temporary_failed
  raise_if io.chmod chmod_failed
  raise_if io.write write_record_failed
  raise_if io.sync sync_record_failed
  raise_if io.close close_record_failed
  raise_if io.rename rename_failed
  modify (set_response (response_name stable_id) body)
  raise_if io.sync_directory sync_directory_failed

-- The record with the response, if the effect is still the one that was submitted.
unfoldable pub end_of :
    HttpsRequest
    → AuthorizedAction
    → HttpsResponse
    → Result GateError GateRecord
    → Result GateError GateRecord
end_of request action response (err e) = err predecessor_lost
end_of request action response (ok r) = elim (find_effect request.plan_effect_id r.effects) [
  | none ↦ err predecessor_lost
  | some prior ↦
      if is_submitted prior.state && bytes_eq prior.stable_action_id action.stable_action_id
      then ok (with_response request.plan_effect_id response prior r)
      else err predecessor_lost
]

module _ (codec : RecordCodec) where
  -- An effect that is new: the record says that it is submitted before anything is sent.
  unfoldable pub record_submission :
      EffectWorld
      → Bytes
      → HttpsRequest
      → AuthorizedAction
      → GateRecord
      → Submission
      → GateMethod EffectAdmission
  record_submission world name request action r submission = do
    replace_record codec world.replace name (with_submission request.plan_effect_id action r)
    pure (submits submission)

  unfoldable pub continue_effect :
      EffectWorld
      → Bytes
      → HttpsRequest
      → AuthorizedAction
      → GateRecord
      → Submission
      → Option EffectRecord
      → GateMethod EffectAdmission
  continue_effect world name request action r submission (some prior) =
      replay_effect world action prior
  continue_effect world name request action r submission none =
      record_submission world name request action r submission

  -- `PerformHTTPS`, the second critical section
  unfoldable pub end_effect :
      TransitionFaults
      → Launch
      → HttpsRequest
      → AuthorizedAction
      → HttpsResponse
      → GateMethod HttpsResponse
  end_effect io launch request action response = do
    gate ← gets (λ gate. gate)
    let name = record_name launch.execution_id
    r ← lift (end_of request action response (read_record codec io.read (gate.files name)))
    replace_record codec io.replace name r
    pure response

module _ (http : HttpKit) where
  -- `PerformHTTPS` between its critical sections
  unfoldable pub send_effect :
      ℕ → SendWorld → HttpsRequest → AuthorizedAction → Submission → GateMethod HttpsResponse
  send_effect now world request action submission = do
    secrets ← lift (credential_headers now world action submission.credential)
    raise_if (not world.revalidates) capability_revoked
    response ← lift (
        perform_pinned_https http world.exchange submission.network request
          (request.headers ++ secrets) action.stable_action_id)
    response' ← lift (with_digest response (world.digest response.status_code response.body))
    write_effect_response world.replace action.stable_action_id response'.body
    pure response'

module _ (kit : PlanKit) (http : HttpKit) (codec : RecordCodec) where
  -- `PerformHTTPS`, the first critical section
  unfoldable pub submit_effect :
      EffectWorld
      → Launch
      → HttpsRequest
      → AuthorizedAction
      → WriterFence
      → GateMethod EffectAdmission
  submit_effect world launch request action fence = do
    gate ← gets (λ gate. gate)
    raise_if (not gate.has_lock) broker_unavailable
    let name = record_name launch.execution_id
    r ← lift (own_running_record launch (read_record codec world.read (gate.files name)))
    submission ←
        lift (or_fail effect_not_authorized (admit_effect kit http world r request action fence))
    continue_effect codec world name request action r submission
        (find_effect request.plan_effect_id r.effects)

  unfoldable pub finish_effect :
      EffectWorld
      → SendWorld
      → TransitionFaults
      → Launch
      → HttpsRequest
      → AuthorizedAction
      → EffectAdmission
      → GateMethod HttpsResponse
  finish_effect world sends io launch request action (replays response) = pure response
  finish_effect world sends io launch request action (submits submission) = do
    response ← send_effect http world.now sends request action submission
    end_effect codec io launch request action response

  -- `PerformHTTPS`, with nothing between its critical sections
  unfoldable pub perform_https :
      EffectWorld
      → SendWorld
      → TransitionFaults
      → Launch
      → HttpsRequest
      → AuthorizedAction
      → WriterFence
      → GateMethod HttpsResponse
  perform_https world sends io launch request action fence = do
    admission ← submit_effect world launch request action fence
    finish_effect world sends io launch request action admission

-- What the second critical section writes: the effect, submitted before, with its response.
pub end_of-cases :
    (request : HttpsRequest) (action : AuthorizedAction) (response : HttpsResponse)
    (found : Result GateError GateRecord) (s : GateRecord)
    → end_of request action response found ≡ ok s
    → (r : GateRecord) × (prior : EffectRecord) × (found ≡ ok r)
      × (s ≡ with_response request.plan_effect_id response prior r)
unfolding end_of
end_of-cases request action response (err e) s h = ground arith
end_of-cases request action response (ok r) s h =
    elim (Option-cases (find_effect request.plan_effect_id r.effects)) [
      | inl missing ↦ ground arith
      | inr (prior, there) ↦ (r, prior, refl, ground arith)
    ]

pub own_running_record-reads :
    (launch : Launch) (found : Result GateError GateRecord) (r : GateRecord)
    → own_running_record launch found ≡ ok r
    → found ≡ ok r
unfolding own_running_record
own_running_record-reads launch (ok q) r h = ground arith
own_running_record-reads launch (err e) r h = ground arith
