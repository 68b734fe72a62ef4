-- ===== src/Executor/Execute.antt =====
-- pkg/executor/executor.go: `NewPolicyExecutor` and `PolicyExecutor.Execute`. The client is a parameter,
-- which may also panic; the requests that it is given are recorded.
use tos_ai.Executor.Hosts.{Library}
use tos_ai.Executor.Policy.{validate, validate_policy}
use tos_ai.Executor.Spec.{
  ContainerRequest, Execution, ExecutorError, Limits, Policy, Spec, backend_failed,
  context_cancelled, deadline_exceeded, input_too_large, invalid_identity, nil_client, nil_context,
  result_exceeds_limits,
}
use tos_ai.Prelude.{
  Bool, List, Result, [], err, if◌then◌else◌, length, ltb, not, ok, reject_if, ℕ, ◌++◌, ◌==◌, ◌||◌,
  ◌∷◌,
}
use tos_ai.Prelude.Int.{leb_ℤ, pos}
use tos_ai.Prelude.Results.{◌>>=◌, ◌>>◌}
use tos_ai.Prelude.Text.{Bytes, codes, hex_encode, sha256_prefix}

-- What a call of the client comes to. A panic is turned into an error.
pub data ClientOutcome : Type 0 where
  returned : Execution → ClientOutcome
  failed_or_panicked : ClientOutcome

-- What the contexts answer: the caller's before the call, and the derived one after it, where
-- `passed_deadline` is the check of the absolute deadline.
pub record ContextAnswers : Type 0 where
  pub is_nil : Bool
  pub cancelled_before : Bool
  pub cancelled_after : Bool
  pub passed_deadline : Bool

abbrev pub max_execution_id_bytes : ℕ
max_execution_id_bytes = 128

unfoldable pub exceeds_limits : Limits → Execution → Bool
exceeds_limits l r =
    not (leb_ℤ (pos 0) r.exit_code)
    || not (leb_ℤ r.exit_code (pos 255))
    || ltb l.output_bytes (length r.output)
    || ltb l.cpu_millis r.usage.cpu_millis
    || ltb l.memory_bytes r.usage.peak_memory
    || ltb l.disk_bytes r.usage.disk_written
    || not (leb_ℤ (pos 0) r.usage.duration)
    || not (leb_ℤ r.usage.duration l.execution_time)

module _ (lib : Library) where
  unfoldable pub execution_digest : Bytes → Result ExecutorError Bytes
  execution_digest id =
      if (length id == 0) || ltb max_execution_id_bytes (length id)
      then err invalid_identity
      else ok (sha256_prefix ++ hex_encode (lib.sha256 (codes "TOS-AI-EXECUTION-ID-V1" ++ 0 ∷ id)))

  abbrev pub request_for : Bytes → Spec → ContainerRequest
  request_for digest spec = record {
    execution_digest = digest;
    image_digest = spec.image_digest;
    entrypoint = spec.entrypoint;
    working_directory = spec.working_directory;
    environment = spec.environment;
    workspace_archive = spec.workspace_archive;
    user_id = spec.user_id;
    group_id = spec.group_id;
    read_only_root = spec.read_only_root;
    no_new_privileges = spec.no_new_privileges;
    network = spec.network;
    allowed_hosts = spec.allowed_hosts;
    allow_gpu = spec.allow_gpu;
    limits = spec.limits;
  }

  -- `Execute` up to the call of the client: the request that it will make.
  unfoldable pub admit_request :
      Policy → ContextAnswers → Bytes → Spec → Bytes → Result ExecutorError ContainerRequest
  admit_request p ctx id spec input = do
    reject_if ctx.is_nil nil_context
    reject_if ctx.cancelled_before context_cancelled
    digest ← execution_digest id
    validate lib p spec
    reject_if (ltb p.max_input_bytes (length input)) input_too_large
    ok (request_for digest spec)

  -- `Execute` behind the call.
  unfoldable pub accept_outcome :
      Limits → ContextAnswers → ClientOutcome → Result ExecutorError Execution
  accept_outcome limits ctx outcome =
      if ctx.cancelled_after
      then err context_cancelled
      else if ctx.passed_deadline
      then err deadline_exceeded
      else elim outcome [
        | failed_or_panicked ↦ err backend_failed
        | returned r ↦ if exceeds_limits limits r then err result_exceeds_limits else ok r
      ]

  -- `Execute`: the requests that the client was given, and the result.
  unfoldable pub execute :
      (ContainerRequest → Bytes → ClientOutcome)
      → Policy
      → ContextAnswers
      → Bytes
      → Spec
      → Bytes
      → List ContainerRequest × Result ExecutorError Execution
  execute client p ctx id spec input = elim (admit_request p ctx id spec input) [
    | err e ↦ ([], err e)
    | ok request ↦ (request ∷ [], accept_outcome spec.limits ctx (client request input))
  ]

  -- `NewPolicyExecutor`: the policy that the executor holds.
  unfoldable pub new_policy_executor : Policy → Bool → Result ExecutorError Policy
  new_policy_executor p client_is_nil = do
    validate_policy lib p
    reject_if client_is_nil nil_client
    ok p
