-- ===== src/Work/Runner.antt =====
-- pkg/softwarework/runner.go: `Execute`. The executor and the artifact store are parameters; the
-- executions that the executor is given are recorded.
use tos_ai.Executor.Spec.{Spec, network_none}
use tos_ai.Prelude.{Bool, List, [], false, true, ℕ, ◌∷◌}
use tos_ai.Prelude.Exec.{Exec, lift, modify, pure, raise, raise_if, ◌>>=◌, ◌>>◌}
use tos_ai.Prelude.Text.{Bytes, codes}
use tos_ai.Work.Contract.{
  Contract, Outcome, Request, Toolkit, WorkError, ambiguous_outcome, execution_failed,
  invalid_request, request_fingerprint, validate_request,
}
use tos_ai.Work.Journal.{
  ClaimFaults, Codec, CompleteFaults, Journal, JournalMethod, JournalRecord, claim, complete,
  complete_claim,
}
use tos_ai.Work.Publish.{Services, or_error, publish}

pub record RunFaults : Type 0 where
  pub nil_argument : Bool
  pub claim : ClaimFaults
  pub complete : CompleteFaults

-- The journal, and the identities that were executed, the last one first.
pub record Worker : Type 0 where
  pub journal : Journal
  pub executed : List Bytes

abbrev pub RunMethod : Type 0 → Type 0
RunMethod A = Exec Worker WorkError A

unfoldable pub in_journal : {A : Type 0} → JournalMethod A → RunMethod A
in_journal m w = let (result, j) = m w.journal in (result, record w { journal = j })

abbrev pub work_environment : List (Bytes × Bytes)
work_environment =
    (codes "GOROOT", codes "/usr/local/go")
    ∷ (codes "HOME", codes "/workspace")
    ∷ (codes "GOCACHE", codes "/workspace/go-cache")
    ∷ (codes "GOTMPDIR", codes "/workspace")
    ∷ (codes "TMPDIR", codes "/workspace")
    ∷ (codes "CGO_ENABLED", codes "0")
    ∷ (codes "GOMAXPROCS", codes "2")
    ∷ []

-- The specification that `Execute` builds from the contract.
unfoldable pub contract_spec : Contract → Spec
contract_spec c = record {
  image_digest = c.toolchain_digest;
  entrypoint = c.executable ∷ c.arguments;
  working_directory = c.working_directory;
  environment = work_environment;
  workspace_archive = true;
  read_only_root = true;
  network = network_none;
  allowed_hosts = [];
  allow_gpu = false;
  user_id = c.user_id;
  group_id = c.group_id;
  privileged = false;
  no_new_privileges = true;
  host_mounts = [];
  expose_runtime_socket = false;
  limits = c.limits;
}

abbrev pub log_execution : Bytes → Worker → Worker
log_execution id w = record w { executed = id ∷ w.executed }

-- The executor is given an execution whose claim was granted.
unfoldable pub hand_over : Bytes → Bool × JournalRecord → RunMethod (Unit {0})
hand_over id (true, claimed) = modify (log_execution id)
hand_over id (false, existing) = pure tt

module _ (kit : Toolkit) (codec : Codec) (contract : Contract) where
  -- `Execute` up to the executor's start. The journal's mutex is free while the executor runs, so other calls
  -- come between this part and the completion.
  unfoldable pub begin_request : Bool → ClaimFaults → Request → RunMethod (Unit {0})
  begin_request nil_argument io r = do
    raise_if nil_argument invalid_request
    lift (validate_request kit contract r)
    answer ← in_journal (claim codec io r.execution_id (request_fingerprint kit contract r))
    hand_over r.execution_id answer

module _ (kit : Toolkit) (codec : Codec) (services : Services) (contract : Contract) where
  -- `Execute` behind a claim that was granted.
  unfoldable pub run_claim : RunFaults → Request → ℕ → RunMethod Outcome
  run_claim io r now = do
    modify (log_execution r.execution_id)
    let spec = contract_spec contract
    result ←
        lift (or_error (services.execute r.execution_id spec r.source_archive) execution_failed)
    outcome ← lift (publish kit services contract r now result)
    in_journal (
        complete_claim codec io.complete r.execution_id (request_fingerprint kit contract r)
          outcome)
    pure outcome

  -- `Execute` behind a claim that was not granted: the outcome on record.
  unfoldable pub recall : JournalRecord → RunMethod Outcome
  recall existing = elim existing.state [
    | complete ↦ pure existing.outcome
    | _ ↦ raise ambiguous_outcome
  ]

  unfoldable pub settle_claim : RunFaults → Request → ℕ → Bool × JournalRecord → RunMethod Outcome
  settle_claim io r now (true, claimed) = run_claim io r now
  settle_claim io r now (false, existing) = recall existing

  -- `Execute`
  unfoldable pub execute_request : RunFaults → Request → ℕ → RunMethod Outcome
  execute_request io r now = do
    raise_if io.nil_argument invalid_request
    lift (validate_request kit contract r)
    answer ← in_journal (claim codec io.claim r.execution_id (request_fingerprint kit contract r))
    settle_claim io r now answer
