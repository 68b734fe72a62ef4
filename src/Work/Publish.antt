-- ===== src/Work/Publish.antt =====
-- pkg/softwarework/runner.go: what `Execute` stores behind an execution, and `NewRunner`.
use tos_ai.Executor.Policy.{failed}
use tos_ai.Executor.Spec.{Execution, Spec}
use tos_ai.Prelude.{
  Bool, Option, Result, [], err, false, none, not, ok, reject_if, some, ℕ, ◌==◌, ◌∷◌,
}
use tos_ai.Prelude.Int.{negsuc, pos, ℤ}
use tos_ai.Prelude.Results.{◌>>=◌, ◌>>◌}
use tos_ai.Prelude.Text.{Bytes, codes}
use tos_ai.Work.Contract.{
  digest, Contract, Descriptor, Outcome, Request, Toolkit, WorkError, encode_artifact,
  invalid_runner, objective_failed, store_failed, validate_contract,
}

-- executor.Executor and artifactstore.Store, which may fail.
pub record Services : Type 0 where
  pub execute : Bytes → Spec → Bytes → Option Execution
  pub put : Bytes → Bytes → Option Descriptor

-- A result of a service, or the error.
abbrev pub or_error : {A : Type 0} → Option A → WorkError → Result WorkError A
or_error none e = err e
or_error (some a) e = ok a

abbrev pub artifact_media_type : Bytes
artifact_media_type = codes "application/vnd.tos.service.software-artifact.v1+tar"

abbrev pub report_media_type : Bytes
report_media_type = codes "application/vnd.tos.service.test-report.v1+json"

abbrev pub is_zero : ℤ → Bool
is_zero (pos n) = n == 0
is_zero (negsuc n) = false

module _ (kit : Toolkit) (services : Services) (contract : Contract) where
  -- `buildArtifact`
  unfoldable pub build_artifact : Bytes → Bytes → Result WorkError Bytes
  build_artifact output report =
      or_error (kit.write_tar ((codes "output.log", output) ∷ (codes "report.json", report) ∷ []))
        encode_artifact

  abbrev pub outcome_of : Request → Execution → ℕ → Descriptor → Descriptor → Outcome
  outcome_of r result completed report artifact = record {
    quote_commitment = r.quote_commitment;
    execution_id = r.execution_id;
    input_digest = r.input_digest;
    result_digest = digest kit result.output;
    artifact = artifact;
    report = report;
    source_digest = r.source_digest;
    toolchain_digest = contract.toolchain_digest;
    sandbox_digest = contract.sandbox_digest;
    exit_code = result.exit_code;
    completed_at = completed;
  }

  -- `Execute` between the execution and the completion of the claim.
  unfoldable pub publish : Request → ℕ → Execution → Result WorkError Outcome
  publish r now result = do
    reject_if (not (is_zero result.exit_code)) objective_failed
    let report_bytes =
        kit.encode_report r.execution_id (digest kit result.output) result.exit_code result.usage
          now
    report ← or_error (services.put report_media_type report_bytes) store_failed
    artifact_bytes ← build_artifact result.output report_bytes
    artifact ← or_error (services.put artifact_media_type artifact_bytes) store_failed
    ok (outcome_of r result now report artifact)

  -- `NewRunner`: the contract that the runner holds
  unfoldable pub new_runner : Bool → Result WorkError Contract
  new_runner nil_argument = do
    reject_if nil_argument invalid_runner
    reject_if (failed (validate_contract kit contract)) invalid_runner
    ok contract
