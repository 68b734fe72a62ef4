-- ===== src/Work/Contract.antt =====
-- pkg/softwarework/runner.go: contracts, requests and outcomes, and the checks on them.
use tos_ai.Executor.Hosts.{has_byte}
use tos_ai.Executor.Policy.{is_positive, workspace_source}
use tos_ai.Executor.Spec.{Limits, Usage}
use tos_ai.Prelude.{
  Bool, List, Option, Result, [], all, any, drop, length, ltb, not, reject_if, ℕ, ◌&&◌, ◌++◌, ◌==◌,
  ◌||◌, ◌∷◌,
}
use tos_ai.Prelude.Int.{ℤ}
use tos_ai.Prelude.Results.{◌>>◌}
use tos_ai.Prelude.Text.{
  Bytes, bytes_eq, codes, has_prefix, hex_encode, is_digest, is_lower_hex, sha256_prefix,
}

-- What the package takes from elsewhere: SHA-256, `path.Clean` and `path.Base`, the JSON of the
-- request's identity and of the report, and archive/tar, which may fail.
pub record Toolkit : Type 0 where
  pub sha256 : Bytes → Bytes
  pub path_clean : Bytes → Bytes
  pub path_base : Bytes → Bytes
  pub encode_identity : Bytes → Bytes → Bytes → Bytes → Bytes → Bytes
  pub encode_report : Bytes → Bytes → ℤ → Usage → ℕ → Bytes
  pub write_tar : List (Bytes × Bytes) → Option Bytes

pub data WorkError : Type 0 where
  invalid_contract invalid_runner invalid_request request_mismatch : WorkError
  invalid_claim write_claim sync_claim close_claim sync_journal create_claim : WorkError
  invalid_record read_record identity_conflict : WorkError
  invalid_completion not_completable create_completion protect_completion : WorkError
  write_completion sync_completion close_completion commit_completion : WorkError
  invalid_root create_root root_not_private journal_owned : WorkError
  ambiguous_outcome execution_failed objective_failed store_failed encode_artifact : WorkError

pub record Contract : Type 0 where
  pub manifest_digest : Bytes
  pub toolchain_digest : Bytes
  pub sandbox_digest : Bytes
  pub executable : Bytes
  pub arguments : List Bytes
  pub working_directory : Bytes
  pub limits : Limits
  pub user_id : ℕ  -- uint32
  pub group_id : ℕ  -- uint32

pub record Request : Type 0 where
  pub quote_commitment : Bytes
  pub execution_id : Bytes
  pub input_digest : Bytes
  pub source_digest : Bytes
  pub source_archive : Bytes

-- artifactstore.Descriptor
pub record Descriptor : Type 0 where
  pub digest : Bytes
  pub media_type : Bytes
  pub size_bytes : ℕ

pub record Outcome : Type 0 where
  pub quote_commitment : Bytes
  pub execution_id : Bytes
  pub input_digest : Bytes
  pub result_digest : Bytes
  pub artifact : Descriptor
  pub report : Descriptor
  pub source_digest : Bytes
  pub toolchain_digest : Bytes
  pub sandbox_digest : Bytes
  pub exit_code : ℤ
  pub completed_at : ℕ

-- the regular expression `^tvm-cell-sha256:[0-9a-f]{64}$`
abbrev pub quote_prefix : Bytes
quote_prefix = codes "tvm-cell-sha256:"

unfoldable pub is_quote_commitment : Bytes → Bool
is_quote_commitment s =
    has_prefix quote_prefix s && (length s == 80) && all is_lower_hex (drop 16 s)

abbrev pub shells : List Bytes
shells =
    codes "sh"
    ∷ codes "bash"
    ∷ codes "dash"
    ∷ codes "zsh"
    ∷ codes "fish"
    ∷ codes "ksh"
    ∷ codes "cmd"
    ∷ codes "powershell"
    ∷ codes "pwsh"
    ∷ []

unfoldable pub invalid_contract_argument : Bytes → Bool
invalid_contract_argument argument =
    (length argument == 0) || ltb 512 (length argument) || has_byte 0 argument

module _ (kit : Toolkit) where
  -- `digest`
  unfoldable pub digest : Bytes → Bytes
  digest value = sha256_prefix ++ hex_encode (kit.sha256 value)

  unfoldable pub forbidden_executable : Bytes → Bool
  forbidden_executable value = any (λ shell. bytes_eq shell (kit.path_base value)) shells

  unfoldable pub validate_contract : Contract → Result WorkError (Unit {0})
  validate_contract c = do
    reject_if
        (not (is_digest c.manifest_digest)
          || not (is_digest c.toolchain_digest)
          || not (bytes_eq c.sandbox_digest c.manifest_digest)
          || (length c.executable == 0)
          || (length c.arguments == 0)
          || ltb 64 (length c.arguments)
          || not (has_prefix (codes "/") c.executable)
          || not (bytes_eq (kit.path_clean c.executable) c.executable)
          || forbidden_executable c.executable
          || not (bytes_eq c.working_directory workspace_source)
          || (c.user_id == 0)
          || (c.group_id == 0)
          || (c.limits.cpu_millis == 0)
          || (c.limits.memory_bytes == 0)
          || (c.limits.disk_bytes == 0)
          || (c.limits.pids == 0)
          || not (is_positive c.limits.execution_time)
          || (c.limits.output_bytes == 0)
          || not (c.limits.gpu_device_count == 0))
        invalid_contract
    reject_if (any invalid_contract_argument c.arguments) invalid_contract

  unfoldable pub validate_request : Contract → Request → Result WorkError (Unit {0})
  validate_request c r =
      reject_if
        (not (is_quote_commitment r.quote_commitment)
          || not (is_digest r.execution_id)
          || not (is_digest r.input_digest)
          || not (is_digest r.source_digest)
          || not (bytes_eq (digest r.source_archive) r.source_digest)
          || ltb c.limits.disk_bytes (length r.source_archive))
        request_mismatch

  unfoldable pub request_fingerprint : Contract → Request → Bytes
  request_fingerprint c r = digest (
      kit.encode_identity c.manifest_digest r.quote_commitment r.execution_id r.input_digest
        r.source_digest)
