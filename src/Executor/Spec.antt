-- ===== src/Executor/Spec.antt =====
-- pkg/executor/executor.go: the data of an execution: limits, specifications, requests, results.
use tos_ai.Prelude.{Bool, List, ℕ}
use tos_ai.Prelude.Int.{ℤ}
use tos_ai.Prelude.Text.{Bytes}

pub data NetworkMode : Type 0 where
  network_none network_allowlist : NetworkMode
  other_mode : Bytes → NetworkMode

-- A duration is an int64 of nanoseconds.
pub record Limits : Type 0 where
  pub cpu_millis : ℕ  -- uint64
  pub memory_bytes : ℕ  -- uint64
  pub disk_bytes : ℕ  -- uint64
  pub pids : ℕ  -- uint32
  pub execution_time : ℤ
  pub output_bytes : ℕ  -- uint64
  pub gpu_device_count : ℕ  -- uint32

pub record Spec : Type 0 where
  pub image_digest : Bytes
  pub entrypoint : List Bytes
  pub working_directory : Bytes
  pub environment : List (Bytes × Bytes)
  pub workspace_archive : Bool
  pub read_only_root : Bool
  pub network : NetworkMode
  pub allowed_hosts : List Bytes
  pub allow_gpu : Bool
  pub user_id : ℕ  -- uint32
  pub group_id : ℕ  -- uint32
  pub privileged : Bool
  pub no_new_privileges : Bool
  pub host_mounts : List (Bytes × Bytes)
  pub expose_runtime_socket : Bool
  pub limits : Limits

pub record Usage : Type 0 where
  pub cpu_millis : ℕ  -- uint64
  pub peak_memory : ℕ  -- uint64
  pub disk_written : ℕ  -- uint64
  pub duration : ℤ

pub record Execution : Type 0 where
  pub exit_code : ℤ
  pub output : Bytes
  pub usage : Usage

pub record ContainerRequest : Type 0 where
  pub execution_digest : Bytes
  pub image_digest : Bytes
  pub entrypoint : List Bytes
  pub working_directory : Bytes
  pub environment : List (Bytes × Bytes)
  pub workspace_archive : Bool
  pub user_id : ℕ
  pub group_id : ℕ
  pub read_only_root : Bool
  pub no_new_privileges : Bool
  pub network : NetworkMode
  pub allowed_hosts : List Bytes
  pub allow_gpu : Bool
  pub limits : Limits

-- A Go map is the list of its entries. The bounds of Go type int are natural numbers: a policy with a
-- negative one, which `validate` refuses, has no counterpart here.
pub record Policy : Type 0 where
  pub allowed_images : List Bytes
  pub allowed_network_hosts : List Bytes
  pub max_allowed_images : ℕ
  pub max_environment : ℕ
  pub max_arguments : ℕ
  pub max_allowed_hosts : ℕ
  pub max_string_bytes : ℕ
  pub max_input_bytes : ℕ  -- uint64
  pub ceiling : Limits
  pub permit_gpu : Bool
  pub permit_network : Bool
  pub require_read_only_root : Bool

pub data ExecutorError : Type 0 where
  invalid_policy zero_ceiling gpu_without_ceiling network_without_hosts : ExecutorError
  hosts_without_network invalid_policy_hosts unpinned_policy_image : ExecutorError
  unpinned_image image_not_allowed bounds_exceeded invalid_argument : ExecutorError
  unbounded_directory directory_without_archive invalid_environment : ExecutorError
  invalid_allowed_hosts privileged_forbidden root_user privileges_gain : ExecutorError
  socket_exposed writable_root hosts_without_allowlist network_not_authorized : ExecutorError
  host_not_authorized invalid_network_mode gpu_not_authorized gpu_limit : ExecutorError
  gpu_count_without_gpu time_limit cpu_limit memory_limit disk_limit : ExecutorError
  output_limit pids_limit nil_client invalid_executor nil_context : ExecutorError
  context_cancelled invalid_identity input_too_large backend_failed : ExecutorError
  result_exceeds_limits deadline_exceeded : ExecutorError
