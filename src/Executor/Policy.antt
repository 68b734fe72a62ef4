-- ===== src/Executor/Policy.antt =====
-- pkg/executor/executor.go: `Policy.validate`, `Policy.Validate` and the limits.
use tos_ai.Executor.Hosts.{
  Library, contains_text, has_byte, invalid_container_string, validate_network_hosts,
}
use tos_ai.Executor.Spec.{
  ExecutorError, Limits, NetworkMode, Policy, Spec, bounds_exceeded, cpu_limit,
  directory_without_archive, disk_limit, gpu_count_without_gpu, gpu_limit, gpu_not_authorized,
  gpu_without_ceiling, host_not_authorized, hosts_without_allowlist, hosts_without_network,
  image_not_allowed, invalid_allowed_hosts, invalid_argument, invalid_environment,
  invalid_network_mode, invalid_policy, invalid_policy_hosts, memory_limit, network_allowlist,
  network_none, network_not_authorized, network_without_hosts, other_mode, output_limit, pids_limit,
  privileged_forbidden, privileges_gain, root_user, socket_exposed, time_limit, unbounded_directory,
  unpinned_image, unpinned_policy_image, writable_root, zero_ceiling,
}
use tos_ai.Prelude.{
  Bool, List, Result, any, err, false, if◌then◌else◌, leb, length, ltb, not, ok, reject_if, suc,
  true, zero, ℕ, ◌&&◌, ◌==◌, ◌||◌,
}
use tos_ai.Prelude.Int.{negsuc, pos, pos_part, ℤ}
use tos_ai.Prelude.Results.{◌>>◌}
use tos_ai.Prelude.Text.{Bytes, bytes_eq, codes, has_prefix, is_digest}

abbrev pub max_allowed_images_hard : ℕ
max_allowed_images_hard = 1024

abbrev pub max_allowed_network_hosts_hard : ℕ
max_allowed_network_hosts_hard = 1024

-- `duration > 0`
abbrev pub is_positive : ℤ → Bool
is_positive (pos zero) = false
is_positive (pos (suc n)) = true
is_positive (negsuc n) = false

unfoldable pub validate_policy_ceiling : Limits → Bool → Result ExecutorError (Unit {0})
validate_policy_ceiling c permit_gpu = do
  reject_if
      ((c.cpu_millis == 0)
        || (c.memory_bytes == 0)
        || (c.disk_bytes == 0)
        || (c.pids == 0)
        || not (is_positive c.execution_time)
        || (c.output_bytes == 0))
      zero_ceiling
  reject_if (permit_gpu && (c.gpu_device_count == 0)) gpu_without_ceiling

-- One row of the table of `withinCeiling`.
abbrev pub over_limit : ℕ → ℕ → Bool
over_limit requested maximum = (requested == 0) || (maximum == 0) || ltb maximum requested

unfoldable pub within_ceiling : Limits → Limits → Result ExecutorError (Unit {0})
within_ceiling r c = do
  reject_if (not (is_positive r.execution_time) || not (is_positive c.execution_time)) time_limit
  reject_if (over_limit r.cpu_millis c.cpu_millis) cpu_limit
  reject_if (over_limit r.memory_bytes c.memory_bytes) memory_limit
  reject_if (over_limit r.disk_bytes c.disk_bytes) disk_limit
  reject_if (over_limit r.output_bytes c.output_bytes) output_limit
  reject_if (over_limit (pos_part r.execution_time) (pos_part c.execution_time)) time_limit
  reject_if (over_limit r.pids c.pids) pids_limit

abbrev pub workspace_source : Bytes
workspace_source = codes "/workspace/source"

-- `err != nil`
abbrev pub failed {ℓ κ} : {E : Type ℓ} {A : Type κ} → Result E A → Bool
failed (ok a) = false
failed (err e) = true

-- The checks on the user, the group and the privileges.
unfoldable pub check_privileges : Bool → Spec → Result ExecutorError (Unit {0})
check_privileges require_read_only_root spec = do
  reject_if spec.privileged privileged_forbidden
  reject_if ((spec.user_id == 0) || (spec.group_id == 0)) root_user
  reject_if (not spec.no_new_privileges) privileges_gain
  reject_if spec.expose_runtime_socket socket_exposed
  reject_if (require_read_only_root && not spec.read_only_root) writable_root

-- The `switch` on the network mode.
unfoldable pub check_network : Policy → NetworkMode → List Bytes → Result ExecutorError (Unit {0})
check_network p network_none hosts = reject_if (not (length hosts == 0)) hosts_without_allowlist
check_network p network_allowlist hosts = do
  reject_if (not p.permit_network || (length hosts == 0)) network_not_authorized
  reject_if (any (λ host. not (contains_text p.allowed_network_hosts host)) hosts)
      host_not_authorized
check_network p (other_mode t) hosts = err invalid_network_mode

unfoldable pub check_gpu : Policy → Spec → Result ExecutorError (Unit {0})
check_gpu p spec = do
  reject_if (spec.allow_gpu && not p.permit_gpu) gpu_not_authorized
  if spec.allow_gpu
      then reject_if
          ((spec.limits.gpu_device_count == 0)
            || ltb p.ceiling.gpu_device_count spec.limits.gpu_device_count)
          gpu_limit
      else reject_if (not (spec.limits.gpu_device_count == 0)) gpu_count_without_gpu

module _ (lib : Library) where
  unfoldable pub validate_policy : Policy → Result ExecutorError (Unit {0})
  validate_policy p = do
    reject_if
        ((p.max_allowed_images == 0)
          || ltb max_allowed_images_hard p.max_allowed_images
          || ltb p.max_allowed_images (length p.allowed_images)
          || ltb max_allowed_network_hosts_hard (length p.allowed_network_hosts)
          || (p.max_arguments == 0)
          || ltb max_allowed_network_hosts_hard p.max_allowed_hosts
          || (p.max_string_bytes == 0)
          || (p.max_input_bytes == 0))
        invalid_policy
    validate_policy_ceiling p.ceiling p.permit_gpu
    if p.permit_network
        then reject_if ((p.max_allowed_hosts == 0) || (length p.allowed_network_hosts == 0))
            network_without_hosts
        else reject_if (not (length p.allowed_network_hosts == 0)) hosts_without_network
    reject_if (failed (validate_network_hosts lib p.allowed_network_hosts p.max_string_bytes))
        invalid_policy_hosts
    reject_if (any (λ image. not (is_digest image)) p.allowed_images) unpinned_policy_image

  unfoldable pub valid_workspace_directory : Bytes → Bool
  valid_workspace_directory value =
      (bytes_eq value workspace_source || has_prefix (codes "/workspace/source/") value)
      && bytes_eq (lib.path_clean value) value
      && leb (length value) 4096

  -- The checks on the command, the directory and the environment.
  unfoldable pub check_process : Policy → Spec → Result ExecutorError (Unit {0})
  check_process p spec = do
    reject_if
        ((length spec.entrypoint == 0)
          || ltb p.max_arguments (length spec.entrypoint)
          || ltb p.max_environment (length spec.environment)
          || ltb p.max_allowed_hosts (length spec.allowed_hosts)
          || not (length spec.host_mounts == 0))
        bounds_exceeded
    reject_if
        (any (λ argument. invalid_container_string argument p.max_string_bytes false)
          spec.entrypoint)
        invalid_argument
    if spec.workspace_archive
        then reject_if (not (valid_workspace_directory spec.working_directory)) unbounded_directory
        else reject_if
            (not (length spec.working_directory == 0)
              && not (bytes_eq spec.working_directory (codes "/")))
            directory_without_archive
    reject_if
        (any
          (λ entry.
            invalid_container_string entry.0 p.max_string_bytes false
            || has_byte b'=' entry.0
            || invalid_container_string entry.1 p.max_string_bytes true)
          spec.environment)
        invalid_environment

  unfoldable pub validate : Policy → Spec → Result ExecutorError (Unit {0})
  validate p spec = do
    validate_policy p
    reject_if (not (is_digest spec.image_digest)) unpinned_image
    reject_if (not (contains_text p.allowed_images spec.image_digest)) image_not_allowed
    check_process p spec
    reject_if (failed (validate_network_hosts lib spec.allowed_hosts p.max_string_bytes))
        invalid_allowed_hosts
    check_privileges p.require_read_only_root spec
    check_network p spec.network spec.allowed_hosts
    check_gpu p spec
    within_ceiling spec.limits p.ceiling
