-- ===== src/Work/Preset.antt =====
-- pkg/softwarework/preset.go: the frozen limits, policy and contract.
use tos_ai.Executor.Policy.{workspace_source}
use tos_ai.Executor.Spec.{Limits, Policy}
use tos_ai.Prelude.{[], false, true, ◌∷◌}
use tos_ai.Prelude.Int.{pos}
use tos_ai.Prelude.Text.{Bytes, codes}
use tos_ai.Work.Contract.{Contract}

abbrev pub frozen_manifest_digest : Bytes
frozen_manifest_digest =
    codes "sha256:e4db0138ca2a4d5ad8f3c7ec458304927344e341ae610ee0a682b9cc5b00594e"

abbrev pub frozen_image_digest : Bytes
frozen_image_digest =
    codes "sha256:9624bca74096f810c5b24e489521dde124fadcfa1808581648b38bdc1ba1b105"

-- 180 seconds in nanoseconds
abbrev pub frozen_limits : Limits
frozen_limits = record {
  cpu_millis = 120000;
  memory_bytes = 1073741824;
  disk_bytes = 2147483648;
  pids = 64;
  execution_time = pos 180000000000;
  output_bytes = 16777216;
  gpu_device_count = 0;
}

abbrev pub frozen_policy : Policy
frozen_policy = record {
  allowed_images = frozen_image_digest ∷ [];
  allowed_network_hosts = [];
  max_allowed_images = 1;
  max_environment = 8;
  max_arguments = 8;
  max_allowed_hosts = 0;
  max_string_bytes = 4096;
  max_input_bytes = 16777216;
  ceiling = frozen_limits;
  permit_gpu = false;
  permit_network = false;
  require_read_only_root = true;
}

abbrev pub frozen_contract : Contract
frozen_contract = record {
  manifest_digest = frozen_manifest_digest;
  toolchain_digest = frozen_image_digest;
  sandbox_digest = frozen_manifest_digest;
  executable = codes "/usr/local/bin/go";
  arguments = codes "test" ∷ codes "./..." ∷ codes "-count=1" ∷ [];
  working_directory = workspace_source;
  limits = frozen_limits;
  user_id = 65532;
  group_id = 65532;
}
