-- ===== src/Examples/Executing.antt =====
-- A run of the frozen contract under the frozen policy, and a supervisor with two calls.
use tos_ai.Executor.Admitted.{IsAdmissible, execute-calls, identity_digest}
use tos_ai.Executor.Capacity.{AreDistinct, supervisor-IsBounded}
use tos_ai.Executor.Confinement.{AllConfined, IsUsageWithin, execute-IsConfined, execute-bounds}
use tos_ai.Executor.Execute.{
  ClientOutcome, ContextAnswers, accept_outcome, admit_request, exceeds_limits, execute,
  execution_digest, new_policy_executor, request_for, returned,
}
use tos_ai.Executor.Hosts.{Library, check_hosts, invalid_container_string, validate_network_hosts}
use tos_ai.Executor.Policy.{
  check_gpu, check_network, check_privileges, check_process, valid_workspace_directory, validate,
  validate_policy, validate_policy_ceiling, within_ceiling,
}
use tos_ai.Executor.Spec.{ContainerRequest, Execution, Spec}
use tos_ai.Executor.Supervisor.{
  Backend, CallFaults, begin_close, begin_probe, begin_run, close_begins, new_supervised_backend,
  no_action, one_more, probes_begin, returned_from_close, runs_begin, serving,
}
use tos_ai.Prelude.{[], false, length, none, ok, refl, suc, zero, ℕ, ◌∷◌, ◌≡◌, ◌≢◌, ◌≤◌}
use tos_ai.Prelude.Exec.{◌>>=◌}
use tos_ai.Prelude.Int.{neg_part, pos, pos_part}
use tos_ai.Prelude.Text.{Bytes, bytes_eq, codes, has_prefix, is_digest}
use tos_ai.Work.Preset.{frozen_contract, frozen_policy}
use tos_ai.Work.Runner.{contract_spec}

abbrev zeros : ℕ → Bytes
zeros zero = []
zeros (suc n) = 0 ∷ zeros n

-- An identity: `sha256:` and 64 zeros.
abbrev some_digest : Bytes
some_digest = codes "sha256:0000000000000000000000000000000000000000000000000000000000000000"

abbrev library : Library
library = record {
  parse_ip = λ text. false;
  split_host_port = λ text. none;
  path_clean = λ text. text;
  sha256 = λ text. zeros 32;
}

abbrev calm : ContextAnswers
calm = record {
  is_nil = false;
  cancelled_before = false;
  cancelled_after = false;
  passed_deadline = false;
}

abbrev small_result : Execution
small_result = record {
  exit_code = pos 0;
  output = codes "ok";
  usage = record { cpu_millis = 10; peak_memory = 1000; disk_written = 1000; duration = pos 5000 };
}

abbrev client : ContainerRequest → Bytes → ClientOutcome
client request input = returned small_result

abbrev frozen_spec : Spec
frozen_spec = contract_spec frozen_contract

execute-IsConfined_example :
    let (requests, _) =
      execute library client frozen_policy calm some_digest frozen_spec (codes "tar") in
    (length requests ≤ 1) × AllConfined frozen_policy requests
execute-IsConfined_example =
    execute-IsConfined library client frozen_policy calm some_digest frozen_spec (codes "tar")

ends_well :
    (execute library client frozen_policy calm some_digest frozen_spec (codes "tar")).1
    ≡ ok small_result
unfolding execute accept_outcome exceeds_limits contract_spec admit_request execution_digest
    validate validate_policy validate_policy_ceiling validate_network_hosts check_hosts is_digest
    bytes_eq check_process invalid_container_string valid_workspace_directory check_privileges
    check_network check_gpu within_ceiling has_prefix
ends_well = refl

execute-bounds_example :
    (pos_part small_result.exit_code ≤ 255)
    × (neg_part small_result.exit_code ≡ 0)
    × (neg_part small_result.usage.duration ≡ 0)
    × IsUsageWithin small_result frozen_spec.limits
    × IsUsageWithin small_result frozen_policy.ceiling
execute-bounds_example =
    execute-bounds library client frozen_policy calm some_digest frozen_spec (codes "tar")
      small_result ends_well

makes_executor : new_policy_executor library frozen_policy false ≡ ok frozen_policy
unfolding new_policy_executor validate_policy validate_policy_ceiling validate_network_hosts
    check_hosts is_digest has_prefix
makes_executor = refl

execute-calls_example :
    let (requests, _) =
      execute library client frozen_policy calm some_digest frozen_spec (codes "tar") in
    (IsAdmissible library frozen_policy calm some_digest frozen_spec (codes "tar")
      → requests ≡ request_for library (identity_digest library some_digest) frozen_spec ∷ [])
    × (requests ≢ []
        → IsAdmissible library frozen_policy calm some_digest frozen_spec (codes "tar"))
execute-calls_example =
    execute-calls library client frozen_policy frozen_policy false calm some_digest frozen_spec
      (codes "tar") makes_executor

-- The description holds of the frozen contract under the frozen policy.
admissible : IsAdmissible library frozen_policy calm some_digest frozen_spec (codes "tar")
unfolding execute contract_spec admit_request execution_digest validate validate_policy
    validate_policy_ceiling validate_network_hosts check_hosts is_digest bytes_eq check_process
    invalid_container_string valid_workspace_directory check_privileges check_network check_gpu
    within_ceiling has_prefix
admissible =
    (execute-calls library client frozen_policy frozen_policy false calm some_digest frozen_spec
        (codes "tar") makes_executor).1
      (λ h. cc)

abbrev no_call_faults : CallFaults
no_call_faults = record { nil_backend = false; nil_context = false; cancelled = false }

abbrev fresh_backend : Backend
fresh_backend = record {
  max_active = 2;
  slots_used = 0;
  active = [];
  releasing = 0;
  finishing = 0;
  runs = 0;
  probes = 0;
  is_closed = false;
  closing = serving;
}

made : new_supervised_backend false 2 ≡ ok fresh_backend
unfolding new_supervised_backend
made = refl

abbrev busy_backend : Backend
busy_backend = (begin_run no_call_faults some_digest fresh_backend).1

abbrev closing_backend : Backend
closing_backend = begin_close (begin_probe no_call_faults busy_backend).1

supervisor-IsBounded_example :
    AreDistinct closing_backend.active
    × (length closing_backend.active ≤ 2)
    × (2 ≤ 256)
    × (closing_backend.closing ≡ returned_from_close
        → (closing_backend.active ≡ []) × (closing_backend.probes ≡ 0))
unfolding begin_run begin_probe ◌>>=◌ is_digest
supervisor-IsBounded_example = supervisor-IsBounded false 2 fresh_backend closing_backend made (
    one_more
      (one_more (one_more no_action (runs_begin no_call_faults some_digest fresh_backend))
        (probes_begin no_call_faults busy_backend))
      (close_begins (begin_probe no_call_faults busy_backend).1 refl))
