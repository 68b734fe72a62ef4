-- ===== src/Executor/Admission.antt =====
-- What `Execute` admits, described apart from the checks of pkg/executor/executor.go.
use tos_ai.Executor.Confinement.{AreAmong, AreWithin, IsOneOf}
use tos_ai.Executor.Hosts.{
  Library, check_hosts, contains_text, has_byte, invalid_container_string, invalid_network_host,
}
use tos_ai.Executor.Policy.{
  check_gpu, check_network, check_privileges, check_process, failed, valid_workspace_directory,
  within_ceiling, workspace_source,
}
use tos_ai.Executor.Spec.{
  Limits, NetworkMode, Policy, Spec, network_allowlist, network_none, other_mode,
}
use tos_ai.Prelude.{
  List, [], any, arith, false, length, not, ok, refl, true, ℕ, ◌<◌, ◌∷◌, ◌↔◌, ◌≡◌, ◌≢◌, ◌≤◌, ◌⊎◌,
  ◌||◌,
}
use tos_ai.Prelude.Text.{Bytes, bytes_eq_iff, codes, has_prefix}

-- A byte that does not stand in a text.
abbrev pub IsWithout : ℕ → Bytes → Type 0
IsWithout c [] = Unit {0}
IsWithout c (x ∷ xs) = (x ≢ c) × IsWithout c xs

-- A text of at most `maximum` bytes with no zero byte.
abbrev pub IsText : ℕ → Bytes → Type 0
IsText maximum s = (length s ≤ maximum) × IsWithout 0 s

abbrev pub AreTexts : ℕ → List Bytes → Type 0
AreTexts maximum [] = Unit {0}
AreTexts maximum (s ∷ ss) = (0 < length s) × IsText maximum s × AreTexts maximum ss

-- Environment variables: names that are not empty and without `=`, and values.
abbrev pub AreVariables : ℕ → List (Bytes × Bytes) → Type 0
AreVariables maximum [] = Unit {0}
AreVariables maximum ((name, value) ∷ rest) =
    (0 < length name)
    × IsText maximum name
    × IsWithout b'=' name
    × IsText maximum value
    × AreVariables maximum rest

abbrev pub IsNoneOf : Bytes → List Bytes → Type 0
IsNoneOf x [] = Unit {0}
IsNoneOf x (y ∷ ys) = (y ≢ x) × IsNoneOf x ys

-- Well-formed hosts, none of them twice and none among those seen.
abbrev pub AreFreshHosts : Library → ℕ → List Bytes → List Bytes → Type 0
AreFreshHosts lib maximum seen [] = Unit {0}
AreFreshHosts lib maximum seen (host ∷ rest) =
    (invalid_network_host lib host maximum ≡ false)
    × IsNoneOf host seen
    × AreFreshHosts lib maximum (host ∷ seen) rest

has_byte_iff : (c : ℕ) (s : Bytes) → (has_byte c s ≡ false) ↔ IsWithout c s
has_byte_iff c [] = (λ h. tt, λ h. refl)
has_byte_iff c (x ∷ xs) =
    (λ h. ground (arith, has_byte_iff c xs), λ h. ground (arith, has_byte_iff c xs))

module _ (maximum : ℕ) where
  arguments_iff :
      (ss : List Bytes)
      → (any (λ s. invalid_container_string s maximum false) ss ≡ false) ↔ AreTexts maximum ss
  unfolding invalid_container_string
  arguments_iff [] = (λ h. tt, λ h. refl)
  arguments_iff (s ∷ ss) = (
    λ h. ground (arith, arguments_iff ss, has_byte_iff 0 s),
    λ h. ground (arith, arguments_iff ss, has_byte_iff 0 s),
  )

  variables_iff :
      (es : List (Bytes × Bytes))
      → (any
            (λ entry.
              invalid_container_string entry.0 maximum false
              || has_byte b'=' entry.0
              || invalid_container_string entry.1 maximum true)
            es
          ≡ false)
        ↔ AreVariables maximum es
  unfolding invalid_container_string
  variables_iff [] = (λ h. tt, λ h. refl)
  variables_iff ((n, v) ∷ es) = (
    λ h. ground (arith, variables_iff es, has_byte_iff 0 n, has_byte_iff b'=' n, has_byte_iff 0 v),
    λ h. ground (arith, variables_iff es, has_byte_iff 0 n, has_byte_iff b'=' n, has_byte_iff 0 v),
  )

contains_text_none : (x : Bytes) (ys : List Bytes) → (contains_text ys x ≡ false) ↔ IsNoneOf x ys
contains_text_none x [] = (λ h. tt, λ h. refl)
contains_text_none x (y ∷ ys) = (
  λ h. ground (arith, contains_text_none x ys, bytes_eq_iff y x),
  λ h. ground (arith, contains_text_none x ys, bytes_eq_iff y x),
)

pub contains_text_iff : (x : Bytes) (ys : List Bytes) → (contains_text ys x ≡ true) ↔ IsOneOf x ys
contains_text_iff x [] = (λ h. cc, λ h. absurd h)
contains_text_iff x (y ∷ ys) = (
  λ h. ground (arith, contains_text_iff x ys, bytes_eq_iff y x),
  λ h. ground (arith, contains_text_iff x ys, bytes_eq_iff y x),
)

among_iff : (ys xs : List Bytes) → (any (λ x. not (contains_text ys x)) xs ≡ false) ↔ AreAmong xs ys
among_iff ys [] = (λ h. tt, λ h. refl)
among_iff ys (x ∷ xs) = (
  λ h. ground (arith, among_iff ys xs, contains_text_iff x ys),
  λ h. ground (arith, among_iff ys xs, contains_text_iff x ys),
)

pub check_hosts_iff :
    (lib : Library) (maximum : ℕ) (seen hosts : List Bytes)
    → (failed (check_hosts lib seen hosts maximum) ≡ false) ↔ AreFreshHosts lib maximum seen hosts
unfolding check_hosts
check_hosts_iff lib maximum seen [] = (λ h. tt, λ h. refl)
check_hosts_iff lib maximum seen (host ∷ rest) = (
  λ h. ground (arith, check_hosts_iff lib maximum (host ∷ seen) rest, contains_text_none host seen),
  λ h. ground (arith, check_hosts_iff lib maximum (host ∷ seen) rest, contains_text_none host seen),
)

module _ (p : Policy) (spec : Spec) where
  pub record IsUnprivileged : Type 0 where
    pub privileged : spec.privileged ≡ false
    pub socket : spec.expose_runtime_socket ≡ false
    pub user : 0 < spec.user_id
    pub group : 0 < spec.group_id
    pub no_new : spec.no_new_privileges ≡ true
    pub root : p.require_read_only_root ≡ true → spec.read_only_root ≡ true

  abbrev pub IsNetworkPermitted : NetworkMode → List Bytes → Type 0
  IsNetworkPermitted network_none hosts = hosts ≡ []
  IsNetworkPermitted network_allowlist hosts =
      (p.permit_network ≡ true) × (hosts ≢ []) × AreAmong hosts p.allowed_network_hosts
  IsNetworkPermitted (other_mode t) hosts = ⊥

  abbrev pub IsGpuPermitted : Type 0
  IsGpuPermitted =
      ((spec.allow_gpu ≡ false) × (spec.limits.gpu_device_count ≡ 0))
      ⊎ ((spec.allow_gpu ≡ true)
          × (p.permit_gpu ≡ true)
          × (0 < spec.limits.gpu_device_count)
          × (spec.limits.gpu_device_count ≤ p.ceiling.gpu_device_count))

  pub check_privileges_iff :
      (check_privileges p.require_read_only_root spec ≡ ok tt) ↔ IsUnprivileged
  unfolding check_privileges
  check_privileges_iff = (
    λ h. record {
      privileged = ground arith;
      socket = ground arith;
      user = ground arith;
      group = ground arith;
      no_new = ground arith;
      root = λ required. ground arith;
    },
    λ u. ground (arith, u.privileged, u.socket, u.user, u.group, u.no_new, u.root),
  )

  pub check_network_iff :
      (mode : NetworkMode) (hosts : List Bytes)
      → (check_network p mode hosts ≡ ok tt) ↔ IsNetworkPermitted mode hosts
  unfolding check_network
  check_network_iff network_none hosts = (λ h. ground arith, λ h. ground arith)
  check_network_iff network_allowlist hosts = (
    λ h. ground (arith, among_iff p.allowed_network_hosts hosts),
    λ h. ground (arith, among_iff p.allowed_network_hosts hosts),
  )
  check_network_iff (other_mode t) hosts = (λ h. cc, λ h. absurd h)

  pub check_gpu_iff : (check_gpu p spec ≡ ok tt) ↔ IsGpuPermitted
  unfolding check_gpu
  check_gpu_iff = (λ h. ground arith, λ h. ground arith)

  pub within_ceiling_iff : (l c : Limits) → (within_ceiling l c ≡ ok tt) ↔ AreWithin l c
  unfolding within_ceiling
  within_ceiling_iff l c = (
    λ h. ground arith,
    λ w. ground (arith, w.cpu, w.memory, w.disk, w.output, w.processes, w.time),
  )

module _ (lib : Library) (p : Policy) (spec : Spec) where
  -- A clean absolute path of at most 4096 bytes, at or below `/workspace/source`.
  abbrev pub IsWorkspacePath : Bytes → Type 0
  IsWorkspacePath value =
      ((value ≡ workspace_source) ⊎ (has_prefix (codes "/workspace/source/") value ≡ true))
      × (lib.path_clean value ≡ value)
      × (length value ≤ 4096)

  pub record IsProcessBounded : Type 0 where
    pub command : (0 < length spec.entrypoint) × (length spec.entrypoint ≤ p.max_arguments)
    pub arguments : AreTexts p.max_string_bytes spec.entrypoint
    pub variables : length spec.environment ≤ p.max_environment
    pub environment : AreVariables p.max_string_bytes spec.environment
    pub hosts : length spec.allowed_hosts ≤ p.max_allowed_hosts
    pub mounts : spec.host_mounts ≡ []
    pub in_workspace : spec.workspace_archive ≡ true → IsWorkspacePath spec.working_directory
    pub at_root :
        spec.workspace_archive ≡ false
        → (spec.working_directory ≡ []) ⊎ (spec.working_directory ≡ codes "/")

  valid_workspace_directory_iff :
      (value : Bytes) → (valid_workspace_directory lib value ≡ true) ↔ IsWorkspacePath value
  unfolding valid_workspace_directory
  valid_workspace_directory_iff value = (
    λ h.
        ground
          (arith, bytes_eq_iff value workspace_source, bytes_eq_iff (lib.path_clean value) value),
    λ h.
        ground
          (arith, bytes_eq_iff value workspace_source, bytes_eq_iff (lib.path_clean value) value),
  )

  pub check_process_iff : (check_process lib p spec ≡ ok tt) ↔ IsProcessBounded
  unfolding check_process
  check_process_iff =
      let arguments = arguments_iff p.max_string_bytes spec.entrypoint in
      let variables = variables_iff p.max_string_bytes spec.environment in
      let directory = valid_workspace_directory_iff spec.working_directory in
      let root = bytes_eq_iff spec.working_directory (codes "/") in
      (
        λ h. record {
          command = ground arith;
          arguments = arguments.0 (ground arith);
          variables = ground arith;
          environment = variables.0 (ground arith);
          hosts = ground arith;
          mounts = ground arith;
          in_workspace = λ archive. directory.0 (ground arith);
          at_root = λ bare. ground (arith, root);
        },
        λ b.
            let texts = arguments.1 b.arguments in
            let entries = variables.1 b.environment in
            ground (
              arith, b.command, b.variables, b.hosts, b.mounts, texts, entries, b.in_workspace,
              b.at_root, directory, root,
            ),
      )
