-- ===== src/Executor.antt =====
-- pkg/executor: the isolation policy, the policy executor, and the supervisor above a backend driver.
pub mod Hosts
pub mod Spec
pub mod Policy
pub mod Execute
pub mod Confinement
pub mod Admission
pub mod Admitted
pub mod Supervisor
pub mod Capacity
