-- ===== src/Work.antt =====
-- pkg/softwarework: the worker that runs one frozen contract, and the journal of its executions.
pub mod Contract
pub mod Journal
pub mod Publish
pub mod Runner
pub mod Preset
pub mod Claims
pub mod AtMostOnce
pub mod Settled
pub mod Replay
