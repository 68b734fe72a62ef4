-- ===== src/Commerce.antt =====
-- pkg/commercegate: the gate that lets an agreed execution start at most once on this host.
pub mod Plan
pub mod Preparing
pub mod Records
pub mod Admission
pub mod Starting
pub mod Running
pub mod Requests
pub mod Effects
pub mod Opening
pub mod Advance
pub mod Changes
pub mod History
pub mod Phases
pub mod OneStart
pub mod OneSubmission
pub mod Identity
pub mod Startable
pub mod Recovery
pub mod TornRecords
pub mod Lifecycle
pub mod Responses
