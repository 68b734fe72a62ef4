-- ===== src/Update.antt =====
-- pkg/update and pkg/softwareupdate: signed release manifests, and the two-slot update manager.
pub mod Manifest
pub mod Slots
pub mod Disk
pub mod Store
pub mod Staging
pub mod Manager
pub mod Opening
pub mod Invariant
pub mod Keeping
pub mod Preservation
pub mod KnownGood
pub mod Outcomes
pub mod Restart
pub mod History
pub mod Staged
pub mod Installed
