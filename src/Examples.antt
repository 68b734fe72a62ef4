-- ===== src/Examples.antt =====
-- Concrete runs to which the theorems apply.
mod Guarding
mod Updating
mod Executing
mod Working
mod Publishing
mod Gating
mod Launching
mod Sending
mod Preparing
mod Storing
mod Handing
mod Receiving
mod Locating
